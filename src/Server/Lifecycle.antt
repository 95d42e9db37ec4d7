-- ===== src/Server/Lifecycle.antt =====
-- StreamingServer.cpp: `Start` and `Stop`, with the sockets that the process has open.
use stock_trading_bot_server.Prelude.{
  ℕ, ◌≡◌, refl, Bool, true, false, List, [], ◌∷◌, Option, none, some, arith, ◌==◌, if◌then◌else◌,
}

-- The fields of the class that the two methods use. `listen_socket` is `none` for -1.
pub record Server : Type 0 where
  pub running : Bool
  pub listen_port : ℕ
  pub listen_socket : Option ℕ
  pub accept_joinable : Bool
  pub polling_joinable : Bool
  pub trade_polling_joinable : Bool
  -- The descriptors that `socket` gave and that are not closed.
  pub open_sockets : List ℕ

-- What the system calls of one `Start` answer.
pub record Answers : Type 0 where
  pub socket : Option ℕ
  pub bind_ok : Bool
  pub listen_ok : Bool

-- `StreamingServer::StreamingServer`
unfoldable pub fresh : Server
fresh = record {
  running = false;
  listen_port = 0;
  listen_socket = none;
  accept_joinable = false;
  polling_joinable = false;
  trade_polling_joinable = false;
  open_sockets = [];
}

unfoldable pub remove : ℕ → List ℕ → List ℕ
remove fd [] = []
remove fd (x ∷ xs) = let rest = remove fd xs in if x == fd then xs else x ∷ rest

-- `close(listenSocket); listenSocket = -1;`
unfoldable pub close_listen : ℕ → Server → Server
close_listen fd s = record s { listen_socket = none; open_sockets = remove fd s.open_sockets }

unfoldable pub start_threads : Server → Server
start_threads s = record s {
  running = true;
  accept_joinable = true;
  polling_joinable = true;
  trade_polling_joinable = true;
}

unfoldable pub start_with : Answers → ℕ → Server → Bool × Server
start_with a fd s =
    if a.bind_ok
    then (if a.listen_ok then (true, start_threads s) else (false, close_listen fd s))
    else (false, close_listen fd s)

unfoldable pub start_socket : Answers → Option ℕ → Server → Bool × Server
start_socket a none s = (false, record s { listen_socket = none })
start_socket a (some fd) s =
    start_with a fd (record s { listen_socket = some fd; open_sockets = fd ∷ s.open_sockets })

unfoldable pub start : Answers → ℕ → Server → Bool × Server
start a port s =
    if s.running then (false, s) else start_socket a a.socket (record s { listen_port = port })

unfoldable pub close_if_open : Option ℕ → Server → Server
close_if_open none s = s
close_if_open (some fd) s = close_listen fd s

-- A thread that is joined is joinable no more.
unfoldable pub stop : Server → Server
stop s =
    if s.running
    then record (close_if_open s.listen_socket s) {
      running = false;
      accept_joinable = false;
      polling_joinable = false;
      trade_polling_joinable = false;
    }
    else s

-- The calls that a client of the class makes, each `Start` with the answers of its system calls.
pub data Call : Type 0 where
  start_call : Answers → ℕ → Call
  stop_call : Call

unfoldable pub run : Server → List Call → Server
run s [] = s
run s (start_call a port ∷ calls) = run (start a port s).1 calls
run s (stop_call ∷ calls) = run (stop s) calls

-- The abstract server: down, with the port of the last attempt, or up, with its port and socket.
pub data Phase : Type 0 where
  down : ℕ → Phase
  up : ℕ → ℕ → Phase

-- The concrete server of a phase: up, it has its listening socket open, no other, and three threads
-- to join; down, it has none of these.
abbrev pub embed : Phase → Server
embed (down port) = record {
  running = false;
  listen_port = port;
  listen_socket = none;
  accept_joinable = false;
  polling_joinable = false;
  trade_polling_joinable = false;
  open_sockets = [];
}
embed (up port fd) = record {
  running = true;
  listen_port = port;
  listen_socket = some fd;
  accept_joinable = true;
  polling_joinable = true;
  trade_polling_joinable = true;
  open_sockets = fd ∷ [];
}

-- A start succeeds from down if all three system calls do, and fails from up.
abbrev pub start_answered : Answers → ℕ → Option ℕ → Bool × Phase
start_answered a port none = (false, down port)
start_answered a port (some fd) =
    if a.bind_ok
    then (if a.listen_ok then (true, up port fd) else (false, down port))
    else (false, down port)

abbrev pub start_phase : Answers → ℕ → Phase → Bool × Phase
start_phase a port (down old) = start_answered a port a.socket
start_phase a port (up old fd) = (false, up old fd)

abbrev pub stop_phase : Phase → Phase
stop_phase (down port) = down port
stop_phase (up port fd) = down port

abbrev pub run_phase : Phase → List Call → Phase
run_phase s [] = s
run_phase s (start_call a port ∷ calls) = run_phase (start_phase a port s).1 calls
run_phase s (stop_call ∷ calls) = run_phase (stop_phase s) calls

start_socket-embed :
    (a : Answers) (port : ℕ) (fd : Option ℕ)
    → start_socket a fd (embed (down port))
      ≡ ((start_answered a port fd).0, embed (start_answered a port fd).1)
unfolding start_socket start_with close_listen remove start_threads
start_socket-embed a port none = refl
start_socket-embed a port (some fd) = ground arith

-- `Start` does what the abstract start does, with the same answer, in every phase.
pub start-embed :
    (a : Answers) (port : ℕ) (s : Phase)
    → start a port (embed s) ≡ ((start_phase a port s).0, embed (start_phase a port s).1)
unfolding start
start-embed a port (down old) = start_socket-embed a port a.socket
start-embed a port (up old fd) = refl

stop-embed : (s : Phase) → stop (embed s) ≡ embed (stop_phase s)
unfolding stop close_if_open close_listen remove
stop-embed (down port) = refl
stop-embed (up port fd) = ground arith

run-embed_from : (s : Phase) (calls : List Call) → run (embed s) calls ≡ embed (run_phase s calls)
unfolding run
run-embed_from s [] = refl
run-embed_from s (start_call a port ∷ calls) =
    rw (start-embed a port s) (run-embed_from (start_phase a port s).1 calls)
run-embed_from s (stop_call ∷ calls) = rw (stop-embed s) (run-embed_from (stop_phase s) calls)

-- Whatever calls of `Start` and `Stop` are made on a new server, in whatever order and with whatever
-- answers of the system calls, it is the concrete server of its abstract phase: it runs with one
-- open socket and three threads to join, or it does not run and has no socket open and no thread.
pub run-embed : (calls : List Call) → run fresh calls ≡ embed (run_phase (down 0) calls)
unfolding fresh
run-embed calls = run-embed_from (down 0) calls
