-- ===== src/Server/Threads.antt =====
-- StreamingServer.cpp: the threads of a server that `Start` has started, until the thread that called
-- `Stop` has joined the accept thread. One step is one access to `running`, to the listening socket
-- or to the socket of a client; the steps of the threads come in any order.
pub mod Sockets
pub mod Stopping
use stock_trading_bot_server.Prelude.{
  ℕ, zero, suc, ◌+◌, ◌≡◌, Bool, true, false, List, [], ◌∷◌, ◌++◌, ◌==◌, if◌then◌else◌, map,
}
use stock_trading_bot_server.Server.Lifecycle.{remove}

-- Where `AcceptLoop` stands.
pub data Acceptor : Type 0 where
  check : Acceptor  -- `while (running)`
  calling : Acceptor  -- behind the test of `running`, before the call of `accept`
  accepting : Bool → Acceptor  -- in `accept`, begun while the listening socket was open, or not
  recheck : Acceptor  -- `if (!running) break;`
  pausing : Acceptor  -- `sleep_for(100ms)`
  handing : ℕ → Acceptor  -- with a client that has no thread yet
  finished : Acceptor

-- Where `ClientLoop` stands.
pub data ClientAt : Type 0 where
  top : ClientAt  -- `while (running)`
  sending : ClientAt  -- in the sends of a round, or in its pause
  closing : ClientAt  -- before `close(clientSocket)`

-- Where the caller of `Stop` stands.
pub data Stopper : Type 0 where
  outside : Stopper
  flagged : Stopper  -- behind `running = false`
  shut : Stopper  -- behind the `close` of the listening socket
  joined : Stopper  -- behind `acceptThread.join()`

pub record Threads : Type 0 where
  pub running : Bool
  pub listening : Bool
  pub acceptor : Acceptor
  pub stopper : Stopper
  -- The detached threads of the clients, each with its `clientSocket`.
  pub clients : List (ℕ × ClientAt)
  -- The client descriptors that `accept` gave and that are not closed, and how many it gave and
  -- how many are closed.
  pub open_clients : List ℕ
  pub accepted : ℕ
  pub closed : ℕ

-- How often a descriptor stands in a list.
unfoldable pub count : ℕ → List ℕ → ℕ
count fd [] = 0
count fd (x ∷ xs) = let rest = count fd xs in if x == fd then suc rest else rest

-- One step of a client's thread that keeps its socket.
pub data ClientMove : Bool → ClientAt → ClientAt → Type 0 where
  round_begins : ClientMove true top sending
  flag_seen : ClientMove false top closing
  round_sent : {r : Bool} → ClientMove r sending top
  send_failed : {r : Bool} → ClientMove r sending closing

-- One step that `AcceptLoop` makes by itself, and that leaves the clients as they are. A call of
-- `accept` on a socket that is closed fails at once.
pub data AcceptMove (s : Threads) : Acceptor → Acceptor → Type 0 where
  round_begins : s.running ≡ true → AcceptMove s check calling
  accept_begins : AcceptMove s calling (accepting s.listening)
  flag_seen : s.running ≡ false → AcceptMove s check finished
  accept_refused : AcceptMove s (accepting false) recheck
  failed_stopped : s.running ≡ false → AcceptMove s recheck finished
  failed_running : s.running ≡ true → AcceptMove s recheck pausing
  pause_over : AcceptMove s pausing check

-- One step of one thread. A call of `accept` that found the listening socket open stays blocked, also
-- when the socket is closed meanwhile, until the network answers it: with the descriptor of a client,
-- which is not open, or with an error.
pub data Step (s : Threads) : Threads → Type 0 where
  acceptor_moves : {a : Acceptor} → AcceptMove s s.acceptor a → Step s (record s { acceptor = a })
  client_accepted :
      (fd : ℕ)
      → s.acceptor ≡ accepting true
      → count fd s.open_clients ≡ 0
      → Step s (record s {
        acceptor = handing fd;
        open_clients = fd ∷ s.open_clients;
        accepted = suc s.accepted;
      })
  accept_failed : s.acceptor ≡ accepting true → Step s (record s { acceptor = recheck })
  client_detached :
      (fd : ℕ)
      → s.acceptor ≡ handing fd
      → Step s (record s { acceptor = check; clients = (fd, top) ∷ s.clients })
  client_moves :
      (before after : List (ℕ × ClientAt)) (fd : ℕ) {a b : ClientAt}
      → s.clients ≡ before ++ ((fd, a) ∷ after)
      → ClientMove s.running a b
      → Step s (record s { clients = before ++ ((fd, b) ∷ after) })
  client_closes :
      (before after : List (ℕ × ClientAt)) (fd : ℕ)
      → s.clients ≡ before ++ ((fd, closing) ∷ after)
      → Step s (record s {
        clients = before ++ after;
        open_clients = remove fd s.open_clients;
        closed = suc s.closed;
      })
  stop_flags :
      s.stopper ≡ outside
      → s.running ≡ true
      → Step s (record s { running = false; stopper = flagged })
  stop_shuts : s.stopper ≡ flagged → Step s (record s { listening = false; stopper = shut })
  stop_joins : s.stopper ≡ shut → s.acceptor ≡ finished → Step s (record s { stopper = joined })

-- Behind `Start`.
abbrev pub started : Threads
started = record {
  running = true;
  listening = true;
  acceptor = check;
  stopper = outside;
  clients = [];
  open_clients = [];
  accepted = 0;
  closed = 0;
}

-- The runs from a state.
pub data Run (s : Threads) : Threads → Type 0 where
  none_yet : Run s s
  later : {t u : Threads} → Run s t → Step t u → Run s u
