-- ===== src/Server/Threads/Sockets.antt =====
-- StreamingServer.cpp: who holds the open sockets of the clients.
use stock_trading_bot_server.Prelude.{
  ℕ, suc, ◌+◌, ◌-◌, ◌≤◌, ◌≡◌, ◌≢◌, refl, ◌∙◌, ap, Bool, true, false, List, [], ◌∷◌, ◌++◌, ◌==◌,
  arith, length,
}
use stock_trading_bot_server.Server.Lifecycle.{remove}
use stock_trading_bot_server.Server.Threads.{
  Acceptor, check, accepting, handing, finished, ClientAt, top, closing, joined, Threads, count,
  Step, AcceptMove, round_begins, flag_seen, accept_failed, accept_begins, accept_refused, recheck,
  failed_stopped, failed_running, pause_over, acceptor_moves, client_accepted, client_detached,
  client_moves, client_closes, stop_flags, stop_shuts, stop_joins, started, Run, none_yet, later,
}

-- The client that `AcceptLoop` holds.
abbrev pub handed : Acceptor → List ℕ
handed (handing fd) = fd ∷ []
handed _ = []

abbrev pub descriptors : List (ℕ × ClientAt) → List ℕ
descriptors [] = []
descriptors ((fd, a) ∷ cs) = fd ∷ descriptors cs

abbrev one_if : Bool → ℕ
one_if true = 1
one_if false = 0

-- Every open client socket is held by one thread, that of `AcceptLoop` or that of its `ClientLoop`, and
-- by no other; every socket is open or was closed once; and `AcceptLoop` has ended when `Stop` has
-- joined its thread.
pub record IsHeld (s : Threads) : Type 0 where
  pub same :
      (fd : ℕ)
      → count fd s.open_clients ≡ count fd (handed s.acceptor) + count fd (descriptors s.clients)
  pub once : (fd : ℕ) → count fd s.open_clients ≤ 1
  pub total : s.accepted ≡ s.closed + length s.open_clients
  pub ended : s.stopper ≡ joined → s.acceptor ≡ finished

count-middle :
    (x : ℕ) (before after : List (ℕ × ClientAt)) (fd : ℕ) (a : ClientAt)
    → count x (descriptors (before ++ ((fd, a) ∷ after)))
      ≡ count x (descriptors (before ++ after)) + one_if (fd == x)
unfolding count
count-middle x [] after fd a = ground arith
count-middle x ((g, b) ∷ before) after fd a = ground (arith, count-middle x before after fd a)

count-remove : (x fd : ℕ) (xs : List ℕ) → count x (remove fd xs) ≡ count x xs - one_if (fd == x)
unfolding count remove
count-remove x fd [] = ground arith
count-remove x fd (y ∷ xs) = ground (arith, count-remove x fd xs)

length-remove : (fd : ℕ) (xs : List ℕ) → 1 ≤ count fd xs → length xs ≡ suc (length (remove fd xs))
unfolding count remove
length-remove fd [] h = absurd (omega arith)
length-remove fd (y ∷ xs) h = ground (arith, length-remove fd xs)

is_finished : Acceptor → Bool
is_finished finished = true
is_finished _ = false

AcceptMove-handed :
    {s : Threads} {a b : Acceptor} (x : ℕ)
    → AcceptMove s a b
    → (count x (handed a) ≡ 0) × (count x (handed b) ≡ 0) × (a ≢ finished)
unfolding count
AcceptMove-handed x (round_begins e) = (refl, refl, ground arith)
AcceptMove-handed x (flag_seen e) = (refl, refl, ground arith)
AcceptMove-handed x accept_begins = (refl, refl, ground arith)
AcceptMove-handed x accept_refused = (refl, refl, ground arith)
AcceptMove-handed x (failed_stopped e) = (refl, refl, ground arith)
AcceptMove-handed x (failed_running e) = (refl, refl, ground arith)
AcceptMove-handed x pause_over = (refl, refl, ground arith)

started-IsHeld : IsHeld started
unfolding count
started-IsHeld = record {
  same = λ fd. refl;
  once = λ fd. omega arith;
  total = refl;
  ended = λ e. ground arith;
}

handed-handing : (x fd : ℕ) (a : Acceptor) → a ≡ handing fd → count x (handed a) ≡ one_if (fd == x)
unfolding count
handed-handing x fd a e = rw e (ground arith)

handed-accepting : (x : ℕ) (a : Acceptor) → a ≡ accepting true → count x (handed a) ≡ 0
unfolding count
handed-accepting x a e = rw e

module _ {s : Threads} (held : IsHeld s) where
  open held use {same, once, total, ended}

  acceptor-IsHeld : {a : Acceptor} → AcceptMove s s.acceptor a → IsHeld (record s { acceptor = a })
  acceptor-IsHeld move = record {
    same = λ x. ground (arith, same x, AcceptMove-handed x move);
    once = once;
    total = total;
    ended = λ e. absurd ((AcceptMove-handed 0 move).2 (ended e));
  }

  accepted-IsHeld :
      (fd : ℕ)
      → s.acceptor ≡ accepting true
      → count fd s.open_clients ≡ 0
      → IsHeld (record s {
        acceptor = handing fd;
        open_clients = fd ∷ s.open_clients;
        accepted = suc s.accepted;
      })
  unfolding count
  accepted-IsHeld fd e unused = record {
    same = λ x. ground (arith, same x, handed-accepting x s.acceptor e);
    once = λ x. ground (arith, once x);
    total = omega (arith, total);
    ended = λ j. ground (arith, ended j);
  }

  failed-IsHeld : s.acceptor ≡ accepting true → IsHeld (record s { acceptor = recheck })
  unfolding count
  failed-IsHeld e = record {
    same = λ x. ground (arith, same x, handed-accepting x s.acceptor e);
    once = once;
    total = total;
    ended = λ j. ground (arith, ended j);
  }

  detached-IsHeld :
      (fd : ℕ)
      → s.acceptor ≡ handing fd
      → IsHeld (record s { acceptor = check; clients = (fd, top) ∷ s.clients })
  unfolding count
  detached-IsHeld fd e = record {
    same = λ x. ground (arith, same x, handed-handing x fd s.acceptor e);
    once = once;
    total = total;
    ended = λ j. ground (arith, ended j);
  }

  moved-IsHeld :
      (before after : List (ℕ × ClientAt)) (fd : ℕ) (a b : ClientAt)
      → s.clients ≡ before ++ ((fd, a) ∷ after)
      → IsHeld (record s { clients = before ++ ((fd, b) ∷ after) })
  moved-IsHeld before after fd a b e = record {
    same = λ x.
        same x
        ∙ ap (λ cs. count x (handed s.acceptor) + count x (descriptors cs)) e
        ∙ omega (arith, count-middle x before after fd a, count-middle x before after fd b);
    once = once;
    total = total;
    ended = ended;
  }

  -- The socket that a client's thread closes is open.
  is_open :
      (before after : List (ℕ × ClientAt)) (fd : ℕ) (a : ClientAt)
      → s.clients ≡ before ++ ((fd, a) ∷ after)
      → (x : ℕ)
      → count x s.open_clients
        ≡ count x (handed s.acceptor) + (count x (descriptors (before ++ after)) + one_if (fd == x))
  is_open before after fd a e x =
      same x
      ∙ ap (λ cs. count x (handed s.acceptor) + count x (descriptors cs)) e
      ∙ omega (arith, count-middle x before after fd a)

  closed-IsHeld :
      (before after : List (ℕ × ClientAt)) (fd : ℕ)
      → s.clients ≡ before ++ ((fd, closing) ∷ after)
      → IsHeld (record s {
        clients = before ++ after;
        open_clients = remove fd s.open_clients;
        closed = suc s.closed;
      })
  closed-IsHeld before after fd e = record {
    same =
        λ x. omega (arith, is_open before after fd closing e x, count-remove x fd s.open_clients);
    once = λ x. omega (arith, once x, count-remove x fd s.open_clients);
    total = omega (
      arith,
      total,
      length-remove fd s.open_clients (ground (arith, is_open before after fd closing e fd)),
    );
    ended = ended;
  }

  Step-IsHeld : {t : Threads} → Step s t → IsHeld t
  Step-IsHeld (acceptor_moves move) = acceptor-IsHeld move
  Step-IsHeld (client_accepted fd e unused) = accepted-IsHeld fd e unused
  Step-IsHeld (accept_failed e) = failed-IsHeld e
  Step-IsHeld (client_detached fd e) = detached-IsHeld fd e
  Step-IsHeld (client_moves before after fd e move) = moved-IsHeld before after fd _ _ e
  Step-IsHeld (client_closes before after fd e) = closed-IsHeld before after fd e
  Step-IsHeld (stop_flags e r) = record {
    same = same;
    once = once;
    total = total;
    ended = λ j. ground arith;
  }
  Step-IsHeld (stop_shuts e) = record {
    same = same;
    once = once;
    total = total;
    ended = λ j. ground arith;
  }
  Step-IsHeld (stop_joins e f) = record { same = same; once = once; total = total; ended = λ j. f }

-- In every state that a started server reaches, by whatever order of the steps of its threads, no
-- client descriptor is open twice; each open one is held by exactly one thread, that of `AcceptLoop`
-- or one detached `ClientLoop`, and each held one is open, so that no `close` is of a socket that is
-- closed already; every accepted socket is open or was closed once; and when `Stop` has joined the
-- accept thread, that thread has ended.
pub Run-IsHeld : {s : Threads} → Run started s → IsHeld s
Run-IsHeld none_yet = started-IsHeld
Run-IsHeld (later r step) = Step-IsHeld (Run-IsHeld r) step
