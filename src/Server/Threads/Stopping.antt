-- ===== src/Server/Threads/Stopping.antt =====
-- StreamingServer.cpp: what `AcceptLoop` still does behind the `close` of the listening socket in
-- `Stop`, whose thread waits for it in `acceptThread.join()`.
use stock_trading_bot_server.Prelude.{
  ℕ, ◌+◌, ◌≤◌, ◌≡◌, refl, sym, subst, Bool, true, false, arith, ◌⊎◌, inl, inr,
}
use stock_trading_bot_server.Server.Threads.{
  Acceptor, check, calling, accepting, recheck, pausing, handing, finished, Stopper, outside,
  flagged, shut, joined, Threads, Step, AcceptMove, round_begins, accept_begins, flag_seen,
  accept_refused, accept_failed, failed_stopped, failed_running, pause_over, acceptor_moves,
  client_accepted, client_detached, client_moves, client_closes, stop_flags, stop_shuts, stop_joins,
  started, Run, none_yet, later,
}

-- Whether a step moves `AcceptLoop`, and whether it is one that the thread makes by itself: the answer
-- of the network to a blocked call is not.
abbrev pub accept_steps : {s t : Threads} → Step s t → ℕ
accept_steps (acceptor_moves move) = 1
accept_steps (client_accepted fd e unused) = 1
accept_steps (accept_failed e) = 1
accept_steps (client_detached fd e) = 1
accept_steps _ = 0

abbrev pub own_steps : {s t : Threads} → Step s t → ℕ
own_steps (acceptor_moves move) = 1
own_steps (client_detached fd e) = 1
own_steps _ = 0

-- How many steps of a run move `AcceptLoop`.
abbrev pub run_steps : {s t : Threads} → Run s t → ℕ
run_steps none_yet = 0
run_steps (later r step) = run_steps r + accept_steps step

-- 1 inside a call of `accept` that found the listening socket open.
abbrev pub blocked_calls : Acceptor → ℕ
blocked_calls (accepting true) = 1
blocked_calls _ = 0

-- What `running` and the listening socket are, by where the caller of `Stop` stands.
abbrev IsClosing : Stopper → Bool → Bool → Type 0
IsClosing outside running listening = Unit
IsClosing flagged running listening = running ≡ false
IsClosing shut running listening = (running ≡ false) × (listening ≡ false)
IsClosing joined running listening = (running ≡ false) × (listening ≡ false)

at_stopper :
    (a : Stopper) (s : Threads)
    → s.stopper ≡ a
    → IsClosing s.stopper s.running s.listening
    → IsClosing a s.running s.listening
at_stopper a s e c = subst (λ x. IsClosing x s.running s.listening) e c

Step-IsClosing :
    {s t : Threads}
    → Step s t
    → IsClosing s.stopper s.running s.listening
    → IsClosing t.stopper t.running t.listening
Step-IsClosing (acceptor_moves move) c = c
Step-IsClosing (client_accepted fd e unused) c = c
Step-IsClosing (accept_failed e) c = c
Step-IsClosing (client_detached fd e) c = c
Step-IsClosing (client_moves before after fd e move) c = c
Step-IsClosing (client_closes before after fd e) c = c
Step-IsClosing (stop_flags e on) c = refl
Step-IsClosing {s} (stop_shuts e) c = (at_stopper flagged s e c, refl)
Step-IsClosing {s} (stop_joins e f) c = at_stopper shut s e c

Run-IsClosing : {s : Threads} → Run started s → IsClosing s.stopper s.running s.listening
Run-IsClosing none_yet = tt
Run-IsClosing (later r step) = Step-IsClosing step (Run-IsClosing r)

-- The steps that are left to `AcceptLoop` when `running` is false and the socket is closed.
abbrev rank : Acceptor → ℕ
rank check = 1
rank calling = 3
rank (accepting true) = 3
rank (accepting false) = 2
rank recheck = 1
rank pausing = 2
rank (handing fd) = 2
rank finished = 0

rank-bound : (a : Acceptor) → rank a ≤ 3
rank-bound check = omega arith
rank-bound calling = omega arith
rank-bound (accepting true) = omega arith
rank-bound (accepting false) = omega arith
rank-bound recheck = omega arith
rank-bound pausing = omega arith
rank-bound (handing fd) = omega arith
rank-bound finished = omega arith

-- One step leaves the server as it is, and uses up what is left.
record Uses (s t : Threads) (n : ℕ) : Type 0 where
  stopped : t.running ≡ false
  closed : t.listening ≡ false
  steps : n + rank t.acceptor ≤ rank s.acceptor
  clients : t.accepted + blocked_calls t.acceptor ≤ s.accepted + blocked_calls s.acceptor
  calls : blocked_calls t.acceptor ≤ blocked_calls s.acceptor

begun-rank :
    (b : Bool) → b ≡ false → (1 + rank (accepting b) ≤ 3) × (blocked_calls (accepting b) ≤ 0)
begun-rank true e = ground arith
begun-rank false e = omega arith

AcceptMove-rank :
    {s : Threads} {a b : Acceptor}
    → s.running ≡ false
    → s.listening ≡ false
    → AcceptMove s a b
    → (1 + rank b ≤ rank a) × (blocked_calls b ≤ blocked_calls a)
AcceptMove-rank off closed (round_begins e) = ground arith
AcceptMove-rank {s} off closed accept_begins = begun-rank s.listening closed
AcceptMove-rank off closed (flag_seen e) = omega arith
AcceptMove-rank off closed accept_refused = omega arith
AcceptMove-rank off closed (failed_stopped e) = omega arith
AcceptMove-rank off closed (failed_running e) = ground arith
AcceptMove-rank off closed pause_over = omega arith

-- A step that does not touch `AcceptLoop`.
Uses-nothing :
    (s t : Threads)
    → t.running ≡ false
    → t.listening ≡ false
    → t.acceptor ≡ s.acceptor
    → t.accepted ≡ s.accepted
    → Uses s t 0
Uses-nothing s t off closed e k = record {
  stopped = off;
  closed = closed;
  steps = rw e (omega arith);
  clients = rw (e, k) (omega arith);
  calls = rw e (omega arith);
}

-- A step of `AcceptLoop` from a place that is known.
Uses-at :
    (s t : Threads) (a : Acceptor)
    → s.acceptor ≡ a
    → t.running ≡ false
    → t.listening ≡ false
    → 1 + rank t.acceptor ≤ rank a
    → t.accepted + blocked_calls t.acceptor ≤ s.accepted + blocked_calls a
    → blocked_calls t.acceptor ≤ blocked_calls a
    → Uses s t 1
Uses-at s t a e off closed less fewer calls = record {
  stopped = off;
  closed = closed;
  steps = rw e less;
  clients = rw e fewer;
  calls = rw e calls;
}

Step-Uses :
    {s t : Threads}
    → s.running ≡ false
    → s.listening ≡ false
    → (step : Step s t) → Uses s t (accept_steps step)
Step-Uses off closed (acceptor_moves move) =
    let (less, fewer) = AcceptMove-rank off closed move in
    record {
      stopped = off;
      closed = closed;
      steps = less;
      clients = omega (arith, fewer);
      calls = fewer;
    }
Step-Uses off closed (client_accepted fd e unused) =
    Uses-at _ _ _ e off closed (omega arith) (omega arith) (omega arith)
Step-Uses off closed (accept_failed e) =
    Uses-at _ _ _ e off closed (omega arith) (omega arith) (omega arith)
Step-Uses off closed (client_detached fd e) =
    Uses-at _ _ _ e off closed (omega arith) (omega arith) (omega arith)
Step-Uses off closed (client_moves before after fd e move) = Uses-nothing _ _ off closed refl refl
Step-Uses off closed (client_closes before after fd e) = Uses-nothing _ _ off closed refl refl
Step-Uses off closed (stop_flags e on) = ground arith
Step-Uses off closed (stop_shuts e) = Uses-nothing _ _ off refl refl refl
Step-Uses off closed (stop_joins e f) = Uses-nothing _ _ off closed refl refl

Run-Uses :
    {s t : Threads}
    → s.running ≡ false
    → s.listening ≡ false
    → (r : Run s t) → Uses s t (run_steps r)
Run-Uses off closed none_yet = Uses-nothing _ _ off closed refl refl
Run-Uses off closed (later r step) =
    let first = Run-Uses off closed r in
    let last = Step-Uses first.stopped first.closed step in
    record {
      stopped = last.stopped;
      closed = last.closed;
      steps = omega (arith, first.steps, last.steps);
      clients = omega (arith, first.clients, last.clients);
      calls = omega (arith, first.calls, last.calls);
    }

-- `AcceptLoop` has a step that it makes by itself.
abbrev pub CanStep : Threads → Type 0
CanStep s = (t : Threads) × (step : Step s t) × (own_steps step ≡ 1)

moves : {s : Threads} {a b : Acceptor} → s.acceptor ≡ a → AcceptMove s a b → CanStep s
moves {s} {a} {b} e move = (_, acceptor_moves (subst (λ x. AcceptMove s x b) (sym e) move), refl)

at_place :
    (s : Threads) (a : Acceptor)
    → s.acceptor ≡ a
    → s.running ≡ false
    → (s.acceptor ≡ finished) ⊎ (CanStep s ⊎ (s.acceptor ≡ accepting true))
at_place s check e off = inr (inl (moves e (flag_seen off)))
at_place s calling e off = inr (inl (moves e accept_begins))
at_place s (accepting true) e off = inr (inr e)
at_place s (accepting false) e off = inr (inl (moves e accept_refused))
at_place s recheck e off = inr (inl (moves e (failed_stopped off)))
at_place s pausing e off = inr (inl (moves e pause_over))
at_place s (handing fd) e off = inr (inl (_, client_detached fd e, refl))
at_place s finished e off = inl e

was_blocked :
    (a b : Acceptor) → b ≡ accepting true → blocked_calls b ≤ blocked_calls a → a ≡ accepting true
was_blocked (accepting true) b e h = refl
was_blocked (accepting false) b e h = absurd (ground arith)
was_blocked check b e h = absurd (ground arith)
was_blocked calling b e h = absurd (ground arith)
was_blocked recheck b e h = absurd (ground arith)
was_blocked pausing b e h = absurd (ground arith)
was_blocked (handing fd) b e h = absurd (ground arith)
was_blocked finished b e h = absurd (ground arith)

-- When `Stop` has closed the listening socket of a started server, in whatever order the threads go
-- on: `AcceptLoop` is moved three times at most; it accepts no further client, but for the one that
-- may answer a call of `accept` in which it was blocked when the socket was closed; and it has ended
-- or can go on by itself, unless it is still blocked in that same call. So the join in `Stop` waits
-- for the network only where such a call was under way.
pub Run-stopping :
    (s t : Threads) (before : Run started s) (r : Run s t)
    → s.stopper ≡ shut
    → (run_steps r ≤ 3)
      × (t.accepted ≤ s.accepted + blocked_calls s.acceptor)
      × ((t.acceptor ≡ finished)
          ⊎ (CanStep t ⊎ ((t.acceptor ≡ accepting true) × (s.acceptor ≡ accepting true))))
Run-stopping s t before r e =
    let (off, closed) = at_stopper shut s e (Run-IsClosing before) in
    let uses = Run-Uses off closed r in
    let top = rank-bound s.acceptor in
    (
      omega (arith, uses.steps, top),
      omega (arith, uses.clients),
      elim (at_place t t.acceptor refl uses.stopped) [
        | inl f ↦ inl f
        | inr (inl c) ↦ inr (inl c)
        | inr (inr b) ↦ inr (inr (b, was_blocked s.acceptor t.acceptor b uses.calls))
      ],
    )
