-- ===== src/Server/Client.antt =====
-- StreamingServer.cpp: `ClientLoop`. Each round sends the lines of the snapshots of that round; the
-- first failed `send` closes the socket and ends the thread, and so does a round that finds
-- `running` false.
use stock_trading_bot_server.Prelude.{
  ℕ, zero, suc, ◌≤◌, ◌<◌, ◌≡◌, ◌⊎◌, ◌==◌, take, refl, sym, ◌∙◌, ap, Bool, true, false, List, [],
  ◌∷◌, ◌++◌, arith, map, length, inl, inr, Bool-cases, if◌then◌else◌,
}
use mathlib.Core.List.{append_assoc, append-nil}
use stock_trading_bot_server.Text.{Text}
use stock_trading_bot_server.Text.Map.{Map}
use stock_trading_bot_server.Platform.{Platform}
use stock_trading_bot_server.World.{Holding, TradeRecord}
use stock_trading_bot_server.Server.Render.{holding_line, trade_line}

-- The lines of one loop, on a network whose `send` takes a number of the bytes of a line, by what it
-- took before; 0 stands for every `sent <= 0`. Whether no `send` failed, and the pieces that were
-- taken: a piece that is shorter than its line counts as sent.
unfoldable pub send_lines : (List Text → Text → ℕ) → List Text → List Text → Bool × List Text
send_lines send before [] = (true, before)
send_lines send before (line ∷ rest) =
    let sent = send before line in
    let more = send_lines send (before ++ (take sent line ∷ [])) rest in
    if sent == 0 then (false, before) else more

-- A `send` fails or takes the whole line.
abbrev pub TakesLines : (List Text → Text → ℕ) → Type 0
TakesLines send =
    (before : List Text) (line : Text) → (send before line ≡ 0) ⊎ (length line ≤ send before line)

-- No `send` fails, and each takes the whole line.
abbrev pub TakesAll : (List Text → Text → ℕ) → Type 0
TakesAll send =
    (before : List Text) (line : Text) → (0 < send before line) × (length line ≤ send before line)

take-whole : (n : ℕ) (t : Text) → length t ≤ n → take n t ≡ t
take-whole zero [] h = refl
take-whole zero (c ∷ t) h = absurd (omega arith)
take-whole (suc n) [] h = refl
take-whole (suc n) (c ∷ t) h = ap (◌∷◌ c) (take-whole n t (omega arith))

-- The holdings of a map, in the order of its keys.
abbrev pub values : {V : Type 0} → Map V → List V
values = map (λ (key, v). v)

module _ (p : Platform) where
  open p use {Double}

  -- The two snapshots that a round takes.
  abbrev pub Snapshot : Type 0
  Snapshot = Map (Holding Double) × List TradeRecord

  -- One round: the holdings, and if they were sent the trades.
  unfoldable pub client_round : (List Text → Text → ℕ) → List Text → Snapshot → Bool × List Text
  client_round send before (holdings, trades) =
      let (alive, middle) = send_lines send before (map (holding_line p) (values holdings)) in
      let after = send_lines send middle (map trade_line trades) in
      if alive then after else (false, middle)

  -- The thread, from the snapshots of the rounds that find `running` true: the lines sent, and the
  -- number of times that the socket is closed.
  unfoldable pub client_loop : (List Text → Text → ℕ) → List Text → List Snapshot → List Text × ℕ
  client_loop send before [] = (before, 1)
  client_loop send before (snapshot ∷ rest) =
      let (alive, after) = client_round send before snapshot in
      let more = client_loop send after rest in if alive then more else (after, 1)

  abbrev pub round_lines : Snapshot → List Text
  round_lines (holdings, trades) = map (holding_line p) (values holdings) ++ map trade_line trades

  abbrev pub all_lines : List Snapshot → List Text
  all_lines [] = []
  all_lines (s ∷ rest) = round_lines s ++ all_lines rest

  -- What a call sends of the lines that it is given: all of them if it says so, else a front part.
  abbrev IsFront : List Text → List Text → Bool × List Text → Type 0
  IsFront before wanted (alive, after) =
      (unsent : List Text) × (before ++ wanted ≡ after ++ unsent)
      × (alive ≡ true → after ≡ before ++ wanted)

  send_lines-IsFront :
      (send : List Text → Text → ℕ) (before wanted : List Text)
      → TakesLines send
      → IsFront before wanted (send_lines send before wanted)
  unfolding send_lines
  send_lines-IsFront send before [] h = ([], refl, λ e. sym (append-nil before))
  send_lines-IsFront send before (line ∷ rest) h = elim (h before line) [
    | inl e ↦ rw e (line ∷ rest, refl, λ a. cc)
    | inr e ↦ elim (Bool-cases (send before line == 0)) [
      | inl z ↦ rw z (line ∷ rest, refl, λ a. cc)
      | inr z ↦
          let (unsent, split, all) = send_lines-IsFront send (before ++ (line ∷ [])) rest h in
          let shift = append_assoc before (line ∷ []) rest in
          rw (z, take-whole (send before line) line e)
            (unsent, sym shift ∙ split, λ a. all a ∙ shift)
    ]
  ]

  IsFront-then :
      (before hs ts : List Text) (r : Bool × List Text) (g : List Text → Bool × List Text)
      → IsFront before hs r
      → ((middle : List Text) → IsFront middle ts (g middle))
      → IsFront before (hs ++ ts) (if r.0 then g r.1 else (false, r.1))
  IsFront-then before hs ts (true, middle) g (unsent, split, all) h =
      let whole = ap (λ (m : List Text). m ++ ts) (all refl) ∙ append_assoc before hs ts in
      let (unsent', split', all') = h middle in (unsent', sym whole ∙ split', λ a. all' a ∙ whole)
  IsFront-then before hs ts (false, middle) g (unsent, split, all) h = (
    unsent ++ ts,
    sym (append_assoc before hs ts)
        ∙ (ap (λ (m : List Text). m ++ ts) split ∙ append_assoc middle unsent ts),
    λ a. cc,
  )

  client_round-IsFront :
      (send : List Text → Text → ℕ) (before : List Text) (s : Snapshot)
      → TakesLines send
      → IsFront before (round_lines s) (client_round send before s)
  unfolding client_round
  client_round-IsFront send before (holdings, trades) h =
      let hs = map (holding_line p) (values holdings) in
      IsFront-then before hs (map trade_line trades) (send_lines send before hs)
        (λ middle. send_lines send middle (map trade_line trades))
        (send_lines-IsFront send before hs h)
        λ middle. send_lines-IsFront send middle (map trade_line trades) h

  loop-IsFront :
      (send : List Text → Text → ℕ) (before : List Text) (rounds : List Snapshot)
      → TakesLines send
      → (unsent : List Text) × (before ++ all_lines rounds
          ≡ (client_loop send before rounds).0 ++ unsent)
  unfolding client_loop
  loop-IsFront send before [] h = ([], refl)
  loop-IsFront send before (s ∷ rest) h =
      let (unsent, split, all) = client_round-IsFront send before s h in
      let shift = append_assoc before (round_lines s) (all_lines rest) in
      let (unsent', split') = loop-IsFront send (client_round send before s).1 rest h in
      elim (Bool-cases (client_round send before s).0) [
        | inl e ↦ rw e (
          unsent',
          sym shift ∙ (sym (ap (λ (m : List Text). m ++ all_lines rest) (all e)) ∙ split'),
        )
        | inr e ↦ rw e (
          unsent ++ all_lines rest,
          sym shift
              ∙ (ap (λ (m : List Text). m ++ all_lines rest) split
                  ∙ append_assoc (client_round send before s).1 unsent (all_lines rest)),
        )
      ]

  send_lines-alive :
      (send : List Text → Text → ℕ) (before wanted : List Text)
      → TakesAll send
      → (send_lines send before wanted).0 ≡ true
  unfolding send_lines
  send_lines-alive send before [] h = refl
  send_lines-alive send before (line ∷ rest) h = ground (
    arith,
    h before line,
    send_lines-alive send (before ++ (take (send before line) line ∷ [])) rest h,
  )

  client_round-alive :
      (send : List Text → Text → ℕ) (before : List Text) (s : Snapshot)
      → TakesAll send
      → (client_round send before s).0 ≡ true
  unfolding client_round
  client_round-alive send before (holdings, trades) h =
      rw (send_lines-alive send before (map (holding_line p) (values holdings)) h)
        (send_lines-alive send _ (map trade_line trades) h)

  loop-all :
      (send : List Text → Text → ℕ) (before : List Text) (rounds : List Snapshot)
      → TakesAll send
      → (client_loop send before rounds).0 ≡ before ++ all_lines rounds
  unfolding client_loop
  loop-all send before [] h = sym (append-nil before)
  loop-all send before (s ∷ rest) h =
      let (unsent, split, all) = client_round-IsFront send before s (λ b l. inr (h b l).1) in
      let e = client_round-alive send before s h in
      rw e (
        loop-all send (client_round send before s).1 rest h
        ∙ (ap (λ (m : List Text). m ++ all_lines rest) (all e)
            ∙ append_assoc before (round_lines s) (all_lines rest)))

  -- Where a `send` fails or takes the whole line, what a client gets is a front part of the lines of
  -- all rounds, each round the holdings in the order of their keys and then the trades: nothing is
  -- skipped, repeated or reordered, whichever `send` fails.
  pub client_loop-front :
      (send : List Text → Text → ℕ) (rounds : List Snapshot)
      → TakesLines send
      → (unsent : List Text) × (all_lines rounds ≡ (client_loop send [] rounds).0 ++ unsent)
  client_loop-front send rounds h = loop-IsFront send [] rounds h

  -- Where every `send` takes at least one byte and the whole line, a client gets the lines of all
  -- rounds.
  pub client_loop-all :
      (send : List Text → Text → ℕ) (rounds : List Snapshot)
      → TakesAll send
      → (client_loop send [] rounds).0 ≡ all_lines rounds
  client_loop-all send rounds h = loop-all send [] rounds h
