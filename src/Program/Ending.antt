-- ===== src/Program/Ending.antt =====
-- TradingCore/main.cpp: how the program ends.
use stock_trading_bot_server.Prelude.{
  ℕ, zero, suc, ◌+◌, ◌≤◌, ◌<◌, ◌≡◌, refl, ap, ◌∙◌, Option, Bool, true, false, List, [], ◌∷◌, some,
  none, arith, length, inl, inr, Bool-cases,
}
use stock_trading_bot_server.Text.{Text}
use stock_trading_bot_server.Outcome.{Outcome, done, thrown}
use stock_trading_bot_server.Platform.{Platform}
use stock_trading_bot_server.World.{State, pure, continue, ◌>>=◌}
use stock_trading_bot_server.World.Keeps.{Keeps-gets, Keeps-pure, Keeps-skip, Keeps-bind}
use stock_trading_bot_server.World.Sends.{Sends, Returns-any, Sends-zero, Sends-bind}
use stock_trading_bot_server.World.Costs.{SameCurl-IsPreorder, Ends, Costs, Costs-pure, Costs-bind}
use stock_trading_bot_server.Curl.Balance.{none_left, Costs-closed}
use stock_trading_bot_server.Account.Numbers.Balance.{Costs-set_use_account}
use stock_trading_bot_server.Account.Holdings.Balance.{Costs-refresh_current_holdings}
use stock_trading_bot_server.Account.Page.Requests.{sent_order}
use stock_trading_bot_server.Account.Numbers.Requests.{set_use_account-Sends}
use stock_trading_bot_server.Account.Holdings.Bounds.{Sends-refresh_current_holdings}
use stock_trading_bot_server.Account.Holdings.{get_holdings_snapshot}
use stock_trading_bot_server.Server.Lifecycle.{
  Answers, start_call, stop_call, fresh, stop, run, embed, down, run-embed, start-embed,
  start_phase, stop_phase, start_answered,
}
use stock_trading_bot_server.Program.{
  streaming_port, wait_signal, Ended, serve, initialize, start_up, main,
}

-- The n-th reading of the flag is the first that finds it set.
abbrev pub IsFirst : (ℕ → Bool) → ℕ → Type 0
IsFirst terminate n = (terminate n ≡ true) × ((k : ℕ) → k < n → terminate k ≡ false)

wait_signal-from :
    (fuel : ℕ) (terminate : ℕ → Bool) (k n : ℕ)
    → k ≤ n
    → n < k + fuel
    → IsFirst terminate n
    → wait_signal fuel terminate k ≡ n
unfolding wait_signal
wait_signal-from zero terminate k n h few first = absurd (omega arith)
wait_signal-from (suc fuel) terminate k n h few first = elim (Bool-cases (terminate k)) [
  | inl e ↦ rw e (ground (arith, first.1 k))
  | inr e ↦
      rw e (wait_signal-from fuel terminate (suc k) n (ground (arith, first.0)) (omega arith) first)
]

-- Whatever the system calls of `Start` answer, `Stop` leaves a server that is down.
serve-server :
    (fuel : ℕ) (a : Answers) (terminate : ℕ → Bool) (lines : List Text)
    → (serve fuel a terminate lines).server ≡ embed (down streaming_port)
unfolding serve stop run
serve-server fuel a terminate lines =
    run-embed (start_call a streaming_port ∷ stop_call ∷ []) ∙ ap embed (stopped a a.socket)
  where
    stopped :
        (a : Answers) (fd : Option ℕ)
        → stop_phase (start_answered a streaming_port fd).1 ≡ down streaming_port
    stopped a none = refl
    stopped a (some fd) = ground arith

-- The program ended as it means to, after a start-up that gave `r`.
abbrev pub EndsWell : Answers → ℕ → Outcome (List Text) → Outcome Ended → Type 0
EndsWell a n (done lines) (done e) =
    (e.shown ≡ lines)
    × (e.was_started ≡ (start_phase a streaming_port (down 0)).0)
    × (e.sleeps ≡ n)
    × (e.server ≡ embed (down streaming_port))
    × (e.exit_code ≡ 0)
EndsWell a n (done lines) (thrown x) = ⊥
EndsWell a n (thrown x) (done e) = ⊥
EndsWell a n (thrown x) (thrown y) = x ≡ y

module _ (p : Platform) where
  start_up-Sends : Sends 204 (start_up p)
  unfolding start_up initialize get_holdings_snapshot
  start_up-Sends =
      let o = sent_order p in
      Sends-bind 0 204 _ _ (Sends-zero _ (Keeps-skip o)) (Returns-any _) λ _ _.
        Sends-bind 102 102 _ _ (set_use_account-Sends p) (Returns-any _) λ _ _.
          Sends-bind 102 0 _ _ (Sends-refresh_current_holdings p) (Returns-any _)
            λ _ _. Sends-zero _ (Keeps-bind o _ _ (Keeps-gets o _) λ h. Keeps-pure o _)

  Costs-start_up : Costs 0 0 none_left none_left (start_up p)
  unfolding start_up initialize get_holdings_snapshot
  Costs-start_up =
      let o = SameCurl-IsPreorder in
      Costs-bind (Costs-closed (Keeps-skip o)) λ _. Costs-bind (Costs-set_use_account p) λ _.
        Costs-bind (Costs-refresh_current_holdings p)
          λ _. Costs-closed (Keeps-bind o _ _ (Keeps-gets o _) λ h. Keeps-pure o _)

  main-Costs :
      (fuel : ℕ) (a : Answers) (terminate : ℕ → Bool)
      → Costs 0 0 none_left none_left (main p fuel a terminate)
  unfolding main
  main-Costs fuel a terminate = Costs-bind Costs-start_up λ lines. Costs-pure _

  main-Sends : (fuel : ℕ) (a : Answers) (terminate : ℕ → Bool) → Sends 204 (main p fuel a terminate)
  unfolding main
  main-Sends fuel a terminate =
      Sends-bind 204 0 _ _ start_up-Sends (Returns-any _)
        λ lines _. Sends-zero _ (Keeps-pure (sent_order p) _)

  serve-EndsWell :
      (fuel : ℕ) (a : Answers) (terminate : ℕ → Bool) (n : ℕ) (r : Outcome (List Text))
      (t : State p)
      → n < fuel
      → IsFirst terminate n
      → EndsWell a n r (continue r (λ lines. pure (serve fuel a terminate lines)) t).0
  unfolding pure serve fresh
  serve-EndsWell fuel a terminate n (done lines) t few first = (
    refl,
    ap (λ r. r.0) (start-embed a streaming_port (down 0)),
    wait_signal-from fuel terminate 0 n (omega arith) (omega arith) first,
    serve-server fuel a terminate lines,
    refl,
  )
  serve-EndsWell fuel a terminate n (thrown x) t few first = refl

  -- `main`, where the n-th reading of the flag of the signal handler is the first that finds it set.
  -- If the start-up throws, the process ends by that exception and no server was started. Else it
  -- shows what `ShowHoldings` gives, tries to start the server on port 9000 once, whose success it
  -- ignores, waits n seconds, and ends with exit code 0 and a server that is down: no socket is open
  -- and no thread is left to join. Before it serves it sends at most 204 requests, and
  -- gives back every curl handle and header list, or all but one of each if it throws.
  pub main-EndsWell :
      (fuel : ℕ) (a : Answers) (terminate : ℕ → Bool) (n : ℕ) (s : State p)
      → n < fuel
      → IsFirst terminate n
      → EndsWell a n (start_up p s).0 (main p fuel a terminate s).0
        × (length (main p fuel a terminate s).1.sent ≤ 204 + length s.sent)
        × Ends s.handles s.header_lists none_left none_left
            (main p fuel a terminate s).0
            (main p fuel a terminate s).1
  unfolding main ◌>>=◌
  main-EndsWell fuel a terminate n s few first = (
    serve-EndsWell fuel a terminate n (start_up p s).0 (start_up p s).1 few first,
    (main-Sends fuel a terminate).at s,
    (main-Costs fuel a terminate).at s s.handles s.header_lists (omega arith) (omega arith),
  )
