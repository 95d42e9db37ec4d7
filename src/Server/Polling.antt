-- ===== src/Server/Polling.antt =====
-- StreamingServer.cpp: `RefrashLoop` and the waits of the two polling loops.
use stock_trading_bot_server.Prelude.{
  ℕ, zero, suc, ◌+◌, ◌-◌, ◌*◌, ◌≤◌, ◌<◌, ◌≡◌, refl, sym, ◌∙◌, ◌⊎◌, All, All-map, Bool, true, ◌||◌,
  ◌&&◌, List, [], ◌∷◌, arith, ltb, leb, if◌then◌else◌,
}
use stock_trading_bot_server.Text.{codes}
use stock_trading_bot_server.Platform.{Platform}
use stock_trading_bot_server.World.{Code, info, State, update, ◌>>=◌, ◌>>◌}
use stock_trading_bot_server.Outcome.{done}
use stock_trading_bot_server.Curl.{output}
use stock_trading_bot_server.Account.Holdings.{refresh_current_holdings}

abbrev pub polling_interval_ms : ℕ
polling_interval_ms = 500

abbrev pub trade_history_polling_interval_ms : ℕ
trade_history_polling_interval_ms = 60_000

-- `hour >= 22 || hour < 7`
unfoldable pub is_off_hours : ℕ → Bool
is_off_hours hour = leb 22 hour || ltb hour 7

-- The sleeps of 10 ms that a wait makes: `running` is read before each. It takes fuel.
unfoldable pub wait_loop : ℕ → ℕ → (ℕ → Bool) → ℕ → ℕ → ℕ
wait_loop zero interval running elapsed sleeps = sleeps
wait_loop (suc fuel) interval running elapsed sleeps =
    let more = wait_loop fuel interval running (elapsed + 10) (sleeps + 1) in
    if ltb elapsed interval && running sleeps then more else sleeps

module _ (p : Platform) where
  -- One round of the polling thread, at an hour of the day.
  unfoldable pub refresh_round : ℕ → Code p (Unit {0})
  refresh_round hour =
      if is_off_hours hour
      then output p info (codes "장 운영 시간 외 (22:00~07:00) - API 호출 생략")
      else refresh_current_holdings p

  -- The thread, from the hours of the rounds that find `running` true.
  unfoldable pub refresh_loop : List ℕ → Code p (Unit {0})
  refresh_loop [] = output p info (codes "보유 종목 폴링 종료")
  refresh_loop (hour ∷ hours) = refresh_round hour >> refresh_loop hours

  unfoldable pub refresh_thread : List ℕ → Code p (Unit {0})
  refresh_thread hours = output p info (codes "보유 종목 폴링 시작") >> refresh_loop hours

  off_round :
      (hour : ℕ) (s : State p)
      → is_off_hours hour ≡ true
      → (t : State p) × (refresh_round hour s ≡ (done tt, t))
        × (t.holdings ≡ s.holdings)
        × (t.sent ≡ s.sent)
  unfolding refresh_round output update
  off_round hour s h = rw h (_, refl, refl, refl)

  off_loop :
      (hours : List ℕ) (s : State p)
      → All (λ hour. is_off_hours hour ≡ true) hours
      → ((refresh_loop hours s).0 ≡ done tt)
        × ((refresh_loop hours s).1.holdings ≡ s.holdings)
        × ((refresh_loop hours s).1.sent ≡ s.sent)
  unfolding refresh_loop output update ◌>>=◌
  off_loop [] s h = (refl, refl, refl)
  off_loop (hour ∷ hours) s (h, hs) =
      let (t, e, a, b) = off_round hour s h in
      let (c, d, f) = off_loop hours t hs in rw e (c, d ∙ a, f ∙ b)

  off : (hour : ℕ) → (22 ≤ hour) ⊎ (hour < 7) → is_off_hours hour ≡ true
  unfolding is_off_hours
  off hour h = ground arith

  -- While every round of the polling thread falls between 22:00 and 07:00, the thread sends no request
  -- and keeps the published holdings, and it ends without an exception.
  pub refresh_thread-off_hours :
      (hours : List ℕ) (s : State p)
      → All (λ hour. (22 ≤ hour) ⊎ (hour < 7)) hours
      → ((refresh_thread hours s).0 ≡ done tt)
        × ((refresh_thread hours s).1.holdings ≡ s.holdings)
        × ((refresh_thread hours s).1.sent ≡ s.sent)
  unfolding refresh_thread output update ◌>>=◌
  refresh_thread-off_hours hours s h = off_loop hours _ (All-map _ _ off hours h)

-- One more round: the interval measured from the start of the next.
next_round : (elapsed left : ℕ) → elapsed + suc left * 10 ≡ (elapsed + 10) + left * 10
next_round elapsed left = omega arith

-- From `left` rounds of 10 ms before the interval ends, where `running` stays true up to `flips`.
wait_loop-from :
    (fuel left elapsed sleeps flips : ℕ) (running : ℕ → Bool)
    → left < fuel
    → ((n : ℕ) → running n ≡ ltb n flips)
    → wait_loop fuel (elapsed + left * 10) running elapsed sleeps
      ≡ sleeps + (if ltb (flips - sleeps) left then flips - sleeps else left)
unfolding wait_loop
wait_loop-from zero left elapsed sleeps flips running h r = absurd (omega arith)
wait_loop-from (suc fuel) zero elapsed sleeps flips running h r = ground (arith, r sleeps)
wait_loop-from (suc fuel) (suc left) elapsed sleeps flips running h r =
    rw (next_round elapsed left) (
      ground (
        arith,
        r sleeps,
        wait_loop-from fuel left (elapsed + 10) (sleeps + 1) flips running (omega arith) r,
      ))

-- A wait of `left` rounds of 10 ms, with a fuel of more than `left`, where `running` is true at its
-- first `flips` readings and false afterwards, sleeps as often as `running` was found true and never
-- more than `left` times: a stop is seen after the sleep in which it falls, and the wait ends at the
-- interval otherwise.
pub wait_loop_lem :
    (fuel left flips : ℕ) (running : ℕ → Bool)
    → left < fuel
    → ((n : ℕ) → running n ≡ ltb n flips)
    → wait_loop fuel (left * 10) running 0 0 ≡ (if ltb flips left then flips else left)
wait_loop_lem fuel left flips running h r =
    let e : 0 + left * 10 ≡ left * 10 = omega arith in
    rw (sym e) (ground (arith, wait_loop-from fuel left 0 0 flips running h r))
