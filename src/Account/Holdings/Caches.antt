-- ===== src/Account/Holdings/Caches.antt =====
-- The cache of previous closes holds positive prices only, whatever the servers answer.
use stock_trading_bot_server.Prelude.{
  ◌≡◌, inl, inr, true, Bool-cases, ℤ, is_positive, All, if◌then◌else◌,
}
use stock_trading_bot_server.Text.{Text}
use stock_trading_bot_server.Text.Map.{Map, insert, All-insert}
use stock_trading_bot_server.Platform.{Platform}
use stock_trading_bot_server.World.{State, Holding}
use stock_trading_bot_server.World.Keeps.{Keeps-update, Keeping-IsPreorder}
use stock_trading_bot_server.Curl.{easy_perform}
use stock_trading_bot_server.Curl.Plumbing.{Plumbing-IsBlind}
use stock_trading_bot_server.Login.{set_token}
use stock_trading_bot_server.Account.Item.{get_local_weekday, remember}
use stock_trading_bot_server.Account.Holdings.{
  remember_both, with_close, swap_holdings, refresh_current_holdings,
}
use stock_trading_bot_server.Account.Holdings.Frame.{Keeps-refresh_current_holdings}

abbrev pub IsPositiveEntry : Text × ℤ → Type 0
IsPositiveEntry e = is_positive e.1 ≡ true

module _ (p : Platform) where
  abbrev pub HasPositiveCloses : State p → Type 0
  HasPositiveCloses s = All IsPositiveEntry s.last_prev_close

  remembered :
      (h : Holding p.Double) (m : Map ℤ)
      → All IsPositiveEntry m
      → All IsPositiveEntry
          (if is_positive h.prev_close_price then insert h.code h.prev_close_price m else m)
  remembered h m a = elim (Bool-cases (is_positive h.prev_close_price)) [
    | inl e ↦ rw e (All-insert IsPositiveEntry h.code h.prev_close_price m e a)
    | inr e ↦ rw e a
  ]

  -- A refresh of the holdings keeps every cached previous close positive, whatever the servers
  -- answer, and also where it ends in an exception: the negative value that a price less its daily
  -- change may come to is never cached.
  pub refresh-HasPositiveCloses :
      (s : State p) → HasPositiveCloses s → HasPositiveCloses (refresh_current_holdings p s).1
  unfolding set_token get_local_weekday remember easy_perform remember_both swap_holdings with_close
  refresh-HasPositiveCloses s =
      (Keeps-refresh_current_holdings p (Keeping-IsPreorder HasPositiveCloses)
          (Plumbing-IsBlind p (record { journal = λ s j h. h; curl = λ s i h l x. x }))
          (λ t. Keeps-update _ λ s h. h) (record { at = λ s h. h })
          (λ h. Keeps-update _ λ s a. remembered h s.last_prev_close a)
          (λ r. record { at = λ s h. h })
          (λ close h e.
            Keeps-update _ λ s a. All-insert IsPositiveEntry h.code close s.last_prev_close e a)
          (λ l. Keeps-update _ λ s h. h)).at
        s
