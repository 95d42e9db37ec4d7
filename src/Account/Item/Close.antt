-- ===== src/Account/Item/Close.antt =====
-- Account.cpp, `RefreshCurrentHoldings`: the previous close that an item gets, after a holding of its
-- code was remembered.
use stock_trading_bot_server.Prelude.{
  ◌≡◌, refl, ◌⊎◌, inl, inr, Bool-cases, true, false, ◌||◌, ◌==◌, ℕ, ℤ, pos, negsuc, arith,
  is_positive, is_negative, is_zero, if◌then◌else◌,
}
use stock_trading_bot_server.Prelude.Int.{◌+ℤ◌, ◌-ℤ◌, wrap64, IsInt64}
use stock_trading_bot_server.Text.{Text, text_eq_iff}
use stock_trading_bot_server.Text.Map.{Map, insert, lookup-insert}
use stock_trading_bot_server.Outcome.{done}
use stock_trading_bot_server.Platform.{Platform}
use stock_trading_bot_server.World.{State, Holding, pure, gets, update, ◌>>=◌}
use stock_trading_bot_server.Account.Fields.{get_long_long_field}
use stock_trading_bot_server.Account.Item.{
  cached_price, get_local_weekday, fallback_prev_close, choose_prev_close, prev_close_keys,
  daily_diff_keys, remember,
}

wrap64-sub_add : (a b : ℤ) → IsInt64 a → wrap64 (wrap64 (a -ℤ b) +ℤ b) ≡ a
unfolding wrap64 ◌+ℤ◌ ◌-ℤ◌
wrap64-sub_add (pos a) (pos b) h = ground arith
wrap64-sub_add (pos a) (negsuc b) h = ground arith
wrap64-sub_add (negsuc a) (pos b) h = ground arith
wrap64-sub_add (negsuc a) (negsuc b) h = ground arith

cached_price-insert :
    (code : Text) (v : ℤ) (m : Map ℤ)
    → cached_price code (insert code v m) ≡ (if is_negative v then pos 0 else v)
unfolding cached_price
cached_price-insert code v m = ground (arith, lookup-insert code code v m, text_eq_iff code code)

-- The close `z` that the item gives itself, that its price and its change since then give, or that
-- was known before.
abbrev pub IsCloseOf : ℤ → ℤ → ℤ → ℤ → ℤ → Type 0
IsCloseOf direct change price known z =
    ((is_positive direct ≡ true) × (z ≡ direct))
    ⊎ (((is_positive direct || is_zero price || is_zero change) ≡ false)
        × (wrap64 (z +ℤ change) ≡ price))
    ⊎ ((is_positive direct ≡ false) × ((is_zero price || is_zero change) ≡ true) × (z ≡ known))

module _ (p : Platform) where
  open p use {Json, Double, weekday}

  -- The close that is known by a holding and the earlier closes: on Saturday and Sunday its previous
  -- close or else the earlier one, on the other days its price.
  abbrev pub known_close : ℕ → Holding Double → Map ℤ → ℤ
  known_close day h earlier =
      if day == 0 || day == 6
      then if is_positive h.prev_close_price
        then h.prev_close_price
        else cached_price h.code earlier
      else if is_negative h.price
      then pos 0
      else h.price

  fallback_prev_close-remember :
      (h : Holding Double) (s : State p)
      → (fallback_prev_close p h.code (remember p h s).1).0
        ≡ done (known_close (weekday s.clock_reads) h s.last_prev_close)
  unfolding fallback_prev_close remember get_local_weekday ◌>>=◌ gets update
  fallback_prev_close-remember h s = ground (
    arith,
    cached_price-insert h.code h.price s.last_price,
    cached_price-insert h.code h.prev_close_price s.last_prev_close,
  )

  -- An item of the code of a holding `h` that was remembered just before, with a price that is a
  -- `long long`: it gets the close that it gives itself if that is positive. Without one, and where
  -- neither its price nor its change is 0, the close it gets and the change make up the price, in 64
  -- bits. Else it gets the close that is known by `h`: on Saturday and Sunday the previous close of
  -- `h` if that is positive and else the one remembered earlier, 0 if there is none; on the other days
  -- the price of `h`, 0 if that is negative.
  pub choose_prev_close-remember :
      (item : Json) (g h : Holding Double) (s : State p)
      → g.code ≡ h.code
      → IsInt64 g.price
      → (z : ℤ) × ((choose_prev_close p item g (remember p h s).1).0 ≡ done z)
        × IsCloseOf
            (get_long_long_field p item prev_close_keys)
            (get_long_long_field p item daily_diff_keys)
            g.price
            (known_close (weekday s.clock_reads) h s.last_prev_close)
            z
  unfolding choose_prev_close pure
  choose_prev_close-remember item g h s same long =
      let direct = get_long_long_field p item prev_close_keys in
      let change = get_long_long_field p item daily_diff_keys in
      let fallback = fallback_prev_close-remember h s in
      elim (Bool-cases (is_positive direct)) [
        | inl d ↦ (direct, ground (arith, d), inl (d, refl))
        | inr d ↦ elim (Bool-cases (is_zero g.price || is_zero change)) [
          | inl c ↦ (
            known_close (weekday s.clock_reads) h s.last_prev_close,
            ground (arith, d, c, same, fallback),
            inr (inr (d, c, refl)),
          )
          | inr c ↦ (
            wrap64 (g.price -ℤ change),
            ground (arith, d, c),
            inr (inl (ground (arith, d, c), wrap64-sub_add g.price change long)),
          )
        ]
      ]
