-- ===== src/Account/Holdings/Enrich.antt =====
-- What the closes of the web server change in the map that is about to be published.
use stock_trading_bot_server.Prelude.{
  ◌≡◌, refl, inl, inr, Bool-cases, [], ◌∷◌, Option, none, some, ℤ, is_positive, map, if◌then◌else◌,
}
use stock_trading_bot_server.Text.{Text}
use stock_trading_bot_server.Text.Map.{Map, lookup}
use stock_trading_bot_server.Outcome.{Outcome, done}
use stock_trading_bot_server.Platform.{Platform}
use stock_trading_bot_server.World.{State, Holding, pure, update, continue, ◌>>=◌}
use stock_trading_bot_server.Account.Item.{daily_rate}
use stock_trading_bot_server.Account.Holdings.{
  Local, remember_both, with_close, enrich_found, enrich_one, enrich,
}

module _ (p : Platform) where
  open p use {Double}

  -- A holding with a positive close of the web server has this close and the daily rate to it.
  abbrev pub corrected_by : Option ℤ → Holding Double → Holding Double
  corrected_by none h = h
  corrected_by (some close) h =
      if is_positive close
      then record h { prev_close_price = close; daily_profit_rate = daily_rate p h.price close }
      else h

  abbrev pub corrected : Map ℤ → Text × Holding Double → Text × Holding Double
  corrected closes (key, h) = (key, corrected_by (lookup h.code closes) h)

  enrich_found-value :
      (h : Holding Double) (x : Option ℤ) (s : State p)
      → (enrich_found p h x s).0 ≡ done (corrected_by x h)
  unfolding enrich_found remember_both with_close pure update ◌>>=◌
  enrich_found-value h none s = refl
  enrich_found-value h (some close) s = elim (Bool-cases (is_positive close)) [
    | inl e ↦ rw e refl
    | inr e ↦ rw e refl
  ]

  after_done :
      {A B : Type 0} (r : Outcome A) (t : State p) (f : A → State p → Outcome B × State p) (a : A)
      (b : B)
      → r ≡ done a
      → ((t : State p) → (f a t).0 ≡ done b)
      → (continue r f t).0 ≡ done b
  after_done r t f a b e h = rw e (h t)

  -- The closes of the web server are merged into the whole map, without an exception: each holding
  -- with a positive close under its code gets this close and the daily rate to it, every other one
  -- stays as it was, and the keys and their order stay.
  pub enrich-corrected :
      (closes : Map ℤ) (local : Local p) (s : State p)
      → (enrich p closes local s).0 ≡ done (map (corrected closes) local)
  unfolding enrich enrich_one ◌>>=◌ pure
  enrich-corrected closes [] s = refl
  enrich-corrected closes ((key, h) ∷ rest) s =
      let x = lookup h.code closes in
      after_done (enrich_found p h x s).0 (enrich_found p h x s).1 _ (corrected_by x h) _
        (enrich_found-value h x s)
        λ t.
          after_done (enrich p closes rest t).0 (enrich p closes rest t).1 _
            (map (corrected closes) rest) _ (enrich-corrected closes rest t) λ u. refl
