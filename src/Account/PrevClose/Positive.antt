-- ===== src/Account/PrevClose/Positive.antt =====
-- The prices that are read from the web server's answer.
use stock_trading_bot_server.Prelude.{
  ◌≡◌, inl, inr, true, Bool-cases, if◌then◌else◌, not, ◌||◌, ◌==◌, List, [], ◌∷◌, Option, none,
  some, ℤ, is_positive, All,
}
use stock_trading_bot_server.Text.{Text, is_empty}
use stock_trading_bot_server.Text.Map.{Map, All-insert, IsSorted, insert-IsSorted}
use stock_trading_bot_server.Outcome.{Outcome, done, thrown, catch_all}
use stock_trading_bot_server.Outcome
use stock_trading_bot_server.Platform.{Platform, Reply, failed, received}
use stock_trading_bot_server.Curl.{received_by, write_callback}
use stock_trading_bot_server.Account.PrevClose.{
  read_price, keep_price, collect_entry, collect, read_prices, prices_of_reply,
}

-- A map in the order of its keys with positive prices only.
abbrev pub IsPriceMap : Map ℤ → Type 0
IsPriceMap m = IsSorted m × All (λ e. is_positive e.1 ≡ true) m

abbrev IsPriceMapIf : Outcome (Map ℤ) → Type 0
IsPriceMapIf (done m) = IsPriceMap m
IsPriceMapIf (thrown e) = Unit

module _ (p : Platform) where
  open p use {Json, entries, parse, is_object, is_null}

  keep_price-IsPriceMap :
      (code : Text) (price : ℤ) (m : Map ℤ) → IsPriceMap m → IsPriceMap (keep_price p code price m)
  unfolding keep_price
  keep_price-IsPriceMap code price m (s, a) = elim (Bool-cases (is_positive price)) [
    | inl e ↦
        rw e (
          insert-IsSorted code price m s,
          All-insert (λ x. is_positive x.1 ≡ true) code price m e a,
        )
    | inr e ↦ rw e (s, a)
  ]

  collect_entry-IsPriceMap :
      (e : Option Text × Json) (m : Map ℤ) → IsPriceMap m → IsPriceMapIf (collect_entry p e m)
  unfolding collect_entry
  collect_entry-IsPriceMap (none, v) m h = tt
  collect_entry-IsPriceMap (some code, v) m h = elim (Bool-cases (is_empty code || is_null v)) [
    | inl e ↦ rw e h
    | inr e ↦ rw e (go (read_price p v))
  ]
    where
      go :
          (r : Outcome ℤ)
          → IsPriceMapIf (Outcome.◌>>=◌ r (λ price. done (keep_price p code price m)))
      go (done price) = keep_price-IsPriceMap code price m h
      go (thrown x) = tt

  after :
      (r : Outcome (Map ℤ)) (f : Map ℤ → Outcome (Map ℤ))
      → IsPriceMapIf r
      → ((m : Map ℤ) → IsPriceMap m → IsPriceMapIf (f m))
      → IsPriceMapIf (Outcome.◌>>=◌ r f)
  after (done m) f h k = k m h
  after (thrown x) f h k = tt

  collect-IsPriceMap :
      (es : List (Option Text × Json)) (m : Map ℤ) → IsPriceMap m → IsPriceMapIf (collect p es m)
  unfolding collect
  collect-IsPriceMap [] m h = h
  collect-IsPriceMap (e ∷ es) m h =
      after (collect_entry p e m) (collect p es) (collect_entry-IsPriceMap e m h)
        λ m' k. collect-IsPriceMap es m' k

  caught : (r : Outcome (Map ℤ)) → IsPriceMapIf r → IsPriceMap (catch_all [] r)
  caught (done m) h = h
  caught (thrown e) h = (tt, tt)

  read_prices-IsPriceMap : (body : Text) → IsPriceMap (read_prices p body)
  unfolding read_prices
  read_prices-IsPriceMap body = go (parse body)
    where
      go :
          (x : Option Json)
          → IsPriceMap (elim x [
            | none ↦ []
            | some response ↦
                if is_object response then catch_all [] (collect p (entries response) []) else []
          ])
      go none = (tt, tt)
      go (some response) = elim (Bool-cases (is_object response)) [
        | inl e ↦ rw e (caught _ (collect-IsPriceMap (entries response) [] (tt, tt)))
        | inr e ↦ rw e (tt, tt)
      ]

  -- Whatever the web server answers, also a failed transfer, a status other than 200 or a text that is
  -- no JSON object, the closes that are read form a map with its keys in order and positive prices only.
  pub prices_of_reply-IsPriceMap : (reply : Reply) → IsPriceMap (prices_of_reply p reply)
  unfolding prices_of_reply
  prices_of_reply-IsPriceMap (failed message) = (tt, tt)
  prices_of_reply-IsPriceMap (received status chunks headers) =
      let body = received_by write_callback [] chunks in
      elim (Bool-cases (not (status == 200) || is_empty body)) [
        | inl e ↦ rw e (tt, tt)
        | inr e ↦ rw e (read_prices-IsPriceMap body)
      ]
