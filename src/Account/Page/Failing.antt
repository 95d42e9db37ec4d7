-- ===== src/Account/Page/Failing.antt =====
-- A page that is asked from a server that cannot be reached, or that refuses.
use stock_trading_bot_server.Prelude.{ℕ, ◌≡◌, refl, true, false, List, arith, ◌==◌}
use stock_trading_bot_server.Text.{Text}
use stock_trading_bot_server.Outcome.{Outcome, done}
use stock_trading_bot_server.Platform.{Platform, Request, failed, received}
use stock_trading_bot_server.World.{State, LogLevel, pure, update, continue, ◌>>=◌}
use stock_trading_bot_server.Curl.{
  output, easy_init, slist_append_all, slist_free_all, easy_cleanup, easy_perform,
}
use stock_trading_bot_server.Account.Page.{no_page, bad_status, release, check_reply, fetch_page}

-- Every transfer fails.
abbrev pub IsOffline : Platform → Type 0
IsOffline p = (history : List Request) (r : Request) → (m : Text) × (p.answer history r ≡ failed m)

-- Every answer has a status other than 200.
abbrev pub IsRefusing : Platform → Type 0
IsRefusing p =
    (history : List Request) (r : Request)
    → (status : ℕ) × (chunks : List Text) × (headers : List Text) × (p.answer history r
        ≡ received status chunks headers)
      × ((status == 200) ≡ false)

module _ (p : Platform) where
  -- The call gives this value and leaves what is published alone.
  abbrev pub Gives : {A : Type 0} → A → (State p → Outcome A × State p) → Type 0
  Gives a m =
      (s : State p)
      → ((m s).0 ≡ done a)
        × ((m s).1.holdings ≡ s.holdings)
        × ((m s).1.trade_history ≡ s.trade_history)

  pub Gives-bind :
      {A B : Type 0} (a : A) (b : B) (m : State p → Outcome A × State p)
      (f : A → State p → Outcome B × State p)
      → Gives a m
      → Gives b (f a)
      → Gives b (m >>= f)
  unfolding ◌>>=◌
  Gives-bind a b m f h k s = ground (arith, h s, k (m s).1)

  pub fetch-offline : IsOffline p → (m n : Text) (r : Request) → Gives no_page (fetch_page p m n r)
  unfolding fetch_page ◌>>=◌ easy_init slist_append_all easy_perform check_reply output update pure
      release slist_free_all easy_cleanup
  fetch-offline off m n r s = let (e, k) = off s.sent r in ground (arith, k)

  pub fetch-refusing :
      IsRefusing p
      → ((n : ℕ) → p.init_ok n ≡ true)
      → (m n : Text) (r : Request) → Gives bad_status (fetch_page p m n r)
  unfolding fetch_page ◌>>=◌ easy_init slist_append_all easy_perform check_reply output update pure
      release slist_free_all easy_cleanup
  fetch-refusing bad ready m n r s =
      let (status, chunks, headers, e, k) = bad s.sent r in ground (arith, e, k, ready s.inits)

  pub Gives-output : (level : LogLevel) (m : Text) → Gives tt (output p level m)
  unfolding output update
  Gives-output level m s = (refl, refl, refl)

  -- What follows a call that gives `a`.
  pub bind-after :
      {A B : Type 0} (a : A) (b : B) (P : State p → Type 0) (m : State p → Outcome A × State p)
      (f : A → State p → Outcome B × State p)
      → Gives a m
      → ((s : State p) → ((f a s).0 ≡ done b) × P (f a s).1)
      → (s : State p) → (((m >>= f) s).0 ≡ done b) × P ((m >>= f) s).1
  unfolding ◌>>=◌
  bind-after {A} a b P m f h k s = go (m s).0 (m s).1 (h s).0
    where
      go :
          (r : Outcome A) (t : State p)
          → r ≡ done a
          → ((continue r f t).0 ≡ done b) × P (continue r f t).1
      go r t e = rw e (k t)
