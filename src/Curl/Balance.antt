-- ===== src/Curl/Balance.antt =====
-- The curl handles and the header lists that the single calls of libcurl take and give back.
use stock_trading_bot_server.Prelude.{ℕ, refl, Bool, true, false, arith, if◌then◌else◌}
use stock_trading_bot_server.Platform.{Platform, Request}
use stock_trading_bot_server.World.{World, Code, update, ◌>>=◌}
use stock_trading_bot_server.Outcome.{Outcome}
use stock_trading_bot_server.World.Keeps.{Keeps, Keeps-update}
use stock_trading_bot_server.World.Costs.{SameCurl, Costs, Costs-Keeps, Costs-bind}
use stock_trading_bot_server.Curl.{
  output, easy_init, slist_append_all, slist_free_all, easy_cleanup, easy_perform,
}
use stock_trading_bot_server.Curl.Plumbing.{KeepsLog}

abbrev pub one_if : Bool → ℕ
one_if true = 1
one_if false = 0

abbrev pub none_left : {A : Type 0} → A → ℕ
none_left a = 0

abbrev pub one_left : {A : Type 0} → A → ℕ
one_left a = 1

module _ {D A : Type 0} {m : World D → Outcome A × World D} (k : Keeps SameCurl m) where
  -- Where nothing is open, a handle is, and a handle with its header list.
  pub Costs-closed : Costs 0 0 none_left none_left m
  Costs-closed = Costs-Keeps 0 0 (omega arith) (omega arith) k

  pub Costs-half : Costs 1 0 one_left none_left m
  Costs-half = Costs-Keeps 1 0 (omega arith) (omega arith) k

  pub Costs-open : Costs 1 1 one_left one_left m
  Costs-open = Costs-Keeps 1 1 (omega arith) (omega arith) k

module _ (p : Platform) where
  pub KeepsLog-SameCurl : KeepsLog p SameCurl
  unfolding output
  KeepsLog-SameCurl level message = Keeps-update _ λ s. (refl, refl)

  pub Keeps-perform : (r : Request) → Keeps SameCurl (easy_perform p r)
  unfolding easy_perform
  Keeps-perform r = record { at = λ s. (refl, refl) }

  pub Costs-init : Costs 0 0 one_if none_left (easy_init p)
  unfolding easy_init
  Costs-init = record { at = λ s n c e e'. (ground (arith, e), e') }

  pub Costs-append : Costs 1 0 one_left one_left (slist_append_all p)
  unfolding slist_append_all update
  Costs-append = record { at = λ s n c e e'. (e, omega (arith, e')) }

  pub Costs-free : Costs 1 1 one_left none_left (slist_free_all p)
  unfolding slist_free_all update
  Costs-free = record { at = λ s n c e e'. (e, omega (arith, e')) }

  pub Costs-cleanup : Costs 1 0 none_left none_left (easy_cleanup p)
  unfolding easy_cleanup update
  Costs-cleanup = record { at = λ s n c e e'. (omega (arith, e), e') }

  branch :
      {A : Type 0} {k l : A → ℕ} {m n : Code p A}
      → Costs 1 0 k l m
      → Costs 0 0 k l n
      → (ready : Bool) → Costs (one_if ready) 0 k l (if ready then m else n)
  branch hm hn true = hm
  branch hm hn false = hn

  -- `if (curl == nullptr)` behind `curl_easy_init`.
  pub Costs-ready :
      {A : Type 0} {k l : A → ℕ} {m n : Code p A}
      → Costs 1 0 k l m
      → Costs 0 0 k l n
      → Costs 0 0 k l (easy_init p >>= λ ready. if ready then m else n)
  Costs-ready hm hn = Costs-bind Costs-init (branch hm hn)
