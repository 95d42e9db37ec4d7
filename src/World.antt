-- ===== src/World.antt =====
-- The static state of the process (`Login::accessToken`, the static members of `Account`, the two
-- caches of Account.cpp), what it has written and sent, and the code that changes it: a call takes
-- the state and gives an outcome and the state after it, also where it throws.
pub mod Costs
pub mod Keeps
pub mod Sends
use stock_trading_bot_server.Prelude.{
  ℕ, suc, ◌+◌, ◌-◌, Bool, true, false, List, [], ◌∷◌, ◌++◌, Option, none, some, ℤ, if◌then◌else◌,
}
use stock_trading_bot_server.Text.{Text}
use stock_trading_bot_server.Text.Map.{Map, TextSet}
use stock_trading_bot_server.Outcome.{Outcome, done, thrown, Exception, parse_error}
use stock_trading_bot_server.Platform.{Platform, Request, Reply}

pub data LogLevel : Type 0 where
  normal info warning error count : LogLevel

-- struct Holding
pub record Holding (D : Type 0) : Type 0 where
  pub account : Text
  pub code : Text
  pub name : Text
  pub quantity : ℤ
  pub price : ℤ
  pub value : ℤ
  pub purchase_price : ℤ
  pub profit_loss : ℤ
  pub profit_rate : D
  pub prev_close_price : ℤ
  pub daily_profit_rate : D

-- struct TradeRecord
pub record TradeRecord : Type 0 where
  pub trade_date : Text
  pub trade_no : Text
  pub stock_code : Text
  pub stock_name : Text
  pub io_type : Text
  pub io_type_name : Text
  pub trade_qty : Text
  pub trade_amt : Text
  pub exct_amt : Text
  pub commission : Text
  pub tax_fee : Text
  pub trade_unit : Text
  pub proc_time : Text
  pub credit_deal_type_name : Text
  pub remark_name : Text

-- `journal` holds the calls of `Log::Output`, `sent` the requests performed, `inits` counts the
-- calls of `curl_easy_init`, `handles` and `header_lists` the curl objects that are not yet freed,
-- and `clock_reads` the readings of the local time.
pub record World (D : Type 0) : Type 0 where
  pub access_token : Text
  pub accounts : TextSet
  pub current_account : Text
  pub holdings : Map (Holding D)
  pub trade_history : List TradeRecord
  pub last_price : Map ℤ
  pub last_prev_close : Map ℤ
  pub journal : List (LogLevel × Text)
  pub sent : List Request
  pub inits : ℕ
  pub handles : ℕ
  pub header_lists : ℕ
  pub clock_reads : ℕ

module _ (p : Platform) where
  open p use {Double}

  abbrev pub State : Type 0
  State = World Double

  abbrev pub Code : Type 0 → Type 0
  Code A = State → Outcome A × State

module _ {S A : Type 0} where
  unfoldable pub pure : A → S → Outcome A × S
  pure a s = (done a, s)

  unfoldable pub throw : Exception → S → Outcome A × S
  throw e s = (thrown e, s)

  unfoldable pub lift : Outcome A → S → Outcome A × S
  lift r s = (r, s)

  -- A library call whose exception is of one kind.
  unfoldable pub lift_or : Exception → Option A → S → Outcome A × S
  lift_or e none s = (thrown e, s)
  lift_or e (some a) s = (done a, s)

  unfoldable pub gets : (S → A) → S → Outcome A × S
  gets f s = (done (f s), s)

  -- `catch (json::parse_error&)`: every other exception goes on.
  abbrev handle : (S → Outcome A × S) → Outcome A → S → Outcome A × S
  handle h (done a) s = (done a, s)
  handle h (thrown parse_error) s = h s
  handle h (thrown e) s = (thrown e, s)

  unfoldable pub catch_parse : (S → Outcome A × S) → (S → Outcome A × S) → S → Outcome A × S
  catch_parse m h s = let (r, s') = m s in handle h r s'

module _ {S : Type 0} where
  unfoldable pub update : (S → S) → S → Outcome (Unit {0}) × S
  update f s = (done tt, f s)

  unfoldable pub skip : S → Outcome (Unit {0}) × S
  skip s = (done tt, s)

module _ {S A B : Type 0} where
  abbrev pub continue : Outcome A → (A → S → Outcome B × S) → S → Outcome B × S
  continue (done a) f s = f a s
  continue (thrown e) f s = (thrown e, s)

  infixl 5 ◌>>=◌ ◌>>◌
  unfoldable pub ◌>>=◌ : (S → Outcome A × S) → (A → S → Outcome B × S) → S → Outcome B × S
  ◌>>=◌ m f s = let (r, s') = m s in continue r f s'

  abbrev pub ◌>>◌ : (S → Outcome A × S) → (S → Outcome B × S) → S → Outcome B × S
  m >> n = m >>= λ _. n

-- `for (x : xs) body(x)`
module _ {S A : Type 0} where
  unfoldable pub for_each : List A → (A → S → Outcome (Unit {0}) × S) → S → Outcome (Unit {0}) × S
  for_each [] body s = (done tt, s)
  for_each (x ∷ xs) body s = (body x >> for_each xs body) s

-- A loop that carries a local variable of its function.
module _ {S A B : Type 0} where
  unfoldable pub fold_each : List A → B → (B → A → S → Outcome B × S) → S → Outcome B × S
  fold_each [] b body s = (done b, s)
  fold_each (x ∷ xs) b body s = (body b x >>= λ b'. fold_each xs b' body) s
