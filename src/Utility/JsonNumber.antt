-- ===== src/Utility/JsonNumber.antt =====
-- TradingCore/Utility/Convert.cpp: `Convert::JsonToLong` and `Convert::JsonToDouble`, whose
-- `catch (...)` answers 0.
use stock_trading_bot_server.Prelude.{
  ◌≡◌, refl, true, false, Option, none, some, ℤ, pos, if◌then◌else◌,
}
use stock_trading_bot_server.Prelude.Int.{IsInt64}
use stock_trading_bot_server.Text.{Text, is_empty}
use stock_trading_bot_server.Outcome.{Outcome, done, thrown, type_error, catch_all}
use stock_trading_bot_server.Number.{stoll, print_int}
use stock_trading_bot_server.Number.RoundTrip.{stoll-print_int, is_empty-print_int}
use stock_trading_bot_server.Platform.{Platform}

-- `if (s.empty()) return 0; return std::stol(s);` after `get<std::string>`.
unfoldable pub text_to_long : Option Text → Outcome ℤ
text_to_long none = thrown type_error
text_to_long (some s) = if is_empty s then done (pos 0) else stoll s

module _ (p : Platform) where
  open p use {
    Json, Double, find, is_string, is_number, is_number_integer, get_text, get_integer, get_double,
    stod, zero_double,
  }

  unfoldable pub value_to_long : Json → Outcome ℤ
  value_to_long v =
      if is_string v
      then text_to_long (get_text v)
      else if is_number_integer v
      then done (get_integer v)
      else done (pos 0)

  abbrev entry_to_long : Option Json → ℤ
  entry_to_long none = pos 0
  entry_to_long (some v) = catch_all (pos 0) (value_to_long v)

  unfoldable pub json_to_long : Json → Text → ℤ
  json_to_long j key = entry_to_long (find j key)

  -- `none` is an exception of `get<std::string>` or of `std::stod`.
  unfoldable pub text_to_double : Option Text → Option Double
  text_to_double none = none
  text_to_double (some s) = if is_empty s then some zero_double else stod s

  unfoldable pub value_to_double : Json → Option Double
  value_to_double v =
      if is_string v
      then text_to_double (get_text v)
      else if is_number v
      then some (get_double v)
      else some zero_double

  abbrev or_zero : Option Double → Double
  or_zero none = zero_double
  or_zero (some d) = d

  abbrev entry_to_double : Option Json → Double
  entry_to_double none = zero_double
  entry_to_double (some v) = or_zero (value_to_double v)

  unfoldable pub json_to_double : Json → Text → Double
  json_to_double j key = entry_to_double (find j key)

  -- A `long` that stands in a JSON object as its decimal text or as a number is read back.
  pub json_to_long_lem :
      (j v : Json) (key : Text) (z : ℤ)
      → IsInt64 z
      → find j key ≡ some v
      → (is_string v ≡ true → get_text v ≡ some (print_int z) → json_to_long j key ≡ z)
        × (is_string v ≡ false
            → is_number_integer v ≡ true
            → get_integer v ≡ z
            → json_to_long j key ≡ z)
  unfolding json_to_long value_to_long text_to_long
  json_to_long_lem j v key z bounded found = (
    (λ s t. rw (found, s, t, is_empty-print_int z, stoll-print_int z bounded) refl),
    (λ s i e. rw (found, s, i, e) refl),
  )
