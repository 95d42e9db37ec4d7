-- ===== src/Account/Fields.antt =====
-- Account.cpp: `GetLongLongField`, and the amounts of a holding's item.
pub mod RoundTrip
use stock_trading_bot_server.Prelude.{List, [], ◌∷◌, Option, none, some, ℤ, pos, if◌then◌else◌}
use stock_trading_bot_server.Text.{Text, is_empty}
use stock_trading_bot_server.Outcome.{Outcome, done, thrown}
use stock_trading_bot_server.Number.{stoll}
use stock_trading_bot_server.Platform.{Platform}
use stock_trading_bot_server.Utility.SignDigit.{get_sign_digit}

-- `if (!digits.empty()) x = std::stoll(digits);` for an `x` that is 0.
unfoldable pub amount_or_zero : Text → Outcome ℤ
amount_or_zero t =
    let digits = get_sign_digit t in if is_empty digits then done (pos 0) else stoll digits

-- A text candidate: one with no digits and one that `std::stoll` refuses are passed over.
unfoldable pub text_candidate : Option Text → Option ℤ
text_candidate none = none
text_candidate (some t) =
    let digits = get_sign_digit t in
    if is_empty digits then none else elim (stoll digits) [ done z ↦ some z | thrown e ↦ none ]

module _ (p : Platform) where
  open p use {
    Json, find, is_null, is_string, is_number_integer, is_number_float, get_text, get_integer,
    get_double, to_integer,
  }

  unfoldable pub value_candidate : Json → Option ℤ
  value_candidate v =
      if is_null v
      then none
      else if is_number_integer v
      then some (get_integer v)
      else if is_number_float v
      then some (to_integer (get_double v))
      else if is_string v
      then text_candidate (get_text v)
      else none

  unfoldable pub candidate : Json → Text → Option ℤ
  candidate item key = elim (find item key) [ none ↦ none | some v ↦ value_candidate v ]

  unfoldable pub get_long_long_field : Json → List Text → ℤ
  get_long_long_field item [] = pos 0
  get_long_long_field item (key ∷ keys) =
      let rest = get_long_long_field item keys in
      elim (candidate item key) [ none ↦ rest | some z ↦ z ]
