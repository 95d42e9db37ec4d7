-- ===== src/Account/Fields/RoundTrip.antt =====
-- Account.cpp: the amounts that are printed as integers.
use stock_trading_bot_server.Prelude.{◌≡◌, refl, ap, [], ◌∷◌, ℤ, pos, negsuc, suc, arith}
use stock_trading_bot_server.Prelude.Int.{IsInt64}
use stock_trading_bot_server.Text.{Text}
use stock_trading_bot_server.Outcome.{done}
use stock_trading_bot_server.Number.{print_int}
use stock_trading_bot_server.Number.RoundTrip.{
  AreDigits, print_fuel-AreDigits, stoll-print_int, is_empty-print_int,
}
use stock_trading_bot_server.Utility.SignDigit.{
  IsSignFree, digits_of, get_sign_digit, get_sign_digit-signed, get_sign_digit-unsigned,
}
use stock_trading_bot_server.Account.Fields.{amount_or_zero}

digits-IsSignFree : (t : Text) → AreDigits t → IsSignFree t
digits-IsSignFree [] h = tt
digits-IsSignFree (c ∷ t) (h, hs) = (ground arith, digits-IsSignFree t hs)

digits_of-digits : (t : Text) → AreDigits t → digits_of t ≡ t
unfolding digits_of
digits_of-digits [] h = refl
digits_of-digits (c ∷ t) (h, hs) = rw h (ap (◌∷◌ c) (digits_of-digits t hs))

get_sign_digit-print_int : (z : ℤ) → get_sign_digit (print_int z) ≡ print_int z
unfolding print_int
get_sign_digit-print_int (pos n) =
    let digits = print_fuel-AreDigits (suc n) n in
    get_sign_digit-unsigned _ (digits-IsSignFree _ digits) (digits_of-digits _ digits)
get_sign_digit-print_int (negsuc n) =
    get_sign_digit-signed _ (digits_of-digits _ (print_fuel-AreDigits (suc (suc n)) (suc n)))

-- The amount of an item that is the decimal text of an integer in the range of `long long`, negative
-- ones included, is read as that integer, and not as 0 and without an exception.
pub amount_or_zero-print_int : (z : ℤ) → IsInt64 z → amount_or_zero (print_int z) ≡ done z
unfolding amount_or_zero
amount_or_zero-print_int z bounded =
    rw (get_sign_digit-print_int z, is_empty-print_int z) (stoll-print_int z bounded)
