-- ===== src/Tests/TextRuns.antt =====
-- The cleaning of amounts, header lines and processing times.
use stock_trading_bot_server.Prelude.{
  filter, replicate, length, ◌-◌, ◌≡◌, refl, ◌≢◌, [], ◌∷◌, ◌++◌, arith, false, true, All, take,
}
use stock_trading_bot_server.Text.{Text, codes, is_digit}
use stock_trading_bot_server.Outcome.{thrown, invalid_argument}
use stock_trading_bot_server.Number.{stoll, in_range}
use stock_trading_bot_server.Utility.SignDigit.{
  is_sign, get_sign_digit, digits_of, amount_from, stoll-get_sign_digit, stoll-get_sign_digit_bare,
  stoll-get_sign_digit_unsigned,
}
use stock_trading_bot_server.Utility.Convert.{get_json_data, get_json_data_lem}
use stock_trading_bot_server.Account.Trades.Time.{
  IsClock, format_proc_time, pad_six, with_colons, format_proc_time-IsClock,
}

abbrev currency : Text
currency = codes "KRW "

abbrev amount : Text
amount = codes "1,500"

amount-cleaned : get_sign_digit (codes "KRW -1,500") ≡ codes "-1500"
unfolding get_sign_digit codes
amount-cleaned = refl

has_digits : digits_of amount ≢ []
unfolding digits_of codes
has_digits e = cc

currency-IsJunk : All (λ c. (is_sign c ≡ false) × (is_digit c ≡ false)) currency
unfolding codes
currency-IsJunk = ((refl, refl), ((refl, refl), ((refl, refl), ((refl, refl), tt))))

stoll-get_sign_digit_example :
    (stoll (get_sign_digit (currency ++ (b'-' ∷ amount))) ≡ in_range true 1500)
    × (stoll (get_sign_digit (currency ++ (b'+' ∷ amount))) ≡ in_range false 1500)
unfolding amount_from codes
stoll-get_sign_digit_example = stoll-get_sign_digit currency amount currency-IsJunk has_digits

stoll-get_sign_digit_bare_example :
    (get_sign_digit (currency ++ (b'-' ∷ codes "n/a")) ≡ b'-' ∷ [])
    × (stoll (get_sign_digit (currency ++ (b'-' ∷ codes "n/a"))) ≡ thrown invalid_argument)
unfolding digits_of codes
stoll-get_sign_digit_bare_example =
    stoll-get_sign_digit_bare currency (codes "n/a") currency-IsJunk refl

amount-IsSignFree : All (λ c. is_sign c ≡ false) amount
unfolding codes
amount-IsSignFree = (refl, (refl, (refl, (refl, (refl, tt)))))

stoll-get_sign_digit_unsigned_example : stoll (get_sign_digit amount) ≡ in_range false 1500
unfolding amount_from codes
stoll-get_sign_digit_unsigned_example =
    stoll-get_sign_digit_unsigned amount has_digits amount-IsSignFree

no_colon : All (λ d. d ≢ b':') (codes "cont-yn")
unfolding codes
no_colon = omega arith

get_json_data_lem_example :
    (get_json_data (codes "cont-yn" ++ (b':' ∷ codes " Y"))
      ≡ record { key = codes "cont-yn"; value = codes " Y" })
    × (get_json_data (codes "cont-yn") ≡ record { key = []; value = [] })
get_json_data_lem_example = get_json_data_lem (codes "cont-yn") (codes " Y") no_colon

clock_digits : filter is_digit (codes "9:30:00") ≢ []
unfolding codes
clock_digits e = cc

format_proc_time-IsClock_example :
    IsClock (format_proc_time (codes "9:30:00"))
    × (filter is_digit (format_proc_time (codes "9:30:00"))
        ≡ take 6 (
            replicate (6 - length (filter is_digit (codes "9:30:00"))) b'0'
            ++ filter is_digit (codes "9:30:00")))
format_proc_time-IsClock_example = format_proc_time-IsClock (codes "9:30:00") clock_digits

early : format_proc_time (codes "9:30:00") ≡ codes "09:30:00"
unfolding format_proc_time pad_six with_colons digits_of codes
early = refl
