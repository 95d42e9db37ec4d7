-- ===== src/Number.antt =====
-- `std::stoll`, `std::stol` (a `long` has 64 bits) and the printing of an integer.
pub mod RoundTrip
use stock_trading_bot_server.Prelude.{
  ℕ, zero, suc, ◌+◌, ◌-◌, ◌*◌, ◌/◌, ◌%◌, ◌^◌, Bool, true, false, ◌&&◌, ◌||◌, [], ◌∷◌, ◌++◌, ℤ, pos,
  negsuc, ltb, leb, ◌==◌, if◌then◌else◌,
}
use stock_trading_bot_server.Prelude.Int.{sub_ℕ}
use stock_trading_bot_server.Text.{Text, is_digit}
use stock_trading_bot_server.Outcome.{Outcome, done, thrown, invalid_argument, out_of_range}

-- The value of the digits at the front of a text, after a number already read.
unfoldable pub leading_value : ℕ → Text → ℕ
leading_value n [] = n
leading_value n (c ∷ t) =
    let rest = leading_value (n * 10 + (c - b'0')) t in if is_digit c then rest else n

abbrev pub starts_with_digit : Text → Bool
starts_with_digit [] = false
starts_with_digit (c ∷ t) = is_digit c

-- The range of `long long`.
unfoldable pub in_range : Bool → ℕ → Outcome ℤ
in_range true n = if leb n (2 ^ 63) then done (sub_ℕ 0 n) else thrown out_of_range
in_range false n = if ltb n (2 ^ 63) then done (pos n) else thrown out_of_range

abbrev pub unsigned_part : Bool → Text → Outcome ℤ
unsigned_part minus t =
    if starts_with_digit t then in_range minus (leading_value 0 t) else thrown invalid_argument

abbrev is_space : ℕ → Bool
is_space c = c == b' ' || (leb 9 c && leb c 13)

unfoldable pub stoll : Text → Outcome ℤ
stoll [] = thrown invalid_argument
stoll (c ∷ t) =
    let rest = stoll t in
    if is_space c
    then rest
    else if c == b'-'
    then unsigned_part true t
    else if c == b'+'
    then unsigned_part false t
    else unsigned_part false (c ∷ t)

-- The decimal digits of a number, on fuel above it.
unfoldable pub print_fuel : ℕ → ℕ → Text
print_fuel zero n = []
print_fuel (suc f) n =
    let front = print_fuel f (n / 10) in
    if ltb n 10 then (b'0' + n) ∷ [] else front ++ ((b'0' + n % 10) ∷ [])

-- `std::to_string` and `<<` of an integer.
unfoldable pub print_int : ℤ → Text
unfolding print_fuel
print_int (pos n) = print_fuel (suc n) n
print_int (negsuc n) = b'-' ∷ print_fuel (suc (suc n)) (suc n)
