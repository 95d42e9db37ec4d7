-- ===== src/Number/RoundTrip.antt =====
-- Printing an integer and reading it back.
use stock_trading_bot_server.Prelude.{
  ℕ, zero, suc, ◌+◌, ◌-◌, ◌*◌, ◌/◌, ◌%◌, ◌≤◌, ◌<◌, ◌≡◌, refl, ◌∙◌, true, false, inl, inr,
  Bool-cases, [], ◌∷◌, ◌++◌, ℤ, pos, negsuc, arith, ltb, All, All-append, length, length-append,
}
use stock_trading_bot_server.Prelude.Int.{IsInt64}
use stock_trading_bot_server.Text.{Text, is_digit, is_empty}
use stock_trading_bot_server.Outcome.{done}
use stock_trading_bot_server.Number.{leading_value, in_range, stoll, print_fuel, print_int}

abbrev pub AreDigits : Text → Type 0
AreDigits = All (λ c. is_digit c ≡ true)

-- The last digit of a number is read last.
leading_value-snoc :
    (n : ℕ) (t : Text) (c : ℕ)
    → AreDigits t
    → is_digit c ≡ true
    → leading_value n (t ++ (c ∷ [])) ≡ leading_value n t * 10 + (c - b'0')
unfolding leading_value
leading_value-snoc n [] c h k = ground arith
leading_value-snoc n (d ∷ t) c (h, hs) k =
    ground (arith, leading_value-snoc (n * 10 + (d - b'0')) t c hs k)

pub print_fuel-AreDigits : (f n : ℕ) → AreDigits (print_fuel f n)
unfolding print_fuel
print_fuel-AreDigits zero n = tt
print_fuel-AreDigits (suc f) n = elim (Bool-cases (ltb n 10)) [
  | inl e ↦ rw e (ground arith, tt)
  | inr e ↦
      rw e (
        All-append _ (print_fuel f (n / 10)) _ (print_fuel-AreDigits f (n / 10)) (ground arith, tt))
]

leading_value-print_fuel : (f n : ℕ) → n < f → leading_value 0 (print_fuel f n) ≡ n
unfolding print_fuel leading_value
leading_value-print_fuel zero n h = absurd (omega arith)
leading_value-print_fuel (suc f) n h = elim (Bool-cases (ltb n 10)) [
  | inl e ↦ rw e (ground arith)
  | inr e ↦ rw e (
      leading_value-snoc 0 (print_fuel f (n / 10)) (b'0' + n % 10) (print_fuel-AreDigits f (n / 10))
        (ground arith)
      ∙ ground (arith, leading_value-print_fuel f (n / 10)))
]

length-print_fuel : (f n : ℕ) → 1 ≤ length (print_fuel (suc f) n)
unfolding print_fuel
length-print_fuel f n = elim (Bool-cases (ltb n 10)) [
  | inl e ↦ rw e (omega arith)
  | inr e ↦ rw e (omega (arith, length-append (print_fuel f (n / 10)) ((b'0' + n % 10) ∷ [])))
]

stoll-digits :
    (t : Text)
    → AreDigits t
    → 1 ≤ length t
    → (stoll t ≡ in_range false (leading_value 0 t))
      × (stoll (b'-' ∷ t) ≡ in_range true (leading_value 0 t))
unfolding stoll
stoll-digits [] h k = absurd (omega arith)
stoll-digits (c ∷ t) (h, hs) k = ground arith

-- A number of the range of `long long` is read back from its decimal text.
pub stoll-print_int : (z : ℤ) → IsInt64 z → stoll (print_int z) ≡ done z
unfolding print_int
stoll-print_int (pos n) h =
    let digits = print_fuel (suc n) n in
    let (read, _) = stoll-digits digits (print_fuel-AreDigits (suc n) n) (length-print_fuel n n) in
    read ∙ rw (leading_value-print_fuel (suc n) n (omega arith)) (unfold in_range in ground arith)
stoll-print_int (negsuc n) h =
    let digits = print_fuel (suc (suc n)) (suc n) in
    let (_, read) =
      stoll-digits digits (print_fuel-AreDigits (suc (suc n)) (suc n))
        (length-print_fuel (suc n) (suc n)) in
    read
    ∙ rw (leading_value-print_fuel (suc (suc n)) (suc n) (omega arith))
        (unfold in_range in ground arith)

is_empty-length : (t : Text) → 1 ≤ length t → is_empty t ≡ false
is_empty-length [] h = absurd (omega arith)
is_empty-length (c ∷ t) h = refl

pub is_empty-print_int : (z : ℤ) → is_empty (print_int z) ≡ false
unfolding print_int
is_empty-print_int (pos n) = is_empty-length (print_fuel (suc n) n) (length-print_fuel n n)
is_empty-print_int (negsuc n) = refl
