-- ===== src/Utility/SignDigit.antt =====
-- TradingCore/Utility/String.cpp: `String::GetSignDigit`, and what `std::stoll` reads from it.
use stock_trading_bot_server.Prelude.{
  ℕ, ◌≡◌, refl, ◌∙◌, ap, ◌≢◌, Bool, true, false, not, ◌&&◌, ◌||◌, [], ◌∷◌, ◌++◌, arith, ◌==◌, ◌+◌,
  ◌-◌, ◌*◌, if◌then◌else◌, All,
}
use stock_trading_bot_server.Text.{Text, is_digit}
use stock_trading_bot_server.Outcome.{thrown, invalid_argument}
use stock_trading_bot_server.Number.{leading_value, in_range, stoll}

abbrev pub is_sign : ℕ → Bool
is_sign c = c == b'-' || c == b'+'

-- What one round of the loop pushes onto `out`.
abbrev pub pushed : Bool → ℕ → Text
pushed seen_sign c =
    if not seen_sign && is_sign c
    then (if c == b'-' then c ∷ [] else [])
    else if is_digit c
    then c ∷ []
    else []

-- The loop over the input from the state of `seenSign`.
unfoldable pub sign_digit_loop : Bool → Text → Text
sign_digit_loop seen_sign [] = []
sign_digit_loop seen_sign (c ∷ t) = pushed seen_sign c ++ sign_digit_loop (seen_sign || is_sign c) t

unfoldable pub get_sign_digit : Text → Text
unfolding sign_digit_loop
get_sign_digit = sign_digit_loop false

-- The digits of a text, whatever stands between them.
unfoldable pub digits_of : Text → Text
digits_of [] = []
digits_of (c ∷ t) = let rest = digits_of t in if is_digit c then c ∷ rest else rest

-- The number that the digits of a text spell, read after the number `n`.
unfoldable pub amount_from : ℕ → Text → ℕ
amount_from n [] = n
amount_from n (c ∷ t) = amount_from (if is_digit c then n * 10 + (c - b'0') else n) t

abbrev pub IsSignFree : Text → Type 0
IsSignFree = All (λ c. is_sign c ≡ false)

abbrev pub IsJunk : Text → Type 0
IsJunk = All (λ c. (is_sign c ≡ false) × (is_digit c ≡ false))

loop-seen : (t : Text) → sign_digit_loop true t ≡ digits_of t
unfolding sign_digit_loop digits_of
loop-seen [] = refl
loop-seen (c ∷ t) = ground (arith, loop-seen t)

loop-sign_free : (t : Text) → IsSignFree t → sign_digit_loop false t ≡ digits_of t
unfolding sign_digit_loop digits_of
loop-sign_free [] h = refl
loop-sign_free (c ∷ t) (h, k) = ground (arith, loop-sign_free t k)

loop-junk : (u t : Text) → IsJunk u → sign_digit_loop false (u ++ t) ≡ sign_digit_loop false t
unfolding sign_digit_loop
loop-junk [] t h = refl
loop-junk (c ∷ u) t (h, k) = ground (arith, loop-junk u t k)

leading_value-digits_of : (n : ℕ) (t : Text) → leading_value n (digits_of t) ≡ amount_from n t
unfolding leading_value digits_of amount_from
leading_value-digits_of n [] = refl
leading_value-digits_of n (c ∷ t) =
    ground (arith, leading_value-digits_of n t, leading_value-digits_of (n * 10 + (c - b'0')) t)

-- The first character of a text of digits is one.
digits_of-first :
    (t : Text)
    → digits_of t ≢ []
    → stoll (b'-' ∷ digits_of t) ≡ in_range true (leading_value 0 (digits_of t))
unfolding digits_of stoll
digits_of-first [] h = absurd (h refl)
digits_of-first (c ∷ t) h = ground (arith, digits_of-first t)

stoll-digits_of :
    (t : Text)
    → digits_of t ≢ []
    → stoll (digits_of t) ≡ in_range false (leading_value 0 (digits_of t))
unfolding digits_of stoll
stoll-digits_of [] h = absurd (h refl)
stoll-digits_of (c ∷ t) h = ground (arith, stoll-digits_of t)

-- An amount with a sign: junk before the sign is dropped, and so is all but the digits behind it.
module _ (u t : Text) (junk : IsJunk u) where
  -- What `std::stoll` reads from the cleaned text of an amount that has a digit behind its sign, where
  -- only characters that are neither digit nor sign stand before the sign: a `-` gives minus the
  -- number that the digits after it spell and a `+` gives that number, where a number outside
  -- `long long` is `out_of_range`. Whatever else stands among the digits is skipped.
  pub stoll-get_sign_digit :
      digits_of t ≢ []
      → (stoll (get_sign_digit (u ++ (b'-' ∷ t))) ≡ in_range true (amount_from 0 t))
        × (stoll (get_sign_digit (u ++ (b'+' ∷ t))) ≡ in_range false (amount_from 0 t))
  unfolding get_sign_digit
  stoll-get_sign_digit some_digit = (
    rw (
      loop-junk u (b'-' ∷ t) junk,
      loop-seen t,
      digits_of-first t some_digit,
      leading_value-digits_of 0 t,
    ),
    rw (
      loop-junk u (b'+' ∷ t) junk,
      loop-seen t,
      stoll-digits_of t some_digit,
      leading_value-digits_of 0 t,
    ),
  )

  -- A `-` with no digit behind it is kept, so the cleaned text is not empty, and `std::stoll` throws
  -- `invalid_argument` on it.
  pub stoll-get_sign_digit_bare :
      digits_of t ≡ []
      → (get_sign_digit (u ++ (b'-' ∷ t)) ≡ b'-' ∷ [])
        × (stoll (get_sign_digit (u ++ (b'-' ∷ t))) ≡ thrown invalid_argument)
  unfolding get_sign_digit stoll
  stoll-get_sign_digit_bare none_left =
      rw (loop-junk u (b'-' ∷ t) junk, loop-seen t, none_left) (refl, refl)

-- `std::stoll` reads from the cleaned text of an amount that has a digit and no sign the number that
-- its digits spell, or `out_of_range`, whatever else stands among them.
pub stoll-get_sign_digit_unsigned :
    (t : Text)
    → digits_of t ≢ []
    → IsSignFree t
    → stoll (get_sign_digit t) ≡ in_range false (amount_from 0 t)
unfolding get_sign_digit
stoll-get_sign_digit_unsigned t some_digit free =
    rw (loop-sign_free t free, stoll-digits_of t some_digit, leading_value-digits_of 0 t)

loop-digits_of : (s : Bool) (t : Text) → sign_digit_loop s (digits_of t) ≡ digits_of t
unfolding sign_digit_loop digits_of
loop-digits_of s [] = refl
loop-digits_of s (c ∷ t) = ground (arith, loop-digits_of s t)

loop_idem : (t : Text) → sign_digit_loop false (sign_digit_loop false t) ≡ sign_digit_loop false t
unfolding sign_digit_loop
loop_idem [] = refl
loop_idem (c ∷ t) =
    ground (arith, loop_idem t, loop-seen t, loop-digits_of true t, loop-digits_of false t)

-- Cleaning a cleaned text changes nothing.
pub get_sign_digit_idem : (t : Text) → get_sign_digit (get_sign_digit t) ≡ get_sign_digit t
unfolding get_sign_digit
get_sign_digit_idem t = loop_idem t

-- A text of digits, with or without a `-` in front, is clean already.
pub get_sign_digit-signed : (t : Text) → digits_of t ≡ t → get_sign_digit (b'-' ∷ t) ≡ b'-' ∷ t
unfolding get_sign_digit sign_digit_loop
get_sign_digit-signed t h = ap (◌∷◌ b'-') (loop-seen t ∙ h)

pub get_sign_digit-unsigned : (t : Text) → IsSignFree t → digits_of t ≡ t → get_sign_digit t ≡ t
unfolding get_sign_digit
get_sign_digit-unsigned t free h = loop-sign_free t free ∙ h
