-- ===== src/Account/Trades/Time.antt =====
-- Account.cpp: the processing time of a trade, as HH:MM:SS.
use stock_trading_bot_server.Prelude.{
  ℕ, zero, suc, ◌-◌, ◌≤◌, ◌≡◌, refl, ◌≢◌, true, [], ◌∷◌, ◌++◌, arith, ltb, if◌then◌else◌, length,
  All, All-append, Bool-cases, ◌⊎◌, inl, inr, take, drop, replicate, length-append,
  length-replicate, filter, sym, ◌∙◌, ap,
}
use stock_trading_bot_server.Text.{Text, is_digit, is_empty}
use stock_trading_bot_server.Utility.SignDigit.{digits_of}

-- `std::string(6 - digits.length(), '0') + digits`
unfoldable pub pad_six : Text → Text
pad_six digits =
    if ltb (length digits) 6 then replicate (6 - length digits) b'0' ++ digits else digits

-- `digits.substr(0, 2) + ":" + digits.substr(2, 2) + ":" + digits.substr(4, 2)`
unfoldable pub with_colons : Text → Text
with_colons digits =
    take 2 digits ++ (b':' ∷ (take 2 (drop 2 digits) ++ (b':' ∷ take 2 (drop 4 digits))))

unfoldable pub format_proc_time : Text → Text
format_proc_time raw =
    let digits = digits_of raw in if is_empty digits then raw else with_colons (pad_six digits)

length-pad_six : (digits : Text) → 6 ≤ length (pad_six digits)
unfolding pad_six
length-pad_six digits = ground (
  arith,
  length-append (replicate (6 - length digits) b'0') digits,
  length-replicate {A = ℕ} (6 - length digits) b'0',
)

abbrev pub AreDigits : Text → Type 0
AreDigits = All (λ c. is_digit c ≡ true)

digits_of-AreDigits : (t : Text) → AreDigits (digits_of t)
unfolding digits_of
digits_of-AreDigits [] = tt
digits_of-AreDigits (c ∷ t) = ground (arith, digits_of-AreDigits t)

replicate-AreDigits : (n : ℕ) → AreDigits (replicate n b'0')
replicate-AreDigits zero = tt
replicate-AreDigits (suc n) = (refl, replicate-AreDigits n)

pad_six-AreDigits : (digits : Text) → AreDigits digits → AreDigits (pad_six digits)
unfolding pad_six
pad_six-AreDigits digits h = elim (Bool-cases (ltb (length digits) 6)) [
  | inl e ↦
      rw e (All-append _ (replicate (6 - length digits) b'0') digits (replicate-AreDigits _) h)
  | inr e ↦ rw e h
]

digits_of-filter : (t : Text) → digits_of t ≡ filter is_digit t
unfolding digits_of
digits_of-filter [] = refl
digits_of-filter (c ∷ t) = ground (arith, digits_of-filter t)

-- The zeros stand in front, and there are none where six digits are there.
pad_six-zeros : (digits : Text) → pad_six digits ≡ replicate (6 - length digits) b'0' ++ digits
unfolding pad_six
pad_six-zeros digits = elim (Bool-cases (ltb (length digits) 6)) [
  | inl e ↦ rw e refl
  | inr e ↦ let full : 6 - length digits ≡ 0 = ground arith in rw (e, full) refl
]

-- HH:MM:SS, with a digit in each of the six places.
pub data IsClock : Text → Type 0 where
  clock :
      (a b c d e f : ℕ)
      → AreDigits (a ∷ b ∷ c ∷ d ∷ e ∷ f ∷ [])
      → IsClock (a ∷ b ∷ b':' ∷ c ∷ d ∷ b':' ∷ e ∷ f ∷ [])

with_colons-IsClock : (t : Text) → 6 ≤ length t → AreDigits t → IsClock (with_colons t)
unfolding with_colons
with_colons-IsClock [] h k = absurd (omega arith)
with_colons-IsClock (a ∷ []) h k = absurd (omega arith)
with_colons-IsClock (a ∷ b ∷ []) h k = absurd (omega arith)
with_colons-IsClock (a ∷ b ∷ c ∷ []) h k = absurd (omega arith)
with_colons-IsClock (a ∷ b ∷ c ∷ d ∷ []) h k = absurd (omega arith)
with_colons-IsClock (a ∷ b ∷ c ∷ d ∷ e ∷ []) h k = absurd (omega arith)
with_colons-IsClock (a ∷ b ∷ c ∷ d ∷ e ∷ f ∷ t) h (ka, (kb, (kc, (kd, (ke, (kf, k)))))) =
    clock a b c d e f (ka, (kb, (kc, (kd, (ke, (kf, tt))))))

clock-fixed : (t : Text) → IsClock t → format_proc_time t ≡ t
unfolding format_proc_time digits_of pad_six with_colons
clock-fixed _ (clock a b c d e f k) = ground (arith, k)

digits_of-clock : (t : Text) → AreDigits t → 6 ≤ length t → digits_of (with_colons t) ≡ take 6 t
unfolding with_colons digits_of
digits_of-clock [] k h = absurd (omega arith)
digits_of-clock (a ∷ []) k h = absurd (omega arith)
digits_of-clock (a ∷ b ∷ []) k h = absurd (omega arith)
digits_of-clock (a ∷ b ∷ c ∷ []) k h = absurd (omega arith)
digits_of-clock (a ∷ b ∷ c ∷ d ∷ []) k h = absurd (omega arith)
digits_of-clock (a ∷ b ∷ c ∷ d ∷ e ∷ []) k h = absurd (omega arith)
digits_of-clock (a ∷ b ∷ c ∷ d ∷ e ∷ f ∷ t) (ka, (kb, (kc, (kd, (ke, (kf, k)))))) h =
    rw (ka, kb, kc, kd, ke, kf) refl

format-none : (raw : Text) → digits_of raw ≡ [] → format_proc_time raw ≡ raw
unfolding format_proc_time
format-none raw e = rw (e, format_proc_time)

format-some :
    (raw : Text) → digits_of raw ≢ [] → format_proc_time raw ≡ with_colons (pad_six (digits_of raw))
unfolding format_proc_time
format-some raw n = ground arith

digits_of-cases : (raw : Text) → (digits_of raw ≡ []) ⊎ (digits_of raw ≢ [])
digits_of-cases raw = go (digits_of raw)
  where
    go : (t : Text) → (t ≡ []) ⊎ (t ≢ [])
    go [] = inl refl
    go (c ∷ t) = inr (λ e. cc)

module _ (raw : Text) where
  format-IsClock : digits_of raw ≢ [] → IsClock (format_proc_time raw)
  format-IsClock n =
      rw (format-some raw n)
        (with_colons-IsClock _ (length-pad_six _) (pad_six-AreDigits _ (digits_of-AreDigits raw)))

  -- A processing time that holds a digit becomes HH:MM:SS with a digit in each of the six places,
  -- and these are the first six of: as many zeros as it lacks digits up to six, and then its digits.
  pub format_proc_time-IsClock :
      filter is_digit raw ≢ []
      → IsClock (format_proc_time raw)
        × (filter is_digit (format_proc_time raw)
            ≡ take 6 (replicate (6 - length (filter is_digit raw)) b'0' ++ filter is_digit raw))
  format_proc_time-IsClock n =
      let same = digits_of-filter raw in
      let some_digit : digits_of raw ≢ [] = λ e. n (sym same ∙ e) in
      (
        format-IsClock some_digit,
        sym (digits_of-filter (format_proc_time raw))
            ∙ (ap digits_of (format-some raw some_digit)
                ∙ (digits_of-clock _ (pad_six-AreDigits _ (digits_of-AreDigits raw))
                      (length-pad_six _)
                    ∙ (ap (take 6) (pad_six-zeros (digits_of raw))
                        ∙ ap (λ t. take 6 (replicate (6 - length t) b'0' ++ t)) same))),
      )

  -- Formatting a processing time a second time changes nothing.
  pub format_proc_time_idem : format_proc_time (format_proc_time raw) ≡ format_proc_time raw
  format_proc_time_idem = elim (digits_of-cases raw) [
    | inl e ↦ rw (format-none raw e, format-none raw e)
    | inr n ↦ clock-fixed _ (format-IsClock n)
  ]
