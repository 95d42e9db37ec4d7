-- ===== src/Utility/Convert.antt =====
-- TradingCore/Utility/Convert.cpp: `Convert::GetJsonData`.
use stock_trading_bot_server.Prelude.{
  ℕ, ◌≡◌, refl, Bool, true, false, [], ◌∷◌, ◌++◌, arith, ◌==◌, if◌then◌else◌,
}
use stock_trading_bot_server.Text.{Text, Lacks}

pub record JsonData : Type 0 where
  pub key : Text
  pub value : Text

-- `find(c)`, `substr(0, pos)` and `substr(pos + 1)`: what stands before and behind the first `c`.
unfoldable pub has_char : ℕ → Text → Bool
has_char c [] = false
has_char c (d ∷ t) = if d == c then true else has_char c t

unfoldable pub before_char : ℕ → Text → Text
before_char c [] = []
before_char c (d ∷ t) = let rest = before_char c t in if d == c then [] else d ∷ rest

unfoldable pub after_char : ℕ → Text → Text
after_char c [] = []
after_char c (d ∷ t) = let rest = after_char c t in if d == c then t else rest

unfoldable pub get_json_data : Text → JsonData
unfolding has_char before_char after_char
get_json_data line =
    if has_char b':' line
    then record { key = before_char b':' line; value = after_char b':' line }
    else record { key = []; value = [] }

has_char-Lacks : (c : ℕ) (t : Text) → Lacks c t → has_char c t ≡ false
unfolding has_char
has_char-Lacks c [] h = refl
has_char-Lacks c (d ∷ t) (n, h) = ground (arith, has_char-Lacks c t h)

split_at :
    (c : ℕ) (k v : Text)
    → Lacks c k
    → (has_char c (k ++ (c ∷ v)) ≡ true)
      × (before_char c (k ++ (c ∷ v)) ≡ k)
      × (after_char c (k ++ (c ∷ v)) ≡ v)
unfolding has_char before_char after_char
split_at c [] v h = ground arith
split_at c (d ∷ k) v (n, h) = ground (arith, split_at c k v h)

-- A header line is split at its first colon, and the value keeps every character behind it: spaces,
-- further colons and the carriage return. A line with no colon gives two empty texts.
pub get_json_data_lem :
    (k v : Text)
    → Lacks b':' k
    → (get_json_data (k ++ (b':' ∷ v)) ≡ record { key = k; value = v })
      × (get_json_data k ≡ record { key = []; value = [] })
unfolding get_json_data
get_json_data_lem k v h =
    let (found, front, back) = split_at b':' k v h in
    (rw (found, front, back), rw (has_char-Lacks b':' k h))
