-- ===== src/Text.antt =====
-- `std::string` as the list of its character codes, in the order that `std::set` and `std::map` use.
pub mod Order
pub mod Map
use Prim.Native.Char.{code}
use Prim.Native.Nat.{compare, Ordering}
use stock_trading_bot_server.Prelude.{
  ℕ, ◌+◌, ◌-◌, ◌≤◌, ◌<◌, ◌≡◌, refl, ◌≢◌, ◌↔◌, Bool, true, false, ◌&&◌, List, [], ◌∷◌, ◌++◌, String,
  arith, ltb, leb, ◌==◌, if◌then◌else◌, All,
}

abbrev pub Text : Type 0
Text = List ℕ

-- A literal of the source.
unfoldable pub codes : String → Text
codes String.[] = []
codes (String.◌∷◌ c s) = code c ∷ codes s

abbrev pub is_empty : Text → Bool
is_empty [] = true
is_empty (c ∷ t) = false

unfoldable pub text_eq : Text → Text → Bool
text_eq [] [] = true
text_eq [] (d ∷ u) = false
text_eq (c ∷ t) [] = false
text_eq (c ∷ t) (d ∷ u) = c == d && text_eq t u

pub text_eq_iff : (t u : Text) → (text_eq t u ≡ true) ↔ (t ≡ u)
unfolding text_eq
text_eq_iff [] [] = (λ h. refl, λ h. refl)
text_eq_iff [] (d ∷ u) = (λ h. cc, λ h. cc)
text_eq_iff (c ∷ t) [] = (λ h. cc, λ h. cc)
text_eq_iff (c ∷ t) (d ∷ u) = ground (arith, text_eq_iff t u)

-- `std::isdigit` in the "C" locale.
abbrev pub is_digit : ℕ → Bool
is_digit c = leb b'0' c && leb c b'9'

-- `std::string(n, c)`, `substr` and the `::tolower` of `std::transform`.
abbrev pub to_lower : ℕ → ℕ
to_lower c = if leb b'A' c && leb c b'Z' then c + 32 else c

abbrev pub Lacks : ℕ → Text → Type 0
Lacks c = All (λ d. d ≢ c)

-- `find(pattern) != npos`
abbrev pub is_prefix : Text → Text → Bool
is_prefix [] t = true
is_prefix (c ∷ p) [] = false
is_prefix (c ∷ p) (d ∷ t) = c == d && is_prefix p t

unfoldable pub has_infix : Text → Text → Bool
has_infix p [] = is_prefix p []
has_infix p (c ∷ t) = if is_prefix p (c ∷ t) then true else has_infix p t

-- A chain of `<<` or of `+`.
unfoldable pub concat : List Text → Text
concat [] = []
concat (t ∷ ts) = t ++ concat ts
