-- ===== src/Text/Order.antt =====
-- The lexicographic order of `std::string`, by which `std::set` and `std::map` sort their keys.
use Prim.Native.Nat.{compare, Ordering}
use stock_trading_bot_server.Prelude.{◌≡◌, refl, [], ◌∷◌, arith}
use stock_trading_bot_server.Text.{Text}

unfoldable pub text_compare : Text → Text → Ordering
text_compare [] [] = Ordering.eq
text_compare [] (d ∷ u) = Ordering.lt
text_compare (c ∷ t) [] = Ordering.gt
text_compare (c ∷ t) (d ∷ u) = elim (compare c d) [
  | Ordering.lt ↦ Ordering.lt
  | Ordering.gt ↦ Ordering.gt
  | Ordering.eq ↦ text_compare t u
]

pub text_compare_refl : (t : Text) → text_compare t t ≡ Ordering.eq
unfolding text_compare
text_compare_refl [] = refl
text_compare_refl (c ∷ t) = ground (arith, text_compare_refl t)

pub eq_of_compare : (t u : Text) → text_compare t u ≡ Ordering.eq → t ≡ u
unfolding text_compare
eq_of_compare [] [] h = refl
eq_of_compare [] (d ∷ u) h = ground arith
eq_of_compare (c ∷ t) [] h = ground arith
eq_of_compare (c ∷ t) (d ∷ u) h = ground (arith, eq_of_compare t u)

pub lt_of_gt : (t u : Text) → text_compare t u ≡ Ordering.gt → text_compare u t ≡ Ordering.lt
unfolding text_compare
lt_of_gt [] [] h = ground arith
lt_of_gt [] (d ∷ u) h = ground arith
lt_of_gt (c ∷ t) [] h = refl
lt_of_gt (c ∷ t) (d ∷ u) h = ground (arith, lt_of_gt t u)

pub text_lt_trans :
    (t u v : Text)
    → text_compare t u ≡ Ordering.lt
    → text_compare u v ≡ Ordering.lt
    → text_compare t v ≡ Ordering.lt
unfolding text_compare
text_lt_trans [] [] v h k = ground arith
text_lt_trans [] (d ∷ u) [] h k = ground arith
text_lt_trans [] (d ∷ u) (e ∷ v) h k = refl
text_lt_trans (c ∷ t) [] v h k = ground arith
text_lt_trans (c ∷ t) (d ∷ u) [] h k = ground arith
text_lt_trans (c ∷ t) (d ∷ u) (e ∷ v) h k = ground (arith, text_lt_trans t u v)
