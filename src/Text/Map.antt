-- ===== src/Text/Map.antt =====
-- `std::map<std::string, V>` as a list of entries in the order of the keys, and
-- `std::set<std::string>` as such a map to the unit.
use Prim.Native.Nat.{Ordering}
use stock_trading_bot_server.Prelude.{
  ◌≡◌, refl, Bool, true, false, List, [], ◌∷◌, Option, none, some, arith, if◌then◌else◌, All,
  All-map,
}
use stock_trading_bot_server.Text.{Text, text_eq, text_eq_iff}
use stock_trading_bot_server.Text.Order.{
  text_compare, text_compare_refl, eq_of_compare, lt_of_gt, text_lt_trans,
}

abbrev pub Map : Type 0 → Type 0
Map V = List (Text × V)

abbrev pub TextSet : Type 0
TextSet = Map (Unit {0})

module _ {V : Type 0} where
  -- `find(k)`; `none` is `end()`.
  unfoldable pub lookup : Text → Map V → Option V
  lookup k [] = none
  lookup k ((j, v) ∷ m) = if text_eq k j then some v else lookup k m

  -- `m[k] = v`
  unfoldable pub insert : Text → V → Map V → Map V
  insert k v [] = (k, v) ∷ []
  insert k v ((j, w) ∷ m) = elim (text_compare k j) [
    | Ordering.lt ↦ (k, v) ∷ (j, w) ∷ m
    | Ordering.eq ↦ (k, v) ∷ m
    | Ordering.gt ↦ (j, w) ∷ insert k v m
  ]

  pub lookup-insert :
      (k j : Text) (v : V) (m : Map V)
      → lookup j (insert k v m) ≡ (if text_eq j k then some v else lookup j m)
  unfolding lookup insert
  lookup-insert k j v [] = refl
  lookup-insert k j v ((i, w) ∷ m) = ground (
    arith,
    text_eq_iff j k,
    text_eq_iff j i,
    eq_of_compare k i,
    text_compare_refl k,
    lookup-insert k j v m,
  )

  -- Every key of `m` comes after `k`.
  abbrev pub AllAfter : Text → Map V → Type 0
  AllAfter k = All (λ e. text_compare k e.0 ≡ Ordering.lt)

  abbrev pub IsSorted : Map V → Type 0
  IsSorted [] = Unit
  IsSorted ((k, v) ∷ m) = AllAfter k m × IsSorted m

  AllAfter-insert :
      (i k : Text) (v : V) (m : Map V)
      → text_compare i k ≡ Ordering.lt
      → AllAfter i m
      → AllAfter i (insert k v m)
  unfolding insert
  AllAfter-insert i k v [] h a = (h, tt)
  AllAfter-insert i k v ((j, w) ∷ m) h a = ground (arith, AllAfter-insert i k v m h)

  pub insert-IsSorted : (k : Text) (v : V) (m : Map V) → IsSorted m → IsSorted (insert k v m)
  unfolding insert
  insert-IsSorted k v [] s = (tt, tt)
  insert-IsSorted k v ((j, w) ∷ m) (a, s) =
      let later : text_compare k j ≡ Ordering.lt → AllAfter k m =
        λ h. All-map _ _ (λ e. text_lt_trans k j e.0 h) m a in
      ground (
        arith,
        later,
        eq_of_compare k j,
        lt_of_gt k j,
        AllAfter-insert j k v m,
        insert-IsSorted k v m s,
      )

  -- A predicate of every entry survives an insertion.
  pub All-insert :
      (P : Text × V → Type 0) (k : Text) (v : V) (m : Map V)
      → P (k, v)
      → All P m
      → All P (insert k v m)
  unfolding insert
  All-insert P k v [] p a = (p, tt)
  All-insert P k v ((j, w) ∷ m) p (q, a) = ground (arith, All-insert P k v m p a)

  abbrev pub contains : Text → Map V → Bool
  contains k m = elim (lookup k m) [ none ↦ false | some v ↦ true ]

-- Sets: `insert`, `find` and `*begin()`.
unfoldable pub add : Text → TextSet → TextSet
add k = insert k tt

pub contains-add :
    (k j : Text) (m : TextSet) → contains j (add k m) ≡ (if text_eq j k then true else contains j m)
unfolding add
contains-add k j m = ground (arith, lookup-insert k j tt m)
