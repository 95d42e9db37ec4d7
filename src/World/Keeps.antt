-- ===== src/World/Keeps.antt =====
-- Relations between the state before a call and the state after it, whether it returns or throws:
-- one rule for each way to build a call.
use stock_trading_bot_server.Prelude.{
  ◌≡◌, refl, ◌∙◌, Bool, true, false, List, [], ◌∷◌, Option, none, some, if◌then◌else◌,
}
use stock_trading_bot_server.Outcome.{
  Outcome, done, thrown, Exception, parse_error, type_error, invalid_argument, out_of_range,
}
use stock_trading_bot_server.World.{
  pure, throw, lift, lift_or, gets, catch_parse, update, skip, continue, ◌>>=◌, for_each, fold_each,
}

pub record IsPreorder {S : Type 0} (R : S → S → Type 0) : Type 0 where
  pub reflexive : (s : S) → R s s
  pub transitive : (s t u : S) → R s t → R t u → R s u

pub record Keeps {S A : Type 0} (R : S → S → Type 0) (m : S → Outcome A × S) : Type 0 where
  pub at : (s : S) → R s (m s).1

-- The field `f` is left as it was.
abbrev pub Same : {S A : Type 0} → (S → A) → S → S → Type 0
Same f s t = f t ≡ f s

pub Same-IsPreorder : {S A : Type 0} (f : S → A) → IsPreorder (Same f)
Same-IsPreorder f = record { reflexive = λ s. refl; transitive = λ s t u h k. k ∙ h }

-- The predicate `P` is kept.
abbrev pub Keeping : {S : Type 0} → (S → Type 0) → S → S → Type 0
Keeping P s t = P s → P t

pub Keeping-IsPreorder : {S : Type 0} (P : S → Type 0) → IsPreorder (Keeping P)
Keeping-IsPreorder P = record { reflexive = λ s h. h; transitive = λ s t u h k x. k (h x) }

module _ {S A : Type 0} {R : S → S → Type 0} (o : IsPreorder R) where
  pub Keeps-pure : (a : A) → Keeps R (pure a)
  unfolding pure
  Keeps-pure a = record { at = o.reflexive }

  pub Keeps-throw : (e : Exception) → Keeps R (throw {A = A} e)
  unfolding throw
  Keeps-throw e = record { at = o.reflexive }

  pub Keeps-lift : (r : Outcome A) → Keeps R (lift r)
  unfolding lift
  Keeps-lift r = record { at = o.reflexive }

  pub Keeps-lift_or : (e : Exception) (x : Option A) → Keeps R (lift_or e x)
  unfolding lift_or
  Keeps-lift_or e none = record { at = o.reflexive }
  Keeps-lift_or e (some a) = record { at = o.reflexive }

  pub Keeps-gets : (f : S → A) → Keeps R (gets f)
  unfolding gets
  Keeps-gets f = record { at = o.reflexive }

  pub Keeps-catch_parse :
      (m h : S → Outcome A × S) → Keeps R m → Keeps R h → Keeps R (catch_parse m h)
  unfolding catch_parse
  Keeps-catch_parse m h km kh = record { at = λ s. go s (m s).0 (m s).1 refl (km.at s) }
    where
      go : (s : S) (r : Outcome A) (s' : S) → m s ≡ (r, s') → R s s' → R s (catch_parse m h s).1
      go s (done a) s' e k = rw (e, catch_parse) k
      go s (thrown parse_error) s' e k = rw (e, catch_parse) (o.transitive s s' _ k (kh.at s'))
      go s (thrown type_error) s' e k = rw (e, catch_parse) k
      go s (thrown invalid_argument) s' e k = rw (e, catch_parse) k
      go s (thrown out_of_range) s' e k = rw (e, catch_parse) k

  pub Keeps-if :
      (b : Bool) (m n : S → Outcome A × S) → Keeps R m → Keeps R n → Keeps R (if b then m else n)
  Keeps-if true m n km kn = km
  Keeps-if false m n km kn = kn

module _ {S : Type 0} {R : S → S → Type 0} (o : IsPreorder R) where
  pub Keeps-skip : Keeps R skip
  unfolding skip
  Keeps-skip = record { at = o.reflexive }

module _ {S : Type 0} {R : S → S → Type 0} where
  pub Keeps-update : (f : S → S) → ((s : S) → R s (f s)) → Keeps R (update f)
  unfolding update
  Keeps-update f h = record { at = h }

module _ {S A B : Type 0} {R : S → S → Type 0} (o : IsPreorder R) where
  continue_lem :
      (s : S) (r : Outcome A) (s' : S) (f : A → S → Outcome B × S)
      → R s s'
      → ((a : A) → Keeps R (f a))
      → R s (continue r f s').1
  continue_lem s (done a) s' f k kf = o.transitive s s' _ k ((kf a).at s')
  continue_lem s (thrown e) s' f k kf = k

  pub Keeps-bind :
      (m : S → Outcome A × S) (f : A → S → Outcome B × S)
      → Keeps R m
      → ((a : A) → Keeps R (f a))
      → Keeps R (m >>= f)
  unfolding ◌>>=◌
  Keeps-bind m f km kf = record { at = λ s. continue_lem s (m s).0 (m s).1 f (km.at s) kf }

module _ {S A : Type 0} {R : S → S → Type 0} (o : IsPreorder R) where
  pub Keeps-for_each :
      (xs : List A) (body : A → S → Outcome (Unit {0}) × S)
      → ((x : A) → Keeps R (body x))
      → Keeps R (for_each xs body)
  unfolding for_each
  Keeps-for_each [] body kb = record { at = o.reflexive }
  Keeps-for_each (x ∷ xs) body kb =
      Keeps-bind o (body x) (λ _. for_each xs body) (kb x) (λ _. Keeps-for_each xs body kb)

module _ {S A B : Type 0} {R : S → S → Type 0} (o : IsPreorder R) where
  pub Keeps-fold_each :
      (xs : List A) (b : B) (body : B → A → S → Outcome B × S)
      → ((b : B) (x : A) → Keeps R (body b x))
      → Keeps R (fold_each xs b body)
  unfolding fold_each
  Keeps-fold_each [] b body kb = record { at = o.reflexive }
  Keeps-fold_each (x ∷ xs) b body kb =
      Keeps-bind o (body b x) (λ b'. fold_each xs b' body) (kb b x)
        (λ b'. Keeps-fold_each xs b' body kb)

pub ruleset keeps_rules = (
  Keeps-pure, Keeps-throw, Keeps-lift, Keeps-lift_or, Keeps-gets, Keeps-catch_parse, Keeps-if,
  Keeps-skip, Keeps-update, Keeps-bind, Keeps-for_each, Keeps-fold_each,
)
