-- ===== src/World/Sends.antt =====
-- How many requests a call sends at most, and what the values that it returns satisfy.
use stock_trading_bot_server.Prelude.{
  ℕ, ◌+◌, ◌≤◌, ◌≡◌, refl, subst, Bool, true, false, arith, length, if◌then◌else◌,
}
use stock_trading_bot_server.Outcome.{
  Outcome, done, thrown, parse_error, type_error, invalid_argument, out_of_range,
}
use stock_trading_bot_server.World.{World, pure, catch_parse, continue, ◌>>=◌}
use stock_trading_bot_server.World.Keeps.{Keeps, IsPreorder, Same}

pub done-injective : {A : Type 0} (a b : A) → done a ≡ done b → a ≡ b
done-injective a b e = cc

module _ {D A : Type 0} where
  pub record Sends (k : ℕ) (m : World D → Outcome A × World D) : Type 0 where
    pub at : (s : World D) → length (m s).1.sent ≤ k + length s.sent

  pub record Returns (Q : A → Type 0) (m : World D → Outcome A × World D) : Type 0 where
    pub at : (s : World D) (a : A) → (m s).0 ≡ done a → Q a

  pub Returns-any : (m : World D → Outcome A × World D) → Returns (λ _. Unit {0}) m
  Returns-any m = record { at = λ s a e. tt }

  pub Sends-zero :
      (m : World D → Outcome A × World D) → Keeps (Same (λ (s : World D). s.sent)) m → Sends 0 m
  Sends-zero m k = record { at = λ s. rw (k.at s) (omega arith) }

  pub Sends-if :
      {k : ℕ} (b : Bool) (m n : World D → Outcome A × World D)
      → (b ≡ true → Sends k m)
      → (b ≡ false → Sends k n)
      → Sends k (if b then m else n)
  Sends-if true m n h h' = h refl
  Sends-if false m n h h' = h' refl

  pub Returns-if :
      {Q : A → Type 0} (b : Bool) (m n : World D → Outcome A × World D)
      → Returns Q m
      → Returns Q n
      → Returns Q (if b then m else n)
  Returns-if true m n h h' = h
  Returns-if false m n h h' = h'

  pub Returns-catch_parse :
      {Q : A → Type 0} (m h : World D → Outcome A × World D)
      → Returns Q m
      → Returns Q h
      → Returns Q (catch_parse m h)
  unfolding catch_parse
  Returns-catch_parse {Q} m h rm rh = record { at = λ s a. go s a (m s).0 (m s).1 refl (rm.at s a) }
    where
      go :
          (s : World D) (a : A) (r : Outcome A) (t : World D)
          → m s ≡ (r, t)
          → (r ≡ done a → Q a)
          → (catch_parse m h s).0 ≡ done a
          → Q a
      go s a (done b) t e k q = k (rw (e, catch_parse) at q)
      go s a (thrown parse_error) t e k q = rh.at t a (rw (e, catch_parse) at q)
      go s a (thrown type_error) t e k q = k (rw (e, catch_parse) at q)
      go s a (thrown invalid_argument) t e k q = k (rw (e, catch_parse) at q)
      go s a (thrown out_of_range) t e k q = k (rw (e, catch_parse) at q)

  pub Returns-pure : {Q : A → Type 0} (a : A) → Q a → Returns Q (pure a)
  unfolding pure
  Returns-pure {Q} a h = record { at = λ s b e. subst Q (done-injective a b e) h }

  pub Sends-le : {j k : ℕ} (m : World D → Outcome A × World D) → j ≤ k → Sends j m → Sends k m
  Sends-le m h b = record { at = λ s. omega (arith, b.at s) }

module _ {D A B : Type 0} where
  continue-Sends :
      {Q : A → Type 0} (j k : ℕ) (s : World D) (r : Outcome A) (t : World D)
      (f : A → World D → Outcome B × World D)
      → length t.sent ≤ j + length s.sent
      → ((a : A) → r ≡ done a → Q a)
      → ((a : A) → Q a → Sends k (f a))
      → length (continue r f t).1.sent ≤ j + k + length s.sent
  continue-Sends j k s (done a) t f h q hf = omega (arith, (hf a (q a refl)).at t)
  continue-Sends j k s (thrown e) t f h q hf = omega arith

  pub Sends-bind :
      {Q : A → Type 0} (j k : ℕ) (m : World D → Outcome A × World D)
      (f : A → World D → Outcome B × World D)
      → Sends j m
      → Returns Q m
      → ((a : A) → Q a → Sends k (f a))
      → Sends (j + k) (m >>= f)
  unfolding ◌>>=◌
  Sends-bind j k m f hm q hf = record {
    at = λ s. continue-Sends j k s (m s).0 (m s).1 f (hm.at s) (q.at s) hf;
  }

  continue-returns :
      {P : A → Type 0} {Q : B → Type 0} (r : Outcome A) (t : World D)
      (f : A → World D → Outcome B × World D) (b : B)
      → ((a : A) → r ≡ done a → P a)
      → ((a : A) → P a → Returns Q (f a))
      → (continue r f t).0 ≡ done b
      → Q b
  continue-returns (done a) t f b h hf e = (hf a (h a refl)).at t b e
  continue-returns (thrown x) t f b h hf e = absurd (ground arith)

  pub Returns-bind :
      {P : A → Type 0} {Q : B → Type 0} (m : World D → Outcome A × World D)
      (f : A → World D → Outcome B × World D)
      → Returns P m
      → ((a : A) → P a → Returns Q (f a))
      → Returns Q (m >>= f)
  unfolding ◌>>=◌
  Returns-bind m f h hf = record {
    at = λ s b e. continue-returns (m s).0 (m s).1 f b (h.at s) hf e;
  }

  continue-keeps :
      {P : A → Type 0} {R : World D → World D → Type 0} (o : IsPreorder R) (s : World D)
      (r : Outcome A) (t : World D) (f : A → World D → Outcome B × World D)
      → R s t
      → ((a : A) → r ≡ done a → P a)
      → ((a : A) → P a → Keeps R (f a))
      → R s (continue r f t).1
  continue-keeps o s (done a) t f k h kf = o.transitive s t _ k ((kf a (h a refl)).at t)
  continue-keeps o s (thrown x) t f k h kf = k

  pub Keeps-bind-Returns :
      {P : A → Type 0} {R : World D → World D → Type 0} (o : IsPreorder R)
      (m : World D → Outcome A × World D) (f : A → World D → Outcome B × World D)
      → Keeps R m
      → Returns P m
      → ((a : A) → P a → Keeps R (f a))
      → Keeps R (m >>= f)
  unfolding ◌>>=◌
  Keeps-bind-Returns o m f km h kf = record {
    at = λ s. continue-keeps o s (m s).0 (m s).1 f (km.at s) (h.at s) kf;
  }
