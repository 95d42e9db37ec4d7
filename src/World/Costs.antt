-- ===== src/World/Costs.antt =====
-- How a call changes the number of curl handles and of header lists that are not yet freed.
use stock_trading_bot_server.Prelude.{
  ℕ, suc, ◌+◌, ◌≤◌, ◌≡◌, refl, ◌∙◌, Bool, true, false, arith, if◌then◌else◌,
}
use stock_trading_bot_server.Outcome.{Outcome, done, thrown}
use stock_trading_bot_server.World.{World, pure, continue, ◌>>=◌}
use stock_trading_bot_server.World.Keeps.{Keeps, IsPreorder}

module _ {D : Type 0} where
  -- Neither is changed.
  abbrev pub SameCurl : World D → World D → Type 0
  SameCurl s t = (t.handles ≡ s.handles) × (t.header_lists ≡ s.header_lists)

  pub SameCurl-IsPreorder : IsPreorder SameCurl
  SameCurl-IsPreorder = record {
    reflexive = λ s. (refl, refl);
    transitive = λ s t u h k. (k.0 ∙ h.0, k.1 ∙ h.1);
  }

module _ {D A : Type 0} where
  -- Above n handles and c header lists: as many of each as the value says, or at most one of each
  -- after an exception.
  abbrev pub Ends : ℕ → ℕ → (A → ℕ) → (A → ℕ) → Outcome A → World D → Type 0
  Ends n c k l (done a) t = (t.handles ≡ n + k a) × (t.header_lists ≡ c + l a)
  Ends n c k l (thrown e) t =
      (n ≤ t.handles) × (t.handles ≤ suc n) × (c ≤ t.header_lists) × (t.header_lists ≤ suc c)

  -- A call that starts with j handles and i header lists more than n and c.
  pub record Costs (j i : ℕ) (k l : A → ℕ) (m : World D → Outcome A × World D) : Type 0 where
    pub at :
        (s : World D) (n c : ℕ)
        → s.handles ≡ n + j
        → s.header_lists ≡ c + i
        → Ends n c k l (m s).0 (m s).1

  Ends-same :
      (j i n c : ℕ) (r : Outcome A) (t : World D)
      → j ≤ 1
      → i ≤ 1
      → t.handles ≡ n + j
      → t.header_lists ≡ c + i
      → Ends n c (λ _. j) (λ _. i) r t
  Ends-same j i n c (done a) t hj hi e e' = (e, e')
  Ends-same j i n c (thrown x) t hj hi e e' = (omega arith, omega arith, omega arith, omega arith)

  pub Costs-Keeps :
      (j i : ℕ) {m : World D → Outcome A × World D}
      → j ≤ 1
      → i ≤ 1
      → Keeps SameCurl m
      → Costs j i (λ _. j) (λ _. i) m
  Costs-Keeps j i {m} hj hi k = record {
    at = λ s n c e e'. Ends-same j i n c (m s).0 (m s).1 hj hi ((k.at s).0 ∙ e) ((k.at s).1 ∙ e');
  }

  pub Costs-pure : {k l : A → ℕ} (a : A) → Costs (k a) (l a) k l (pure a)
  unfolding pure
  Costs-pure a = record { at = λ s n c e e'. (e, e') }

  pub Costs-if :
      {j i : ℕ} {k l : A → ℕ} (b : Bool) {m n : World D → Outcome A × World D}
      → Costs j i k l m
      → Costs j i k l n
      → Costs j i k l (if b then m else n)
  Costs-if true hm hn = hm
  Costs-if false hm hn = hn

module _ {D A B : Type 0} where
  Ends-continue :
      {k l : A → ℕ} {k' l' : B → ℕ} (n c : ℕ) (r : Outcome A) (t : World D)
      (f : A → World D → Outcome B × World D)
      → Ends n c k l r t
      → ((a : A) → Costs (k a) (l a) k' l' (f a))
      → Ends n c k' l' (continue r f t).0 (continue r f t).1
  Ends-continue n c (done a) t f (e, e') h = (h a).at t n c e e'
  Ends-continue n c (thrown x) t f e h = e

  pub Costs-bind :
      {j i : ℕ} {k l : A → ℕ} {k' l' : B → ℕ} {m : World D → Outcome A × World D}
      {f : A → World D → Outcome B × World D}
      → Costs j i k l m
      → ((a : A) → Costs (k a) (l a) k' l' (f a))
      → Costs j i k' l' (m >>= f)
  unfolding ◌>>=◌
  Costs-bind {m = m} {f = f} hm hf = record {
    at = λ s n c e e'. Ends-continue n c (m s).0 (m s).1 f (hm.at s n c e e') hf;
  }
