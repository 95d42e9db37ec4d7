-- ===== src/Account/Numbers/Choice.antt =====
-- Account.cpp, `SetUseAccount`: which account is in use behind it.
use stock_trading_bot_server.Prelude.{
  ◌≡◌, refl, sym, subst, ◌⊎◌, inl, inr, Bool, Bool-cases, true, false, [], ◌∷◌, arith, All, All-map,
}
use stock_trading_bot_server.Text.{Text, text_eq, text_eq_iff}
use stock_trading_bot_server.Text.Map.{TextSet, contains, lookup, IsSorted, AllAfter}
use stock_trading_bot_server.Text.Order.{text_compare}
use Prim.Native.Nat.{Ordering}
use stock_trading_bot_server.Outcome.{Outcome, done, thrown}
use stock_trading_bot_server.Platform.{Platform}
use stock_trading_bot_server.World.{State, ◌>>=◌, gets, update, skip}
use stock_trading_bot_server.World.Keeps.{
  Keeps, Keeps-update, Keeps-bind, Keeps-gets, Keeps-if, Keeps-skip, Same, Same-IsPreorder,
}
use stock_trading_bot_server.Curl.{output, easy_perform}
use stock_trading_bot_server.Curl.Plumbing.{Plumbing-IsBlind}
use stock_trading_bot_server.Login.{set_token}
use stock_trading_bot_server.Account.Numbers.{
  add_account, get_all_account_numbers, has_account, use_default, use_configured, use_first,
  set_current, set_use_account, is_nil,
}
use stock_trading_bot_server.Account.Numbers.Frame.{Keeps-get_all_account_numbers}

module _ (p : Platform) where
  open p use {account_num}

  Keeps-current : Keeps (Same (λ (s : State p). s.current_account)) (get_all_account_numbers p)
  unfolding add_account easy_perform set_token
  Keeps-current =
      Keeps-get_all_account_numbers p (Same-IsPreorder _)
        (Plumbing-IsBlind p (record { journal = λ s j. refl; curl = λ s i h l. refl }))
        (λ t. Keeps-update _ λ s. refl) (λ r. record { at = λ s. refl })
        (λ t. Keeps-update _ λ s. refl)

  -- What the choice leaves: an account of the set, or the old one if the set is empty.
  abbrev pub IsChosen : State p → State p → Type 0
  IsChosen s t =
      (is_nil t.accounts ≡ false → contains t.current_account t.accounts ≡ true)
      × (is_nil t.accounts ≡ true → t.current_account ≡ s.current_account)

  use_first-IsChosen :
      (s t : State p) (all : TextSet)
      → t.accounts ≡ all
      → t.current_account ≡ s.current_account
      → IsChosen s (use_first p all t).1
  unfolding use_first set_current lookup skip update
  use_first-IsChosen s t [] e k = ground arith
  use_first-IsChosen s t ((number, _) ∷ rest) e k = ground (arith, text_eq_iff number number)

  use_first-done : (all : TextSet) (t : State p) → (use_first p all t).0 ≡ done tt
  unfolding use_first set_current skip update
  use_first-done [] t = refl
  use_first-done (e ∷ rest) t = refl

  logged : State p → State p
  unfolding output update use_default
  logged s =
      (output p stock_trading_bot_server.World.warning
        (stock_trading_bot_server.Text.codes "지정된 계좌번호를 찾을 수 없습니다. 기본 계좌번호로 설정합니다.") s).1

  use_default-IsChosen : (s t : State p) → use_default p s ≡ (done tt, t) → IsChosen s t
  unfolding use_default ◌>>=◌ gets update output logged
  use_default-IsChosen s t e =
      let s1 = (get_all_account_numbers p (logged s)).1 in
      let k = Keeps-current.at (logged s) in
      ground (arith, k, use_first-done s1.accounts s1, use_first-IsChosen s s1 s1.accounts refl k)

  has_account-Keeps :
      (number : Text) → Keeps (Same (λ (s : State p). s.current_account)) (has_account p number)
  unfolding has_account
  has_account-Keeps number =
      let o = Same-IsPreorder (λ (s : State p). s.current_account) in
      Keeps-bind o _ _ (Keeps-gets o _) λ known.
        Keeps-bind o _ _ (Keeps-if o (is_nil known) _ _ Keeps-current (Keeps-skip o))
          λ _. Keeps-gets o _

  -- The answer is about the set as the call leaves it.
  has_account_lem :
      (number : Text) (s t : State p) (b : Bool)
      → has_account p number s ≡ (done b, t)
      → (contains number t.accounts ≡ b) × (t.current_account ≡ s.current_account)
  unfolding has_account ◌>>=◌ gets skip
  has_account_lem number s t b e = ground (arith, Keeps-current.at s)

  use_configured-IsChosen :
      (s t : State p) → contains account_num t.accounts ≡ true → IsChosen s (use_configured p t).1
  unfolding use_configured set_current ◌>>=◌ update output lookup
  use_configured-IsChosen s t h = ground arith

  set_use_account-step :
      (s t u : State p) (b : Bool)
      → has_account p account_num s ≡ (done b, t)
      → set_use_account p s ≡ (done tt, u)
      → IsChosen s u × (b ≡ true → u.current_account ≡ account_num)
  unfolding set_use_account ◌>>=◌ use_configured set_current update output lookup
  set_use_account-step s t u b h e =
      ground (arith, has_account_lem account_num s t b h, use_default-IsChosen t u)

  set_use_account-IsChosen_in :
      (s u : State p)
      → set_use_account p s ≡ (done tt, u)
      → IsChosen s u
        × ((has_account p account_num s).0 ≡ done true → u.current_account ≡ account_num)
  unfolding set_use_account ◌>>=◌
  set_use_account-IsChosen_in s u e =
      go (has_account p account_num s).0 (has_account p account_num s).1 refl
    where
      go :
          (r : Outcome Bool) (t : State p)
          → has_account p account_num s ≡ (r, t)
          → IsChosen s u
            × ((has_account p account_num s).0 ≡ done true → u.current_account ≡ account_num)
      go (done b) t h =
          let (chosen, configured) = set_use_account-step s t u b h e in
          (chosen, λ k. configured (ground arith))
      go (thrown x) t h = absurd (ground arith)

  -- When `SetUseAccount` returns, the account in use is one of the accounts that are known, or none
  -- is known and the account in use is the one from before.
  pub set_use_account-IsChosen :
      (s u : State p)
      → set_use_account p s ≡ (done tt, u)
      → (contains u.current_account u.accounts ≡ true)
        ⊎ ((is_nil u.accounts ≡ true) × (u.current_account ≡ s.current_account))
  set_use_account-IsChosen s u e =
      let ((some_known, none_known), _) = set_use_account-IsChosen_in s u e in
      elim (Bool-cases (is_nil u.accounts)) [
        | inl k ↦ inr (k, none_known k)
        | inr k ↦ inl (some_known k)
      ]

  -- The account that stands first in the order of the set.
  abbrev pub IsLeast : Text → TextSet → Type 0
  IsLeast k m = (contains k m ≡ true) × All (λ e. (e.0 ≡ k) ⊎ (text_compare k e.0 ≡ Ordering.lt)) m

  -- The configured account if it is known, and else the first one.
  abbrev pub IsInUse : Text → TextSet → Type 0
  IsInUse current m =
      ((contains account_num m ≡ true) × (current ≡ account_num))
      ⊎ ((contains account_num m ≡ false) × IsLeast current m)

  first-IsLeast : (k : Text) (v : Unit {0}) (m : TextSet) → AllAfter k m → IsLeast k ((k, v) ∷ m)
  unfolding lookup
  first-IsLeast k v m a =
      (ground (arith, text_eq_iff k k), (inl refl, All-map _ _ (λ e h. inr h) m a))

  get_all-known :
      (s : State p) → is_nil s.accounts ≡ false → get_all_account_numbers p s ≡ (done tt, s)
  unfolding get_all_account_numbers ◌>>=◌ gets skip
  get_all-known s h = rw h refl

  has_account-known :
      (number : Text) (s : State p)
      → is_nil s.accounts ≡ false
      → has_account p number s ≡ (done (contains number s.accounts), s)
  unfolding has_account ◌>>=◌ gets skip
  has_account-known number s h = rw h refl

  -- What the choice leaves where it asks nobody.
  abbrev IsQuiet : State p → Outcome (Unit {0}) × State p → Type 0
  IsQuiet s (r, t) = (r ≡ done tt) × (t.sent ≡ s.sent) × (t.accounts ≡ s.accounts)

  use_default-runs :
      (s : State p) (k : Text) (v : Unit {0}) (m : TextSet)
      → s.accounts ≡ (k, v) ∷ m
      → IsQuiet s (use_default p s) × ((use_default p s).1.current_account ≡ k)
  unfolding use_default ◌>>=◌ gets update output logged use_first set_current
  use_default-runs s k v m e =
      rw (get_all-known (logged s) (rw e refl)) (rw e ((refl, refl, refl), refl))

  use_default-known_in :
      (s : State p) (all : TextSet)
      → s.accounts ≡ all
      → is_nil all ≡ false
      → IsSorted all
      → IsQuiet s (use_default p s) × IsLeast (use_default p s).1.current_account all
  use_default-known_in s [] e h sorted = absurd (ground arith)
  use_default-known_in s ((k, v) ∷ m) e h (after, sorted) =
      let (quiet, first) = use_default-runs s k v m e in
      (quiet, subst (λ x. IsLeast x ((k, v) ∷ m)) (sym first) (first-IsLeast k v m after))

  use_default-known :
      (s : State p)
      → is_nil s.accounts ≡ false
      → IsSorted s.accounts
      → IsQuiet s (use_default p s) × IsLeast (use_default p s).1.current_account s.accounts
  use_default-known s = use_default-known_in s s.accounts refl

  use_configured-known :
      (s : State p)
      → IsQuiet s (use_configured p s) × ((use_configured p s).1.current_account ≡ account_num)
  unfolding use_configured set_current ◌>>=◌ update output
  use_configured-known s = ((refl, refl, refl), refl)

  -- Where accounts are known, with the set in its order: `SetUseAccount` returns, sends no request and
  -- keeps the set, and then the configured account is in use if it is known, and else the known
  -- account that stands first in the order of the set.
  pub set_use_account-known :
      (s : State p)
      → is_nil s.accounts ≡ false
      → IsSorted s.accounts
      → ((set_use_account p s).0 ≡ done tt)
        × ((set_use_account p s).1.sent ≡ s.sent)
        × ((set_use_account p s).1.accounts ≡ s.accounts)
        × IsInUse (set_use_account p s).1.current_account s.accounts
  unfolding set_use_account ◌>>=◌
  set_use_account-known s some_known sorted =
      let known = has_account-known account_num s some_known in
      elim (Bool-cases (contains account_num s.accounts)) [
        | inl k ↦ ground (arith, known, use_configured-known s)
        | inr k ↦ ground (arith, known, use_default-known s some_known sorted)
      ]
