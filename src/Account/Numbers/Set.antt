-- ===== src/Account/Numbers/Set.antt =====
-- Account.cpp, `GetAllAccountNumbers`: the account numbers that are read from a response, in its three
-- shapes.
use stock_trading_bot_server.Prelude.{
  ◌≡◌, refl, ◌≢◌, Bool, true, false, not, ◌||◌, List, [], ◌∷◌, ◌++◌, Option, none, some, arith, All,
  All-map, map, filter, if◌then◌else◌,
}
use stock_trading_bot_server.Text.{Text, codes, text_eq, to_lower, has_infix, is_empty}
use stock_trading_bot_server.Text.Map.{TextSet, contains, add, contains-add}
use stock_trading_bot_server.Outcome.{done, type_error}
use stock_trading_bot_server.Platform.{Platform}
use stock_trading_bot_server.World.{State, Code, lift_or, update, skip, for_each, ◌>>=◌, ◌>>◌}
use stock_trading_bot_server.Account.Numbers.{
  add_account, add_if_text, scan_value, scan_entry, add_nonempty, scan_found, scan_response,
  is_account_key,
}

-- The texts that a list of values gives.
abbrev pub texts_of {ℓ} : {A : Type ℓ} → (A → List Text) → List A → List Text
texts_of f [] = []
texts_of f (x ∷ xs) = f x ++ texts_of f xs

abbrev pub one_text : Option Text → List Text
one_text none = []
one_text (some t) = t ∷ []

abbrev pub is_listed : Text → List Text → Bool
is_listed k [] = false
is_listed k (t ∷ ts) = text_eq k t || is_listed k ts

abbrev add_all : List Text → TextSet → TextSet
add_all [] m = m
add_all (t ∷ ts) m = add_all ts (add t m)

add_all-append :
    (ts us : List Text) (m : TextSet) → add_all (ts ++ us) m ≡ add_all us (add_all ts m)
add_all-append [] us m = refl
add_all-append (t ∷ ts) us m = add_all-append ts us (add t m)

contains-add_all :
    (k : Text) (ts : List Text) (m : TextSet)
    → contains k (add_all ts m) ≡ (contains k m || is_listed k ts)
contains-add_all k [] m = ground arith
contains-add_all k (t ∷ ts) m = ground (arith, contains-add_all k ts (add t m), contains-add t k m)

module _ (p : Platform) where
  open p use {Json, find, is_string, is_array, get_text, elements, entries}

  -- The values that are strings.
  abbrev pub string_texts : Json → List Text
  string_texts v = if is_string v then one_text (get_text v) else []

  -- A string, or the strings of an array.
  abbrev pub value_texts : Json → List Text
  value_texts v =
      if is_string v
      then one_text (get_text v)
      else if is_array v
      then texts_of string_texts (elements v)
      else []

  abbrev pub entry_texts : Option Text × Json → List Text
  entry_texts (none, v) = []
  entry_texts (some key, v) =
      if has_infix (codes "acct") (map to_lower key)
        || has_infix (codes "account") (map to_lower key)
      then value_texts v
      else []

  -- The accounts of a response: under `acctNo` a text that is not empty or the texts of an array, and
  -- else the texts under the keys that have `acct` or `account` in them.
  abbrev pub found_texts : Json → Option Json → List Text
  found_texts response none = texts_of entry_texts (entries response)
  found_texts response (some v) =
      if is_string v
      then filter (λ t. not (is_empty t)) (one_text (get_text v))
      else if is_array v
      then texts_of string_texts (elements v)
      else texts_of entry_texts (entries response)

  abbrev pub account_texts : Json → List Text
  account_texts response = found_texts response (find response (codes "acctNo"))

  -- The code adds these texts to the set, changes nothing else and does not throw.
  abbrev Adds : List Text → Code p (Unit {0}) → Type 0
  Adds ts m = (s : State p) → m s ≡ (done tt, record s { accounts = add_all ts s.accounts })

  Adds-then :
      (ts us : List Text) (m n : Code p (Unit {0}))
      → Adds ts m
      → Adds us n
      → Adds (ts ++ us) (m >> n)
  unfolding ◌>>=◌
  Adds-then ts us m n h k s = rw (h s) (rw (add_all-append ts us s.accounts) (k _))

  Adds-each :
      {A : Type 0} (xs : List A) (f : A → List Text) (body : A → Code p (Unit {0}))
      → All (λ x. Adds (f x) (body x)) xs
      → Adds (texts_of f xs) (for_each xs body)
  unfolding for_each
  Adds-each [] f body h = λ s. refl
  Adds-each (x ∷ xs) f body (h, hs) =
      Adds-then (f x) (texts_of f xs) (body x) (for_each xs body) h (Adds-each xs f body hs)

  Adds-all :
      {A : Type 0} (xs : List A) (f : A → List Text) (body : A → Code p (Unit {0}))
      → ((x : A) → Adds (f x) (body x))
      → Adds (texts_of f xs) (for_each xs body)
  unfolding for_each
  Adds-all [] f body h = λ s. refl
  Adds-all (x ∷ xs) f body h =
      Adds-then (f x) (texts_of f xs) (body x) (for_each xs body) (h x) (Adds-all xs f body h)

  Adds-if :
      (b : Bool) (ts us : List Text) (m n : Code p (Unit {0}))
      → (b ≡ true → Adds ts m)
      → (b ≡ false → Adds us n)
      → Adds (if b then ts else us) (if b then m else n)
  Adds-if true ts us m n h k = h refl
  Adds-if false ts us m n h k = k refl

  Adds-skip : Adds [] skip
  unfolding skip
  Adds-skip s = refl

  Adds-add : (t : Text) → Adds (t ∷ []) (add_account p t)
  unfolding add_account update
  Adds-add t s = refl

  Adds-nonempty : (t : Text) → Adds (filter (λ t. not (is_empty t)) (t ∷ [])) (add_nonempty p t)
  unfolding add_nonempty
  Adds-nonempty t =
      elim (is_empty t)
        as (λ b. Adds (if not b then t ∷ [] else []) (if b then skip else add_account p t)) [
          | true ↦ Adds-skip
          | false ↦ Adds-add t
        ]

  -- A text that is read from a value which has one.
  Adds-read :
      (o : Option Text) (g : List Text → List Text) (f : Text → Code p (Unit {0}))
      → o ≢ none
      → ((t : Text) → Adds (g (t ∷ [])) (f t))
      → Adds (g (one_text o)) (lift_or type_error o >>= f)
  unfolding lift_or ◌>>=◌
  Adds-read none g f h k = absurd (h refl)
  Adds-read (some t) g f h k = k t

  module _ (strings : (v : Json) → is_string v ≡ true → get_text v ≢ none) where
    Adds-string : (v : Json) → Adds (string_texts v) (add_if_text p v)
    unfolding add_if_text
    Adds-string v =
        Adds-if (is_string v) _ _ _ _
          (λ h. Adds-read (get_text v) (λ ts. ts) (add_account p) (strings v h) Adds-add)
          (λ h. Adds-skip)

    Adds-value : (v : Json) → Adds (value_texts v) (scan_value p v)
    unfolding scan_value
    Adds-value v =
        Adds-if (is_string v) _ _ _ _
          (λ h. Adds-read (get_text v) (λ ts. ts) (add_account p) (strings v h) Adds-add)
          (λ h.
            Adds-if (is_array v) _ _ _ _
              (λ k. Adds-all (elements v) string_texts (add_if_text p) Adds-string)
              (λ k. Adds-skip))

    Adds-entry : (e : Option Text × Json) → e.0 ≢ none → Adds (entry_texts e) (scan_entry p e)
    unfolding scan_entry is_account_key lift_or ◌>>=◌
    Adds-entry (none, v) h = absurd (h refl)
    Adds-entry (some key, v) h =
        Adds-if (is_account_key key) _ _ _ _ (λ k. Adds-value v) (λ k. Adds-skip)

    Adds-entries :
        (response : Json)
        → All (λ e. e.0 ≢ none) (entries response)
        → Adds
            (texts_of entry_texts (entries response))
            (for_each (entries response) (scan_entry p))
    Adds-entries response keys =
        Adds-each (entries response) entry_texts (scan_entry p)
          (All-map _ _ Adds-entry (entries response) keys)

    Adds-found :
        (response : Json) (o : Option Json)
        → All (λ e. e.0 ≢ none) (entries response)
        → Adds (found_texts response o) (scan_found p response o)
    unfolding scan_found
    Adds-found response none keys = Adds-entries response keys
    Adds-found response (some v) keys =
        Adds-if (is_string v) _ _ _ _
          (λ h.
            Adds-read (get_text v) (filter (λ t. not (is_empty t))) (add_nonempty p) (strings v h)
              Adds-nonempty)
          (λ h.
            Adds-if (is_array v) _ _ _ _
              (λ k. Adds-all (elements v) string_texts (add_if_text p) Adds-string)
              (λ k. Adds-entries response keys))

    -- Where every string of JSON gives its text and every entry of the response has a key: reading a
    -- response does not throw, and an account is known afterwards if it was known before or is one of
    -- the accounts of the response, and no other.
    pub scan_response-accounts :
        (response : Json) (s : State p) (k : Text)
        → All (λ e. e.0 ≢ none) (entries response)
        → ((scan_response p response s).0 ≡ done tt)
          × (contains k (scan_response p response s).1.accounts
              ≡ (contains k s.accounts || is_listed k (account_texts response)))
    unfolding scan_response
    scan_response-accounts response s k keys =
        rw (Adds-found response (find response (codes "acctNo")) keys s)
          (refl, contains-add_all k (account_texts response) s.accounts)
