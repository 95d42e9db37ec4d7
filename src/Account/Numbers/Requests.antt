-- ===== src/Account/Numbers/Requests.antt =====
-- How many requests the reading of the account numbers sends.
use stock_trading_bot_server.Prelude.{
  ℕ, zero, suc, [], ◌∷◌, ◌+◌, ◌≤◌, refl, arith, length, inl, inr, Bool-cases, if◌then◌else◌,
}
use stock_trading_bot_server.Text.{Text, codes, text_eq, is_empty}
use stock_trading_bot_server.Text.Map.{TextSet}
use stock_trading_bot_server.Platform.{Platform}
use stock_trading_bot_server.World.{State, Code, gets, skip, ◌>>=◌}
use stock_trading_bot_server.World.Keeps.{
  Keeps, Same, Keeps-update, Keeps-skip, Keeps-gets, Keeps-bind,
}
use stock_trading_bot_server.World.Sends.{
  Sends, Returns-any, Sends-zero, Sends-if, Sends-bind, Sends-le,
}
use stock_trading_bot_server.Account.Page.{Fetched, no_page, bad_status, page, header_fields}
use stock_trading_bot_server.Account.Page.Requests.{
  AnswersInLines, IsLast, sent_order, sent_plumbing, Sends-fetch_page, fetch_page-IsLast,
}
use stock_trading_bot_server.Account.Numbers.{
  add_account, account_page, account_fetched, account_fetch, account_pages, get_all_account_numbers,
  fetch_accounts, has_account, use_first, use_default, use_configured, set_current, set_use_account,
  max_account_pages, is_nil,
}
use stock_trading_bot_server.Account.Holdings.Bounds.{Sends-get_access_token}
use stock_trading_bot_server.Account.Numbers.Frame.{Keeps-account_page}

module _ (p : Platform) where
  open p use {account_num}

  Sends-account_page : (body : Text) → Sends 0 (account_page p body)
  unfolding add_account
  Sends-account_page body =
      Sends-zero _
        (Keeps-account_page p (sent_order p) (sent_plumbing p) (λ t. Keeps-update _ λ s. refl) body)

  account_fetched-Sends :
      (k : ℕ) (next : Text → Text → Code p (Unit {0}))
      → ((c n : Text) → Sends k (next c n))
      → (x : Fetched) → Sends k (account_fetched p next x)
  unfolding account_fetched
  account_fetched-Sends k next h no_page =
      Sends-le _ (omega arith) (Sends-zero _ (Keeps-skip (sent_order p)))
  account_fetched-Sends k next h bad_status =
      Sends-le _ (omega arith) (Sends-zero _ (Keeps-skip (sent_order p)))
  account_fetched-Sends k next h (page body headers) = Sends-le _ (omega arith) (
      Sends-bind 0 k _ _ (Sends-account_page body) (Returns-any _) λ _ _.
        Sends-if (text_eq (header_fields headers).cont (codes "Y")) _ _ (λ _. h _ _)
          λ _. Sends-le _ (omega arith) (Sends-zero _ (Keeps-skip (sent_order p))))

  account_fetched-IsLast :
      (next : Text → Text → Code p (Unit {0})) (x : Fetched)
      → IsLast x
      → Sends 0 (account_fetched p next x)
  unfolding account_fetched
  account_fetched-IsLast next no_page h = Sends-zero _ (Keeps-skip (sent_order p))
  account_fetched-IsLast next bad_status h = Sends-zero _ (Keeps-skip (sent_order p))
  account_fetched-IsLast next (page body headers) h =
      Sends-bind 0 0 _ _ (Sends-account_page body) (Returns-any _)
        λ _ _. rw h (Sends-zero _ (Keeps-skip (sent_order p)))

  -- The loop over the pages of account numbers sends one request for each round at most.
  account_pages-sent :
      (n : ℕ) (token cont next_key : Text) → Sends n (account_pages p n token cont next_key)
  unfolding account_pages account_fetch
  account_pages-sent zero token cont next_key = Sends-zero _ (Keeps-skip (sent_order p))
  account_pages-sent (suc n) token cont next_key = Sends-le _ (omega arith) (
      Sends-bind 1 n _ _ (Sends-fetch_page p _ _ _) (Returns-any _)
        λ x _. account_fetched-Sends n (account_pages p n token) (account_pages-sent n token) x)

  none_sent : {A : Type 0} {m : Code p A} → Keeps (Same (λ (s : State p). s.sent)) m → Sends 0 m
  none_sent k = Sends-zero _ k

  fetch_accounts-Sends : Sends 51 (fetch_accounts p)
  unfolding fetch_accounts
  fetch_accounts-Sends = Sends-bind 1 50 _ _ (Sends-get_access_token p) (Returns-any _) λ token _.
      Sends-if (is_empty token) _ _
        (λ _. Sends-le _ (omega arith) (none_sent ((sent_plumbing p).at_output _ _)))
        λ _. account_pages-sent max_account_pages token _ _

  get_all_account_numbers-Sends : Sends 51 (get_all_account_numbers p)
  unfolding get_all_account_numbers
  get_all_account_numbers-Sends =
      let o = sent_order p in
      Sends-bind 0 51 _ _ (none_sent (Keeps-gets o _)) (Returns-any _) λ known _.
        Sends-if (is_nil known) _ _ (λ _. fetch_accounts-Sends)
          λ _. Sends-le _ (omega arith) (none_sent (Keeps-skip o))

  has_account-Sends : (number : Text) → Sends 51 (has_account p number)
  unfolding has_account
  has_account-Sends number =
      let o = sent_order p in
      Sends-bind 0 51 _ _ (none_sent (Keeps-gets o _)) (Returns-any _) λ known _.
        Sends-bind 51 0 _ _
          (Sends-if (is_nil known) _ _ (λ _. get_all_account_numbers-Sends)
            λ _. Sends-le _ (omega arith) (none_sent (Keeps-skip o)))
          (Returns-any _) λ _ _. none_sent (Keeps-gets o _)

  use_first-Keeps : (all : TextSet) → Keeps (Same (λ (s : State p). s.sent)) (use_first p all)
  unfolding use_first set_current
  use_first-Keeps [] = Keeps-skip (sent_order p)
  use_first-Keeps ((number, _) ∷ rest) = Keeps-update _ λ s. refl

  use_default-Sends : Sends 51 (use_default p)
  unfolding use_default
  use_default-Sends =
      let o = sent_order p in
      let f = sent_plumbing p in
      Sends-bind 0 51 _ _ (none_sent (f.at_output _ _)) (Returns-any _) λ _ _.
        Sends-bind 51 0 _ _ get_all_account_numbers-Sends (Returns-any _) λ _ _. none_sent (
          Keeps-bind o _ _ (Keeps-gets o _) λ all.
            Keeps-bind o _ _ (use_first-Keeps all)
              λ _. Keeps-bind o _ _ (Keeps-gets o _) λ current. f.at_output _ _)

  -- `SetUseAccount` reads the account numbers twice at most.
  pub set_use_account-Sends : Sends 102 (set_use_account p)
  unfolding set_use_account use_configured set_current
  set_use_account-Sends =
      let o = sent_order p in
      let f = sent_plumbing p in
      Sends-bind 51 51 _ _ (has_account-Sends account_num) (Returns-any _) λ found _.
        Sends-if found _ _
          (λ _.
            Sends-le _ (omega arith)
              (none_sent (Keeps-bind o _ _ (Keeps-update _ λ s. refl) λ _. f.at_output _ _)))
          λ _. use_default-Sends

  account_pages-last :
      (n : ℕ) (token cont next_key : Text)
      → AnswersInLines p
      → Sends 1 (account_pages p n token cont next_key)
  unfolding account_pages account_fetch
  account_pages-last zero token cont next_key crlf =
      Sends-le _ (omega arith) (Sends-zero _ (Keeps-skip (sent_order p)))
  account_pages-last (suc n) token cont next_key crlf =
      Sends-bind 1 0 _ _ (Sends-fetch_page p _ _ _) (fetch_page-IsLast p crlf _ _ _)
        λ x h. account_fetched-IsLast (account_pages p n token) x h

  -- Whatever the servers answer, `GetAllAccountNumbers` sends at most 51 requests, one for a token and
  -- one for each of 50 pages, and none where accounts are known already.
  pub get_all_account_numbers-requests :
      (s : State p)
      → length (get_all_account_numbers p s).1.sent
        ≤ (if is_nil s.accounts then 51 else 0) + length s.sent
  unfolding get_all_account_numbers ◌>>=◌ gets skip
  get_all_account_numbers-requests s = elim (Bool-cases (is_nil s.accounts)) [
    | inl e ↦ rw e (fetch_accounts-Sends.at s)
    | inr e ↦ rw e (omega arith)
  ]

  -- Where every header line of every answer ends in CR LF, the loop over the pages of account
  -- numbers sends one request at most, also if the server announces a further page.
  pub account_pages-one_request :
      (n : ℕ) (token cont next_key : Text) (s : State p)
      → AnswersInLines p
      → length (account_pages p n token cont next_key s).1.sent ≤ 1 + length s.sent
  account_pages-one_request n token cont next_key s crlf =
      (account_pages-last n token cont next_key crlf).at s
