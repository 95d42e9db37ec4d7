-- ===== src/Account/Numbers/Balance.antt =====
-- The curl objects of the reading of the account numbers and of the choice of the account.
use stock_trading_bot_server.Prelude.{ℕ, zero, suc, refl, [], ◌∷◌}
use stock_trading_bot_server.Text.{Text, codes, is_empty, text_eq}
use stock_trading_bot_server.Text.Map.{TextSet}
use stock_trading_bot_server.Platform.{Platform}
use stock_trading_bot_server.World.{State, Code, skip}
use stock_trading_bot_server.World.Keeps.{Keeps, Keeps-update, Keeps-gets, Keeps-skip, Keeps-bind}
use stock_trading_bot_server.World.Costs.{
  SameCurl, SameCurl-IsPreorder, Costs, Costs-if, Costs-bind,
}
use stock_trading_bot_server.Curl.Balance.{none_left, Costs-closed, Costs-open, KeepsLog-SameCurl}
use stock_trading_bot_server.Login.Balance.{Costs-get_access_token}
use stock_trading_bot_server.Account.Page.{Fetched, no_page, bad_status, page, header_fields}
use stock_trading_bot_server.Account.Page.Balance.{opened, Costs-release, Costs-fetch_page}
use stock_trading_bot_server.Account.Numbers.{
  add_account, account_page, account_fetched, account_fetch, account_pages, fetch_accounts,
  get_all_account_numbers, has_account, use_first, use_default, use_configured, set_current,
  set_use_account, max_account_pages, is_nil,
}
use stock_trading_bot_server.Account.Numbers.Frame.{Keeps-try_accounts}

module _ (p : Platform) where
  open p use {account_num}

  skip_closed : Costs 0 0 none_left none_left (skip {S = State p})
  skip_closed = Costs-closed (Keeps-skip SameCurl-IsPreorder)

  Costs-account_page : (body : Text) → Costs 1 1 none_left none_left (account_page p body)
  unfolding account_page add_account
  Costs-account_page body =
      Costs-bind
        (Costs-open (
          Keeps-try_accounts p SameCurl-IsPreorder (KeepsLog-SameCurl p)
            (λ t. Keeps-update _ λ s. (refl, refl)) body))
        λ _. Costs-release p

  Costs-account_fetched :
      (next : Text → Text → Code p (Unit {0}))
      → ((c k : Text) → Costs 0 0 none_left none_left (next c k))
      → (x : Fetched) → Costs (opened x) (opened x) none_left none_left (account_fetched p next x)
  unfolding account_fetched
  Costs-account_fetched next h no_page = skip_closed
  Costs-account_fetched next h bad_status = skip_closed
  Costs-account_fetched next h (page body headers) =
      Costs-bind (Costs-account_page body)
        λ _. Costs-if (text_eq (header_fields headers).cont (codes "Y")) (h _ _) skip_closed

  Costs-account_pages :
      (n : ℕ) (token cont next_key : Text)
      → Costs 0 0 none_left none_left (account_pages p n token cont next_key)
  unfolding account_pages account_fetch
  Costs-account_pages zero token cont next_key = skip_closed
  Costs-account_pages (suc n) token cont next_key =
      Costs-bind (Costs-fetch_page p _ _ _)
        (Costs-account_fetched (account_pages p n token) (Costs-account_pages n token))

  Costs-get_all_account_numbers : Costs 0 0 none_left none_left (get_all_account_numbers p)
  unfolding get_all_account_numbers fetch_accounts
  Costs-get_all_account_numbers =
      Costs-bind (Costs-closed (Keeps-gets SameCurl-IsPreorder _)) λ known.
        Costs-if (is_nil known)
          (Costs-bind (Costs-get_access_token p) λ token.
            Costs-if (is_empty token) (Costs-closed (KeepsLog-SameCurl p _ _))
              (Costs-account_pages max_account_pages token _ _))
          skip_closed

  Keeps-use_first : (all : TextSet) → Keeps SameCurl (use_first p all)
  unfolding use_first set_current
  Keeps-use_first [] = Keeps-skip SameCurl-IsPreorder
  Keeps-use_first ((number, _) ∷ rest) = Keeps-update _ λ s. (refl, refl)

  -- `SetUseAccount` that returns has given back every curl handle and header list.
  pub Costs-set_use_account : Costs 0 0 none_left none_left (set_use_account p)
  unfolding set_use_account has_account use_default use_configured set_current
  Costs-set_use_account =
      let o = SameCurl-IsPreorder in
      let log = KeepsLog-SameCurl p in
      Costs-bind
        (Costs-bind (Costs-closed (Keeps-gets o _)) λ known.
          Costs-bind (Costs-if (is_nil known) Costs-get_all_account_numbers skip_closed)
            λ _. Costs-closed (Keeps-gets o _))
        λ found.
          Costs-if found
            (Costs-closed (Keeps-bind o _ _ (Keeps-update _ λ s. (refl, refl)) λ _. log _ _))
            (Costs-bind (Costs-closed (log _ _)) λ _. Costs-bind Costs-get_all_account_numbers λ _.
              Costs-closed (
                Keeps-bind o _ _ (Keeps-gets o _) λ all.
                  Keeps-bind o _ _ (Keeps-use_first all)
                    λ _. Keeps-bind o _ _ (Keeps-gets o _) λ current. log _ _))
