-- ===== src/Account/Numbers/Frame.antt =====
-- What the reading of the account numbers leaves alone.
use stock_trading_bot_server.Prelude.{ℕ, zero, suc, Option, none, some}
use stock_trading_bot_server.Text.{Text, codes, is_empty, text_eq}
use stock_trading_bot_server.Platform.{Platform, Request}
use stock_trading_bot_server.World.{State, Code, catch_parse}
use stock_trading_bot_server.World.Keeps.{
  Keeps, IsPreorder, Keeps-bind, Keeps-if, Keeps-lift_or, Keeps-catch_parse, Keeps-gets, Keeps-skip,
  Keeps-for_each,
}
use stock_trading_bot_server.Curl.{easy_perform}
use stock_trading_bot_server.Curl.Plumbing.{KeepsLog, Plumbing}
use stock_trading_bot_server.Login.{set_token, json_error}
use stock_trading_bot_server.Login.Token.{Keeps-get_access_token}
use stock_trading_bot_server.Account.Page.{Fetched, no_page, bad_status, page, header_fields}
use stock_trading_bot_server.Account.Page.Frame.{
  Keeps-release, Keeps-json_error, Keeps-parse_json, Keeps-fetch_page,
}
use stock_trading_bot_server.Account.Numbers.{
  add_account, add_if_text, scan_value, scan_entry, add_nonempty, scan_found, scan_response,
  read_accounts, account_page, account_fetched, account_fetch, account_pages, fetch_accounts,
  get_all_account_numbers, max_account_pages, is_nil, is_account_key,
}

module _ (p : Platform) {R : State p → State p → Type 0} (o : IsPreorder R)
    (log : KeepsLog p R) where
  open p use {Json, find, is_string, is_array, elements, entries}

  module _ (at_add : (t : Text) → Keeps R (add_account p t)) where
    Keeps-add_if_text : (v : Json) → Keeps R (add_if_text p v)
    unfolding add_if_text
    Keeps-add_if_text v =
        Keeps-if o (is_string v) _ _ (Keeps-bind o _ _ (Keeps-lift_or o _ _) at_add) (Keeps-skip o)

    Keeps-add_nonempty : (t : Text) → Keeps R (add_nonempty p t)
    unfolding add_nonempty
    Keeps-add_nonempty t = Keeps-if o (is_empty t) _ _ (Keeps-skip o) (at_add t)

    Keeps-scan_value : (v : Json) → Keeps R (scan_value p v)
    unfolding scan_value
    Keeps-scan_value v =
        Keeps-if o (is_string v) _ _ (Keeps-bind o _ _ (Keeps-lift_or o _ _) at_add) (
          Keeps-if o (is_array v) _ _ (Keeps-for_each o (elements v) _ Keeps-add_if_text)
            (Keeps-skip o))

    Keeps-scan_entry : (e : Option Text × Json) → Keeps R (scan_entry p e)
    unfolding scan_entry
    Keeps-scan_entry (key, v) =
        Keeps-bind o _ _ (Keeps-lift_or o _ _)
          λ name. Keeps-if o (is_account_key name) _ _ (Keeps-scan_value v) (Keeps-skip o)

    Keeps-scan_found : (r : Json) (x : Option Json) → Keeps R (scan_found p r x)
    unfolding scan_found
    Keeps-scan_found r none = Keeps-for_each o (entries r) _ Keeps-scan_entry
    Keeps-scan_found r (some v) =
        Keeps-if o (is_string v) _ _ (Keeps-bind o _ _ (Keeps-lift_or o _ _) Keeps-add_nonempty) (
          Keeps-if o (is_array v) _ _ (Keeps-for_each o (elements v) _ Keeps-add_if_text)
            (Keeps-for_each o (entries r) _ Keeps-scan_entry))

    Keeps-read_accounts : (body : Text) → Keeps R (read_accounts p body)
    unfolding read_accounts scan_response
    Keeps-read_accounts body = Keeps-if o (is_empty body) _ _ (Keeps-skip o) (
        Keeps-bind o _ _ (Keeps-parse_json p o log body)
          λ r. Keeps-scan_found r (find r (codes "acctNo")))

    -- The `try` block with its handler.
    pub Keeps-try_accounts :
        (body : Text)
        → Keeps R (catch_parse (read_accounts p body) (json_error p (codes "JSON 파싱 오류: ") body))
    Keeps-try_accounts body =
        Keeps-catch_parse o _ _ (Keeps-read_accounts body) (Keeps-json_error p o log _ _)

module _ (p : Platform) {R : State p → State p → Type 0} (o : IsPreorder R) (f : Plumbing p R) where
  open f use {at_output}

  module _ (at_add : (t : Text) → Keeps R (add_account p t)) where
    pub Keeps-account_page : (body : Text) → Keeps R (account_page p body)
    unfolding account_page
    Keeps-account_page body =
        Keeps-bind o _ _ (Keeps-try_accounts p o at_output at_add body) λ _. Keeps-release p o f

    module _ (at_perform : (r : Request) → Keeps R (easy_perform p r)) where
      Keeps-account_fetched :
          (next : Text → Text → Code p (Unit {0}))
          → ((c k : Text) → Keeps R (next c k))
          → (x : Fetched) → Keeps R (account_fetched p next x)
      unfolding account_fetched
      Keeps-account_fetched next h no_page = Keeps-skip o
      Keeps-account_fetched next h bad_status = Keeps-skip o
      Keeps-account_fetched next h (page body headers) =
          Keeps-bind o _ _ (Keeps-account_page body) λ _.
            Keeps-if o (text_eq (header_fields headers).cont (codes "Y")) _ _ (h _ _) (Keeps-skip o)

      pub Keeps-account_pages :
          (n : ℕ) (token cont next_key : Text) → Keeps R (account_pages p n token cont next_key)
      unfolding account_pages account_fetch
      Keeps-account_pages zero token cont next_key = Keeps-skip o
      Keeps-account_pages (suc n) token cont next_key =
          Keeps-bind o _ _ (Keeps-fetch_page p o f at_perform _ _ _)
            (Keeps-account_fetched (account_pages p n token) (Keeps-account_pages n token))

      module _ (at_token : (t : Text) → Keeps R (set_token p t)) where
        -- The call keeps every relation that allows the log, the curl objects, a request, a change
        -- of the token and a further account number.
        pub Keeps-get_all_account_numbers : Keeps R (get_all_account_numbers p)
        unfolding get_all_account_numbers fetch_accounts
        Keeps-get_all_account_numbers = Keeps-bind o _ _ (Keeps-gets o _) λ known.
            Keeps-if o (is_nil known) _ _
              (Keeps-bind o _ _ (Keeps-get_access_token p o f at_token at_perform) λ token.
                Keeps-if o (is_empty token) _ _ (at_output _ _)
                  (Keeps-account_pages max_account_pages token _ _))
              (Keeps-skip o)
