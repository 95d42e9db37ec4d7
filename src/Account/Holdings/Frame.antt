-- ===== src/Account/Holdings/Frame.antt =====
-- What the query of the holdings leaves alone until the new map is published.
use stock_trading_bot_server.Prelude.{
  ℕ, zero, suc, ◌≡◌, inl, inr, true, Bool-cases, [], ◌∷◌, Option, none, some, ℤ, is_positive,
  is_zero,
}
use stock_trading_bot_server.Text.{Text, codes, is_empty, text_eq}
use stock_trading_bot_server.Text.Map.{Map, lookup}
use stock_trading_bot_server.Platform.{Platform, Request}
use stock_trading_bot_server.World.{State, Code, Holding, catch_parse, pure, ◌>>◌}
use stock_trading_bot_server.World.Keeps.{
  Keeps, IsPreorder, Keeps-bind, Keeps-if, Keeps-lift_or, Keeps-catch_parse, Keeps-pure, Keeps-gets,
  Keeps-skip, Keeps-fold_each,
}
use stock_trading_bot_server.Curl.{easy_perform}
use stock_trading_bot_server.Curl.Plumbing.{KeepsLog, Plumbing}
use stock_trading_bot_server.Login.{set_token, json_error}
use stock_trading_bot_server.Login.Token.{Keeps-clear_access_token, Keeps-get_access_token}
use stock_trading_bot_server.Account.Page.{
  Fields, Fetched, no_page, bad_status, page, header_fields,
}
use stock_trading_bot_server.Account.Page.Frame.{
  Keeps-release, Keeps-json_error, Keeps-parse_json, Keeps-fetch_page,
}
use stock_trading_bot_server.Account.PrevClose.Frame.{Keeps-fetch_prev_close_prices}
use stock_trading_bot_server.Account.Item.{get_local_weekday, remember}
use stock_trading_bot_server.Account.Item.Frame.{Keeps-add_item}
use stock_trading_bot_server.Account.Holdings.{
  Local, is_three, refuse, add_items, read_page, read_body, handle_page, holdings_continue,
  holdings_fetched, holdings_fetch, holdings_pages, remember_both, with_close, enrich_found,
  enrich_one, enrich, swap_holdings, finish_holdings, publish_holdings, query_holdings,
  refresh_with_account, refresh_current_holdings, max_pages,
}

module _ (p : Platform) {R : State p → State p → Type 0} (o : IsPreorder R)
    (log : KeepsLog p R) where
  open p use {Json, Double, find, is_array, elements}

  module _ (at_token : (t : Text) → Keeps R (set_token p t)) where
    pub Keeps-refuse :
        (prefix : Text) (code : ℤ) (message : Text) → Keeps R (refuse p prefix code message)
    unfolding refuse
    Keeps-refuse prefix code message = Keeps-bind o _ _ (log _ _) λ _.
        Keeps-if o (is_three code) _ _ (Keeps-clear_access_token p o log at_token) (Keeps-skip o)

    module _ (at_clock : Keeps R (get_local_weekday p))
        (at_remember : (h : Holding Double) → Keeps R (remember p h)) where
      Keeps-add_items : (local : Local p) (items : Option Json) → Keeps R (add_items p local items)
      unfolding add_items
      Keeps-add_items local none = Keeps-pure o _
      Keeps-add_items local (some items) =
          Keeps-if o (is_array items) _ _
            (Keeps-fold_each o (elements items) local _
              (Keeps-add_item p o at_clock log at_remember))
            (Keeps-pure o _)

      Keeps-read_page : (local : Local p) (r : Json) → Keeps R (read_page p local r)
      unfolding read_page
      Keeps-read_page local r = Keeps-bind o _ _ (Keeps-lift_or o _ _) λ code.
          Keeps-bind o _ _ (Keeps-lift_or o _ _) λ message.
            Keeps-if o (is_zero code) _ _
              (Keeps-bind o _ _ (Keeps-add_items local (find r (codes "acnt_evlt_remn_indv_tot")))
                λ l. Keeps-pure o _)
              (Keeps-bind o _ _ (Keeps-refuse _ code message) λ _. Keeps-pure o _)

      -- The `try` block with its handler.
      pub Keeps-try_page :
          (local : Local p) (body : Text)
          → Keeps R (
              catch_parse
                (read_body p local body)
                (json_error p (codes "JSON 파싱 오류: ") body >> pure (some local)))
      unfolding read_body
      Keeps-try_page local body =
          Keeps-catch_parse o _ _
            (Keeps-if o (is_empty body) _ _ (Keeps-pure o _)
              (Keeps-bind o _ _ (Keeps-parse_json p o log body) (Keeps-read_page local)))
            (Keeps-bind o _ _ (Keeps-json_error p o log _ _) λ _. Keeps-pure o _)

module _ (p : Platform) {R : State p → State p → Type 0} (o : IsPreorder R) (f : Plumbing p R) where
  open f use {at_output}
  open p use {Json, Double, find, is_array, elements}

  module _ (at_token : (t : Text) → Keeps R (set_token p t)) where
    module _ (at_clock : Keeps R (get_local_weekday p))
        (at_remember : (h : Holding Double) → Keeps R (remember p h)) where
      pub Keeps-handle_page : (local : Local p) (body : Text) → Keeps R (handle_page p local body)
      unfolding handle_page
      Keeps-handle_page local body =
          Keeps-bind o _ _ (Keeps-try_page p o at_output at_token at_clock at_remember local body)
            λ result. Keeps-bind o _ _ (Keeps-release p o f) λ _. Keeps-pure o _

      pub Keeps-holdings_continue :
          (next : Text → Text → Local p → Code p (Option (Local p)))
          → ((c k : Text) (l : Local p) → Keeps R (next c k l))
          → (fields : Fields) (x : Option (Local p)) → Keeps R (holdings_continue p next fields x)
      unfolding holdings_continue
      Keeps-holdings_continue next h fields none = Keeps-pure o _
      Keeps-holdings_continue next h fields (some l) =
          Keeps-if o (text_eq fields.cont (codes "Y")) _ _ (h _ _ _) (Keeps-pure o _)

      pub Keeps-holdings_fetched :
          (next : Text → Text → Local p → Code p (Option (Local p)))
          → ((c k : Text) (l : Local p) → Keeps R (next c k l))
          → (local : Local p) (x : Fetched) → Keeps R (holdings_fetched p next local x)
      unfolding holdings_fetched
      Keeps-holdings_fetched next h local no_page = Keeps-pure o _
      Keeps-holdings_fetched next h local bad_status = Keeps-pure o _
      Keeps-holdings_fetched next h local (page body headers) =
          Keeps-bind o _ _ (Keeps-handle_page local body)
            (Keeps-holdings_continue next h (header_fields headers))

      module _ (at_perform : (r : Request) → Keeps R (easy_perform p r)) where
        -- The loop keeps every relation that allows the log, the curl objects, requests, a change
        -- of the token, the clock and the caches.
        pub Keeps-holdings_pages :
            (n : ℕ) (token cont next_key : Text) (local : Local p)
            → Keeps R (holdings_pages p n token cont next_key local)
        unfolding holdings_pages holdings_fetch
        Keeps-holdings_pages zero token cont next_key local = Keeps-pure o _
        Keeps-holdings_pages (suc n) token cont next_key local =
            Keeps-bind o _ _ (Keeps-fetch_page p o f at_perform _ _ _) (
              Keeps-holdings_fetched (holdings_pages p n token) (Keeps-holdings_pages n token)
                local)

-- The merge of the closes neither logs nor uses curl.
module _ (p : Platform) {R : State p → State p → Type 0} (o : IsPreorder R) where
  module _
      (at_both : (close : ℤ) (h : Holding p.Double)
        → is_positive close ≡ true
        → Keeps R (remember_both p (with_close p close h))) where
    Keeps-enrich_found : (h : Holding p.Double) (x : Option ℤ) → Keeps R (enrich_found p h x)
    unfolding enrich_found
    Keeps-enrich_found h none = Keeps-pure o _
    Keeps-enrich_found h (some close) = elim (Bool-cases (is_positive close)) [
      | inl e ↦ rw e (Keeps-bind o _ _ (at_both close h e) λ _. Keeps-pure o _)
      | inr e ↦ rw e (Keeps-pure o _)
    ]

    pub Keeps-enrich : (closes : Map ℤ) (local : Local p) → Keeps R (enrich p closes local)
    unfolding enrich enrich_one
    Keeps-enrich closes [] = Keeps-pure o _
    Keeps-enrich closes ((key, h) ∷ rest) =
        Keeps-bind o _ _ (Keeps-enrich_found h (lookup h.code closes))
          λ h'. Keeps-bind o _ _ (Keeps-enrich closes rest) λ rest'. Keeps-pure o _

-- The whole refresh.
module _ (p : Platform) {R : State p → State p → Type 0} (o : IsPreorder R) (f : Plumbing p R)
    (at_token : (t : Text) → Keeps R (set_token p t)) (at_clock : Keeps R (get_local_weekday p))
    (at_remember : (h : Holding p.Double) → Keeps R (remember p h))
    (at_perform : (r : Request) → Keeps R (easy_perform p r))
    (at_both : (close : ℤ) (h : Holding p.Double)
      → is_positive close ≡ true
      → Keeps R (remember_both p (with_close p close h)))
    (at_swap : (l : Local p) → Keeps R (swap_holdings p l)) where
  Keeps-publish_holdings : (x : Option (Local p)) → Keeps R (publish_holdings p x)
  unfolding publish_holdings finish_holdings
  Keeps-publish_holdings none = Keeps-skip o
  Keeps-publish_holdings (some local) =
      Keeps-bind o _ _ (Keeps-fetch_prev_close_prices p o f at_perform _) λ closes.
        Keeps-bind o _ _ (Keeps-enrich p o at_both closes local)
          λ enriched. Keeps-bind o _ _ (at_swap enriched) λ _. f.at_output _ _

  pub Keeps-refresh_current_holdings : Keeps R (refresh_current_holdings p)
  unfolding refresh_current_holdings refresh_with_account query_holdings
  Keeps-refresh_current_holdings = Keeps-bind o _ _ (Keeps-gets o _) λ account.
      Keeps-if o (is_empty account) _ _ (f.at_output _ _) (
        Keeps-bind o _ _ (Keeps-get_access_token p o f at_token at_perform) λ token.
          Keeps-if o (is_empty token) _ _ (f.at_output _ _) (
            Keeps-bind o _ _ (f.at_output _ _) λ _.
              Keeps-bind o _ _
                (Keeps-holdings_pages p o f at_token at_clock at_remember at_perform max_pages token
                  _ _ [])
                Keeps-publish_holdings))
