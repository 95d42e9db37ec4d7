-- ===== src/Account/Holdings/Balance.antt =====
-- The curl objects of a refresh of the holdings.
use stock_trading_bot_server.Prelude.{ℕ, zero, suc, refl, arith, [], Option, none, some}
use stock_trading_bot_server.Text.{Text, codes, is_empty, text_eq}
use stock_trading_bot_server.Platform.{Platform}
use stock_trading_bot_server.World.{State, Code}
use stock_trading_bot_server.World.Keeps.{Keeps-update, Keeps-gets, Keeps-skip, Keeps-bind}
use stock_trading_bot_server.World.Costs.{
  SameCurl-IsPreorder, Ends, Costs, Costs-pure, Costs-if, Costs-bind,
}
use stock_trading_bot_server.Curl.Balance.{none_left, Costs-closed, Costs-open, KeepsLog-SameCurl}
use stock_trading_bot_server.Login.Balance.{set_token-Keeps, Costs-get_access_token}
use stock_trading_bot_server.Account.Page.{
  Fields, Fetched, no_page, bad_status, page, header_fields,
}
use stock_trading_bot_server.Account.Page.Balance.{opened, Costs-release, Costs-fetch_page}
use stock_trading_bot_server.Account.PrevClose.Balance.{Costs-fetch_prev_close_prices}
use stock_trading_bot_server.Account.Item.{get_local_weekday, remember}
use stock_trading_bot_server.Account.Holdings.{
  Local, handle_page, holdings_continue, holdings_fetched, holdings_fetch, holdings_pages,
  remember_both, swap_holdings, finish_holdings, publish_holdings, query_holdings,
  refresh_with_account, refresh_current_holdings, max_pages,
}
use stock_trading_bot_server.Account.Holdings.Frame.{Keeps-try_page, Keeps-enrich}

module _ (p : Platform) where
  Costs-handle_page :
      (local : Local p) (body : Text) → Costs 1 1 none_left none_left (handle_page p local body)
  unfolding handle_page get_local_weekday remember
  Costs-handle_page local body =
      Costs-bind
        (Costs-open (
          Keeps-try_page p SameCurl-IsPreorder (KeepsLog-SameCurl p) (set_token-Keeps p)
            (record { at = λ s. (refl, refl) }) (λ h. Keeps-update _ λ s. (refl, refl)) local body))
        λ result. Costs-bind (Costs-release p) λ _. Costs-pure result

  module _ (next : Text → Text → Local p → Code p (Option (Local p)))
      (h : (c k : Text) (l : Local p) → Costs 0 0 none_left none_left (next c k l)) where
    Costs-holdings_continue :
        (f : Fields) (x : Option (Local p))
        → Costs 0 0 none_left none_left (holdings_continue p next f x)
    unfolding holdings_continue
    Costs-holdings_continue f none = Costs-pure _
    Costs-holdings_continue f (some l) =
        Costs-if (text_eq f.cont (codes "Y")) (h _ _ _) (Costs-pure _)

    Costs-holdings_fetched :
        (local : Local p) (x : Fetched)
        → Costs (opened x) (opened x) none_left none_left (holdings_fetched p next local x)
    unfolding holdings_fetched
    Costs-holdings_fetched local no_page = Costs-pure _
    Costs-holdings_fetched local bad_status = Costs-pure _
    Costs-holdings_fetched local (page body headers) =
        Costs-bind (Costs-handle_page local body) (Costs-holdings_continue (header_fields headers))

  Costs-holdings_pages :
      (n : ℕ) (token cont next_key : Text) (local : Local p)
      → Costs 0 0 none_left none_left (holdings_pages p n token cont next_key local)
  unfolding holdings_pages holdings_fetch
  Costs-holdings_pages zero token cont next_key local = Costs-pure _
  Costs-holdings_pages (suc n) token cont next_key local =
      Costs-bind (Costs-fetch_page p _ _ _)
        (Costs-holdings_fetched (holdings_pages p n token) (Costs-holdings_pages n token) local)

  Costs-publish_holdings :
      (x : Option (Local p)) → Costs 0 0 none_left none_left (publish_holdings p x)
  unfolding publish_holdings finish_holdings swap_holdings remember_both
  Costs-publish_holdings none = Costs-closed (Keeps-skip SameCurl-IsPreorder)
  Costs-publish_holdings (some local) =
      let o = SameCurl-IsPreorder in
      Costs-bind (Costs-fetch_prev_close_prices p _) λ closes. Costs-closed (
        Keeps-bind o _ _
          (Keeps-enrich p o (λ close h e. Keeps-update _ λ s. (refl, refl)) closes local)
          λ enriched.
            Keeps-bind o _ _ (Keeps-update _ λ s. (refl, refl)) λ _. KeepsLog-SameCurl p _ _)

  pub Costs-refresh_current_holdings : Costs 0 0 none_left none_left (refresh_current_holdings p)
  unfolding refresh_current_holdings refresh_with_account query_holdings
  Costs-refresh_current_holdings =
      let log = KeepsLog-SameCurl p in
      Costs-bind (Costs-closed (Keeps-gets SameCurl-IsPreorder _)) λ account.
        Costs-if (is_empty account) (Costs-closed (log _ _)) (
          Costs-bind (Costs-get_access_token p) λ token.
            Costs-if (is_empty token) (Costs-closed (log _ _)) (
              Costs-bind (Costs-closed (log _ _)) λ _.
                Costs-bind (Costs-holdings_pages max_pages token _ _ []) Costs-publish_holdings))

  -- A refresh of the holdings that returns, whatever the servers answer, has given back every curl
  -- handle and every header list that it took; one that ends in an exception leaves at most one
  -- handle and one list behind.
  pub refresh-Balanced :
      (s : State p)
      → Ends s.handles s.header_lists none_left none_left
          (refresh_current_holdings p s).0
          (refresh_current_holdings p s).1
  refresh-Balanced s =
      Costs-refresh_current_holdings.at s s.handles s.header_lists (omega arith) (omega arith)
