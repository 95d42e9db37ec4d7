-- ===== src/Account/Holdings/Requests.antt =====
-- A refresh of the holdings against a server that cannot be reached, or that refuses.
use stock_trading_bot_server.Prelude.{ℕ, zero, suc, ◌≡◌, refl, true, false, [], none, some, arith}
use stock_trading_bot_server.Text.{Text, is_empty}
use stock_trading_bot_server.Outcome.{done}
use stock_trading_bot_server.Platform.{Platform, Request}
use stock_trading_bot_server.World.{State, pure, gets, update, skip, ◌>>=◌}
use stock_trading_bot_server.Curl.{output}
use stock_trading_bot_server.Login.{get_access_token}
use stock_trading_bot_server.Account.Page.{no_page, bad_status, fetch_page}
use stock_trading_bot_server.Account.Page.Failing.{
  IsOffline, IsRefusing, Gives, Gives-bind, Gives-output, fetch-offline, fetch-refusing, bind-after,
}
use stock_trading_bot_server.Account.PrevClose.{fetch_prev_close_prices}
use stock_trading_bot_server.Account.Holdings.{
  Local, holdings_fetched, holdings_fetch, holdings_pages, codes_of, enrich, swap_holdings,
  finish_holdings, publish_holdings, query_holdings, refresh_with_account, refresh_current_holdings,
  max_pages,
}

module _ (p : Platform) where
  -- With an account in use and a cached token, a refresh is the loop and the publication.
  refresh-cached :
      (s : State p)
      → is_empty s.current_account ≡ false
      → is_empty s.access_token ≡ false
      → refresh_current_holdings p s ≡ query_holdings p s.access_token s
  unfolding refresh_current_holdings refresh_with_account get_access_token ◌>>=◌ gets pure
  refresh-cached s account token = ground arith

  publish_none : Gives p tt (publish_holdings p none)
  unfolding publish_holdings skip
  publish_none s = (refl, refl, refl)

  pages-bad_status :
      ((m n : Text) (r : Request) → Gives p bad_status (fetch_page p m n r))
      → (n : ℕ) (token cont next_key : Text) (local : Local p)
      → Gives p none (holdings_pages p (suc n) token cont next_key local)
  unfolding holdings_pages holdings_fetch holdings_fetched pure
  pages-bad_status bad n token cont next_key local =
      Gives-bind p bad_status none _ _ (bad _ _ _) (λ s. (refl, refl, refl))

  pages-no_page :
      ((m n : Text) (r : Request) → Gives p no_page (fetch_page p m n r))
      → (n : ℕ) (token cont next_key : Text) (local : Local p)
      → Gives p (some local) (holdings_pages p n token cont next_key local)
  unfolding holdings_pages holdings_fetch holdings_fetched pure
  pages-no_page off zero token cont next_key local s = (refl, refl, refl)
  pages-no_page off (suc n) token cont next_key local s =
      Gives-bind p no_page (some local) _ _ (off _ _ _) (λ t. (refl, refl, refl)) s

  query-bad_status :
      ((m n : Text) (r : Request) → Gives p bad_status (fetch_page p m n r))
      → (token : Text) → Gives p tt (query_holdings p token)
  unfolding query_holdings
  query-bad_status bad token =
      Gives-bind p tt tt _ _ (Gives-output p _ _)
        (Gives-bind p none tt _ _ (pages-bad_status bad 99 token _ _ []) publish_none)

  publish_nil :
      (s : State p)
      → ((publish_holdings p (some []) s).0 ≡ done tt)
        × ((publish_holdings p (some []) s).1.holdings ≡ [])
  unfolding publish_holdings finish_holdings fetch_prev_close_prices codes_of enrich swap_holdings
      ◌>>=◌ pure update output
  publish_nil s = (refl, refl)

  query-no_page :
      ((m n : Text) (r : Request) → Gives p no_page (fetch_page p m n r))
      → (token : Text) (s : State p)
      → ((query_holdings p token s).0 ≡ done tt) × ((query_holdings p token s).1.holdings ≡ [])
  unfolding query_holdings
  query-no_page off token =
      bind-after p tt tt (λ t. t.holdings ≡ []) _ _ (Gives-output p _ _)
        (bind-after p (some []) tt (λ t. t.holdings ≡ []) _ _
          (pages-no_page off max_pages token _ _ []) publish_nil)

  -- Where an account is in use, the token is cached and every transfer fails, a refresh returns and
  -- publishes the empty map in place of the holdings.
  pub refresh_offline :
      (s : State p)
      → is_empty s.current_account ≡ false
      → is_empty s.access_token ≡ false
      → IsOffline p
      → ((refresh_current_holdings p s).0 ≡ done tt)
        × ((refresh_current_holdings p s).1.holdings ≡ [])
  refresh_offline s account token off =
      rw (refresh-cached s account token) (query-no_page (fetch-offline p off) s.access_token s)

  -- Where an account is in use, the token is cached, curl gives handles and every answer has a status
  -- other than 200, a refresh returns and the holdings stay as they were.
  pub refresh_refused :
      (s : State p)
      → is_empty s.current_account ≡ false
      → is_empty s.access_token ≡ false
      → IsRefusing p
      → ((n : ℕ) → p.init_ok n ≡ true)
      → ((refresh_current_holdings p s).0 ≡ done tt)
        × ((refresh_current_holdings p s).1.holdings ≡ s.holdings)
  refresh_refused s account token bad ready =
      let (returned, kept, _) = query-bad_status (fetch-refusing p bad ready) s.access_token s in
      rw (refresh-cached s account token) (returned, kept)
