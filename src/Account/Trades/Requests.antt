-- ===== src/Account/Trades/Requests.antt =====
-- A refresh of the trade history against a server that cannot be reached, or that refuses.
use stock_trading_bot_server.Prelude.{ℕ, zero, suc, ◌≡◌, refl, true, false, [], none, some, arith}
use stock_trading_bot_server.Text.{Text, is_empty}
use stock_trading_bot_server.Outcome.{done}
use stock_trading_bot_server.Platform.{Platform, Request}
use stock_trading_bot_server.World.{State, pure, gets, update, skip, ◌>>=◌}
use stock_trading_bot_server.Curl.{output}
use stock_trading_bot_server.Login.{get_access_token}
use stock_trading_bot_server.Account.Page.{no_page, bad_status, fetch_page}
use stock_trading_bot_server.Account.Page.Failing.{
  IsOffline, IsRefusing, Gives, Gives-bind, Gives-output, fetch-offline, fetch-refusing, bind-after,
}
use stock_trading_bot_server.Account.Holdings.{max_pages}
use stock_trading_bot_server.Account.Trades.{
  Trades, trades_fetched, trades_fetch, trade_pages, swap_trades, finish_trades, publish_trades,
  query_trades, trades_with_account, refresh_trade_history,
}

module _ (p : Platform) (start_date end_date : Text) where
  history-cached :
      (s : State p)
      → is_empty s.current_account ≡ false
      → is_empty s.access_token ≡ false
      → refresh_trade_history p start_date end_date s
        ≡ query_trades p start_date end_date s.access_token s
  unfolding refresh_trade_history trades_with_account get_access_token ◌>>=◌ gets pure
  history-cached s account token = ground arith

  publish_none : Gives p tt (publish_trades p none)
  unfolding publish_trades skip
  publish_none s = (refl, refl, refl)

  history-bad_status :
      ((m n : Text) (r : Request) → Gives p bad_status (fetch_page p m n r))
      → (n : ℕ) (body token cont next_key : Text) (local : Trades p)
      → Gives p none (trade_pages p (suc n) body token cont next_key local)
  unfolding trade_pages trades_fetch trades_fetched pure
  history-bad_status bad n body token cont next_key local =
      Gives-bind p bad_status none _ _ (bad _ _ _) (λ s. (refl, refl, refl))

  history-no_page :
      ((m n : Text) (r : Request) → Gives p no_page (fetch_page p m n r))
      → (n : ℕ) (body token cont next_key : Text) (local : Trades p)
      → Gives p (some local) (trade_pages p n body token cont next_key local)
  unfolding trade_pages trades_fetch trades_fetched pure
  history-no_page off zero body token cont next_key local s = (refl, refl, refl)
  history-no_page off (suc n) body token cont next_key local s =
      Gives-bind p no_page (some local) _ _ (off _ _ _) (λ t. (refl, refl, refl)) s

  publish_nil :
      (s : State p)
      → ((publish_trades p (some []) s).0 ≡ done tt)
        × ((publish_trades p (some []) s).1.trade_history ≡ [])
  unfolding publish_trades finish_trades swap_trades ◌>>=◌ update output
  publish_nil s = (refl, refl)

  query-no_page :
      ((m n : Text) (r : Request) → Gives p no_page (fetch_page p m n r))
      → (token : Text) (s : State p)
      → ((query_trades p start_date end_date token s).0 ≡ done tt)
        × ((query_trades p start_date end_date token s).1.trade_history ≡ [])
  unfolding query_trades
  query-no_page off token =
      bind-after p tt tt (λ t. t.trade_history ≡ []) _ _ (Gives-output p _ _)
        (bind-after p (some []) tt (λ t. t.trade_history ≡ []) _ _
          (history-no_page off max_pages _ token _ _ []) publish_nil)

  query-bad_status :
      ((m n : Text) (r : Request) → Gives p bad_status (fetch_page p m n r))
      → (token : Text) → Gives p tt (query_trades p start_date end_date token)
  unfolding query_trades
  query-bad_status bad token =
      Gives-bind p tt tt _ _ (Gives-output p _ _)
        (Gives-bind p none tt _ _ (history-bad_status bad 99 _ token _ _ []) publish_none)

  -- Where an account is in use, the token is cached and every transfer fails, a refresh of the trade
  -- history returns and publishes the empty history in place of the old one.
  pub history_offline :
      (s : State p)
      → is_empty s.current_account ≡ false
      → is_empty s.access_token ≡ false
      → IsOffline p
      → ((refresh_trade_history p start_date end_date s).0 ≡ done tt)
        × ((refresh_trade_history p start_date end_date s).1.trade_history ≡ [])
  history_offline s account token off =
      rw (history-cached s account token) (query-no_page (fetch-offline p off) s.access_token s)

  -- Where an account is in use, the token is cached, curl gives handles and every answer has a status
  -- other than 200, a refresh of the trade history returns and leaves the history and the holdings as
  -- they were.
  pub history_refused :
      (s : State p)
      → is_empty s.current_account ≡ false
      → is_empty s.access_token ≡ false
      → IsRefusing p
      → ((n : ℕ) → p.init_ok n ≡ true)
      → ((refresh_trade_history p start_date end_date s).0 ≡ done tt)
        × ((refresh_trade_history p start_date end_date s).1.trade_history ≡ s.trade_history)
        × ((refresh_trade_history p start_date end_date s).1.holdings ≡ s.holdings)
  history_refused s account token bad ready =
      let (a, b, c) = query-bad_status (fetch-refusing p bad ready) s.access_token s in
      rw (history-cached s account token) (a, c, b)
