-- ===== src/Account/Trades/Balance.antt =====
-- The curl objects of a refresh of the trade history.
use stock_trading_bot_server.Prelude.{ℕ, zero, suc, refl, [], Option, none, some}
use stock_trading_bot_server.Text.{Text, codes, is_empty, text_eq}
use stock_trading_bot_server.Platform.{Platform}
use stock_trading_bot_server.World.{Code}
use stock_trading_bot_server.World.Keeps.{Keeps-update, Keeps-gets, Keeps-skip, Keeps-bind}
use stock_trading_bot_server.World.Costs.{
  SameCurl-IsPreorder, Costs, Costs-pure, Costs-if, Costs-bind,
}
use stock_trading_bot_server.Curl.Balance.{none_left, Costs-closed, Costs-open, KeepsLog-SameCurl}
use stock_trading_bot_server.Login.Balance.{set_token-Keeps, Costs-get_access_token}
use stock_trading_bot_server.Account.Page.{
  Fields, Fetched, no_page, bad_status, page, header_fields,
}
use stock_trading_bot_server.Account.Page.Balance.{opened, Costs-release, Costs-fetch_page}
use stock_trading_bot_server.Account.Holdings.{max_pages}
use stock_trading_bot_server.Account.Trades.{
  Trades, handle_trades_page, trades_continue, trades_fetched, trades_fetch, trade_pages,
  swap_trades, finish_trades, publish_trades, query_trades, trades_with_account,
  refresh_trade_history,
}
use stock_trading_bot_server.Account.Trades.Frame.{Keeps-try_trades}

module _ (p : Platform) where
  Costs-handle_trades_page :
      (local : Trades p) (body : Text)
      → Costs 1 1 none_left none_left (handle_trades_page p local body)
  unfolding handle_trades_page
  Costs-handle_trades_page local body =
      Costs-bind
        (Costs-open (
          Keeps-try_trades p SameCurl-IsPreorder (KeepsLog-SameCurl p) (set_token-Keeps p) local
            body))
        λ result. Costs-bind (Costs-release p) λ _. Costs-pure result

  module _ (next : Text → Text → Trades p → Code p (Option (Trades p)))
      (h : (c k : Text) (l : Trades p) → Costs 0 0 none_left none_left (next c k l)) where
    Costs-trades_continue :
        (f : Fields) (x : Option (Trades p))
        → Costs 0 0 none_left none_left (trades_continue p next f x)
    unfolding trades_continue
    Costs-trades_continue f none = Costs-pure _
    Costs-trades_continue f (some l) =
        Costs-if (text_eq f.cont (codes "Y")) (h _ _ _) (Costs-pure _)

    Costs-trades_fetched :
        (local : Trades p) (x : Fetched)
        → Costs (opened x) (opened x) none_left none_left (trades_fetched p next local x)
    unfolding trades_fetched
    Costs-trades_fetched local no_page = Costs-pure _
    Costs-trades_fetched local bad_status = Costs-pure _
    Costs-trades_fetched local (page body headers) =
        Costs-bind (Costs-handle_trades_page local body)
          (Costs-trades_continue (header_fields headers))

  Costs-trade_pages :
      (n : ℕ) (body token cont next_key : Text) (local : Trades p)
      → Costs 0 0 none_left none_left (trade_pages p n body token cont next_key local)
  unfolding trade_pages trades_fetch
  Costs-trade_pages zero body token cont next_key local = Costs-pure _
  Costs-trade_pages (suc n) body token cont next_key local =
      Costs-bind (Costs-fetch_page p _ _ _)
        (Costs-trades_fetched (trade_pages p n body token) (Costs-trade_pages n body token) local)

  Costs-publish_trades :
      (x : Option (Trades p)) → Costs 0 0 none_left none_left (publish_trades p x)
  unfolding publish_trades finish_trades swap_trades
  Costs-publish_trades none = Costs-closed (Keeps-skip SameCurl-IsPreorder)
  Costs-publish_trades (some local) = Costs-closed (
      Keeps-bind SameCurl-IsPreorder _ _ (Keeps-update _ λ s. (refl, refl))
        λ _. KeepsLog-SameCurl p _ _)

  -- A refresh of the trade history that returns has given back every curl handle and header list.
  pub Costs-refresh_trade_history :
      (start_date end_date : Text)
      → Costs 0 0 none_left none_left (refresh_trade_history p start_date end_date)
  unfolding refresh_trade_history trades_with_account query_trades
  Costs-refresh_trade_history start_date end_date =
      let log = KeepsLog-SameCurl p in
      Costs-bind (Costs-closed (Keeps-gets SameCurl-IsPreorder _)) λ account.
        Costs-if (is_empty account) (Costs-closed (log _ _)) (
          Costs-bind (Costs-get_access_token p) λ token.
            Costs-if (is_empty token) (Costs-closed (log _ _)) (
              Costs-bind (Costs-closed (log _ _))
                λ _. Costs-bind (Costs-trade_pages max_pages _ token _ _ []) Costs-publish_trades))
