-- ===== src/Account/PrevClose/Balance.antt =====
-- The curl handle of the request for the closing prices.
use stock_trading_bot_server.Prelude.{Option, none, some}
use stock_trading_bot_server.Text.{Text}
use stock_trading_bot_server.Text.Map.{TextSet}
use stock_trading_bot_server.Platform.{Platform}
use stock_trading_bot_server.World.Costs.{Costs, Costs-pure, Costs-if, Costs-bind}
use stock_trading_bot_server.Curl.Balance.{
  none_left, Costs-half, Keeps-perform, Costs-ready, Costs-cleanup,
}
use stock_trading_bot_server.Account.Numbers.{is_nil}
use stock_trading_bot_server.Account.PrevClose.{
  all_empty, ask_escaped, ask_prices, fetch_prev_close_prices,
}

module _ (p : Platform) where
  Costs-ask_escaped : (e : Option Text) → Costs 1 0 none_left none_left (ask_escaped p e)
  unfolding ask_escaped
  Costs-ask_escaped none = Costs-bind (Costs-cleanup p) λ _. Costs-pure _
  Costs-ask_escaped (some e) =
      Costs-bind (Costs-half (Keeps-perform p _))
        λ reply. Costs-bind (Costs-cleanup p) λ _. Costs-pure _

  pub Costs-fetch_prev_close_prices :
      (wanted : TextSet) → Costs 0 0 none_left none_left (fetch_prev_close_prices p wanted)
  unfolding fetch_prev_close_prices ask_prices
  Costs-fetch_prev_close_prices wanted = Costs-if (is_nil wanted) (Costs-pure _) (
      Costs-ready p
        (Costs-if (all_empty wanted) (Costs-bind (Costs-cleanup p) λ _. Costs-pure _)
          (Costs-ask_escaped _))
        (Costs-pure _))
