-- ===== src/Account/PrevClose/Frame.antt =====
-- What the request for the closing prices leaves alone.
use stock_trading_bot_server.Prelude.{Option, none, some}
use stock_trading_bot_server.Text.{Text}
use stock_trading_bot_server.Text.Map.{TextSet}
use stock_trading_bot_server.Platform.{Platform, Request}
use stock_trading_bot_server.World.{State}
use stock_trading_bot_server.World.Keeps.{Keeps, IsPreorder, Keeps-bind, Keeps-if, Keeps-pure}
use stock_trading_bot_server.Curl.{easy_perform}
use stock_trading_bot_server.Curl.Plumbing.{Plumbing}
use stock_trading_bot_server.Account.Numbers.{is_nil}
use stock_trading_bot_server.Account.PrevClose.{
  all_empty, ask_escaped, ask_prices, fetch_prev_close_prices,
}

module _ (p : Platform) {R : State p → State p → Type 0} (o : IsPreorder R) (f : Plumbing p R) where
  module _ (at_perform : (r : Request) → Keeps R (easy_perform p r)) where
    Keeps-ask_escaped : (e : Option Text) → Keeps R (ask_escaped p e)
    unfolding ask_escaped
    Keeps-ask_escaped none = Keeps-bind o _ _ f.at_cleanup λ _. Keeps-pure o _
    Keeps-ask_escaped (some e) =
        Keeps-bind o _ _ (at_perform _) λ reply. Keeps-bind o _ _ f.at_cleanup λ _. Keeps-pure o _

    pub Keeps-fetch_prev_close_prices :
        (wanted : TextSet) → Keeps R (fetch_prev_close_prices p wanted)
    unfolding fetch_prev_close_prices ask_prices
    Keeps-fetch_prev_close_prices wanted = Keeps-if o (is_nil wanted) _ _ (Keeps-pure o _) (
        Keeps-bind o _ _ f.at_init λ ready.
          Keeps-if o ready _ _
            (Keeps-if o (all_empty wanted) _ _ (Keeps-bind o _ _ f.at_cleanup λ _. Keeps-pure o _)
              (Keeps-ask_escaped _))
            (Keeps-pure o _))
