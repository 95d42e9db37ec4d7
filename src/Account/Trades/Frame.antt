-- ===== src/Account/Trades/Frame.antt =====
-- What the reading of a page of trades leaves alone.
use stock_trading_bot_server.Prelude.{Option, none, some, is_zero}
use stock_trading_bot_server.Text.{Text, codes, is_empty}
use stock_trading_bot_server.Platform.{Platform}
use stock_trading_bot_server.World.{State, catch_parse, pure, ◌>>◌}
use stock_trading_bot_server.World.Keeps.{
  Keeps, IsPreorder, Keeps-bind, Keeps-if, Keeps-lift_or, Keeps-catch_parse, Keeps-pure,
  Keeps-fold_each,
}
use stock_trading_bot_server.Curl.Plumbing.{KeepsLog}
use stock_trading_bot_server.Login.{set_token, json_error}
use stock_trading_bot_server.Account.Page.Frame.{Keeps-json_error, Keeps-parse_json}
use stock_trading_bot_server.Account.Item.Frame.{Keeps-text_field}
use stock_trading_bot_server.Account.Holdings.Frame.{Keeps-refuse}
use stock_trading_bot_server.Account.Trades.{
  Trades, read_trade, add_trade, add_trades, read_trades, read_trades_body,
}

module _ (p : Platform) {R : State p → State p → Type 0} (o : IsPreorder R)
    (log : KeepsLog p R) where
  open p use {Json, find, is_array, elements}

  -- The fields of an item are only read.
  Keeps-read_trade : (item : Json) → Keeps R (read_trade p item)
  unfolding read_trade
  Keeps-read_trade item =
      let at = Keeps-text_field p o item in
      Keeps-bind o _ _ (at _ _) λ trade_date. Keeps-bind o _ _ (at _ _) λ trade_no.
        Keeps-bind o _ _ (at _ _) λ stock_code. Keeps-bind o _ _ (at _ _) λ stock_name.
          Keeps-bind o _ _ (at _ _) λ io_type. Keeps-bind o _ _ (at _ _) λ io_type_name.
            Keeps-bind o _ _ (at _ _) λ trade_qty. Keeps-bind o _ _ (at _ _) λ trade_amt.
              Keeps-bind o _ _ (at _ _) λ exct_amt. Keeps-bind o _ _ (at _ _) λ commission.
                Keeps-bind o _ _ (at _ _) λ tax_fee. Keeps-bind o _ _ (at _ _) λ trade_unit.
                  Keeps-bind o _ _ (at _ _) λ raw_proc_time.
                    Keeps-bind o _ _ (at _ _)
                      λ credit. Keeps-bind o _ _ (at _ _) λ remark. Keeps-pure o _

  Keeps-add_trade : (local : Trades p) (item : Json) → Keeps R (add_trade p local item)
  unfolding add_trade
  Keeps-add_trade local item =
      Keeps-bind o _ _ (Keeps-read_trade item)
        λ trade. Keeps-bind o _ _ (log _ _) λ _. Keeps-pure o _

  Keeps-add_trades : (local : Trades p) (items : Option Json) → Keeps R (add_trades p local items)
  unfolding add_trades
  Keeps-add_trades local none = Keeps-pure o _
  Keeps-add_trades local (some items) =
      Keeps-if o (is_array items) _ _ (Keeps-fold_each o (elements items) local _ Keeps-add_trade)
        (Keeps-pure o _)

  module _ (at_token : (t : Text) → Keeps R (set_token p t)) where
    Keeps-read_trades : (local : Trades p) (r : Json) → Keeps R (read_trades p local r)
    unfolding read_trades
    Keeps-read_trades local r = Keeps-bind o _ _ (Keeps-lift_or o _ _) λ code.
        Keeps-bind o _ _ (Keeps-lift_or o _ _) λ message.
          Keeps-if o (is_zero code) _ _
            (Keeps-bind o _ _ (Keeps-add_trades local (find r (codes "trst_ovrl_trde_prps_array")))
              λ l. Keeps-pure o _)
            (Keeps-bind o _ _ (Keeps-refuse p o log at_token _ code message) λ _. Keeps-pure o _)

    -- The `try` block with its handler.
    pub Keeps-try_trades :
        (local : Trades p) (body : Text)
        → Keeps R (
            catch_parse
              (read_trades_body p local body)
              (json_error p (codes "JSON 파싱 오류: ") body >> pure (some local)))
    unfolding read_trades_body
    Keeps-try_trades local body =
        Keeps-catch_parse o _ _
          (Keeps-if o (is_empty body) _ _ (Keeps-pure o _)
            (Keeps-bind o _ _ (Keeps-parse_json p o log body) (Keeps-read_trades local)))
          (Keeps-bind o _ _ (Keeps-json_error p o log _ _) λ _. Keeps-pure o _)
