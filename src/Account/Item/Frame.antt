-- ===== src/Account/Item/Frame.antt =====
-- What the reading of one item leaves alone.
use stock_trading_bot_server.Prelude.{not, ◌&&◌, ◌||◌, ◌==◌, is_positive, is_zero}
use stock_trading_bot_server.Text.{Text, is_empty}
use stock_trading_bot_server.Text.Map.{Map}
use stock_trading_bot_server.Platform.{Platform}
use stock_trading_bot_server.World.{State, Holding}
use stock_trading_bot_server.World.Keeps.{
  Keeps, IsPreorder, Keeps-bind, Keeps-if, Keeps-lift, Keeps-lift_or, Keeps-gets, Keeps-pure,
}
use stock_trading_bot_server.Curl.Plumbing.{KeepsLog}
use stock_trading_bot_server.Utility.SignDigit.{get_sign_digit}
use stock_trading_bot_server.Account.Fields.{get_long_long_field}
use stock_trading_bot_server.Account.Item.{
  text_field, read_rate, read_holding, get_local_weekday, fallback_prev_close, choose_prev_close,
  prev_close_keys, daily_diff_keys, remember, add_item,
}

module _ (p : Platform) {R : State p → State p → Type 0} (o : IsPreorder R) where
  open p use {Json, Double}

  pub Keeps-text_field :
      (item : Json) (key default : Text) → Keeps R (text_field p item key default)
  unfolding text_field
  Keeps-text_field item key default = Keeps-lift_or o _ _

  pub Keeps-read_rate : (rate : Text) → Keeps R (read_rate p rate)
  unfolding read_rate
  Keeps-read_rate rate =
      Keeps-if o (is_empty (get_sign_digit rate)) _ _ (Keeps-pure o _) (Keeps-lift_or o _ _)

  -- The fields of an item are only read.
  pub Keeps-read_holding : (item : Json) → Keeps R (read_holding p item)
  unfolding read_holding
  Keeps-read_holding item = Keeps-bind o _ _ (Keeps-gets o _) λ account.
      Keeps-bind o _ _ (Keeps-text_field item _ _) λ code.
        Keeps-bind o _ _ (Keeps-text_field item _ _) λ name.
          Keeps-bind o _ _ (Keeps-text_field item _ _) λ quantity_text.
            Keeps-bind o _ _ (Keeps-text_field item _ _) λ price_text.
              Keeps-bind o _ _ (Keeps-text_field item _ _) λ value_amount.
                Keeps-bind o _ _ (Keeps-text_field item _ _) λ purchase_text.
                  Keeps-bind o _ _ (Keeps-text_field item _ _) λ profit_text.
                    Keeps-bind o _ _ (Keeps-text_field item _ _) λ rate_text.
                      Keeps-bind o _ _ (Keeps-lift o _) λ quantity.
                        Keeps-bind o _ _ (Keeps-lift o _) λ price.
                          Keeps-bind o _ _ (Keeps-lift o _) λ value.
                            Keeps-bind o _ _ (Keeps-lift o _) λ purchase.
                              Keeps-bind o _ _ (Keeps-lift o _) λ profit.
                                Keeps-bind o _ _ (Keeps-read_rate rate_text) λ rate. Keeps-pure o _

  module _ (at_clock : Keeps R (get_local_weekday p)) where
    pub Keeps-choose_prev_close :
        (item : Json) (h : Holding Double) → Keeps R (choose_prev_close p item h)
    unfolding choose_prev_close fallback_prev_close
    Keeps-choose_prev_close item h =
        let direct = get_long_long_field p item prev_close_keys in
        let diff = get_long_long_field p item daily_diff_keys in
        Keeps-if o (is_positive direct) _ _ (Keeps-pure o _) (
          Keeps-if o (not (is_zero h.price) && not (is_zero diff)) _ _ (Keeps-pure o _) (
            Keeps-bind o _ _ at_clock
              λ day. Keeps-if o (day == 0 || day == 6) _ _ (Keeps-gets o _) (Keeps-gets o _)))

    module _ (log : KeepsLog p R)
        (at_remember : (h : Holding Double) → Keeps R (remember p h)) where
      pub Keeps-add_item :
          (local : Map (Holding Double)) (item : Json) → Keeps R (add_item p local item)
      unfolding add_item
      Keeps-add_item local item = Keeps-bind o _ _ (Keeps-read_holding item) λ h.
          Keeps-bind o _ _ (Keeps-choose_prev_close item h) λ prev_close.
            Keeps-bind o _ _ (at_remember _) λ _. Keeps-bind o _ _ (log _ _) λ _. Keeps-pure o _
