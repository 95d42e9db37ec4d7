-- ===== src/Account/Item.antt =====
-- Account.cpp: one element of `acnt_evlt_remn_indv_tot` in `RefreshCurrentHoldings`.
pub mod Close
pub mod Frame
use stock_trading_bot_server.Prelude.{
  ℕ, suc, Bool, true, false, not, ◌&&◌, ◌||◌, List, [], ◌∷◌, ◌++◌, Option, none, some, ℤ, pos,
  is_positive, is_negative, is_zero, ◌==◌, if◌then◌else◌,
}
use stock_trading_bot_server.Prelude.Int.{◌-ℤ◌, wrap64}
use stock_trading_bot_server.Text.{Text, codes, concat, is_empty}
use stock_trading_bot_server.Text.Map.{Map, insert, lookup}
use stock_trading_bot_server.Outcome.{Outcome, done, type_error, invalid_argument}
use stock_trading_bot_server.Number.{print_int}
use stock_trading_bot_server.Platform.{Platform}
use stock_trading_bot_server.World.{
  Code, World, Holding, info, pure, lift, lift_or, gets, update, ◌>>=◌, ◌>>◌,
}
use stock_trading_bot_server.Curl.{output}
use stock_trading_bot_server.Utility.SignDigit.{get_sign_digit}
use stock_trading_bot_server.Utility.Convert.{has_char}
use stock_trading_bot_server.Account.Fields.{amount_or_zero, get_long_long_field}

abbrev pub prev_close_keys : List Text
prev_close_keys =
    codes "prev_close_pric"
    ∷ codes "prev_close_price"
    ∷ codes "pred_close_pric"
    ∷ codes "pred_close_price"
    ∷ codes "bfdy_clos_pric"
    ∷ codes "yd_clpr"
    ∷ codes "pre_clos"
    ∷ []

abbrev pub daily_diff_keys : List Text
daily_diff_keys =
    codes "pred_pre"
    ∷ codes "prdy_vrss"
    ∷ codes "today_vs_prev"
    ∷ codes "flu_amt"
    ∷ codes "updn_pric"
    ∷ []

-- The price of a code in a cache, or 0; a negative one counts as 0.
unfoldable pub cached_price : Text → Map ℤ → ℤ
cached_price code cache = elim (lookup code cache) [
  | none ↦ pos 0
  | some price ↦ if is_negative price then pos 0 else price
]

-- `holding.account + ":" + holding.code`
unfoldable pub holding_key : {D : Type 0} → Holding D → Text
holding_key h = h.account ++ (codes ":" ++ h.code)

module _ (p : Platform) where
  open p use {
    Json, value_text, Double, zero_double, hundred, of_integer, mul_double, div_double,
    print_double, stod, weekday,
  }

  -- `item.value(key, default)`
  unfoldable pub text_field : Json → Text → Text → Code p Text
  text_field item key default = lift_or type_error (value_text item key default)

  unfoldable pub read_rate : Text → Code p Double
  read_rate rate =
      let clean = get_sign_digit rate in
      if is_empty clean
      then pure zero_double
      else lift_or invalid_argument (stod (if has_char b'.' rate then rate else clean))

  -- The fields that the item gives, up to `profitRate`.
  unfoldable pub read_holding : Json → Code p (Holding Double)
  read_holding item = do
    account ← gets (λ s. s.current_account)
    code ← text_field item (codes "stk_cd") []
    name ← text_field item (codes "stk_nm") []
    quantity_text ← text_field item (codes "rmnd_qty") (codes "0")
    price_text ← text_field item (codes "cur_prc") (codes "0")
    value_amount ← text_field item (codes "evlt_amt") (codes "0")
    purchase_text ← text_field item (codes "pur_pric") (codes "0")
    profit_text ← text_field item (codes "evltv_prft") (codes "0")
    rate_text ← text_field item (codes "prft_rt") (codes "0.0")
    quantity ← lift (amount_or_zero quantity_text)
    price ← lift (amount_or_zero price_text)
    value ← lift (amount_or_zero value_amount)
    purchase ← lift (amount_or_zero purchase_text)
    profit ← lift (amount_or_zero profit_text)
    rate ← read_rate rate_text
    pure (record {
      account = account;
      code = code;
      name = name;
      quantity = quantity;
      price = price;
      value = value;
      purchase_price = purchase;
      profit_loss = profit;
      profit_rate = rate;
      prev_close_price = pos 0;
      daily_profit_rate = zero_double;
    })

  -- `GetLocalWeekday`
  unfoldable pub get_local_weekday : Code p ℕ
  get_local_weekday s = (done (weekday s.clock_reads), record s { clock_reads = suc s.clock_reads })

  -- The fallback by the day of the week: Saturday and Sunday read the cache of previous closes, the
  -- other days the cache of last prices.
  unfoldable pub fallback_prev_close : Text → Code p ℤ
  fallback_prev_close code = do
    day ← get_local_weekday
    if day == 0 || day == 6
        then gets (λ s. cached_price code s.last_prev_close)
        else gets (λ s. cached_price code s.last_price)

  unfoldable pub choose_prev_close : Json → Holding Double → Code p ℤ
  choose_prev_close item h =
      let direct = get_long_long_field p item prev_close_keys in
      let diff = get_long_long_field p item daily_diff_keys in
      if is_positive direct
      then pure direct
      else if not (is_zero h.price) && not (is_zero diff)
      then pure (wrap64 (h.price -ℤ diff))
      else fallback_prev_close h.code

  unfoldable pub daily_rate : ℤ → ℤ → Double
  daily_rate price prev_close =
      if is_positive prev_close
      then mul_double
          (div_double (of_integer (wrap64 (price -ℤ prev_close))) (of_integer prev_close)) hundred
      else zero_double

  -- The two caches after an item.
  unfoldable pub remember : Holding Double → Code p (Unit {0})
  remember h = update λ s. record s {
    last_price = insert h.code h.price s.last_price;
    last_prev_close =
        if is_positive h.prev_close_price
        then insert h.code h.prev_close_price s.last_prev_close
        else s.last_prev_close;
  }

  unfoldable pub added_message : Holding Double → Text
  added_message h = concat (
      codes "종목 추가 : "
      ∷ h.code
      ∷ codes " ("
      ∷ h.name
      ∷ codes ") "
      ∷ codes "수량 = "
      ∷ print_int h.quantity
      ∷ codes " "
      ∷ codes "현재가 = "
      ∷ print_int h.price
      ∷ codes " "
      ∷ codes "평가금액 = "
      ∷ print_int h.value
      ∷ codes " "
      ∷ codes "손익 = "
      ∷ print_int h.profit_loss
      ∷ codes " "
      ∷ codes "수익률 = "
      ∷ print_double h.profit_rate
      ∷ codes "%"
      ∷ [])

  -- One round of the loop: the local map with the holding of the item.
  unfoldable pub add_item : Map (Holding Double) → Json → Code p (Map (Holding Double))
  add_item local item = do
    h ← read_holding item
    prev_close ← choose_prev_close item h
    let full : Holding Double = record h {
      prev_close_price = prev_close;
      daily_profit_rate = daily_rate h.price prev_close;
    }
    remember full
    output p info (added_message full)
    pure (insert (holding_key full) full local)
