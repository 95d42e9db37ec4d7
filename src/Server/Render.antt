-- ===== src/Server/Render.antt =====
-- StreamingServer.cpp: the JSON line of a holding and of a trade in `ClientLoop`. The separating
-- commas are written with the field behind them.
pub mod Lines
pub mod Fields
use stock_trading_bot_server.Prelude.{List, [], ◌∷◌, ◌++◌}
use stock_trading_bot_server.Text.{Text, codes, concat}
use stock_trading_bot_server.Number.{print_int}
use stock_trading_bot_server.Platform.{Platform}
use stock_trading_bot_server.World.{Holding, TradeRecord}

-- `,"name":"value"`, with the value as it is.
unfoldable pub quoted : Text → Text → Text
quoted name value = codes ",\"" ++ (name ++ (codes "\":\"" ++ (value ++ (b'"' ∷ []))))

unfoldable pub quoted_all : List Text → List Text → Text
quoted_all (name ∷ names) (value ∷ values) = quoted name value ++ quoted_all names values
quoted_all _ _ = []

unfoldable pub trade_names : List Text
trade_names =
    codes "tradeDate"
    ∷ codes "tradeNo"
    ∷ codes "stockCode"
    ∷ codes "stockName"
    ∷ codes "ioType"
    ∷ codes "ioTypeName"
    ∷ codes "tradeQty"
    ∷ codes "tradeAmt"
    ∷ codes "exctAmt"
    ∷ codes "commission"
    ∷ codes "taxFee"
    ∷ codes "tradeUnit"
    ∷ codes "procTime"
    ∷ codes "creditDealTypeName"
    ∷ codes "remarkName"
    ∷ []

abbrev pub trade_values : TradeRecord → List Text
trade_values t =
    t.trade_date ∷ t.trade_no ∷ t.stock_code ∷ t.stock_name ∷ t.io_type ∷ t.io_type_name
    ∷ t.trade_qty ∷ t.trade_amt ∷ t.exct_amt ∷ t.commission ∷ t.tax_fee ∷ t.trade_unit ∷ t.proc_time
    ∷ t.credit_deal_type_name ∷ t.remark_name ∷ []

-- The line, less the newline at its end.
unfoldable pub trade_body : TradeRecord → Text
trade_body t = codes "{\"type\":\"trade\"" ++ (quoted_all trade_names (trade_values t) ++ codes "}")

unfoldable pub trade_line : TradeRecord → Text
trade_line t = trade_body t ++ (b'\n' ∷ [])

module _ (p : Platform) where
  open p use {Double, print_double}

  unfoldable pub holding_body : Holding Double → Text
  holding_body h = concat (
      codes "{\"type\":\"holding\""
      ∷ quoted (codes "account") h.account
      ∷ quoted (codes "code") h.code
      ∷ quoted (codes "name") h.name
      ∷ codes ",\"quantity\":"
      ∷ print_int h.quantity
      ∷ codes ",\"price\":"
      ∷ print_int h.price
      ∷ codes ",\"value\":"
      ∷ print_int h.value
      ∷ codes ",\"purchasePrice\":"
      ∷ print_int h.purchase_price
      ∷ codes ",\"profitLoss\":"
      ∷ print_int h.profit_loss
      ∷ codes ",\"profitRate\":"
      ∷ print_double h.profit_rate
      ∷ codes ",\"prevClosePrice\":"
      ∷ print_int h.prev_close_price
      ∷ codes ",\"dailyProfitRate\":"
      ∷ print_double h.daily_profit_rate
      ∷ codes "}"
      ∷ [])

  unfoldable pub holding_line : Holding Double → Text
  holding_line h = holding_body h ++ (b'\n' ∷ [])
