-- ===== src/Account/Show.antt =====
-- Account.cpp: `ShowHoldings`. Its lines go to the console only.
use stock_trading_bot_server.Prelude.{List, [], ◌∷◌, ◌++◌}
use stock_trading_bot_server.Text.{Text, codes, concat}
use stock_trading_bot_server.Text.Map.{Map}
use stock_trading_bot_server.Number.{print_int}
use stock_trading_bot_server.Platform.{Platform}
use stock_trading_bot_server.World.{Holding}

module _ (p : Platform) where
  open p use {Double, zero_double, add_double, of_integer, to_integer, print_double}

  unfoldable pub show_line : Holding Double → Text
  show_line h = concat (
      h.code
      ∷ codes " ("
      ∷ h.name
      ∷ codes ")\n"
      ∷ codes "  보유수량 : "
      ∷ print_int h.quantity
      ∷ codes "주\n"
      ∷ codes "  매입가 : "
      ∷ print_int h.purchase_price
      ∷ codes "원\n"
      ∷ codes "  현재가 : "
      ∷ print_int h.price
      ∷ codes "원\n"
      ∷ codes "  평가금액 : "
      ∷ print_int h.value
      ∷ codes "원\n"
      ∷ codes "  평가손익 : "
      ∷ print_int h.profit_loss
      ∷ codes "원 ("
      ∷ print_double h.profit_rate
      ∷ codes "%)"
      ∷ [])

  -- The loop, from the two totals: the lines, and the totals after it.
  unfoldable pub show_loop : Map (Holding Double) → Double → Double → List Text × Double × Double
  show_loop [] total profit = ([], total, profit)
  show_loop ((_, h) ∷ rest) total profit =
      let (more, total', profit') =
        show_loop rest (add_double total (of_integer h.value))
          (add_double profit (of_integer h.profit_loss)) in
      (show_line h ∷ more, total', profit')

  unfoldable pub total_line : Double → Double → Text
  total_line total profit = concat (
      codes "===================================\n"
      ∷ codes "총 평가금액 : "
      ∷ print_int (to_integer total)
      ∷ codes "원\n"
      ∷ codes "총 평가손익 : "
      ∷ print_int (to_integer profit)
      ∷ codes "원"
      ∷ [])

  -- The lines that are logged at `INFO`.
  unfoldable pub show_holdings : Map (Holding Double) → List Text
  show_holdings [] = codes "보유 종목이 없습니다." ∷ []
  show_holdings (e ∷ holdings) =
      let (body, total, profit) = show_loop (e ∷ holdings) zero_double zero_double in
      (codes "\n========== 현재 보유 종목 ==========" ∷ body) ++ (total_line total profit ∷ [])
