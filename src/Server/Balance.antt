-- ===== src/Server/Balance.antt =====
-- StreamingServer.cpp: the curl objects of the two polling threads.
use stock_trading_bot_server.Prelude.{ℕ, List, [], ◌∷◌, arith}
use stock_trading_bot_server.Platform.{Platform}
use stock_trading_bot_server.World.{State}
use stock_trading_bot_server.World.Costs.{Ends, Costs, Costs-if, Costs-bind}
use stock_trading_bot_server.Clock.{Tm}
use stock_trading_bot_server.Curl.Balance.{none_left, Costs-closed, KeepsLog-SameCurl}
use stock_trading_bot_server.Account.Holdings.Balance.{Costs-refresh_current_holdings}
use stock_trading_bot_server.Account.Trades.Balance.{Costs-refresh_trade_history}
use stock_trading_bot_server.Server.Polling.{
  is_off_hours, refresh_round, refresh_loop, refresh_thread,
}
use stock_trading_bot_server.Server.History.{history_round, history_loop, history_thread}

module _ (p : Platform) where
  Costs-refresh_loop : (hours : List ℕ) → Costs 0 0 none_left none_left (refresh_loop p hours)
  unfolding refresh_loop refresh_round
  Costs-refresh_loop [] = Costs-closed (KeepsLog-SameCurl p _ _)
  Costs-refresh_loop (hour ∷ hours) =
      Costs-bind
        (Costs-if (is_off_hours hour) (Costs-closed (KeepsLog-SameCurl p _ _))
          (Costs-refresh_current_holdings p))
        λ _. Costs-refresh_loop hours

  Costs-history_loop : (times : List Tm) → Costs 0 0 none_left none_left (history_loop p times)
  unfolding history_loop history_round
  Costs-history_loop [] = Costs-closed (KeepsLog-SameCurl p _ _)
  Costs-history_loop (t ∷ times) =
      Costs-bind (Costs-refresh_trade_history p _ _) λ _. Costs-history_loop times

  Costs-refresh_thread : (hours : List ℕ) → Costs 0 0 none_left none_left (refresh_thread p hours)
  unfolding refresh_thread
  Costs-refresh_thread hours =
      Costs-bind (Costs-closed (KeepsLog-SameCurl p _ _)) λ _. Costs-refresh_loop hours

  Costs-history_thread : (times : List Tm) → Costs 0 0 none_left none_left (history_thread p times)
  unfolding history_thread
  Costs-history_thread times =
      Costs-bind (Costs-closed (KeepsLog-SameCurl p _ _)) λ _. Costs-history_loop times

  -- However many rounds the two polling threads run and whatever the servers answer: a thread that
  -- ends has given back every curl handle and every header list that it took, and one
  -- that ends in an exception leaves at most one handle and one list behind.
  pub polling-Balanced :
      (hours : List ℕ) (times : List Tm) (s : State p)
      → Ends s.handles s.header_lists none_left none_left
          (refresh_thread p hours s).0
          (refresh_thread p hours s).1
        × Ends s.handles s.header_lists none_left none_left
            (history_thread p times s).0
            (history_thread p times s).1
  polling-Balanced hours times s = (
    (Costs-refresh_thread hours).at s s.handles s.header_lists (omega arith) (omega arith),
    (Costs-history_thread times).at s s.handles s.header_lists (omega arith) (omega arith),
  )
