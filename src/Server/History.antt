-- ===== src/Server/History.antt =====
-- StreamingServer.cpp: `TradeHistoryPollingLoop`, which asks for the trades of the last year.
pub mod Window
use stock_trading_bot_server.Prelude.{
  ℕ, zero, suc, ◌+◌, ◌-◌, ◌%◌, Bool, true, false, not, ◌||◌, List, [], ◌∷◌, ltb, leb, ◌==◌,
  if◌then◌else◌,
}
use stock_trading_bot_server.Text.{codes}
use stock_trading_bot_server.Platform.{Platform}
use stock_trading_bot_server.World.{Code, info, ◌>>=◌, ◌>>◌}
use stock_trading_bot_server.Curl.{output}
use stock_trading_bot_server.Clock.{Tm, date_string}
use stock_trading_bot_server.Account.Trades.{refresh_trade_history}

-- The Gregorian calendar: a year with its number, a month from 0.
unfoldable pub is_leap : ℕ → Bool
is_leap y = if not (y % 4 == 0) then false else if not (y % 100 == 0) then true else y % 400 == 0

unfoldable pub days_in_month : ℕ → ℕ → ℕ
unfolding is_leap
days_in_month y m =
    if m == 1
    then (if is_leap y then 29 else 28)
    else if (m == 3) || ((m == 5) || ((m == 8) || (m == 10)))
    then 30
    else 31

-- `std::mktime` on a day that may lie behind the end of its month: the day is carried into the next
-- month. The time of day stays, as it does where the clock is not changed in summer.
unfoldable pub mktime : Tm → Tm
mktime t =
    let days = days_in_month (t.tm_year + 1900) t.tm_mon in
    if leb t.tm_mday days
    then t
    else if ltb t.tm_mon 11
    then record t { tm_mon = t.tm_mon + 1; tm_mday = t.tm_mday - days }
    else record t { tm_year = t.tm_year + 1; tm_mon = 0; tm_mday = t.tm_mday - days }

-- `startTime`: a year less, a day more.
unfoldable pub start_time : Tm → Tm
start_time t = mktime (record t { tm_year = t.tm_year - 1; tm_mday = t.tm_mday + 1 })

module _ (p : Platform) where
  -- One round of the thread, at a local time.
  unfoldable pub history_round : Tm → Code p (Unit {0})
  history_round t = refresh_trade_history p (date_string (start_time t)) (date_string t)

  unfoldable pub history_loop : List Tm → Code p (Unit {0})
  history_loop [] = output p info (codes "거래 내역 폴링 종료")
  history_loop (t ∷ times) = history_round t >> history_loop times

  -- The thread, from the local times of the rounds that find `running` true.
  unfoldable pub history_thread : List Tm → Code p (Unit {0})
  history_thread times = output p info (codes "거래 내역 폴링 시작") >> history_loop times
