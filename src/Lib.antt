-- ===== src/Lib.antt =====
-- Verification of TradingCore, the trading client of StockTradingBotServer: it logs in at the
-- brokerage's REST interface, reads the accounts, the holdings and the trade history page by page,
-- and streams both as lines of JSON to every client that connects.
--
-- The parts, and where they stand (paths from the repository's root):
--   Prelude, Text, Outcome, Number: integers, `std::string` as a list of character codes,
--     `std::map` and `std::set` in the order of their keys, exceptions, `std::stoll` and the printing
--     of integers.
--   Platform: what the program takes from outside the repository, as parameters: nlohmann::json,
--     libcurl, `double`, the clock, and the constants of the unversioned header Core/Config.h.
--   World: the static state (`Login::accessToken`, the static members of `Account`, the two caches
--     of Account.cpp), what was logged and sent, and the code that changes it: a call takes a state
--     and gives a value or an exception with the state after it. World/Keeps, World/Sends
--     and World/Costs carry the rules for relations that every step keeps, for counting requests, and
--     for curl handles and header lists.
--   Curl: TradingCore/Trade/Account.cpp `HeaderCallback`, TradingCore/Login.cpp `WriteCallback`, and
--     the calls of libcurl as steps on the state.
--   Login: TradingCore/Login.cpp `GetAccessToken`, `ClearAccessToken`.
--   Utility: TradingCore/Utility/String.cpp `GetSignDigit` (Utility/SignDigit),
--     TradingCore/Utility/Convert.cpp `GetJsonData` (Utility/Convert) and `JsonToLong`,
--     `JsonToDouble` (Utility/JsonNumber), and TradingCore/Utility/Directory.cpp
--     (Utility/Directory), over a file system `Disk` that answers `stat` and `mkdir`.
--   Clock: `std::tm` and the formats of `std::strftime` that the program uses.
--   Log: TradingCore/Core/Log.cpp and Log.h, the constructor and `Output` with what they write on the
--     console and in the file. The other parts record their calls of `Output` in a journal, and
--     Log/Replay is what the log makes of a journal.
--   Account: TradingCore/Trade/Account.cpp. Account/Page is the request of one page and the reading
--     of its headers, which the source repeats in three functions; Account/Numbers is
--     `GetAllAccountNumbers`, `HasAccount`, `SetUseAccount`, `GetCurrentAccountNumber`;
--     Account/Fields is `GetLongLongField`; Account/PrevClose is
--     `FetchPrevClosePriceMapFromSpring`; Account/Item is one element of the holdings and
--     `GetLocalWeekday`; Account/Holdings is `RefreshCurrentHoldings` and `GetHoldingsSnapshot`;
--     Account/Trades is `RefreshTradeHistory` and `GetTradeHistorySnapshot`, with the formatting of
--     times in Account/Trades/Time; Account/Show is `ShowHoldings`.
--   Server: TradingCore/InterServer/StreamingServer.cpp. Server/Lifecycle is the constructor, `Start`
--     and `Stop`; Server/Render the lines of JSON; Server/Client `ClientLoop`; Server/Polling
--     `RefrashLoop` and its wait; Server/History `TradeHistoryPollingLoop` with its dates;
--     Server/Threads the steps of `AcceptLoop`, of the client threads and of `Stop`, in any order.
--   Program: TradingCore/main.cpp, with Application::Initialize and LiftCycle::Initialize of
--     TradingCore/Core.
--   Tests: a small platform with servers that answer, refuse or fail, and runs on it.
-- `RefreshCurrentHoldings` calls `Login` for the token, the page request for each page, the reading of
-- an item for each element, and the web server for previous closes; it publishes a map that
-- `ClientLoop` reads as a snapshot each round. A Frame module holds, for each part, that its calls
-- keep a relation on states if the few steps that change the state do; a Balance module counts its curl
-- handles and header lists.
--
-- Choices: `long` and `long long` have 64 bits, and a difference of prices wraps around
-- (`wrap64`). The branches for systems other than Windows are modelled. A page loop is
-- structural recursion on the rounds that are left: 50 for the accounts, 100 for the holdings
-- and the trades, as in the source. The printing of an integer has its value plus one as fuel,
-- more than it has digits; a wait has as fuel more than its number of rounds, which is what its
-- theorem asks for. `none` from a page loop is an early return that publishes nothing.
-- `wait_signal` has as fuel more than the number of readings of the signal flag up to the one
-- that finds it set. `mktime` carries a day into the next month and keeps the time of day. In
-- Server/Threads a call of `accept` that found the listening socket open stays blocked, also when the
-- socket is closed meanwhile, until the network answers it with a descriptor that is not open or with
-- an error; a call on the closed socket fails at once, since the number of that socket is taken as
-- not given out again meanwhile. `start_log` answers `none` where its `assert` fails.
--
-- Not modelled: the interleaving of the refreshes with one another and with the snapshots, and
-- the mutexes (each refresh, snapshot and `Start` is one step); the joins of the two polling
-- threads; a second `Start` beside the client threads of the first; a change of the clock in
-- summer between the two dates of the trade history; the two console prints of a token's answer;
-- the branches for Windows; the call of `start_log` by the constructor of Application, behind
-- which Program begins; and TradingBotWeb, which is another program.
pub mod Prelude
pub mod Text
pub mod Outcome
pub mod Number
pub mod Utility
pub mod Clock
pub mod Log
pub mod Platform
pub mod World
pub mod Curl
pub mod Login
pub mod Account
pub mod Server
pub mod Program
mod Tests
