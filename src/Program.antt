-- ===== src/Program.antt =====
-- TradingCore/main.cpp, with Core/Application.cpp and Core/LiftCycle.cpp: the program from its start
-- to the end of `main`. The threads of the server run beside the wait for a signal and are the
-- subject of Server.
pub mod Ending
use stock_trading_bot_server.Prelude.{ℕ, zero, suc, Bool, List, if◌then◌else◌}
use stock_trading_bot_server.Text.{Text}
use stock_trading_bot_server.Platform.{Platform}
use stock_trading_bot_server.World.{Code, pure, skip, ◌>>=◌, ◌>>◌}
use stock_trading_bot_server.Account.Numbers.{set_use_account}
use stock_trading_bot_server.Account.Holdings.{refresh_current_holdings, get_holdings_snapshot}
use stock_trading_bot_server.Account.Show.{show_holdings}
use stock_trading_bot_server.Server.Lifecycle.{Server, Answers, fresh, start, stop}

abbrev pub streaming_port : ℕ
streaming_port = 9000

-- `while (!gTerminate.load()) sleep_for(1s)`: the sleeps, from what the readings of the flag find.
-- It takes fuel.
unfoldable pub wait_signal : ℕ → (ℕ → Bool) → ℕ → ℕ
wait_signal zero terminate sleeps = sleeps
wait_signal (suc fuel) terminate sleeps =
    let more = wait_signal fuel terminate (suc sleeps) in if terminate sleeps then sleeps else more

-- What the end of `main` leaves: the lines that `ShowHoldings` logged, whether `Start` succeeded, the
-- seconds waited, the server and the exit code.
pub record Ended : Type 0 where
  pub shown : List Text
  pub was_started : Bool
  pub sleeps : ℕ
  pub server : Server
  pub exit_code : ℕ

-- `main` behind `ShowHoldings`.
unfoldable pub serve : ℕ → Answers → (ℕ → Bool) → List Text → Ended
serve fuel answers terminate lines =
    let (ok, server) = start answers streaming_port fresh in
    record {
      shown = lines;
      was_started = ok;
      sleeps = wait_signal fuel terminate 0;
      server = stop server;
      exit_code = 0;
    }

module _ (p : Platform) where
  -- `LiftCycle::Initialize`, and `Application::Initialize`, which calls it.
  unfoldable pub initialize : Code p (Unit {0})
  initialize = skip

  -- `main` up to `ShowHoldings`.
  unfoldable pub start_up : Code p (List Text)
  start_up = do
    initialize
    set_use_account p
    refresh_current_holdings p
    holdings ← get_holdings_snapshot p
    pure (show_holdings p holdings)

  -- An exception that leaves `start_up` ends the process.
  unfoldable pub main : ℕ → Answers → (ℕ → Bool) → Code p Ended
  main fuel answers terminate = do lines ← start_up; pure (serve fuel answers terminate lines)
