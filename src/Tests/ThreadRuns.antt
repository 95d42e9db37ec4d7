-- ===== src/Tests/ThreadRuns.antt =====
-- The threads of the server, and the program.
use stock_trading_bot_server.Prelude.{
  ℕ, ◌≡◌, refl, ◌≤◌, ◌+◌, Bool, true, false, List, [], ◌∷◌, arith, length, leb, ◌⊎◌, some,
}
use stock_trading_bot_server.Text.{codes}
use stock_trading_bot_server.Platform.{Request, Reply, received}
use stock_trading_bot_server.Server.Lifecycle.{Answers}
use stock_trading_bot_server.Server.Threads.{
  Threads, count, check, accepting, round_begins, top, Run, none_yet, later, acceptor_moves,
  client_accepted, client_detached, stop_flags, stop_shuts, shut, finished, accept_begins, started,
}
use stock_trading_bot_server.Server.Threads.Sockets.{IsHeld, Run-IsHeld}
use stock_trading_bot_server.Server.Threads.Stopping.{
  run_steps, blocked_calls, CanStep, Run-stopping,
}
use stock_trading_bot_server.Clock.{Tm}
use stock_trading_bot_server.World.Costs.{Ends}
use stock_trading_bot_server.Curl.Balance.{none_left}
use stock_trading_bot_server.Server.Polling.{refresh_thread}
use stock_trading_bot_server.Server.History.{history_thread}
use stock_trading_bot_server.Server.Balance.{polling-Balanced}
use stock_trading_bot_server.Program.{main, start_up}
use stock_trading_bot_server.Program.Ending.{EndsWell, IsFirst, main-EndsWell}
use stock_trading_bot_server.Tests.Servers.{small, ready}

-- `AcceptLoop` is blocked in `accept` when `Stop` closes the socket; the network still answers with a
-- client.
abbrev in_accept : Threads
in_accept = record started { acceptor = accepting true }

abbrev closed_server : Threads
closed_server = record in_accept { running = false; listening = false; stopper = shut }

abbrev served : Threads
served = record closed_server {
  acceptor = check;
  clients = (7, top) ∷ [];
  open_clients = 7 ∷ [];
  accepted = 1;
}

to_closed : Run started closed_server
to_closed =
    later
      (later
        (later (later none_yet (acceptor_moves (round_begins refl))) (acceptor_moves accept_begins))
        (stop_flags refl refl))
      (stop_shuts refl)

to_served : Run closed_server served
unfolding count
to_served = later (later none_yet (client_accepted 7 refl refl)) (client_detached 7 refl)

whole_run : Run started served
unfolding count
whole_run = later (later to_closed (client_accepted 7 refl refl)) (client_detached 7 refl)

Run-IsHeld_example : IsHeld served
Run-IsHeld_example = Run-IsHeld whole_run

Run-stopping_example :
    (run_steps to_served ≤ 3)
    × (served.accepted ≤ closed_server.accepted + blocked_calls closed_server.acceptor)
    × ((served.acceptor ≡ finished)
        ⊎ (CanStep served
            ⊎ ((served.acceptor ≡ accepting true) × (closed_server.acceptor ≡ accepting true))))
Run-stopping_example = Run-stopping closed_server served to_closed to_served refl

abbrev give_holdings : List Request → Request → Reply
give_holdings history r = received 200 (codes "H" ∷ []) []

abbrev port_free : Answers
port_free = record { socket = some 5; bind_ok = true; listen_ok = true }

-- The signal comes in the third second.
abbrev third_reading : ℕ → Bool
third_reading n = leb 3 n

third-IsFirst : IsFirst third_reading 3
third-IsFirst = (refl, λ k h. ground arith)

main-EndsWell_example :
    EndsWell port_free 3
      (start_up (small give_holdings) (ready give_holdings)).0
      (main (small give_holdings) 10 port_free third_reading (ready give_holdings)).0
    × (length (main (small give_holdings) 10 port_free third_reading (ready give_holdings)).1.sent
        ≤ 204 + length (ready give_holdings).sent)
    × Ends
        (ready give_holdings).handles
        (ready give_holdings).header_lists
        none_left
        none_left
        (main (small give_holdings) 10 port_free third_reading (ready give_holdings)).0
        (main (small give_holdings) 10 port_free third_reading (ready give_holdings)).1
main-EndsWell_example =
    main-EndsWell (small give_holdings) 10 port_free third_reading 3 (ready give_holdings)
      (omega arith) third-IsFirst

abbrev new_year : Tm
new_year = record { tm_year = 125; tm_mon = 0; tm_mday = 1; tm_hour = 10; tm_min = 0; tm_sec = 0 }

-- Two rounds of each polling thread, one of them at night.
abbrev two_days : List Tm
two_days = new_year ∷ new_year ∷ []

polling-Balanced_example :
    Ends
      (ready give_holdings).handles
      (ready give_holdings).header_lists
      none_left
      none_left
      (refresh_thread (small give_holdings) (10 ∷ 23 ∷ []) (ready give_holdings)).0
      (refresh_thread (small give_holdings) (10 ∷ 23 ∷ []) (ready give_holdings)).1
    × Ends
        (ready give_holdings).handles
        (ready give_holdings).header_lists
        none_left
        none_left
        (history_thread (small give_holdings) two_days (ready give_holdings)).0
        (history_thread (small give_holdings) two_days (ready give_holdings)).1
polling-Balanced_example =
    polling-Balanced (small give_holdings) (10 ∷ 23 ∷ []) two_days (ready give_holdings)
