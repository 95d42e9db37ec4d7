-- ===== src/Tests/ServerRuns.antt =====
-- The server: its calls, a client and the lines that it gets.
use stock_trading_bot_server.Prelude.{
  ℕ, ◌*◌, ◌≡◌, refl, ◌≢◌, Bool, true, false, List, [], ◌∷◌, ◌++◌, arith, ℤ, some, ltb, map, length,
  ◌+◌, ◌≤◌, ◌<◌, ◌⊎◌, inl, inr, All, if◌then◌else◌,
}
use stock_trading_bot_server.Text.{Text, codes, concat}
use stock_trading_bot_server.World.{State, Holding, TradeRecord}
use stock_trading_bot_server.Account.Page.{lines}
use stock_trading_bot_server.Server.Render.{
  trade_values, trade_body, trade_line, holding_body, holding_line,
}
use stock_trading_bot_server.Server.Render.Fields.{
  number_field, date_and_number, trade_line-injective, trade_line-collision,
}
use stock_trading_bot_server.Server.Render.Lines.{IsLine, print_int-IsLine, lines-round}
use stock_trading_bot_server.Server.Client.{
  client_loop, all_lines, TakesLines, TakesAll, client_loop-front, client_loop-all,
}
use stock_trading_bot_server.Server.Lifecycle.{
  Answers, Call, start_call, stop_call, run, fresh, embed, run_phase, down, run-embed,
}
use stock_trading_bot_server.Server.Polling.{
  wait_loop, wait_loop_lem, refresh_thread, refresh_thread-off_hours,
}
use stock_trading_bot_server.Tests.Servers.{holding_server, old_holding, ready}
use stock_trading_bot_server.Outcome.{done}
use stock_trading_bot_server.Platform.{received}

abbrev trade : TradeRecord
trade = record {
  trade_date = codes "20240105";
  trade_no = codes "7";
  stock_code = codes "A005930";
  stock_name = codes "Samsung";
  io_type = codes "1";
  io_type_name = codes "buy";
  trade_qty = codes "3";
  trade_amt = codes "210000";
  exct_amt = codes "210030";
  commission = codes "30";
  tax_fee = codes "0";
  trade_unit = codes "70000";
  proc_time = codes "09:30:00";
  credit_deal_type_name = [];
  remark_name = [];
}

abbrev bound : Answers
bound = record { socket = some 5; bind_ok = true; listen_ok = true }

abbrev port_taken : Answers
port_taken = record { socket = some 6; bind_ok = false; listen_ok = true }

abbrev calls : List Call
calls = start_call bound 9000 ∷ start_call bound 9001 ∷ stop_call ∷ start_call port_taken 9002 ∷ []

run-embed_example : run fresh calls ≡ embed (run_phase (down 0) calls)
run-embed_example = run-embed calls

ends_down : run_phase (down 0) calls ≡ down 9002
ends_down = refl

abbrev two_rounds : List (List (Text × Holding ℤ) × List TradeRecord)
two_rounds = ((codes "123:A035720", old_holding) ∷ [], trade ∷ []) ∷ ([], []) ∷ []

-- A network that takes one line, and one that takes every line.
abbrev one_line : List Text → Text → ℕ
one_line [] line = length line
one_line (l ∷ before) line = 0

abbrev every_line : List Text → Text → ℕ
every_line before line = length line + 1

one_line_taken : TakesLines one_line
one_line_taken [] line = inr (omega arith)
one_line_taken (l ∷ before) line = inl refl

client_loop-front_example :
    (unsent : List Text) × (all_lines holding_server two_rounds
      ≡ (client_loop holding_server one_line [] two_rounds).0 ++ unsent)
client_loop-front_example = client_loop-front holding_server one_line two_rounds one_line_taken

every_line_taken : TakesAll every_line
every_line_taken before line = (omega arith, omega arith)

client_loop-all_example :
    (client_loop holding_server every_line [] two_rounds).0 ≡ all_lines holding_server two_rounds
client_loop-all_example = client_loop-all holding_server every_line two_rounds every_line_taken

plain_trade : All (All (λ d. d ≢ b'"')) (trade_values trade)
unfolding codes
plain_trade = omega arith

trade_line-injective_example : trade ≡ trade
trade_line-injective_example = trade_line-injective trade trade plain_trade plain_trade refl

trade_line-collision_example :
    trade_line (date_and_number trade (codes "x" ++ (number_field ++ codes "y")) (codes "z"))
    ≡ trade_line (date_and_number trade (codes "x") (codes "y" ++ (number_field ++ codes "z")))
trade_line-collision_example = trade_line-collision trade (codes "x") (codes "y") (codes "z")

trade_texts : All IsLine (trade_values trade)
unfolding codes
trade_texts = omega arith

holding_texts : IsLine (codes "123") × IsLine (codes "A035720") × IsLine (codes "Kakao")
unfolding codes
holding_texts = omega arith

lines-round_example :
    lines
      (concat (map (holding_line holding_server) (old_holding ∷ []) ++ map trade_line (trade ∷ [])))
    ≡ map (holding_body holding_server) (old_holding ∷ []) ++ map trade_body (trade ∷ [])
lines-round_example =
    lines-round holding_server print_int-IsLine (old_holding ∷ []) (trade ∷ []) (holding_texts, tt)
      (trade_texts, tt)

abbrev until_three : ℕ → Bool
until_three n = ltb n 3

reads_until_three : (n : ℕ) → until_three n ≡ ltb n 3
reads_until_three n = refl

wait_loop_lem_example : wait_loop 51 (50 * 10) until_three 0 0 ≡ (if ltb 3 50 then 3 else 50)
wait_loop_lem_example = wait_loop_lem 51 50 3 until_three (omega arith) reads_until_three

abbrev night : List ℕ
night = 22 ∷ 23 ∷ 0 ∷ 6 ∷ []

night_hours : All (λ hour. (22 ≤ hour) ⊎ (hour < 7)) night
night_hours = (inl (omega arith), (inl (omega arith), (inr (omega arith), (inr (omega arith), tt))))

abbrev start_state : State holding_server
start_state = ready (λ history r. received 200 (codes "H" ∷ []) [])

refresh_thread-off_hours_example :
    ((refresh_thread holding_server night start_state).0 ≡ done tt)
    × ((refresh_thread holding_server night start_state).1.holdings ≡ start_state.holdings)
    × ((refresh_thread holding_server night start_state).1.sent ≡ start_state.sent)
refresh_thread-off_hours_example =
    refresh_thread-off_hours holding_server night start_state night_hours
