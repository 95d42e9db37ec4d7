-- ===== src/Tests/AccountRuns.antt =====
-- The account class against the servers of Tests/Servers.
use stock_trading_bot_server.Prelude.{
  ℕ, ◌≡◌, refl, sym, ◌⊎◌, ◌≢◌, ◌≤◌, ◌+◌, true, false, if◌then◌else◌, List, [], ◌∷◌, arith, length,
  All,
}
use stock_trading_bot_server.Text.{codes, text_eq, is_empty}
use stock_trading_bot_server.Text.Map.{contains, lookup, IsSorted}
use stock_trading_bot_server.Outcome.{done}
use stock_trading_bot_server.Platform.{Request, Reply, failed, received}
use stock_trading_bot_server.Curl.{header_callback, received_by}
use stock_trading_bot_server.Account.Page.{header_fields}
use stock_trading_bot_server.Account.Page.Headers.{IsHeaderLine, line, header_fields-crlf}
use stock_trading_bot_server.Account.Page.Requests.{AnswersInLines}
use stock_trading_bot_server.Account.Numbers.{is_nil, account_pages, has_account, set_use_account}
use stock_trading_bot_server.Account.Numbers.Choice.{
  set_use_account-IsChosen, set_use_account-known, IsInUse,
}
use stock_trading_bot_server.Account.Numbers.Requests.{
  get_all_account_numbers-requests, account_pages-one_request,
}
use stock_trading_bot_server.Account.Holdings.{refresh_current_holdings}
use stock_trading_bot_server.Account.Holdings.Caches.{HasPositiveCloses, refresh-HasPositiveCloses}
use stock_trading_bot_server.Account.Holdings.Published.{AreFiled, refresh-AreFiled}
use stock_trading_bot_server.Account.Page.Failing.{IsOffline, IsRefusing}
use stock_trading_bot_server.Account.Holdings.Requests.{refresh_offline, refresh_refused}
use stock_trading_bot_server.Account.Trades.{refresh_trade_history}
use stock_trading_bot_server.Account.Trades.Requests.{history_offline, history_refused}
use stock_trading_bot_server.Text.Map.{lookup, insert, add}
use stock_trading_bot_server.World.{
  State, pure, gets, update, skip, lift, lift_or, catch_parse, ◌>>=◌,
}
use stock_trading_bot_server.Curl.{
  easy_init, easy_perform, slist_append_all, slist_free_all, easy_cleanup, write_callback, output,
}
use stock_trading_bot_server.Login.{get_access_token, parse_json}
use stock_trading_bot_server.Utility.Convert.{get_json_data, has_char, before_char, after_char}
use stock_trading_bot_server.Account.Item.{holding_key, daily_rate}
use stock_trading_bot_server.Account.Page.{
  fetch_page, check_reply, release, read_headers, read_header, lines, lines_from, page_request,
}
use stock_trading_bot_server.Account.Numbers.{
  get_all_account_numbers, fetch_accounts, account_fetch, account_fetched, account_page,
  read_accounts, scan_response, scan_found, add_nonempty, add_account, use_configured, set_current,
}
use stock_trading_bot_server.Text.Order.{text_compare}
use stock_trading_bot_server.Tests.Servers.{small, announcing, ready, unset}

abbrev give_holdings : List Request → Request → Reply
give_holdings history r = received 200 (codes "H" ∷ []) []

abbrev give_account : List Request → Request → Reply
give_account history r = received 200 (codes "A" ∷ []) announcing

abbrev give_busy : List Request → Request → Reply
give_busy history r = received 503 [] []

abbrev give_nothing : List Request → Request → Reply
give_nothing history r = failed (codes "Couldn't connect to server")

before_filed : AreFiled (small give_holdings) (ready give_holdings).holdings
unfolding codes holding_key daily_rate
before_filed = (record { keyed = refl; rated = refl }, tt)

refresh-AreFiled_example :
    AreFiled
      (small give_holdings)
      (refresh_current_holdings (small give_holdings) (ready give_holdings)).1.holdings
refresh-AreFiled_example = refresh-AreFiled (small give_holdings) (ready give_holdings) before_filed

refresh-HasPositiveCloses_example :
    HasPositiveCloses
      (small give_holdings)
      (refresh_current_holdings (small give_holdings) (ready give_holdings)).1
refresh-HasPositiveCloses_example =
    refresh-HasPositiveCloses (small give_holdings) (ready give_holdings) (refl, tt)

not_empty : is_empty (codes "123") ≡ false
unfolding codes
not_empty = refl

has_token : is_empty (codes "token") ≡ false
unfolding codes
has_token = refl

offline : IsOffline (small give_nothing)
offline history r = (codes "Couldn't connect to server", refl)

refresh_offline_example :
    ((refresh_current_holdings (small give_nothing) (ready give_nothing)).0 ≡ done tt)
    × ((refresh_current_holdings (small give_nothing) (ready give_nothing)).1.holdings ≡ [])
refresh_offline_example =
    refresh_offline (small give_nothing) (ready give_nothing) not_empty has_token offline

refusing : IsRefusing (small give_busy)
refusing history r = (503, [], [], refl, refl)

always_ready : (n : ℕ) → (small give_busy).init_ok n ≡ true
always_ready n = refl

refresh_refused_example :
    ((refresh_current_holdings (small give_busy) (ready give_busy)).0 ≡ done tt)
    × ((refresh_current_holdings (small give_busy) (ready give_busy)).1.holdings
        ≡ (ready give_busy).holdings)
refresh_refused_example =
    refresh_refused (small give_busy) (ready give_busy) not_empty has_token refusing always_ready

history_offline_example :
    ((refresh_trade_history
        (small give_nothing)
        (codes "20240101")
        (codes "20240105")
        (ready give_nothing)).0
      ≡ done tt)
    × ((refresh_trade_history
          (small give_nothing)
          (codes "20240101")
          (codes "20240105")
          (ready give_nothing)).1.trade_history
        ≡ [])
history_offline_example =
    history_offline (small give_nothing) (codes "20240101") (codes "20240105") (ready give_nothing)
      not_empty has_token offline

history_refused_example :
    ((refresh_trade_history
        (small give_busy)
        (codes "20240101")
        (codes "20240105")
        (ready give_busy)).0
      ≡ done tt)
    × ((refresh_trade_history
          (small give_busy)
          (codes "20240101")
          (codes "20240105")
          (ready give_busy)).1.trade_history
        ≡ (ready give_busy).trade_history)
    × ((refresh_trade_history
          (small give_busy)
          (codes "20240101")
          (codes "20240105")
          (ready give_busy)).1.holdings
        ≡ (ready give_busy).holdings)
history_refused_example =
    history_refused (small give_busy) (codes "20240101") (codes "20240105") (ready give_busy)
      not_empty has_token refusing always_ready

no_newline : All (λ d. d ≢ b'\n') (codes "cont-yn: Y")
unfolding codes
no_newline = omega arith

announcing_lines : All IsHeaderLine announcing
announcing_lines = (line (codes "cont-yn: Y") no_newline refl, tt)

header_fields-crlf_example :
    text_eq (header_fields (received_by header_callback [] announcing)).cont (codes "Y") ≡ false
header_fields-crlf_example = header_fields-crlf announcing announcing_lines

get_all_account_numbers-requests_example :
    length (get_all_account_numbers (small give_account) (unset give_account)).1.sent
    ≤ (if is_nil (unset give_account).accounts then 51 else 0) + length (unset give_account).sent
get_all_account_numbers-requests_example =
    get_all_account_numbers-requests (small give_account) (unset give_account)

account_answers : AnswersInLines (small give_account)
account_answers history r status chunks headers e =
    let same : announcing ≡ headers = cc in rw (sym same) announcing_lines

account_pages-one_request_example :
    length
      (account_pages
        (small give_account)
        50
        (codes "token")
        (codes "N")
        []
        (unset give_account)).1.sent
    ≤ 1 + length (unset give_account).sent
account_pages-one_request_example =
    account_pages-one_request (small give_account) 50 (codes "token") (codes "N") []
      (unset give_account) account_answers

set_use_account_returns :
    set_use_account (small give_account) (unset give_account)
    ≡ (done tt, (set_use_account (small give_account) (unset give_account)).1)
unfolding set_use_account use_configured set_current has_account get_all_account_numbers
    fetch_accounts account_pages account_fetch account_fetched account_page read_accounts
    scan_response scan_found add_nonempty add_account get_access_token fetch_page easy_init
    easy_perform slist_append_all slist_free_all easy_cleanup check_reply release parse_json
    received_by write_callback header_callback header_fields read_headers read_header lines
    lines_from get_json_data has_char before_char after_char text_eq codes pure gets update skip
    lift lift_or catch_parse output page_request ◌>>=◌ lookup insert add
set_use_account_returns = refl

set_use_account-IsChosen_example :
    (contains
        (set_use_account (small give_account) (unset give_account)).1.current_account
        (set_use_account (small give_account) (unset give_account)).1.accounts
      ≡ true)
    ⊎ ((is_nil (set_use_account (small give_account) (unset give_account)).1.accounts ≡ true)
        × ((set_use_account (small give_account) (unset give_account)).1.current_account
            ≡ (unset give_account).current_account))
set_use_account-IsChosen_example =
    set_use_account-IsChosen (small give_account) (unset give_account)
      (set_use_account (small give_account) (unset give_account)).1 set_use_account_returns

-- Two accounts are known, in their order, and the configured one stands second.
abbrev two_accounts : State (small give_account)
two_accounts = record (ready give_account) { accounts = (codes "045", tt) ∷ (codes "123", tt) ∷ [] }

two_accounts-IsSorted : IsSorted two_accounts.accounts
unfolding codes text_compare
two_accounts-IsSorted = ((refl, tt), (tt, tt))

set_use_account-known_example :
    ((set_use_account (small give_account) two_accounts).0 ≡ done tt)
    × ((set_use_account (small give_account) two_accounts).1.sent ≡ two_accounts.sent)
    × ((set_use_account (small give_account) two_accounts).1.accounts ≡ two_accounts.accounts)
    × IsInUse
        (small give_account)
        (set_use_account (small give_account) two_accounts).1.current_account
        two_accounts.accounts
set_use_account-known_example =
    set_use_account-known (small give_account) two_accounts refl two_accounts-IsSorted
