-- ===== src/Account/Trades.antt =====
-- Account.cpp: `RefreshTradeHistory` and `GetTradeHistorySnapshot`.
pub mod Balance
pub mod Frame
pub mod Requests
pub mod Time
use stock_trading_bot_server.Prelude.{
  ℕ, zero, suc, List, [], ◌∷◌, ◌++◌, Option, none, some, ℤ, pos, negsuc, is_zero, length,
  if◌then◌else◌,
}
use stock_trading_bot_server.Text.{Text, codes, concat, is_empty, text_eq}
use stock_trading_bot_server.Outcome.{type_error}
use stock_trading_bot_server.Number.{print_int}
use stock_trading_bot_server.Platform.{Platform}
use stock_trading_bot_server.World.{
  Code, World, TradeRecord, info, error, pure, lift_or, gets, catch_parse, update, skip, fold_each,
  ◌>>=◌, ◌>>◌,
}
use stock_trading_bot_server.Curl.{output}
use stock_trading_bot_server.Login.{get_access_token, parse_json, json_error}
use stock_trading_bot_server.Account.Page.{
  Fields, header_fields, Fetched, no_page, bad_status, page, page_request, release, fetch_page,
}
use stock_trading_bot_server.Account.Item.{text_field}
use stock_trading_bot_server.Account.Holdings.{refuse, max_pages}
use Time.{format_proc_time}

module _ (p : Platform) where
  open p use {Json, find, is_array, elements, value_text, value_int, text_object}

  abbrev pub Trades : Type 0
  Trades = List TradeRecord

  unfoldable pub read_trade : Json → Code p TradeRecord
  read_trade item = do
    trade_date ← text_field p item (codes "trde_dt") []
    trade_no ← text_field p item (codes "trde_no") []
    stock_code ← text_field p item (codes "stk_cd") []
    stock_name ← text_field p item (codes "stk_nm") []
    io_type ← text_field p item (codes "io_tp") []
    io_type_name ← text_field p item (codes "io_tp_nm") []
    trade_qty ← text_field p item (codes "trde_qty_jwa_cnt") []
    trade_amt ← text_field p item (codes "trde_amt") []
    exct_amt ← text_field p item (codes "exct_amt") []
    commission ← text_field p item (codes "cmsn") []
    tax_fee ← text_field p item (codes "tax_sum_cmsn") []
    trade_unit ← text_field p item (codes "trde_unit") []
    raw_proc_time ← text_field p item (codes "proc_tm") []
    credit ← text_field p item (codes "crd_deal_tp_nm") []
    remark ← text_field p item (codes "rmrk_nm") []
    pure (record {
      trade_date = trade_date;
      trade_no = trade_no;
      stock_code = stock_code;
      stock_name = stock_name;
      io_type = io_type;
      io_type_name = io_type_name;
      trade_qty = trade_qty;
      trade_amt = trade_amt;
      exct_amt = exct_amt;
      commission = commission;
      tax_fee = tax_fee;
      trade_unit = trade_unit;
      proc_time = format_proc_time raw_proc_time;
      credit_deal_type_name = credit;
      remark_name = remark;
    })

  unfoldable pub trade_message : TradeRecord → Text
  trade_message r = concat (
      codes "거래 내역 : "
      ∷ r.trade_date
      ∷ codes " "
      ∷ r.stock_code
      ∷ codes " ("
      ∷ r.stock_name
      ∷ codes ") "
      ∷ r.io_type_name
      ∷ codes " "
      ∷ r.trade_qty
      ∷ codes "주 "
      ∷ r.trade_amt
      ∷ codes "원"
      ∷ [])

  unfoldable pub add_trade : Trades → Json → Code p Trades
  add_trade local item = do
    trade ← read_trade item
    output p info (trade_message trade)
    pure (local ++ (trade ∷ []))

  unfoldable pub add_trades : Trades → Option Json → Code p Trades
  add_trades local none = pure local
  add_trades local (some items) =
      if is_array items then fold_each (elements items) local add_trade else pure local

  -- The `try` block. `none` is the early return of a refused query.
  unfoldable pub read_trades : Trades → Json → Code p (Option Trades)
  read_trades local response = do
    code ← lift_or type_error (value_int response (codes "return_code") (negsuc 0))
    message ← lift_or type_error (value_text response (codes "return_msg") [])
    if is_zero code
        then (add_trades local (find response (codes "trst_ovrl_trde_prps_array")) >>= λ local'.
            pure (some local'))
        else (refuse p (codes "거래 내역 조회 실패: [") code message >> pure none)

  unfoldable pub read_trades_body : Trades → Text → Code p (Option Trades)
  read_trades_body local body =
      if is_empty body then pure (some local) else parse_json p body >>= read_trades local

  unfoldable pub handle_trades_page : Trades → Text → Code p (Option Trades)
  handle_trades_page local body = do
    result ←
        catch_parse (read_trades_body local body)
          (json_error p (codes "JSON 파싱 오류: ") body >> pure (some local))
    release p
    pure result

  unfoldable pub trades_body : Text → Text → Text
  trades_body start_date end_date = text_object (
      (codes "strt_dt", start_date)
      ∷ (codes "end_dt", end_date)
      ∷ (codes "tp", codes "0")
      ∷ (codes "stk_cd", [])
      ∷ (codes "crnc_cd", [])
      ∷ (codes "gds_tp", codes "0")
      ∷ (codes "frgn_stex_code", [])
      ∷ (codes "dmst_stex_tp", codes "%")
      ∷ [])

  -- What follows the page's `try` block: the end of the loop, or a further page by `next`.
  unfoldable pub trades_continue :
      (Text → Text → Trades → Code p (Option Trades))
      → Fields
      → Option Trades
      → Code p (Option Trades)
  trades_continue next f none = pure none
  trades_continue next f (some local) =
      if text_eq f.cont (codes "Y") then next f.cont f.next_key local else pure (some local)

  unfoldable pub trades_fetched :
      (Text → Text → Trades → Code p (Option Trades)) → Trades → Fetched → Code p (Option Trades)
  trades_fetched next local no_page = pure (some local)
  trades_fetched next local bad_status = pure none
  trades_fetched next local (page body headers) =
      handle_trades_page local body >>= trades_continue next (header_fields headers)

  unfoldable pub trades_fetch : Text → Text → Text → Text → Code p Fetched
  trades_fetch body token cont next_key =
      fetch_page p (codes "CURL 초기화 실패 (Account::FetchTradeHistory)")
        (codes "거래 내역 조회 비정상 응답 코드 수신 : ")
        (page_request p (codes "kt00015") body token cont next_key)

  -- The loop, with the rounds that are left. `none` is an early return.
  unfoldable pub trade_pages : ℕ → Text → Text → Text → Text → Trades → Code p (Option Trades)
  trade_pages zero body token cont next_key local = pure (some local)
  trade_pages (suc n) body token cont next_key local =
      trades_fetch body token cont next_key >>= trades_fetched (trade_pages n body token) local

  -- `tradeHistory.swap(localTrades)`
  unfoldable pub swap_trades : Trades → Code p (Unit {0})
  swap_trades local = update λ s. record s { trade_history = local }

  unfoldable pub finish_trades : Trades → Code p (Unit {0})
  finish_trades local = do
    swap_trades local
    output p info (codes "거래 내역 조회 완료. 총 " ++ (print_int (pos (length local)) ++ codes "건"))

  -- An early return leaves the published history as it is.
  unfoldable pub publish_trades : Option Trades → Code p (Unit {0})
  publish_trades none = skip
  publish_trades (some local) = finish_trades local

  unfoldable pub query_trades : Text → Text → Text → Code p (Unit {0})
  query_trades start_date end_date token = do
    output p info
        (codes "거래 내역 조회를 시작합니다... (" ++ (start_date ++ (codes " ~ " ++ (end_date ++ codes ")"))))
    trade_pages max_pages (trades_body start_date end_date) token (codes "N") [] []
        >>= publish_trades

  unfoldable pub trades_with_account : Text → Text → Code p (Unit {0})
  trades_with_account start_date end_date = do
    token ← get_access_token p
    if is_empty token
        then output p error (codes "접근 토큰이 비어있습니다. 거래 내역 조회를 중단합니다.")
        else query_trades start_date end_date token

  unfoldable pub refresh_trade_history : Text → Text → Code p (Unit {0})
  refresh_trade_history start_date end_date = do
    account ← gets (λ s. s.current_account)
    if is_empty account
        then output p error (codes "현재 사용 중인 계좌번호가 설정되지 않았습니다.")
        else trades_with_account start_date end_date

  unfoldable pub get_trade_history_snapshot : Code p Trades
  get_trade_history_snapshot = gets λ s. s.trade_history
