-- ===== src/Account/Holdings.antt =====
-- Account.cpp: `RefreshCurrentHoldings` and `GetHoldingsSnapshot`.
pub mod Enrich
pub mod Bounds
pub mod Balance
pub mod Frame
pub mod Caches
pub mod Published
pub mod Requests
use stock_trading_bot_server.Prelude.{
  ℕ, zero, suc, Bool, true, false, List, [], ◌∷◌, ◌++◌, Option, none, some, ℤ, pos, negsuc,
  is_positive, is_zero, length, ◌==◌, if◌then◌else◌,
}
use stock_trading_bot_server.Text.{Text, codes, is_empty, text_eq}
use stock_trading_bot_server.Text.Map.{Map, TextSet, add, insert, lookup}
use stock_trading_bot_server.Outcome.{type_error}
use stock_trading_bot_server.Number.{print_int}
use stock_trading_bot_server.Platform.{Platform}
use stock_trading_bot_server.World.{
  Code, World, Holding, info, error, pure, lift_or, gets, catch_parse, update, skip, fold_each,
  ◌>>=◌, ◌>>◌,
}
use stock_trading_bot_server.Curl.{output}
use stock_trading_bot_server.Login.{get_access_token, clear_access_token, parse_json, json_error}
use stock_trading_bot_server.Account.Page.{
  Fields, header_fields, Fetched, no_page, bad_status, page, page_request, release, fetch_page,
}
use stock_trading_bot_server.Account.PrevClose.{fetch_prev_close_prices}
use stock_trading_bot_server.Account.Item.{add_item, daily_rate}

abbrev pub max_pages : ℕ
max_pages = 100

-- `returnCode == 3`
abbrev pub is_three : ℤ → Bool
is_three (pos n) = n == 3
is_three (negsuc n) = false

module _ (p : Platform) where
  open p use {Json, find, is_array, elements, value_text, value_int, text_object, Double}

  abbrev pub Local : Type 0
  Local = Map (Holding Double)

  -- A `return_code` other than 0 is logged; 3 means that the token has expired.
  unfoldable pub refuse : Text → ℤ → Text → Code p (Unit {0})
  refuse prefix code message = do
    output p error (prefix ++ (print_int code ++ (codes "] " ++ message)))
    if is_three code then clear_access_token p else skip

  unfoldable pub add_items : Local → Option Json → Code p Local
  add_items local none = pure local
  add_items local (some items) =
      if is_array items then fold_each (elements items) local (add_item p) else pure local

  -- The `try` block. `none` is the early return of a refused query.
  unfoldable pub read_page : Local → Json → Code p (Option Local)
  read_page local response = do
    code ← lift_or type_error (value_int response (codes "return_code") (negsuc 0))
    message ← lift_or type_error (value_text response (codes "return_msg") [])
    if is_zero code
        then (add_items local (find response (codes "acnt_evlt_remn_indv_tot")) >>= λ local'.
            pure (some local'))
        else (refuse (codes "잔고 조회 실패: [") code message >> pure none)

  unfoldable pub read_body : Local → Text → Code p (Option Local)
  read_body local body =
      if is_empty body then pure (some local) else parse_json p body >>= read_page local

  unfoldable pub handle_page : Local → Text → Code p (Option Local)
  handle_page local body = do
    result ←
        catch_parse (read_body local body)
          (json_error p (codes "JSON 파싱 오류: ") body >> pure (some local))
    release p
    pure result

  unfoldable pub holdings_body : Text
  holdings_body =
      text_object ((codes "qry_tp", codes "2") ∷ (codes "dmst_stex_tp", codes "KRX") ∷ [])

  -- What follows the page's `try` block: the end of the loop, or a further page by `next`.
  unfoldable pub holdings_continue :
      (Text → Text → Local → Code p (Option Local)) → Fields → Option Local → Code p (Option Local)
  holdings_continue next f none = pure none
  holdings_continue next f (some local) =
      if text_eq f.cont (codes "Y") then next f.cont f.next_key local else pure (some local)

  unfoldable pub holdings_fetched :
      (Text → Text → Local → Code p (Option Local)) → Local → Fetched → Code p (Option Local)
  holdings_fetched next local no_page = pure (some local)
  holdings_fetched next local bad_status = pure none
  holdings_fetched next local (page body headers) =
      handle_page local body >>= holdings_continue next (header_fields headers)

  unfoldable pub holdings_fetch : Text → Text → Text → Code p Fetched
  holdings_fetch token cont next_key =
      fetch_page p (codes "CURL 초기화 실패 (Account::FetchCurrentHoldings)")
        (codes "잔고 조회 비정상 응답 코드 수신 : ")
        (page_request p (codes "kt00018") holdings_body token cont next_key)

  -- The loop, with the rounds that are left. `none` is an early return.
  unfoldable pub holdings_pages : ℕ → Text → Text → Text → Local → Code p (Option Local)
  holdings_pages zero token cont next_key local = pure (some local)
  holdings_pages (suc n) token cont next_key local =
      holdings_fetch token cont next_key >>= holdings_fetched (holdings_pages n token) local

  -- The codes of the map that are not empty.
  unfoldable pub codes_of : Local → TextSet → TextSet
  codes_of [] wanted = wanted
  codes_of ((_, h) ∷ rest) wanted =
      codes_of rest (if is_empty h.code then wanted else add h.code wanted)

  -- The caches after a holding that the web server knows a close of.
  unfoldable pub remember_both : Holding Double → Code p (Unit {0})
  remember_both h = update λ s. record s {
    last_prev_close = insert h.code h.prev_close_price s.last_prev_close;
    last_price = insert h.code h.price s.last_price;
  }

  unfoldable pub with_close : ℤ → Holding Double → Holding Double
  with_close close h = record h {
    prev_close_price = close;
    daily_profit_rate = daily_rate p h.price close;
  }

  unfoldable pub enrich_found : Holding Double → Option ℤ → Code p (Holding Double)
  enrich_found h none = pure h
  enrich_found h (some close) =
      if is_positive close
      then (remember_both (with_close close h) >> pure (with_close close h))
      else pure h

  unfoldable pub enrich_one : Map ℤ → Holding Double → Code p (Holding Double)
  enrich_one closes h = enrich_found h (lookup h.code closes)

  unfoldable pub enrich : Map ℤ → Local → Code p Local
  enrich closes [] = pure []
  enrich closes ((key, h) ∷ rest) = do
    h' ← enrich_one closes h
    rest' ← enrich closes rest
    pure ((key, h') ∷ rest')

  -- `holdings.swap(localHoldings)`
  unfoldable pub swap_holdings : Local → Code p (Unit {0})
  swap_holdings local = update λ s. record s { holdings = local }

  unfoldable pub finish_holdings : Local → Code p (Unit {0})
  finish_holdings local = do
    closes ← fetch_prev_close_prices p (codes_of local [])
    enriched ← enrich closes local
    swap_holdings enriched
    output p info (codes "보유 종목 조회 완료. 총 " ++ (print_int (pos (length enriched)) ++ codes "개 종목"))

  -- An early return leaves the published map as it is.
  unfoldable pub publish_holdings : Option Local → Code p (Unit {0})
  publish_holdings none = skip
  publish_holdings (some local) = finish_holdings local

  unfoldable pub query_holdings : Text → Code p (Unit {0})
  query_holdings token = do
    output p info (codes "현재 보유 종목 조회를 시작합니다...")
    holdings_pages max_pages token (codes "N") [] [] >>= publish_holdings

  unfoldable pub refresh_with_account : Code p (Unit {0})
  refresh_with_account = do
    token ← get_access_token p
    if is_empty token
        then output p error (codes "접근 토큰이 비어있습니다. 잔고 조회를 중단합니다.")
        else query_holdings token

  unfoldable pub refresh_current_holdings : Code p (Unit {0})
  refresh_current_holdings = do
    account ← gets (λ s. s.current_account)
    if is_empty account
        then output p error (codes "현재 사용 중인 계좌번호가 설정되지 않았습니다.")
        else refresh_with_account

  unfoldable pub get_holdings_snapshot : Code p Local
  get_holdings_snapshot = gets λ s. s.holdings
