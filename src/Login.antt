-- ===== src/Login.antt =====
-- TradingCore/Login.cpp: the cached access token.
pub mod Balance
pub mod Token
pub mod Cached
use stock_trading_bot_server.Prelude.{
  ℕ, Bool, true, false, List, [], ◌∷◌, ◌++◌, Option, none, some, if◌then◌else◌,
}
use stock_trading_bot_server.Text.{Text, codes, is_empty}
use stock_trading_bot_server.Outcome.{Outcome, parse_error, type_error}
use stock_trading_bot_server.Platform.{Platform, Request, http_post, Reply, failed, received}
use stock_trading_bot_server.World.{
  Code, World, info, error, pure, lift_or, gets, catch_parse, update, skip, ◌>>=◌, ◌>>◌,
}
use stock_trading_bot_server.Curl.{
  write_callback, received_by, output, easy_init, slist_append_all, slist_free_all, easy_cleanup,
  easy_perform,
}

module _ (p : Platform) where
  open p use {Json, parse, parse_what, find, get_text, text_object, host_url, app_key, app_secret}

  unfoldable pub token_request : Request
  token_request = record {
    method = http_post;
    url = host_url ++ codes "/oauth2/token";
    headers = codes "Content-Type: application/json;charset=UTF-8" ∷ [];
    body = text_object (
        (codes "grant_type", codes "client_credentials")
        ∷ (codes "appkey", app_key)
        ∷ (codes "secretkey", app_secret)
        ∷ []);
  }

  unfoldable pub json_error : Text → Text → Code p (Unit {0})
  json_error prefix text = output p error (prefix ++ parse_what text)

  -- `json::parse`
  unfoldable pub parse_json : Text → Code p Json
  parse_json text = lift_or parse_error (parse text)

  unfoldable pub set_token : Text → Code p (Unit {0})
  set_token token = update λ s. record s { access_token = token }

  unfoldable pub store_found : Option Json → Code p (Unit {0})
  store_found none = skip
  store_found (some token) = lift_or type_error (get_text token) >>= set_token

  -- The body of the `try`, less the two prints to the console.
  unfoldable pub store_token : Text → Code p (Unit {0})
  store_token buffer = do response ← parse_json buffer; store_found (find response (codes "token"))

  unfoldable pub handle_token_reply : Reply → Code p (Unit {0})
  handle_token_reply (failed message) = output p error (codes "HTTP 요청 실패 : " ++ message)
  handle_token_reply (received status chunks headers) =
      let buffer = received_by write_callback [] chunks in
      catch_parse (store_token buffer) (json_error (codes "JSON 파싱 오류 발생 : ") buffer)

  unfoldable pub request_token : Code p Text
  request_token = do
    slist_append_all p
    reply ← easy_perform p token_request
    handle_token_reply reply
    slist_free_all p
    easy_cleanup p
    token ← gets (λ s. s.access_token)
    if is_empty token then output p error (codes "토큰 발급 실패") else output p info (codes "토큰 발급 성공")
    pure token

  unfoldable pub init_and_request : Code p Text
  init_and_request = do
    ready ← easy_init p
    if ready then request_token else (output p error (codes "CURL 초기화 실패") >> pure [])

  unfoldable pub get_access_token : Code p Text
  get_access_token = do
    token ← gets (λ s. s.access_token)
    if is_empty token then init_and_request else pure token

  unfoldable pub clear_access_token : Code p (Unit {0})
  clear_access_token = do output p info (codes "토큰 초기화 - 재발급을 요청합니다."); set_token []
