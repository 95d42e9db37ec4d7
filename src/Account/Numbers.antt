-- ===== src/Account/Numbers.antt =====
-- Account.cpp: `GetAllAccountNumbers`, `HasAccount`, `SetUseAccount`, `GetCurrentAccountNumber`.
pub mod Set
pub mod Balance
pub mod Frame
pub mod Choice
pub mod Requests
use stock_trading_bot_server.Prelude.{
  ℕ, zero, suc, Bool, true, false, ◌||◌, List, [], ◌∷◌, ◌++◌, Option, none, some, map,
  if◌then◌else◌,
}
use stock_trading_bot_server.Text.{Text, codes, is_empty, text_eq, to_lower, has_infix}
use stock_trading_bot_server.Text.Map.{Map, TextSet, add, contains}
use stock_trading_bot_server.Outcome.{Outcome, type_error}
use stock_trading_bot_server.Platform.{Platform}
use stock_trading_bot_server.World.{
  Code, World, info, warning, error, pure, lift_or, gets, catch_parse, update, skip, for_each,
  ◌>>=◌, ◌>>◌,
}
use stock_trading_bot_server.Curl.{output}
use stock_trading_bot_server.Login.{get_access_token, parse_json, json_error}
use stock_trading_bot_server.Account.Page.{
  Fields, header_fields, Fetched, no_page, bad_status, page, page_request, release, fetch_page,
}

abbrev pub max_account_pages : ℕ
max_account_pages = 50

-- `lk.find("acct") != npos || lk.find("account") != npos`
unfoldable pub is_account_key : Text → Bool
is_account_key key =
    let lower = map to_lower key in
    has_infix (codes "acct") lower || has_infix (codes "account") lower

abbrev pub is_nil {ℓ} : {A : Type ℓ} → List A → Bool
is_nil [] = true
is_nil (x ∷ xs) = false

module _ (p : Platform) where
  open p use {Json, find, is_string, is_array, get_text, elements, entries, account_num}

  unfoldable pub add_account : Text → Code p (Unit {0})
  add_account account = update λ s. record s { accounts = add account s.accounts }

  unfoldable pub add_if_text : Json → Code p (Unit {0})
  add_if_text value =
      if is_string value then lift_or type_error (get_text value) >>= add_account else skip

  unfoldable pub scan_value : Json → Code p (Unit {0})
  scan_value value =
      if is_string value
      then lift_or type_error (get_text value) >>= add_account
      else if is_array value
      then for_each (elements value) add_if_text
      else skip

  unfoldable pub scan_entry : Option Text × Json → Code p (Unit {0})
  scan_entry (key, value) = do
    name ← lift_or type_error key
    if is_account_key name then scan_value value else skip

  unfoldable pub add_nonempty : Text → Code p (Unit {0})
  add_nonempty account = if is_empty account then skip else add_account account

  unfoldable pub scan_found : Json → Option Json → Code p (Unit {0})
  scan_found response none = for_each (entries response) scan_entry
  scan_found response (some value) =
      if is_string value
      then lift_or type_error (get_text value) >>= add_nonempty
      else if is_array value
      then for_each (elements value) add_if_text
      else for_each (entries response) scan_entry

  -- The three shapes of a response.
  unfoldable pub scan_response : Json → Code p (Unit {0})
  scan_response response = scan_found response (find response (codes "acctNo"))

  unfoldable pub read_accounts : Text → Code p (Unit {0})
  read_accounts body = if is_empty body then skip else parse_json p body >>= scan_response

  -- What is done with a page before the next one is asked for.
  unfoldable pub account_page : Text → Code p (Unit {0})
  account_page body = do
    catch_parse (read_accounts body) (json_error p (codes "JSON 파싱 오류: ") body)
    release p

  -- What follows the request of a page, where `next` asks for a further one.
  unfoldable pub account_fetched : (Text → Text → Code p (Unit {0})) → Fetched → Code p (Unit {0})
  account_fetched next no_page = skip
  account_fetched next bad_status = skip
  account_fetched next (page body headers) =
      let f = header_fields headers in
      account_page body >> (if text_eq f.cont (codes "Y") then next f.cont f.next_key else skip)

  unfoldable pub account_fetch : Text → Text → Text → Code p Fetched
  account_fetch token cont next_key =
      fetch_page p (codes "CURL 초기화 실패 (Account::GetAllAccountNumbers)")
        (codes "계좌 번호 호출 비정상 응답 코드 수신 : ")
        (page_request p (codes "ka00001") (codes "{}") token cont next_key)

  -- The loop, with the rounds that are left.
  unfoldable pub account_pages : ℕ → Text → Text → Text → Code p (Unit {0})
  account_pages zero token cont next_key = skip
  account_pages (suc n) token cont next_key =
      account_fetch token cont next_key >>= account_fetched (account_pages n token)

  unfoldable pub fetch_accounts : Code p (Unit {0})
  fetch_accounts = do
    token ← get_access_token p
    if is_empty token
        then output p error (codes "접근 토큰이 비어있습니다. 계좌 조회를 중단합니다.")
        else account_pages max_account_pages token (codes "N") []

  -- The result is the static set itself, which the caller reads in the state.
  unfoldable pub get_all_account_numbers : Code p (Unit {0})
  get_all_account_numbers = do
    known ← gets (λ s. s.accounts)
    if is_nil known then fetch_accounts else skip

  unfoldable pub has_account : Text → Code p Bool
  has_account number = do
    known ← gets (λ s. s.accounts)
    if is_nil known then get_all_account_numbers else skip
    gets (λ s. contains number s.accounts)

  unfoldable pub set_current : Text → Code p (Unit {0})
  set_current number = update λ s. record s { current_account = number }

  -- `if (!allAccounts.empty()) currentAccountNumber = *allAccounts.begin();`
  unfoldable pub use_first : TextSet → Code p (Unit {0})
  use_first [] = skip
  use_first ((number, _) ∷ rest) = set_current number

  unfoldable pub use_default : Code p (Unit {0})
  use_default = do
    output p warning (codes "지정된 계좌번호를 찾을 수 없습니다. 기본 계좌번호로 설정합니다.")
    get_all_account_numbers
    all ← gets (λ s. s.accounts)
    use_first all
    current ← gets (λ s. s.current_account)
    output p info (codes "기본 계좌번호 " ++ current ++ codes "(으)로 설정합니다.")

  unfoldable pub use_configured : Code p (Unit {0})
  use_configured = do
    set_current account_num
    output p info (codes "지정된 계좌번호 " ++ account_num ++ codes "(으)로 설정합니다.")

  unfoldable pub set_use_account : Code p (Unit {0})
  set_use_account = do
    found ← has_account account_num
    if found then use_configured else use_default

  unfoldable pub get_current_account_number : Code p Text
  get_current_account_number = gets λ s. s.current_account
