-- ===== src/Tests/Servers.antt =====
-- A small platform: a JSON value is a text, a page, the list of two holdings or one of them, a
-- `double` is an integer, and the answers of the network are given. The entries of a page are two
-- closes, one of them negative.
use stock_trading_bot_server.Prelude.{
  Bool, true, false, List, [], ◌∷◌, ◌++◌, Option, none, some, ℤ, pos,
}
use stock_trading_bot_server.Prelude.Int.{wrap64}
use stock_trading_bot_server.Text.{Text, codes, text_eq}
use stock_trading_bot_server.Number.{print_int}
use stock_trading_bot_server.Platform.{Platform, Request, Reply, failed, received}
use stock_trading_bot_server.World.{State, Holding}

-- A page of holdings, a page of one account number, the items of the first, an item, and a text.
pub data Document : Type 0 where
  holdings_page : Document
  accounts_page : Document
  items : Document
  item : Text → Document
  word : Text → Document

abbrev pub is_word : Document → Bool
is_word (word t) = true
is_word _ = false

abbrev is_page : Document → Bool
is_page holdings_page = true
is_page accounts_page = true
is_page _ = false

abbrev is_items : Document → Bool
is_items items = true
is_items _ = false

abbrev pub word_of : Document → Option Text
word_of (word t) = some t
word_of _ = none

abbrev if_key : Bool → Document → Option Document
if_key true d = some d
if_key false d = none

abbrev find_in : Document → Text → Option Document
find_in holdings_page key = if_key (text_eq key (codes "acnt_evlt_remn_indv_tot")) items
find_in accounts_page key = if_key (text_eq key (codes "acctNo")) (word (codes "123"))
find_in _ key = none

abbrev elements_of : Document → List Document
elements_of items = item (codes "A005930") ∷ item (codes "A000660") ∷ []
elements_of _ = []

abbrev choose : Bool → Text → Text → Text
choose true a b = a
choose false a b = b

abbrev text_of : Document → Text → Text → Option Text
text_of (item code) key default = some (
    choose (text_eq key (codes "stk_cd")) code
      (choose (text_eq key (codes "cur_prc")) (codes "-00012,500") default))
text_of _ key default = some default

abbrev page_of : Bool → Bool → Option Document
page_of true accounts = some holdings_page
page_of false true = some accounts_page
page_of false false = none

abbrev zero_if : Bool → ℤ → Option ℤ
zero_if true default = some (pos 0)
zero_if false default = some default

abbrev pub small : (List Request → Request → Reply) → Platform
small answers = record {
  Json = Document;
  parse = λ t. page_of (text_eq t (codes "H")) (text_eq t (codes "A"));
  parse_what = λ t. codes "syntax error";
  dump = λ d. codes "{}";
  find = find_in;
  is_object = is_page;
  is_array = is_items;
  is_string = is_word;
  is_null = λ d. false;
  is_number = λ d. false;
  is_number_integer = λ d. false;
  is_number_float = λ d. false;
  get_text = word_of;
  get_integer = λ d. pos 0;
  elements = elements_of;
  entries = λ d.
      (some (codes "A005930"), word (codes "12400"))
      ∷ (some (codes "A000660"), word (codes "-5"))
      ∷ [];
  value_text = text_of;
  value_int = λ d key default. zero_if (text_eq key (codes "return_code")) default;
  text_object = λ fields. codes "{}";
  Double = ℤ;
  zero_double = pos 0;
  hundred = pos 100;
  of_integer = λ z. z;
  to_integer = wrap64;
  add_double = λ a b. a;
  mul_double = λ a b. a;
  div_double = λ a b. a;
  print_double = print_int;
  stod = λ t. some (pos 0);
  get_double = λ d. pos 0;
  init_ok = λ n. true;
  escape = λ t. some t;
  answer = answers;
  weekday = λ n. 3;
  host_url = codes "https://api.example.com";
  account_num = codes "123";
  app_key = codes "key";
  app_secret = codes "secret";
  root_path = codes "/srv";
}

-- A server that sends the holdings, one that sends the accounts and announces a further page each
-- time, one that refuses, and none.
abbrev pub announcing : List Text
announcing = (codes "cont-yn: Y" ++ (b'\r' ∷ b'\n' ∷ [])) ∷ []

abbrev pub holding_server : Platform
holding_server = small (λ history r. received 200 (codes "H" ∷ []) [])

abbrev pub account_server : Platform
account_server = small (λ history r. received 200 (codes "A" ∷ []) announcing)

abbrev pub busy_server : Platform
busy_server = small (λ history r. received 503 [] [])

abbrev pub no_server : Platform
no_server = small (λ history r. failed (codes "Couldn't connect to server"))

abbrev pub old_holding : Holding ℤ
old_holding = record {
  account = codes "123";
  code = codes "A035720";
  name = codes "Kakao";
  quantity = pos 2;
  price = pos 40_000;
  value = pos 80_000;
  purchase_price = pos 30_000;
  profit_loss = pos 20_000;
  profit_rate = pos 33;
  prev_close_price = pos 0;
  daily_profit_rate = pos 0;
}

-- Logged in with an account in use and one holding published, on any of the servers.
abbrev pub ready : (answers : List Request → Request → Reply) → State (small answers)
ready answers = record {
  access_token = codes "token";
  accounts = (codes "123", tt) ∷ [];
  current_account = codes "123";
  holdings = (codes "123:A035720", old_holding) ∷ [];
  trade_history = [];
  last_price = [];
  last_prev_close = (codes "A035720", pos 39_000) ∷ [];
  journal = [];
  sent = [];
  inits = 0;
  handles = 0;
  header_lists = 0;
  clock_reads = 0;
}

-- The same before any account is known.
abbrev pub unset : (answers : List Request → Request → Reply) → State (small answers)
unset answers = record (ready answers) { accounts = []; current_account = [] }
