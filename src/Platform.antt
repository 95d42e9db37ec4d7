-- ===== src/Platform.antt =====
-- What the program takes from outside the repository, as parameters of the model: nlohmann::json,
-- libcurl, `double`, the local clock, the file system calls and the constants of the header
-- Core/Config.h, which is not under version control.
use stock_trading_bot_server.Prelude.{ℕ, Bool, Option, List, ℤ}
use stock_trading_bot_server.Text.{Text}

pub data Method : Type 0 where
  http_get http_post : Method

-- The options of one `curl_easy_perform`.
pub record Request : Type 0 where
  pub method : Method
  pub url : Text
  pub headers : List Text
  pub body : Text

-- `CURLE_OK` with the status, the chunks handed to the write callback and those handed to the
-- header callback, or another code with its `curl_easy_strerror`.
pub data Reply : Type 0 where
  failed : Text → Reply
  received : ℕ → List Text → List Text → Reply

pub record Platform : Type 1 where
  -- `json::parse`, where `none` is a `parse_error`, and the `what()` of that error.
  pub Json : Type 0
  pub parse : Text → Option Json
  pub parse_what : Text → Text
  pub dump : Json → Text
  -- `find(key)`: `none` where `contains(key)` is false, else what `operator[]` gives.
  pub find : Json → Text → Option Json
  pub is_object : Json → Bool
  pub is_array : Json → Bool
  pub is_string : Json → Bool
  pub is_null : Json → Bool
  pub is_number : Json → Bool
  pub is_number_integer : Json → Bool
  pub is_number_float : Json → Bool
  -- `get<std::string>`, where `none` is a `type_error`.
  pub get_text : Json → Option Text
  pub get_integer : Json → ℤ
  -- The elements of a range-for, and what an iterator visits: `none` is a `key()` that throws.
  pub elements : Json → List Json
  pub entries : Json → List (Option Text × Json)
  -- `value(key, default)` at a text and at an `int`, where `none` is a `type_error`.
  pub value_text : Json → Text → Text → Option Text
  pub value_int : Json → Text → ℤ → Option ℤ
  -- The JSON object of a request, from its keys and texts.
  pub text_object : List (Text × Text) → Text
  -- `double`: the constants and the operations that the code uses.
  pub Double : Type 0
  pub zero_double : Double
  pub hundred : Double
  pub of_integer : ℤ → Double
  pub to_integer : Double → ℤ
  pub add_double : Double → Double → Double
  pub mul_double : Double → Double → Double
  pub div_double : Double → Double → Double
  pub print_double : Double → Text
  -- `std::stod`, where `none` is an exception.
  pub stod : Text → Option Double
  pub get_double : Json → Double
  -- libcurl: whether the n-th `curl_easy_init` gives a handle, `curl_easy_escape`, and the answer
  -- to a request after those that were sent before it.
  pub init_ok : ℕ → Bool
  pub escape : Text → Option Text
  pub answer : List Request → Request → Reply
  -- `tm_wday` at the n-th reading of the clock.
  pub weekday : ℕ → ℕ
  -- Core/Config.h
  pub host_url : Text
  pub account_num : Text
  pub app_key : Text
  pub app_secret : Text
  pub root_path : Text
