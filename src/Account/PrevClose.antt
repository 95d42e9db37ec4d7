-- ===== src/Account/PrevClose.antt =====
-- Account.cpp: `FetchPrevClosePriceMapFromSpring`, the closing prices that the web server keeps.
pub mod Positive
pub mod Balance
pub mod Frame
use stock_trading_bot_server.Prelude.{
  ℕ, Bool, true, false, ◌||◌, not, List, [], ◌∷◌, ◌++◌, Option, none, some, ℤ, pos, is_positive,
  ◌==◌, if◌then◌else◌,
}
use stock_trading_bot_server.Text.{Text, codes, is_empty}
use stock_trading_bot_server.Text.Map.{Map, TextSet, insert}
use stock_trading_bot_server.Outcome.{Outcome, done, thrown, type_error, catch_all}
use stock_trading_bot_server.Outcome
use stock_trading_bot_server.Platform.{Platform, Request, http_get, Reply, failed, received}
use stock_trading_bot_server.World.{Code, pure, ◌>>=◌, ◌>>◌}
use stock_trading_bot_server.Curl.{
  write_callback, received_by, easy_init, easy_cleanup, easy_perform,
}
use stock_trading_bot_server.Account.Fields.{amount_or_zero}
use stock_trading_bot_server.Account.Numbers.{is_nil}

-- The codes of the set that are not empty, with commas between them.
unfoldable pub csv_from : Bool → TextSet → Text
csv_from first [] = []
csv_from first ((code, _) ∷ rest) =
    (if is_empty code then [] else if first then code else codes "," ++ code)
    ++ csv_from (if is_empty code then first else false) rest

-- `first` after the loop.
unfoldable pub all_empty : TextSet → Bool
all_empty [] = true
all_empty ((code, _) ∷ rest) = if is_empty code then all_empty rest else false

module _ (p : Platform) where
  open p use {
    Json, parse, is_object, is_null, is_string, is_number_integer, is_number_float, get_text,
    get_integer, get_double, to_integer, entries, escape,
  }

  text_price : Option Text → Outcome ℤ
  text_price none = thrown type_error
  text_price (some t) = amount_or_zero t

  unfoldable pub read_price : Json → Outcome ℤ
  unfolding text_price
  read_price v =
      if is_number_integer v
      then done (get_integer v)
      else if is_number_float v
      then done (to_integer (get_double v))
      else if is_string v
      then text_price (get_text v)
      else done (pos 0)

  unfoldable pub keep_price : Text → ℤ → Map ℤ → Map ℤ
  keep_price code price result = if is_positive price then insert code price result else result

  unfoldable pub collect_entry : Option Text × Json → Map ℤ → Outcome (Map ℤ)
  collect_entry (none, v) result = thrown type_error
  collect_entry (some code, v) result =
      if is_empty code || is_null v
      then done result
      else Outcome.◌>>=◌ (read_price v) (λ price. done (keep_price code price result))

  unfoldable pub collect : List (Option Text × Json) → Map ℤ → Outcome (Map ℤ)
  collect [] result = done result
  collect (e ∷ rest) result = Outcome.◌>>=◌ (collect_entry e result) (collect rest)

  -- The `try` block: every exception gives the empty map.
  unfoldable pub read_prices : Text → Map ℤ
  read_prices body = elim (parse body) [
    | none ↦ []
    | some response ↦
        if is_object response then catch_all [] (collect (entries response) []) else []
  ]

  unfoldable pub prices_of_reply : Reply → Map ℤ
  prices_of_reply (failed message) = []
  prices_of_reply (received status chunks headers) =
      let body = received_by write_callback [] chunks in
      if not (status == 200) || is_empty body then [] else read_prices body

  unfoldable pub prev_close_request : Text → Request
  prev_close_request encoded = record {
    method = http_get;
    url = codes "http://localhost:4500" ++ (codes "/stream/holdings/prev-close?codes=" ++ encoded);
    headers = [];
    body = [];
  }

  -- From the result of `curl_easy_escape`.
  unfoldable pub ask_escaped : Option Text → Code p (Map ℤ)
  ask_escaped none = easy_cleanup p >> pure []
  ask_escaped (some encoded) = do
    reply ← easy_perform p (prev_close_request encoded)
    easy_cleanup p
    pure (prices_of_reply reply)

  unfoldable pub ask_prices : TextSet → Code p (Map ℤ)
  ask_prices wanted =
      if all_empty wanted
      then (easy_cleanup p >> pure [])
      else ask_escaped (escape (csv_from true wanted))

  unfoldable pub fetch_prev_close_prices : TextSet → Code p (Map ℤ)
  fetch_prev_close_prices wanted =
      if is_nil wanted
      then pure []
      else do ready ← easy_init p; if ready then ask_prices wanted else pure []
