-- ===== src/Account/Page.antt =====
-- Account.cpp: one POST request of a paged query, and the continuation fields of its headers. The
-- three paged queries of `class Account` write these lines out each.
pub mod Failing
pub mod Headers
pub mod Balance
pub mod Frame
pub mod Requests
use stock_trading_bot_server.Prelude.{
  ℕ, Bool, true, false, List, [], ◌∷◌, ◌++◌, Option, none, some, map, pos, ◌==◌, if◌then◌else◌,
}
use stock_trading_bot_server.Text.{Text, codes, is_empty, text_eq, to_lower}
use stock_trading_bot_server.Number.{print_int}
use stock_trading_bot_server.Outcome.{Outcome}
use stock_trading_bot_server.Platform.{Platform, Request, http_post, Reply, failed, received}
use stock_trading_bot_server.World.{Code, error, pure, ◌>>=◌, ◌>>◌}
use stock_trading_bot_server.Curl.{
  write_callback, header_callback, received_by, output, easy_init, slist_append_all, slist_free_all,
  easy_cleanup, easy_perform,
}
use stock_trading_bot_server.Utility.Convert.{JsonData, get_json_data}

-- The calls of `std::getline` until the end: a last line needs no newline, and is not empty.
unfoldable pub lines_from : Text → Text → List Text
lines_from line [] = if is_empty line then [] else line ∷ []
lines_from line (c ∷ t) =
    let here = line ∷ lines_from [] t in
    let longer = lines_from (line ++ (c ∷ [])) t in if c == b'\n' then here else longer

unfoldable pub lines : Text → List Text
unfolding lines_from
lines = lines_from []

-- `hasThisNextData` and `newNext`
pub record Fields : Type 0 where
  pub cont : Text
  pub next_key : Text

-- One round of the loop over the header lines.
unfoldable pub read_header : Fields → Text → Fields
read_header f line =
    let data_of = get_json_data line in
    let lower_key = map to_lower data_of.key in
    if is_empty data_of.key
    then f
    else if text_eq lower_key (codes "cont-yn")
    then record f { cont = data_of.value }
    else if text_eq lower_key (codes "next-key")
    then record f { next_key = data_of.value }
    else f

unfoldable pub read_headers : Fields → List Text → Fields
read_headers f [] = f
read_headers f (line ∷ rest) = read_headers (read_header f line) rest

unfoldable pub header_fields : Text → Fields
unfolding read_headers lines
header_fields buffer = read_headers (record { cont = codes "N"; next_key = [] }) (lines buffer)

-- What the request of a page comes to: no handle or a failed transfer (`break` in every query), a
-- status other than 200, or the body and the headers with the handle still open.
pub data Fetched : Type 0 where
  no_page bad_status : Fetched
  page : Text → Text → Fetched

module _ (p : Platform) where
  open p use {host_url}

  unfoldable pub page_request : Text → Text → Text → Text → Text → Request
  page_request api_id body token cont next_key = record {
    method = http_post;
    url = host_url ++ codes "/api/dostk/acnt";
    headers =
        codes "Content-Type: application/json;charset=UTF-8"
        ∷ (codes "authorization: Bearer " ++ token)
        ∷ (codes "cont-yn: " ++ cont)
        ∷ (codes "next-key: " ++ next_key)
        ∷ (codes "api-id: " ++ api_id)
        ∷ [];
    body = body;
  }

  -- `curl_slist_free_all` and `curl_easy_cleanup`
  unfoldable pub release : Code p (Unit {0})
  release = slist_free_all p >> easy_cleanup p

  unfoldable pub check_reply : Text → Reply → Code p Fetched
  check_reply bad_status_message (failed message) = do
    output p error (codes "HTTP 요청 실패 : " ++ message)
    release
    pure no_page
  check_reply bad_status_message (received status chunks headers) =
      if status == 200
      then pure
          (page (received_by write_callback [] chunks) (received_by header_callback [] headers))
      else do
        output p error (bad_status_message ++ print_int (pos status))
        release
        pure bad_status

  unfoldable pub fetch_page : Text → Text → Request → Code p Fetched
  fetch_page no_handle_message bad_status_message r = do
    ready ← easy_init p
    if ready
        then (slist_append_all p >> easy_perform p r >>= check_reply bad_status_message)
        else (output p error no_handle_message >> pure no_page)
