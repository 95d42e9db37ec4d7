-- ===== src/Tests/RequestRuns.antt =====
-- Requests, the cached token, the set of accounts and the closes, on the servers of Tests/Servers.
use stock_trading_bot_server.Prelude.{
  ◌≡◌, refl, sym, ◌||◌, true, none, ◌≢◌, ◌≤◌, ◌+◌, List, [], ◌∷◌, arith, length, All, map, ℤ, pos,
}
use stock_trading_bot_server.Text.{Text, codes}
use stock_trading_bot_server.Text.Map.{contains}
use stock_trading_bot_server.Outcome.{done}
use stock_trading_bot_server.Platform.{Request, Reply, received}
use stock_trading_bot_server.World.{pure, gets, ◌>>=◌}
use stock_trading_bot_server.Login.{get_access_token}
use stock_trading_bot_server.Login.Cached.{get_access_token-cached}
use stock_trading_bot_server.Account.Page.Headers.{line}
use stock_trading_bot_server.Account.Page.Requests.{AnswersInLines}
use stock_trading_bot_server.Account.Numbers.{scan_response}
use stock_trading_bot_server.Account.Numbers.Set.{account_texts, is_listed, scan_response-accounts}
use stock_trading_bot_server.Account.PrevClose.{prices_of_reply}
use stock_trading_bot_server.Account.PrevClose.Positive.{IsPriceMap, prices_of_reply-IsPriceMap}
use stock_trading_bot_server.Account.Holdings.{refresh_current_holdings, enrich}
use stock_trading_bot_server.Account.Holdings.Enrich.{corrected, enrich-corrected}
use stock_trading_bot_server.Account.Holdings.Bounds.{refresh-requests, refresh-three_requests}
use stock_trading_bot_server.Account.Fields.{get_long_long_field}
use stock_trading_bot_server.Account.Item.{
  prev_close_keys, daily_diff_keys, choose_prev_close, remember,
}
use stock_trading_bot_server.Account.Item.Close.{IsCloseOf, known_close, choose_prev_close-remember}
use stock_trading_bot_server.Tests.Servers.{
  old_holding, small, announcing, ready, Document, holdings_page, accounts_page, items, item, word,
  is_word, word_of,
}

-- The holdings, with the announcement of a further page.
abbrev give_pages : List Request → Request → Reply
give_pages history r = received 200 (codes "H" ∷ []) announcing

refresh-requests_example :
    length (refresh_current_holdings (small give_pages) (ready give_pages)).1.sent
    ≤ 102 + length (ready give_pages).sent
refresh-requests_example = refresh-requests (small give_pages) (ready give_pages)

no_newline : All (λ d. d ≢ b'\n') (codes "cont-yn: Y")
unfolding codes
no_newline = omega arith

page_answers : AnswersInLines (small give_pages)
page_answers history r status chunks headers e =
    let same : announcing ≡ headers = cc in
    rw (sym same) (line (codes "cont-yn: Y") no_newline refl, tt)

refresh-three_requests_example :
    length (refresh_current_holdings (small give_pages) (ready give_pages)).1.sent
    ≤ 3 + length (ready give_pages).sent
refresh-three_requests_example =
    refresh-three_requests (small give_pages) (ready give_pages) page_answers

token_kept : (get_access_token (small give_pages) (ready give_pages)).0 ≡ done (codes "token")
unfolding get_access_token pure gets ◌>>=◌ codes
token_kept = refl

get_access_token-cached_example :
    (get_access_token (small give_pages) (ready give_pages)).1.access_token ≡ codes "token"
get_access_token-cached_example =
    get_access_token-cached (small give_pages) (ready give_pages) (codes "token") token_kept

-- What a string gives, and the keys of the entries.
strings : (v : Document) → is_word v ≡ true → word_of v ≢ none
strings holdings_page h = ground arith
strings accounts_page h = ground arith
strings items h = ground arith
strings (item t) h = ground arith
strings (word t) h = ground arith

keys : All (λ e. e.0 ≢ none) ((small give_pages).entries accounts_page)
keys = (ground arith, (ground arith, tt))

scan_response-accounts_example :
    ((scan_response (small give_pages) accounts_page (ready give_pages)).0 ≡ done tt)
    × (contains
          (codes "045")
          (scan_response (small give_pages) accounts_page (ready give_pages)).1.accounts
        ≡ (contains (codes "045") (ready give_pages).accounts
            || is_listed (codes "045") (account_texts (small give_pages) accounts_page)))
scan_response-accounts_example =
    scan_response-accounts (small give_pages) strings accounts_page (ready give_pages) (codes "045")
      keys

prices_of_reply-IsPriceMap_example :
    IsPriceMap (prices_of_reply (small give_pages) (received 200 (codes "H" ∷ []) []))
prices_of_reply-IsPriceMap_example =
    prices_of_reply-IsPriceMap (small give_pages) (received 200 (codes "H" ∷ []) [])

-- A close for the holding, and one for a code that is not held.
abbrev closes : List (Text × ℤ)
closes = (codes "A000660", pos 100_000) ∷ (codes "A035720", pos 41_000) ∷ []

enrich-corrected_example :
    (enrich (small give_pages) closes (ready give_pages).holdings (ready give_pages)).0
    ≡ done (map (corrected (small give_pages) closes) (ready give_pages).holdings)
enrich-corrected_example =
    enrich-corrected (small give_pages) closes (ready give_pages).holdings (ready give_pages)

-- An item of the holding that was remembered, on a Wednesday.
choose_prev_close-remember_example :
    (z : ℤ) × ((choose_prev_close
        (small give_pages)
        (item (codes "A035720"))
        old_holding
        (remember (small give_pages) old_holding (ready give_pages)).1).0
      ≡ done z)
    × IsCloseOf
        (get_long_long_field (small give_pages) (item (codes "A035720")) prev_close_keys)
        (get_long_long_field (small give_pages) (item (codes "A035720")) daily_diff_keys)
        (pos 40_000)
        (known_close (small give_pages) 3 old_holding (ready give_pages).last_prev_close)
        z
choose_prev_close-remember_example =
    choose_prev_close-remember (small give_pages) (item (codes "A035720")) old_holding old_holding
      (ready give_pages) refl (omega arith)
