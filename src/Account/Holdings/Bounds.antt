-- ===== src/Account/Holdings/Bounds.antt =====
-- How many requests a refresh of the holdings sends.
use stock_trading_bot_server.Prelude.{
  ℕ, zero, suc, ◌+◌, ◌≤◌, ◌≡◌, refl, false, [], Option, none, some, arith, length,
}
use stock_trading_bot_server.Text.{Text, codes, is_empty, text_eq}
use stock_trading_bot_server.Text.Map.{TextSet}
use stock_trading_bot_server.Platform.{Platform}
use stock_trading_bot_server.World.{State, Code}
use stock_trading_bot_server.World.Keeps.{
  Keeps, Keeps-update, Keeps-skip, Keeps-pure, Keeps-if, Keeps-bind, Keeps-gets, Same,
}
use stock_trading_bot_server.World.Sends.{
  Sends, Returns-any, Sends-zero, Sends-if, Sends-bind, Sends-le,
}
use stock_trading_bot_server.Login.{set_token, request_token, init_and_request, get_access_token}
use stock_trading_bot_server.Login.Token.{Keeps-handle_token_reply}
use stock_trading_bot_server.Account.Page.{
  Fields, Fetched, no_page, bad_status, page, header_fields,
}
use stock_trading_bot_server.Account.Page.Requests.{
  AnswersInLines, IsLast, sent_order, sent_plumbing, Sends-perform, Sends-fetch_page,
  fetch_page-IsLast,
}
use stock_trading_bot_server.Account.PrevClose.{
  all_empty, ask_escaped, ask_prices, fetch_prev_close_prices,
}
use stock_trading_bot_server.Account.Numbers.{is_nil}
use stock_trading_bot_server.Account.Item.{get_local_weekday, remember}
use stock_trading_bot_server.Account.Holdings.{
  Local, max_pages, handle_page, holdings_continue, holdings_fetched, holdings_fetch,
  holdings_pages, remember_both, swap_holdings, finish_holdings, publish_holdings, query_holdings,
  refresh_with_account, refresh_current_holdings,
}
use stock_trading_bot_server.Account.Holdings.Frame.{Keeps-handle_page, Keeps-enrich}

module _ (p : Platform) where
  abbrev SameSent : State p → State p → Type 0
  SameSent = Same (λ (s : State p). s.sent)

  none_sent : {k : ℕ} {A : Type 0} {m : Code p A} → Keeps SameSent m → Sends k m
  none_sent {k} {A} {m} h = Sends-le _ (omega arith) (Sends-zero m h)

  Sends-request_token : Sends 1 (request_token p)
  unfolding request_token set_token
  Sends-request_token =
      let o = sent_order p in
      let f = sent_plumbing p in
      Sends-bind 0 1 _ _ (none_sent f.at_append) (Returns-any _) λ _ _.
        Sends-bind 1 0 _ _ (Sends-perform p _) (Returns-any _) λ reply _. none_sent (
          Keeps-bind o _ _
            (Keeps-handle_token_reply p o f.at_output (λ t. Keeps-update _ λ s. refl) reply)
            λ _. Keeps-bind o _ _ f.at_free λ _. Keeps-bind o _ _ f.at_cleanup λ _.
              Keeps-bind o _ _ (Keeps-gets o _) λ token.
                Keeps-bind o _ _
                  (Keeps-if o (is_empty token) _ _ (f.at_output _ _) (f.at_output _ _))
                  λ _. Keeps-pure o token)

  -- A token costs one request at most.
  pub Sends-get_access_token : Sends 1 (get_access_token p)
  unfolding get_access_token init_and_request
  Sends-get_access_token =
      let o = sent_order p in
      let f = sent_plumbing p in
      Sends-bind 0 1 _ _ (none_sent (Keeps-gets o _)) (Returns-any _) λ token _.
        Sends-if (is_empty token) _ _
          (λ _. Sends-bind 0 1 _ _ (none_sent f.at_init) (Returns-any _) λ ready _.
            Sends-if ready _ _ (λ _. Sends-request_token)
              λ _. none_sent (Keeps-bind o _ _ (f.at_output _ _) λ _. Keeps-pure o _))
          λ _. none_sent (Keeps-pure o _)

  Sends-ask_escaped : (x : Option Text) → Sends 1 (ask_escaped p x)
  unfolding ask_escaped
  Sends-ask_escaped none = none_sent (
      Keeps-bind (sent_order p) _ _ ((sent_plumbing p).at_cleanup) λ _. Keeps-pure (sent_order p) _)
  Sends-ask_escaped (some encoded) =
      Sends-bind 1 0 _ _ (Sends-perform p _) (Returns-any _) λ reply _. none_sent (
        Keeps-bind (sent_order p) _ _ ((sent_plumbing p).at_cleanup)
          λ _. Keeps-pure (sent_order p) _)

  Sends-fetch_prev_close_prices : (wanted : TextSet) → Sends 1 (fetch_prev_close_prices p wanted)
  unfolding fetch_prev_close_prices ask_prices
  Sends-fetch_prev_close_prices wanted =
      let o = sent_order p in
      let f = sent_plumbing p in
      Sends-if (is_nil wanted) _ _ (λ _. none_sent (Keeps-pure o _))
        λ _. Sends-bind 0 1 _ _ (none_sent f.at_init) (Returns-any _) λ ready _.
          Sends-if ready _ _
            (λ _.
              Sends-if (all_empty wanted) _ _
                (λ _. none_sent (Keeps-bind o _ _ f.at_cleanup λ _. Keeps-pure o _))
                λ _. Sends-ask_escaped _)
            λ _. none_sent (Keeps-pure o _)

  Keeps-page : (local : Local p) (body : Text) → Keeps SameSent (handle_page p local body)
  unfolding set_token get_local_weekday remember
  Keeps-page =
      Keeps-handle_page p (sent_order p) (sent_plumbing p) (λ t. Keeps-update _ λ s. refl)
        (record { at = λ s. refl }) (λ h. Keeps-update _ λ s. refl)

  continue-Sends :
      (k : ℕ) (next : Text → Text → Local p → Code p (Option (Local p))) (f : Fields)
      → ((c n : Text) (l : Local p) → Sends k (next c n l))
      → (x : Option (Local p)) → Sends k (holdings_continue p next f x)
  unfolding holdings_continue
  continue-Sends k next f h none = none_sent (Keeps-pure (sent_order p) _)
  continue-Sends k next f h (some local) =
      Sends-if (text_eq f.cont (codes "Y")) _ _ (λ _. h _ _ _)
        λ _. none_sent (Keeps-pure (sent_order p) _)

  continue-last :
      (next : Text → Text → Local p → Code p (Option (Local p))) (f : Fields)
      → text_eq f.cont (codes "Y") ≡ false
      → (x : Option (Local p)) → Sends 0 (holdings_continue p next f x)
  unfolding holdings_continue
  continue-last next f h none = none_sent (Keeps-pure (sent_order p) _)
  continue-last next f h (some local) = rw h (none_sent (Keeps-pure (sent_order p) _))

  fetched-Sends :
      (k : ℕ) (next : Text → Text → Local p → Code p (Option (Local p)))
      → ((c n : Text) (l : Local p) → Sends k (next c n l))
      → (local : Local p) (x : Fetched) → Sends k (holdings_fetched p next local x)
  unfolding holdings_fetched
  fetched-Sends k next h local no_page = none_sent (Keeps-pure (sent_order p) _)
  fetched-Sends k next h local bad_status = none_sent (Keeps-pure (sent_order p) _)
  fetched-Sends k next h local (page body headers) = Sends-le _ (omega arith) (
      Sends-bind 0 k _ _ (none_sent (Keeps-page local body)) (Returns-any _)
        λ x _. continue-Sends k next (header_fields headers) h x)

  fetched-last :
      (next : Text → Text → Local p → Code p (Option (Local p))) (local : Local p) (x : Fetched)
      → IsLast x
      → Sends 0 (holdings_fetched p next local x)
  unfolding holdings_fetched
  fetched-last next local no_page h = none_sent (Keeps-pure (sent_order p) _)
  fetched-last next local bad_status h = none_sent (Keeps-pure (sent_order p) _)
  fetched-last next local (page body headers) h =
      Sends-bind 0 0 _ _ (none_sent (Keeps-page local body)) (Returns-any _)
        λ x _. continue-last next (header_fields headers) h x

  pages-Sends :
      (n : ℕ) (token cont next_key : Text) (local : Local p)
      → Sends n (holdings_pages p n token cont next_key local)
  unfolding holdings_pages holdings_fetch
  pages-Sends zero token cont next_key local = none_sent (Keeps-pure (sent_order p) _)
  pages-Sends (suc n) token cont next_key local = Sends-le _ (omega arith) (
      Sends-bind 1 n _ _ (Sends-fetch_page p _ _ _) (Returns-any _)
        λ x _. fetched-Sends n (holdings_pages p n token) (pages-Sends n token) local x)

  pages-last :
      (n : ℕ) (token cont next_key : Text) (local : Local p)
      → AnswersInLines p
      → Sends 1 (holdings_pages p n token cont next_key local)
  unfolding holdings_pages holdings_fetch
  pages-last zero token cont next_key local crlf = none_sent (Keeps-pure (sent_order p) _)
  pages-last (suc n) token cont next_key local crlf =
      Sends-bind 1 0 _ _ (Sends-fetch_page p _ _ _) (fetch_page-IsLast p crlf _ _ _)
        λ x h. fetched-last (holdings_pages p n token) local x h

  publish-Sends : (x : Option (Local p)) → Sends 1 (publish_holdings p x)
  unfolding publish_holdings finish_holdings swap_holdings remember_both
  publish-Sends none = none_sent (Keeps-skip (sent_order p))
  publish-Sends (some local) =
      let o = sent_order p in
      let f = sent_plumbing p in
      Sends-bind 1 0 _ _ (Sends-fetch_prev_close_prices _) (Returns-any _) λ closes _. none_sent (
        Keeps-bind o _ _ (Keeps-enrich p o (λ close h e. Keeps-update _ λ s. refl) closes local)
          λ enriched. Keeps-bind o _ _ (Keeps-update _ λ s. refl) λ _. f.at_output _ _)

  -- From a bound on the loop.
  refresh-Sends :
      (k : ℕ)
      → ((token : Text) → Sends k (holdings_pages p max_pages token (codes "N") [] []))
      → Sends (k + 2) (refresh_current_holdings p)
  unfolding refresh_current_holdings refresh_with_account query_holdings
  refresh-Sends k h =
      let o = sent_order p in
      let f = sent_plumbing p in
      Sends-le _ (omega arith) (
        Sends-bind 0 (k + 2) _ _ (none_sent (Keeps-gets o _)) (Returns-any _) λ account _.
          Sends-if (is_empty account) _ _ (λ _. none_sent (f.at_output _ _))
            λ _. Sends-le _ (omega arith) (
              Sends-bind 1 (k + 1) _ _ Sends-get_access_token (Returns-any _) λ token _.
                Sends-if (is_empty token) _ _ (λ _. none_sent (f.at_output _ _))
                  λ _. Sends-le _ (omega arith) (
                    Sends-bind 0 (k + 1) _ _ (none_sent (f.at_output _ _)) (Returns-any _)
                      λ _ _. Sends-bind k 1 _ _ (h token) (Returns-any _) λ x _. publish-Sends x)))

  pub Sends-refresh_current_holdings : Sends 102 (refresh_current_holdings p)
  Sends-refresh_current_holdings = refresh-Sends 100 λ token. pages-Sends max_pages token _ _ []

  -- A refresh of the holdings sends at most 102 requests, whatever the servers answer: one for a
  -- token, one for each of 100 pages and one for the previous closes.
  pub refresh-requests :
      (s : State p) → length (refresh_current_holdings p s).1.sent ≤ 102 + length s.sent
  refresh-requests s = Sends-refresh_current_holdings.at s

  -- Where every header line of every answer ends in CR LF, a refresh of the holdings sends at most
  -- three requests, also if the server announces further pages: one page only is asked for.
  pub refresh-three_requests :
      (s : State p)
      → AnswersInLines p
      → length (refresh_current_holdings p s).1.sent ≤ 3 + length s.sent
  refresh-three_requests s crlf =
      (refresh-Sends 1 λ token. pages-last max_pages token _ _ [] crlf).at s
