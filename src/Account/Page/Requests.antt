-- ===== src/Account/Page/Requests.antt =====
-- How many requests a page sends, and when a page can have no continuation.
use stock_trading_bot_server.Prelude.{
  ℕ, ◌≡◌, refl, ◌∙◌, false, List, [], ◌∷◌, arith, length-append, All,
}
use stock_trading_bot_server.Text.{Text, codes, text_eq}
use stock_trading_bot_server.Platform.{Platform, Request, Reply, failed, received}
use stock_trading_bot_server.World.{State, error, pure, update, ◌>>=◌}
use stock_trading_bot_server.World.Keeps.{Keeps-pure, Same, IsPreorder, Same-IsPreorder}
use stock_trading_bot_server.World.Sends.{
  Sends, Returns, Returns-any, Sends-zero, Sends-if, Sends-bind, Sends-le, Returns-bind, Returns-if,
  Returns-pure, done-injective,
}
use stock_trading_bot_server.Curl.{output, easy_perform, slist_free_all, easy_cleanup}
use stock_trading_bot_server.Curl.Plumbing.{Plumbing, Plumbing-IsBlind}
use stock_trading_bot_server.Account.Page.{
  Fetched, no_page, bad_status, page, header_fields, fetch_page, check_reply, release,
}
use stock_trading_bot_server.Account.Page.Frame.{Keeps-check_reply}
use stock_trading_bot_server.Account.Page.Headers.{IsHeaderLine, header_fields-crlf}

-- Every answer of the server has header lines that end in CR LF.
abbrev pub AnswersInLines : Platform → Type 0
AnswersInLines p =
    (history : List Request) (r : Request) (status : ℕ) (chunks headers : List Text)
    → p.answer history r ≡ received status chunks headers
    → All IsHeaderLine headers

-- A fetched page has no continuation.
abbrev pub IsLast : Fetched → Type 0
IsLast no_page = Unit
IsLast bad_status = Unit
IsLast (page body headers) = text_eq (header_fields headers).cont (codes "Y") ≡ false

module _ (p : Platform) where
  abbrev pub sent_order : IsPreorder (Same (λ (s : State p). s.sent))
  sent_order = Same-IsPreorder (λ s. s.sent)

  pub sent_plumbing : Plumbing p (Same (λ (s : State p). s.sent))
  sent_plumbing = Plumbing-IsBlind p (record { journal = λ s j. refl; curl = λ s i h l. refl })

  pub Sends-perform : (r : Request) → Sends 1 (easy_perform p r)
  unfolding easy_perform
  Sends-perform r = record { at = λ s. omega (arith, length-append s.sent (r ∷ [])) }

  -- The request of a page sends one at most.
  pub Sends-fetch_page : (m n : Text) (r : Request) → Sends 1 (fetch_page p m n r)
  unfolding fetch_page
  Sends-fetch_page m n r =
      Sends-bind 0 1 _ _ (Sends-zero _ (sent_plumbing.at_init)) (Returns-any _) λ ready _.
        Sends-if ready _ _
          (λ _.
            Sends-bind 1 0 _ _
              (Sends-bind 0 1 _ _ (Sends-zero _ sent_plumbing.at_append) (Returns-any _)
                λ _ _. Sends-perform r)
              (Returns-any _)
              λ reply _. Sends-zero _ (Keeps-check_reply p sent_order sent_plumbing n reply))
          (λ _. Sends-le _ (omega arith) (
            Sends-bind 0 0 _ _ (Sends-zero _ (sent_plumbing.at_output error m)) (Returns-any _)
              λ _ _. Sends-zero _ (Keeps-pure sent_order no_page)))

  check_reply-IsLast :
      (n : Text) (reply : Reply)
      → ((status : ℕ) (chunks headers : List Text)
          → reply ≡ received status chunks headers
          → All IsHeaderLine headers)
      → Returns IsLast (check_reply p n reply)
  unfolding check_reply ◌>>=◌ pure output release slist_free_all easy_cleanup update
  check_reply-IsLast n (failed e) h = record { at = λ s a q. ground arith }
  check_reply-IsLast n (received status chunks headers) h = record {
    at = λ s a q. ground (arith, header_fields-crlf headers (h status chunks headers refl));
  }

  -- A reply whose header lines, if it has any, end in CR LF.
  abbrev InLines : Reply → Type 0
  InLines reply =
      (status : ℕ) (chunks headers : List Text)
      → reply ≡ received status chunks headers
      → All IsHeaderLine headers

  perform-InLines : AnswersInLines p → (r : Request) → Returns InLines (easy_perform p r)
  unfolding easy_perform
  perform-InLines crlf r = record {
    at = λ s a e status chunks headers k.
        crlf s.sent r status chunks headers (done-injective _ _ e ∙ k);
  }

  -- No page that is fetched has a continuation.
  pub fetch_page-IsLast :
      AnswersInLines p → (m n : Text) (r : Request) → Returns IsLast (fetch_page p m n r)
  unfolding fetch_page
  fetch_page-IsLast crlf m n r = Returns-bind _ _ (Returns-any _) λ ready _.
      Returns-if ready _ _
        (Returns-bind _ _ (Returns-bind _ _ (Returns-any _) λ _ _. perform-InLines crlf r)
          λ reply h. check_reply-IsLast n reply h)
        (Returns-bind _ _ (Returns-any _) λ _ _. Returns-pure no_page tt)
