-- ===== src/Account/Holdings/Published.antt =====
-- What a refresh publishes.
use stock_trading_bot_server.Prelude.{
  ℕ, zero, suc, ◌≡◌, refl, List, [], ◌∷◌, Option, none, some, ℤ, is_positive, is_zero, All,
}
use stock_trading_bot_server.Text.{Text, codes, is_empty, text_eq}
use stock_trading_bot_server.Text.Map.{Map, lookup, All-insert}
use stock_trading_bot_server.Platform.{Platform, Request}
use stock_trading_bot_server.World.{State, Code, Holding, pure, fold_each}
use stock_trading_bot_server.World.Keeps.{
  Keeps, IsPreorder, Keeping, Keeping-IsPreorder, Keeps-bind, Keeps-if, Keeps-gets, Keeps-skip,
  Keeps-update,
}
use stock_trading_bot_server.Curl.{easy_perform}
use stock_trading_bot_server.Curl.Plumbing.{Plumbing, Plumbing-IsBlind}
use stock_trading_bot_server.Login.{set_token}
use stock_trading_bot_server.Login.Token.{Keeps-get_access_token}
use stock_trading_bot_server.Account.PrevClose.Frame.{Keeps-fetch_prev_close_prices}
use stock_trading_bot_server.Account.Holdings.Frame.{Keeps-holdings_pages, Keeps-enrich}
use stock_trading_bot_server.World.Sends.{
  Returns-catch_parse, Keeps-bind-Returns, Returns, Returns-any, Returns-bind, Returns-if,
  Returns-pure,
}
use stock_trading_bot_server.Account.Page.{
  Fields, Fetched, no_page, bad_status, page, header_fields,
}
use stock_trading_bot_server.Account.Item.{
  holding_key, daily_rate, add_item, get_local_weekday, remember,
}
use stock_trading_bot_server.Account.Holdings.{
  Local, add_items, read_page, read_body, handle_page, holdings_continue, holdings_fetched,
  holdings_fetch, holdings_pages, with_close, enrich_found, enrich_one, enrich, remember_both,
  swap_holdings, finish_holdings, publish_holdings, query_holdings, refresh_with_account,
  refresh_current_holdings, max_pages,
}

module _ (p : Platform) where
  open p use {Json, Double, find, is_array, elements}

  -- A holding stands under its own key, with the daily rate of its two prices.
  pub record IsFiled (e : Text × Holding Double) : Type 0 where
    pub keyed : e.0 ≡ holding_key e.1
    pub rated : e.1.daily_profit_rate ≡ daily_rate p e.1.price e.1.prev_close_price

  abbrev pub AreFiled : Local p → Type 0
  AreFiled = All IsFiled

  add_item-AreFiled :
      (local : Local p) (item : Json) → AreFiled local → Returns AreFiled (add_item p local item)
  unfolding add_item
  add_item-AreFiled local item a = Returns-bind _ _ (Returns-any _) λ h _.
      Returns-bind _ _ (Returns-any _) λ prev_close _. Returns-bind _ _ (Returns-any _) λ _ _.
        Returns-bind _ _ (Returns-any _) λ _ _.
          Returns-pure _ (All-insert IsFiled _ _ local (record { keyed = refl; rated = refl }) a)

  fold-AreFiled :
      (items : List Json) (local : Local p)
      → AreFiled local
      → Returns AreFiled (fold_each items local (add_item p))
  unfolding fold_each pure
  fold-AreFiled [] local a = Returns-pure local a
  fold-AreFiled (item ∷ items) local a =
      Returns-bind _ _ (add_item-AreFiled local item a) λ local' a'. fold-AreFiled items local' a'

  abbrev AreFiledIf : Option (Local p) → Type 0
  AreFiledIf none = Unit
  AreFiledIf (some local) = AreFiled local

  add_items-AreFiled :
      (local : Local p) (items : Option Json)
      → AreFiled local
      → Returns AreFiled (add_items p local items)
  unfolding add_items
  add_items-AreFiled local none a = Returns-pure local a
  add_items-AreFiled local (some items) a =
      Returns-if (is_array items) _ _ (fold-AreFiled (elements items) local a)
        (Returns-pure local a)

  read_page-AreFiled :
      (local : Local p) (r : Json) → AreFiled local → Returns AreFiledIf (read_page p local r)
  unfolding read_page
  read_page-AreFiled local r a = Returns-bind _ _ (Returns-any _) λ code _.
      Returns-bind _ _ (Returns-any _) λ message _.
        Returns-if (is_zero code) _ _
          (Returns-bind _ _ (add_items-AreFiled local (find r (codes "acnt_evlt_remn_indv_tot")) a)
            λ l h. Returns-pure (some l) h)
          (Returns-bind _ _ (Returns-any _) λ _ _. Returns-pure none tt)

  handle_page-AreFiled :
      (local : Local p) (body : Text)
      → AreFiled local
      → Returns AreFiledIf (handle_page p local body)
  unfolding handle_page read_body
  handle_page-AreFiled local body a =
      Returns-bind _ _
        (Returns-catch_parse _ _
          (Returns-if (is_empty body) _ _ (Returns-pure (some local) a)
            (Returns-bind _ _ (Returns-any _) λ r _. read_page-AreFiled local r a))
          (Returns-bind _ _ (Returns-any _) λ _ _. Returns-pure (some local) a))
        λ result h. Returns-bind _ _ (Returns-any _) λ _ _. Returns-pure result h

  continue-AreFiled :
      (next : Text → Text → Local p → Code p (Option (Local p)))
      → ((c k : Text) (l : Local p) → AreFiled l → Returns AreFiledIf (next c k l))
      → (fields : Fields) (x : Option (Local p)) → AreFiledIf x
      → Returns AreFiledIf (holdings_continue p next fields x)
  unfolding holdings_continue
  continue-AreFiled next h fields none a = Returns-pure none tt
  continue-AreFiled next h fields (some l) a =
      Returns-if (text_eq fields.cont (codes "Y")) _ _ (h _ _ l a) (Returns-pure (some l) a)

  fetched-AreFiled :
      (next : Text → Text → Local p → Code p (Option (Local p)))
      → ((c k : Text) (l : Local p) → AreFiled l → Returns AreFiledIf (next c k l))
      → (local : Local p) (x : Fetched) → AreFiled local
      → Returns AreFiledIf (holdings_fetched p next local x)
  unfolding holdings_fetched
  fetched-AreFiled next h local no_page a = Returns-pure (some local) a
  fetched-AreFiled next h local bad_status a = Returns-pure none tt
  fetched-AreFiled next h local (page body headers) a =
      Returns-bind _ _ (handle_page-AreFiled local body a)
        (continue-AreFiled next h (header_fields headers))

  holdings_pages-AreFiled :
      (n : ℕ) (token cont next_key : Text) (local : Local p)
      → AreFiled local
      → Returns AreFiledIf (holdings_pages p n token cont next_key local)
  unfolding holdings_pages holdings_fetch
  holdings_pages-AreFiled zero token cont next_key local a = Returns-pure (some local) a
  holdings_pages-AreFiled (suc n) token cont next_key local a =
      Returns-bind _ _ (Returns-any _) λ x _.
        fetched-AreFiled (holdings_pages p n token) (holdings_pages-AreFiled n token) local x a

  enrich_found-IsFiled :
      (key : Text) (h : Holding Double) (x : Option ℤ)
      → IsFiled (key, h)
      → Returns (λ h'. IsFiled (key, h')) (enrich_found p h x)
  unfolding enrich_found with_close holding_key
  enrich_found-IsFiled key h none i = Returns-pure h i
  enrich_found-IsFiled key h (some close) i =
      Returns-if (is_positive close) _ _
        (Returns-bind _ _ (Returns-any _)
          λ _ _. Returns-pure (with_close p close h) (record { keyed = i.keyed; rated = refl }))
        (Returns-pure h i)

  enrich-AreFiled :
      (closes : Map ℤ) (local : Local p) → AreFiled local → Returns AreFiled (enrich p closes local)
  unfolding enrich enrich_one
  enrich-AreFiled closes [] a = Returns-pure [] tt
  enrich-AreFiled closes ((key, h) ∷ rest) (i, a) =
      Returns-bind _ _ (enrich_found-IsFiled key h (lookup h.code closes) i) λ h' i'.
        Returns-bind _ _ (enrich-AreFiled closes rest a)
          λ rest' a'. Returns-pure ((key, h') ∷ rest') (i', a')

  abbrev HoldingsAreFiled : State p → Type 0
  HoldingsAreFiled s = AreFiled s.holdings

  abbrev filed_order : IsPreorder (Keeping HoldingsAreFiled)
  filed_order = Keeping-IsPreorder HoldingsAreFiled

  filed_plumbing : Plumbing p (Keeping HoldingsAreFiled)
  filed_plumbing = Plumbing-IsBlind p (record { journal = λ s j h. h; curl = λ s i h l x. x })

  perform-filed : (r : Request) → Keeps (Keeping HoldingsAreFiled) (easy_perform p r)
  unfolding easy_perform
  perform-filed r = record { at = λ s h. h }

  publish-AreFiled :
      (x : Option (Local p))
      → AreFiledIf x
      → Keeps (Keeping HoldingsAreFiled) (publish_holdings p x)
  unfolding publish_holdings finish_holdings swap_holdings remember_both
  publish-AreFiled none a = Keeps-skip filed_order
  publish-AreFiled (some local) a =
      Keeps-bind filed_order _ _
        (Keeps-fetch_prev_close_prices p filed_order filed_plumbing perform-filed _)
        λ closes.
          Keeps-bind-Returns filed_order _ _
            (Keeps-enrich p filed_order (λ close h e. Keeps-update _ λ s x. x) closes local)
            (enrich-AreFiled closes local a)
            λ enriched b.
              Keeps-bind filed_order _ _ (Keeps-update _ λ s x. b) λ _. filed_plumbing.at_output _ _

  -- After a refresh, also one that ends in an exception, every published holding stands under
  -- its own account and code, and its daily rate is the one of its price and its previous close, if
  -- this was so before.
  pub refresh-AreFiled :
      (s : State p) → AreFiled s.holdings → AreFiled (refresh_current_holdings p s).1.holdings
  unfolding refresh_current_holdings refresh_with_account query_holdings set_token get_local_weekday
      remember
  refresh-AreFiled s =
      let o = filed_order in
      let f = filed_plumbing in
      let at_token : (t : Text) → Keeps (Keeping HoldingsAreFiled) (set_token p t) =
        λ t. Keeps-update _ λ s h. h in
      (Keeps-bind o _ _ (Keeps-gets o _) λ account.
          Keeps-if o (is_empty account) _ _ (f.at_output _ _) (
            Keeps-bind o _ _ (Keeps-get_access_token p o f at_token perform-filed) λ token.
              Keeps-if o (is_empty token) _ _ (f.at_output _ _) (
                Keeps-bind o _ _ (f.at_output _ _) λ _.
                  Keeps-bind-Returns o _ _
                    (Keeps-holdings_pages p o f at_token (record { at = λ s h. h })
                      (λ h. Keeps-update _ λ s x. x) perform-filed max_pages token _ _ [])
                    (holdings_pages-AreFiled max_pages token _ _ [] tt) publish-AreFiled))).at
        s
