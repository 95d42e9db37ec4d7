-- ===== src/Account/Page/Balance.antt =====
-- The curl objects of the request of a page: a page comes with its handle and its header list still
-- open, and every other result with none.
use stock_trading_bot_server.Prelude.{ℕ, ◌==◌}
use stock_trading_bot_server.Text.{Text}
use stock_trading_bot_server.Platform.{Platform, Request, Reply, failed, received}
use stock_trading_bot_server.World.Costs.{Costs, Costs-pure, Costs-if, Costs-bind}
use stock_trading_bot_server.Curl.Balance.{
  none_left, Costs-closed, Costs-open, KeepsLog-SameCurl, Keeps-perform, Costs-ready, Costs-append,
  Costs-free, Costs-cleanup,
}
use stock_trading_bot_server.Account.Page.{
  Fetched, no_page, bad_status, page, release, check_reply, fetch_page,
}

abbrev pub opened : Fetched → ℕ
opened no_page = 0
opened bad_status = 0
opened (page body headers) = 1

module _ (p : Platform) where
  pub Costs-release : Costs 1 1 none_left none_left (release p)
  unfolding release
  Costs-release = Costs-bind (Costs-free p) λ _. Costs-cleanup p

  Costs-check_reply : (m : Text) (r : Reply) → Costs 1 1 opened opened (check_reply p m r)
  unfolding check_reply
  Costs-check_reply m (failed e) =
      Costs-bind (Costs-open (KeepsLog-SameCurl p _ _))
        λ _. Costs-bind Costs-release λ _. Costs-pure no_page
  Costs-check_reply m (received status chunks headers) = Costs-if (status == 200) (Costs-pure _) (
      Costs-bind (Costs-open (KeepsLog-SameCurl p _ _))
        λ _. Costs-bind Costs-release λ _. Costs-pure bad_status)

  pub Costs-fetch_page : (m n : Text) (r : Request) → Costs 0 0 opened opened (fetch_page p m n r)
  unfolding fetch_page
  Costs-fetch_page m n r =
      Costs-ready p
        (Costs-bind (Costs-bind (Costs-append p) λ _. Costs-open (Keeps-perform p r))
          (Costs-check_reply n))
        (Costs-bind (Costs-closed (KeepsLog-SameCurl p _ _)) λ _. Costs-pure no_page)
