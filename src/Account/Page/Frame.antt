-- ===== src/Account/Page/Frame.antt =====
-- What the request of a page and the handling of the token leave alone.
use stock_trading_bot_server.Text.{Text}
use stock_trading_bot_server.Platform.{Platform, Request, Reply, failed, received}
use stock_trading_bot_server.World.{State}
use stock_trading_bot_server.World.Keeps.{Keeps, IsPreorder, keeps_rules, Keeps-bind, Keeps-if}
use stock_trading_bot_server.Curl.{easy_perform}
use stock_trading_bot_server.Curl.Plumbing.{KeepsLog, Plumbing}
use stock_trading_bot_server.Login.{json_error, parse_json}
use stock_trading_bot_server.Account.Page.{release, check_reply, fetch_page}

module _ (p : Platform) {R : State p → State p → Type 0} (o : IsPreorder R)
    (log : KeepsLog p R) where
  pub Keeps-json_error : (prefix text : Text) → Keeps R (json_error p prefix text)
  unfolding json_error
  Keeps-json_error prefix text = log _ _

  pub Keeps-parse_json : (text : Text) → Keeps R (parse_json p text)
  unfolding parse_json
  Keeps-parse_json text = search (keeps_rules, o)

module _ (p : Platform) {R : State p → State p → Type 0} (o : IsPreorder R) (f : Plumbing p R) where
  open f use {at_output, at_init, at_append, at_free, at_cleanup}

  pub Keeps-release : Keeps R (release p)
  unfolding release
  Keeps-release = search (keeps_rules, o, at_free, at_cleanup)

  pub Keeps-check_reply : (m : Text) (r : Reply) → Keeps R (check_reply p m r)
  unfolding check_reply
  Keeps-check_reply m (failed e) = search (keeps_rules, o, at_output, Keeps-release)
  Keeps-check_reply m (received status chunks headers) =
      search (keeps_rules, o, at_output, Keeps-release)

  module _ (at_perform : (r : Request) → Keeps R (easy_perform p r)) where
    pub Keeps-fetch_page : (m n : Text) (r : Request) → Keeps R (fetch_page p m n r)
    unfolding fetch_page
    Keeps-fetch_page m n r = Keeps-bind o _ _ at_init λ ready.
        Keeps-if o ready _ _
          (Keeps-bind o _ _ (Keeps-bind o _ _ at_append (λ _. at_perform r)) (Keeps-check_reply n))
          (search (keeps_rules, o, at_output))
