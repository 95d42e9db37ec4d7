-- ===== src/Login/Token.antt =====
-- What a request for the token leaves alone, and how the cached token answers later calls.
use stock_trading_bot_server.Prelude.{Option, none, some}
use stock_trading_bot_server.Text.{Text, codes, is_empty}
use stock_trading_bot_server.Platform.{Platform, Request, Reply, failed, received}
use stock_trading_bot_server.World.{State}
use stock_trading_bot_server.World.Keeps.{
  Keeps, IsPreorder, Keeps-bind, Keeps-if, Keeps-lift_or, Keeps-catch_parse, Keeps-gets, Keeps-skip,
  Keeps-pure,
}
use stock_trading_bot_server.Curl.{easy_perform}
use stock_trading_bot_server.Curl.Plumbing.{KeepsLog, Plumbing}
use stock_trading_bot_server.Login.{
  json_error, parse_json, set_token, store_found, store_token, handle_token_reply, request_token,
  init_and_request, get_access_token, clear_access_token,
}

module _ (p : Platform) {R : State p → State p → Type 0} (o : IsPreorder R)
    (log : KeepsLog p R) where
  module _ (at_token : (t : Text) → Keeps R (set_token p t)) where
    Keeps-store_found : (x : Option p.Json) → Keeps R (store_found p x)
    unfolding store_found
    Keeps-store_found none = Keeps-skip o
    Keeps-store_found (some t) = Keeps-bind o _ _ (Keeps-lift_or o _ _) at_token

    pub Keeps-store_token : (buffer : Text) → Keeps R (store_token p buffer)
    unfolding store_token parse_json
    Keeps-store_token buffer =
        Keeps-bind o _ _ (Keeps-lift_or o _ _)
          λ response. Keeps-store_found (p.find response (codes "token"))

    pub Keeps-clear_access_token : Keeps R (clear_access_token p)
    unfolding clear_access_token
    Keeps-clear_access_token = Keeps-bind o _ _ (log _ _) λ _. at_token _

    pub Keeps-handle_token_reply : (r : Reply) → Keeps R (handle_token_reply p r)
    unfolding handle_token_reply json_error
    Keeps-handle_token_reply (failed e) = log _ _
    Keeps-handle_token_reply (received status chunks headers) =
        Keeps-catch_parse o _ _ (Keeps-store_token _) (log _ _)

module _ (p : Platform) {R : State p → State p → Type 0} (o : IsPreorder R) (f : Plumbing p R) where
  open f use {at_output, at_init, at_append, at_free, at_cleanup}

  module _ (at_token : (t : Text) → Keeps R (set_token p t)) where
    module _ (at_perform : (r : Request) → Keeps R (easy_perform p r)) where
      Keeps-request_token : Keeps R (request_token p)
      unfolding request_token
      Keeps-request_token = Keeps-bind o _ _ at_append λ _. Keeps-bind o _ _ (at_perform _) λ reply.
          Keeps-bind o _ _ (Keeps-handle_token_reply p o at_output at_token reply) λ _.
            Keeps-bind o _ _ at_free λ _. Keeps-bind o _ _ at_cleanup λ _.
              Keeps-bind o _ _ (Keeps-gets o _) λ token.
                Keeps-bind o _ _ (Keeps-if o (is_empty token) _ _ (at_output _ _) (at_output _ _))
                  λ _. Keeps-pure o token

      -- The call keeps every relation that allows the log, the curl objects, a request and a change
      -- of the token.
      pub Keeps-get_access_token : Keeps R (get_access_token p)
      unfolding get_access_token init_and_request
      Keeps-get_access_token = Keeps-bind o _ _ (Keeps-gets o _) λ token.
          Keeps-if o (is_empty token) _ _
            (Keeps-bind o _ _ at_init λ ready.
              Keeps-if o ready _ _ Keeps-request_token
                (Keeps-bind o _ _ (at_output _ _) λ _. Keeps-pure o _))
            (Keeps-pure o token)
