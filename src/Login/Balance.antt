-- ===== src/Login/Balance.antt =====
-- The curl objects of the request for a token.
use stock_trading_bot_server.Prelude.{refl}
use stock_trading_bot_server.Text.{Text, is_empty}
use stock_trading_bot_server.Platform.{Platform}
use stock_trading_bot_server.World.Keeps.{
  Keeps, Keeps-update, Keeps-gets, Keeps-bind, Keeps-if, Keeps-pure,
}
use stock_trading_bot_server.World.Costs.{
  SameCurl, SameCurl-IsPreorder, Costs, Costs-pure, Costs-if, Costs-bind,
}
use stock_trading_bot_server.Curl.Balance.{
  none_left, Costs-closed, Costs-open, KeepsLog-SameCurl, Keeps-perform, Costs-ready, Costs-append,
  Costs-free, Costs-cleanup,
}
use stock_trading_bot_server.Login.{set_token, request_token, init_and_request, get_access_token}
use stock_trading_bot_server.Login.Token.{Keeps-handle_token_reply}

module _ (p : Platform) where
  pub set_token-Keeps : (t : Text) → Keeps SameCurl (set_token p t)
  unfolding set_token
  set_token-Keeps t = Keeps-update _ λ s. (refl, refl)

  Costs-request_token : Costs 1 0 none_left none_left (request_token p)
  unfolding request_token
  Costs-request_token =
      let o = SameCurl-IsPreorder in
      Costs-bind (Costs-append p) λ _. Costs-bind (Costs-open (Keeps-perform p _)) λ reply.
        Costs-bind
          (Costs-open (Keeps-handle_token_reply p o (KeepsLog-SameCurl p) set_token-Keeps reply))
          λ _. Costs-bind (Costs-free p) λ _. Costs-bind (Costs-cleanup p) λ _. Costs-closed (
            Keeps-bind o _ _ (Keeps-gets o _) λ token.
              Keeps-bind o _ _
                (Keeps-if o (is_empty token) _ _ (KeepsLog-SameCurl p _ _)
                  (KeepsLog-SameCurl p _ _))
                λ _. Keeps-pure o token)

  pub Costs-get_access_token : Costs 0 0 none_left none_left (get_access_token p)
  unfolding get_access_token init_and_request
  Costs-get_access_token = Costs-bind (Costs-closed (Keeps-gets SameCurl-IsPreorder _)) λ token.
      Costs-if (is_empty token)
        (Costs-ready p Costs-request_token
          (Costs-bind (Costs-closed (KeepsLog-SameCurl p _ _)) λ _. Costs-pure _))
        (Costs-pure token)
