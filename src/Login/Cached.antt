-- ===== src/Login/Cached.antt =====
-- The token that a call of `GetAccessToken` gives is the one that is cached after it.
use stock_trading_bot_server.Prelude.{◌≡◌, refl, true, [], ◌∷◌, arith, if◌then◌else◌}
use stock_trading_bot_server.Text.{Text, codes, is_empty}
use stock_trading_bot_server.Outcome.{Outcome, done, thrown}
use stock_trading_bot_server.Platform.{Platform}
use stock_trading_bot_server.World.{State, Code, error, info, pure, gets, update, continue, ◌>>=◌}
use stock_trading_bot_server.Curl.{output, easy_init}
use stock_trading_bot_server.Login.{request_token, init_and_request, get_access_token}

empty_text : (t : Text) → is_empty t ≡ true → t ≡ []
empty_text [] h = refl
empty_text (c ∷ t) h = absurd (ground arith)

module _ (p : Platform) where
  record Tells (m : Code p Text) : Type 0 where
    at : (s : State p) (t : Text) → (m s).0 ≡ done t → (m s).1.access_token ≡ t

  continue-Tells :
      {A : Type 0} (r : Outcome A) (s : State p) (f : A → Code p Text) (t : Text)
      → ((a : A) → Tells (f a))
      → (continue r f s).0 ≡ done t
      → (continue r f s).1.access_token ≡ t
  continue-Tells (done a) s f t h e = (h a).at s t e
  continue-Tells (thrown x) s f t h e = absurd (ground arith)

  Tells-bind :
      {A : Type 0} (m : Code p A) (f : A → Code p Text) → ((a : A) → Tells (f a)) → Tells (m >>= f)
  unfolding ◌>>=◌
  Tells-bind m f h = record { at = λ s t e. continue-Tells (m s).0 (m s).1 f t h e }

  -- Reading the token, writing to the log and returning what was read.
  tail-Tells :
      (log : Text → Code p (Unit {0}))
      → ((t : Text) (s : State p)
          → ((log t s).0 ≡ done tt) × ((log t s).1.access_token ≡ s.access_token))
      → Tells (gets (λ s. s.access_token) >>= λ token. log token >>= λ _. pure token)
  unfolding ◌>>=◌ gets pure
  tail-Tells log h = record { at = λ s t e. ground (arith, h s.access_token s) }

  logged :
      (t : Text) (s : State p)
      → (((if is_empty t
              then output p error (codes "토큰 발급 실패")
              else output p info (codes "토큰 발급 성공"))
            s).0
          ≡ done tt)
        × (((if is_empty t
                then output p error (codes "토큰 발급 실패")
                else output p info (codes "토큰 발급 성공"))
              s).1.access_token
            ≡ s.access_token)
  unfolding output update
  logged t s = ground arith

  request_token-Tells : Tells (request_token p)
  unfolding request_token
  request_token-Tells = Tells-bind _ _ λ _.
      Tells-bind _ _
        λ _. Tells-bind _ _ λ _. Tells-bind _ _ λ _. Tells-bind _ _ λ _. tail-Tells _ logged

  -- Whenever `GetAccessToken` returns, the text that it returns is the token that is cached after the
  -- call: the new one, the old one, or the empty text if there is none.
  pub get_access_token-cached :
      (s : State p) (t : Text)
      → (get_access_token p s).0 ≡ done t
      → (get_access_token p s).1.access_token ≡ t
  unfolding get_access_token init_and_request ◌>>=◌ gets pure easy_init output update
  get_access_token-cached s t e =
      ground (arith, request_token-Tells.at (easy_init p s).1 t, empty_text s.access_token)
