-- ===== src/Curl.antt =====
-- The calls of libcurl and of the log that the program makes, as changes of the state.
pub mod Balance
pub mod Plumbing
use stock_trading_bot_server.Prelude.{ℕ, suc, ◌+◌, ◌-◌, Bool, List, [], ◌∷◌, ◌++◌, if◌then◌else◌}
use stock_trading_bot_server.Text.{Text}
use stock_trading_bot_server.Outcome.{Outcome, done}
use stock_trading_bot_server.Platform.{Platform, Request, Reply}
use stock_trading_bot_server.World.{Code, World, LogLevel, update, gets, ◌>>=◌}

-- The write callback: each chunk is appended to the buffer of the caller.
-- `Login::WriteCallback` and `Account::HeaderCallback` return the size that they were given.
unfoldable pub write_callback : Text → Text → Text
write_callback buffer chunk = buffer ++ chunk

unfoldable pub header_callback : Text → Text → Text
header_callback buffer chunk = buffer ++ chunk

-- The buffer after all chunks of a transfer.
unfoldable pub received_by : (Text → Text → Text) → Text → List Text → Text
received_by callback buffer [] = buffer
received_by callback buffer (chunk ∷ chunks) = received_by callback (callback buffer chunk) chunks

module _ (p : Platform) where
  open p use {init_ok, answer}

  -- `Log::Output` with its default target.
  unfoldable pub output : LogLevel → Text → Code p (Unit {0})
  output level message = update λ s. record s { journal = s.journal ++ ((level, message) ∷ []) }

  -- `curl_easy_init() != nullptr`
  unfoldable pub easy_init : Code p Bool
  easy_init s =
      let ok = init_ok s.inits in
      (done ok, record s { inits = suc s.inits; handles = if ok then suc s.handles else s.handles })

  unfoldable pub slist_append_all : Code p (Unit {0})
  slist_append_all = update λ s. record s { header_lists = suc s.header_lists }

  unfoldable pub slist_free_all : Code p (Unit {0})
  slist_free_all = update λ s. record s { header_lists = s.header_lists - 1 }

  unfoldable pub easy_cleanup : Code p (Unit {0})
  easy_cleanup = update λ s. record s { handles = s.handles - 1 }

  unfoldable pub easy_perform : Request → Code p Reply
  easy_perform r s = (done (answer s.sent r), record s { sent = s.sent ++ (r ∷ []) })
