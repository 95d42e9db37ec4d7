-- ===== src/Curl/Plumbing.antt =====
-- The changes of the state that only concern the log and the curl objects, for relations that do
-- not look at them.
use stock_trading_bot_server.Prelude.{ℕ, List}
use stock_trading_bot_server.Text.{Text}
use stock_trading_bot_server.Platform.{Platform}
use stock_trading_bot_server.World.{State, LogLevel}
use stock_trading_bot_server.World.Keeps.{Keeps, Keeps-update}
use stock_trading_bot_server.Curl.{
  output, easy_init, slist_append_all, slist_free_all, easy_cleanup,
}

module _ (p : Platform) where
  abbrev pub KeepsLog : (State p → State p → Type 0) → Type 0
  KeepsLog R = (level : LogLevel) (message : Text) → Keeps R (output p level message)

  pub record Plumbing (R : State p → State p → Type 0) : Type 0 where
    pub at_output : KeepsLog R
    pub at_init : Keeps R (easy_init p)
    pub at_append : Keeps R (slist_append_all p)
    pub at_free : Keeps R (slist_free_all p)
    pub at_cleanup : Keeps R (easy_cleanup p)

  -- A relation that does not read these fields holds of each change.
  pub record IsBlind (R : State p → State p → Type 0) : Type 0 where
    pub journal : (s : State p) (j : List (LogLevel × Text)) → R s (record s { journal = j })
    pub curl :
        (s : State p) (i h l : ℕ) → R s (record s { inits = i; handles = h; header_lists = l })

  pub Plumbing-IsBlind : {R : State p → State p → Type 0} → IsBlind R → Plumbing R
  unfolding output easy_init slist_append_all slist_free_all easy_cleanup
  Plumbing-IsBlind b = record {
    at_output = λ level message. Keeps-update _ (λ s. b.journal s _);
    at_init = record { at = λ s. b.curl s _ _ s.header_lists };
    at_append = Keeps-update _ (λ s. b.curl s s.inits s.handles _);
    at_free = Keeps-update _ (λ s. b.curl s s.inits s.handles _);
    at_cleanup = Keeps-update _ (λ s. b.curl s s.inits _ s.header_lists);
  }
