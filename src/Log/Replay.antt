-- ===== src/Log/Replay.antt =====
-- The log of a sequence of calls: what stands on the console and in the file after it.
use stock_trading_bot_server.Prelude.{
  ℕ, suc, ◌≡◌, refl, sym, ◌∙◌, Bool, true, false, List, [], ◌∷◌, ◌++◌, Option, none, some, arith,
  if◌then◌else◌,
}
use mathlib.Core.List.{append_assoc, append-nil}
use stock_trading_bot_server.Text.{Text, text_eq}
use stock_trading_bot_server.World.{LogLevel}
use stock_trading_bot_server.Clock.{Tm}
use stock_trading_bot_server.Utility.Directory.{Disk}
use stock_trading_bot_server.Log.{
  everywhere, has_target, console_line, file_line, Sinks, append_to, log_file, log_console,
  log_message, log_output,
}

-- The lines of the calls, two readings of the clock for each: the first is shown on the console, the
-- second in the file.
abbrev pub console_lines : (ℕ → Tm) → ℕ → List (LogLevel × Text) → Text
console_lines time r [] = []
console_lines time r ((level, message) ∷ rest) =
    console_line (time r) level message ++ console_lines time (suc (suc r)) rest

abbrev pub file_lines : (ℕ → Tm) → ℕ → List (LogLevel × Text) → Text
file_lines time r [] = []
file_lines time r ((level, message) ∷ rest) =
    file_line (time (suc r)) level message ++ file_lines time (suc (suc r)) rest

-- Whether the file that is opened is this one.
abbrev pub is_file : Option Text → Text → Bool
is_file none q = false
is_file (some path) q = text_eq q path

module _ (d : Disk) (root_path : Text) (local_time : ℕ → Tm) (opens can_read : Text → Bool) where
  -- The calls of a journal, in order, with the default target.
  unfoldable pub replay : List (LogLevel × Text) → Sinks → Sinks
  replay [] s = s
  replay ((level, message) ∷ rest) s =
      replay rest (log_output d root_path local_time opens can_read level message everywhere s)

  append-files :
      (x : Option Text) (text : Text) (s : Sinks) (q : Text)
      → (append_to x text s).files q ≡ (if is_file x q then s.files q ++ text else s.files q)
  unfolding append_to
  append-files none text s q = refl
  append-files (some path) text s q = refl

  append-rest :
      (x : Option Text) (text : Text) (s : Sinks)
      → ((append_to x text s).console ≡ s.console) × ((append_to x text s).reads ≡ s.reads)
  unfolding append_to
  append-rest none text s = (refl, refl)
  append-rest (some path) text s = (refl, refl)

  -- One call, and the file after the rest of the journal.
  chosen-append :
      (b : Bool) (t u v : Text)
      → (if b then (if b then t ++ u else t) ++ v else (if b then t ++ u else t))
        ≡ (if b then t ++ (u ++ v) else t)
  chosen-append true t u v = append_assoc t u v
  chosen-append false t u v = refl

  -- After the calls of a journal, in order and with the default target, the console has gained one
  -- line for each call, and so has the file that can be opened, if there is one; no other file has
  -- changed.
  pub replay_lem :
      (entries : List (LogLevel × Text)) (s : Sinks)
      → ((replay entries s).console ≡ s.console ++ console_lines local_time s.reads entries)
        × ((q : Text)
            → (replay entries s).files q ≡ (
                if is_file (log_file d root_path local_time opens can_read) q
                then s.files q ++ file_lines local_time s.reads entries
                else s.files q))
  unfolding replay log_output has_target log_console log_message
  replay_lem [] s = (sym (append-nil s.console), λ q. ground (arith, append-nil (s.files q)))
  replay_lem ((level, message) ∷ rest) s =
      let file = log_file d root_path local_time opens can_read in
      let shown = log_console d root_path local_time opens can_read level message s in
      let text = file_line (local_time (suc s.reads)) level message in
      let t = log_output d root_path local_time opens can_read level message everywhere s in
      let (console, files) = replay_lem rest t in
      let late : Sinks = record shown { reads = suc (suc s.reads) } in
      let (same, read) = append-rest file text late in
      (
        console ∙ rw (same, read) (append_assoc s.console _ _),
        λ q.
            files q
            ∙ rw (append-files file text late q, read)
                (chosen-append (is_file file q) (s.files q) text
                  (file_lines local_time (suc (suc s.reads)) rest)),
      )
