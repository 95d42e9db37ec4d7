-- ===== src/Log.antt =====
-- TradingCore/Core/Log.cpp and Log.h: the log on the console and in its file.
pub mod Replay
use Prim.Native.Nat.{bit_and}
use stock_trading_bot_server.Prelude.{
  ℕ, suc, Bool, true, false, not, List, [], ◌∷◌, ◌++◌, Option, none, some, ◌==◌, if◌then◌else◌,
}
use stock_trading_bot_server.Text.{Text, codes, concat, is_empty, text_eq}
use stock_trading_bot_server.World.{LogLevel, normal, info, warning, error, count}
use stock_trading_bot_server.Clock.{Tm, time_string}
use stock_trading_bot_server.Utility.Directory.{
  Disk, is_separator, get_absolute_path, ensure_directory_exists,
}

-- enum class LogTarget, with its bits.
pub data LogTarget : Type 0 where
  nowhere console_only file_only everywhere : LogTarget

abbrev pub bits : LogTarget → ℕ
bits nowhere = 0
bits console_only = 1
bits file_only = 2
bits everywhere = 3

-- `operator&`
unfoldable pub has_target : LogTarget → LogTarget → Bool
has_target a b = not (bit_and (bits a) (bits b) == 0)

-- `GetLevelString`
unfoldable pub get_level_string : LogLevel → Text
get_level_string normal = codes "NORMAL"
get_level_string info = codes "INFO"
get_level_string warning = codes "WARNING"
get_level_string error = codes "ERROR"
get_level_string count = codes "UNKNOWN"

-- `\033[0m`
abbrev pub reset_color : Text
reset_color = 27 ∷ b'[' ∷ b'0' ∷ b'm' ∷ []

-- `GetAnsiColorPrefix`
unfoldable pub get_ansi_color_prefix : LogLevel → Text
get_ansi_color_prefix normal = reset_color
get_ansi_color_prefix info = 27 ∷ codes "[32m"
get_ansi_color_prefix warning = 27 ∷ codes "[33m"
get_ansi_color_prefix error = 27 ∷ codes "[1;31m"
get_ansi_color_prefix count = reset_color

-- What `SetConsoleColor` writes.
unfoldable pub set_console_color : LogLevel → Text
set_console_color normal = reset_color
set_console_color info = 27 ∷ codes "[32m"
set_console_color warning = 27 ∷ codes "[33m"
set_console_color error = 27 ∷ codes "[1;31m"
set_console_color count = reset_color

-- `[time] [level] message`
unfoldable pub log_line : Tm → LogLevel → Text → Text
log_line time level message = concat (
    codes "[" ∷ time_string time ∷ codes "] [" ∷ get_level_string level ∷ codes "] " ∷ message ∷ [])

-- What one call writes on the console, and what it writes in the file.
unfoldable pub console_line : Tm → LogLevel → Text → Text
console_line time level message =
    set_console_color level ++ (log_line time level message ++ (b'\n' ∷ reset_color))

unfoldable pub file_line : Tm → LogLevel → Text → Text
file_line time level message =
    get_ansi_color_prefix level ++ (log_line time level message ++ (reset_color ++ (b'\n' ∷ [])))

-- `if (!dir.empty() && dir.back() != '/' && dir.back() != '\\') dir.push_back('/');`
unfoldable pub with_separator : Text → Text
with_separator [] = []
with_separator (c ∷ []) = if is_separator c then c ∷ [] else c ∷ b'/' ∷ []
with_separator (c ∷ d ∷ t) = c ∷ with_separator (d ∷ t)

-- The console, the contents of the files (nothing where there is none), and the readings of the
-- clock.
pub record Sinks : Type 0 where
  pub console : Text
  pub files : Text → Text
  pub reads : ℕ

-- `logFile << text`
unfoldable pub append_to : Option Text → Text → Sinks → Sinks
append_to none text s = s
append_to (some path) text s = record s {
  files = λ q. if text_eq q path then s.files q ++ text else s.files q;
}

-- The directory `Config::rootPath`, the local time at each reading, and which files can be opened
-- for appending and for reading.
module _ (d : Disk) (root_path : Text) (local_time : ℕ → Tm) (opens can_read : Text → Bool) where
  unfoldable pub log_path : Text
  log_path = with_separator (get_absolute_path d root_path) ++ codes "log.txt"

  -- The file that is opened: the one of the path, that of the working directory, or none.
  unfoldable pub log_file : Option Text
  log_file =
      if opens log_path
      then some log_path
      else if opens (codes "log.txt")
      then some (codes "log.txt")
      else none

  unfoldable pub log_console : LogLevel → Text → Sinks → Sinks
  log_console level message s = record s {
    console = s.console ++ console_line (local_time s.reads) level message;
    reads = suc s.reads;
  }

  unfoldable pub log_message : LogLevel → Text → Sinks → Sinks
  log_message level message s =
      append_to log_file (file_line (local_time s.reads) level message)
        (record s { reads = suc s.reads })

  -- `Log::Output`
  unfoldable pub log_output : LogLevel → Text → LogTarget → Sinks → Sinks
  log_output level message target s =
      let shown = if has_target target console_only then log_console level message s else s in
      if has_target target file_only then log_message level message shown else shown

  -- The header of a session.
  unfoldable pub session_header : Text → Tm → Text
  session_header kind time =
      concat (
        codes "\n---- 새로운 세션 시작 ("
        ∷ kind
        ∷ codes ") ["
        ∷ time_string time
        ∷ codes "] ----\n\n"
        ∷ [])

  -- `hasLogFileAndNotEmpty`
  unfoldable pub has_old_log : Sinks → Bool
  has_old_log s = if can_read log_path then not (is_empty (s.files log_path)) else false

  -- The end of the constructor: the header in the first file that can be opened.
  unfoldable pub start_session : Sinks → Sinks
  start_session s =
      let time = local_time s.reads in
      let later : Sinks = record s { reads = suc s.reads } in
      let kind = if has_old_log s then codes "기존 로그에 데이터 있음" else codes "빈 로그 파일" in
      if opens log_path
      then append_to (some log_path) (session_header kind time) later
      else if opens (codes "log.txt")
      then append_to (some (codes "log.txt")) (session_header (codes "폴백") time) later
      else s

  -- `Log::Log`, where `none` is the failure of the `assert`.
  unfoldable pub start_log : d.Fs → Sinks → Option (d.Fs × Sinks)
  start_log fs s =
      let (ok, fs') = ensure_directory_exists d (get_absolute_path d root_path) fs in
      if ok then some (fs', start_session s) else none
