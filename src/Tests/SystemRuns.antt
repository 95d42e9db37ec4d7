-- ===== src/Tests/SystemRuns.antt =====
-- The directories, the log, the dates of the trade history, the threads of the server and the program.
use stock_trading_bot_server.Prelude.{
  ◌≡◌, refl, ◌≤◌, ◌+◌, Bool, true, false, List, [], ◌∷◌, some, negsuc, arith, All, if◌then◌else◌,
}
use stock_trading_bot_server.Text.{Text, codes, text_eq, text_eq_iff}
use stock_trading_bot_server.Outcome.{done}
use stock_trading_bot_server.Number.{print_int}
use stock_trading_bot_server.World.{LogLevel, info, error}
use stock_trading_bot_server.Clock.{Tm}
use stock_trading_bot_server.Utility.Directory.{
  MkdirAnswer, made, already, Disk, is_absolute, get_absolute_path, ensure_directory_exists,
  convert_home_to_full, below_cwd, with_slash, make_all, make_along, make_missing, make_dir,
  has_dir_exists,
}
use stock_trading_bot_server.Utility.Directory.Absolute.{get_absolute_path_lem}
use stock_trading_bot_server.Utility.Directory.Ensure.{
  IsSound, HasNoFiles, sub_paths, ensure_directory_exists_lem,
}
use stock_trading_bot_server.Log.{Sinks, log_file}
use stock_trading_bot_server.Log.Replay.{replay, replay_lem, console_lines, file_lines, is_file}
use stock_trading_bot_server.Account.Fields.{amount_or_zero}
use stock_trading_bot_server.Account.Fields.RoundTrip.{amount_or_zero-print_int}
use stock_trading_bot_server.Server.History.{is_leap, days_in_month, start_time}
use stock_trading_bot_server.Server.History.Window.{IsDate, ordinal, start_time-window}

-- A disk that is the list of its directories.
abbrev is_member : Text → List Text → Bool
is_member q [] = false
is_member q (d ∷ ds) = if text_eq q d then true else is_member q ds

abbrev mkdir_in : List Text → Text → MkdirAnswer × List Text
mkdir_in ds q = if is_member q ds then (already, ds) else (made, q ∷ ds)

abbrev disk : Disk
disk = record {
  Fs = List Text;
  is_dir = λ ds q. is_member q ds;
  mkdir = mkdir_in;
  home = some (codes "/root");
  cwd = some (codes "/srv");
}

get_absolute_path_lem_example :
    (is_absolute (get_absolute_path disk (codes "logs/a")) ≡ true)
    × (get_absolute_path disk (get_absolute_path disk (codes "logs/a"))
        ≡ get_absolute_path disk (codes "logs/a"))
get_absolute_path_lem_example =
    get_absolute_path_lem disk (codes "logs/a") (codes "/srv") refl (unfold codes in refl)

disk-IsSound : IsSound disk
disk-IsSound = record {
  makes = λ ds q h. ground (arith, (text_eq_iff q q).1 refl);
  keeps = λ ds q other h. ground arith;
}

disk-HasNoFiles : HasNoFiles disk
disk-HasNoFiles ds q h e = ground arith

logs_made : (ensure_directory_exists disk (codes "logs/a") []).0 ≡ true
unfolding codes ensure_directory_exists get_absolute_path convert_home_to_full below_cwd with_slash
    make_all make_along make_missing make_dir has_dir_exists text_eq
logs_made = refl

ensure_directory_exists_lem_example :
    All
      (λ q. is_member q (ensure_directory_exists disk (codes "logs/a") []).1 ≡ true)
      (sub_paths (get_absolute_path disk (codes "logs/a")))
ensure_directory_exists_lem_example =
    ensure_directory_exists_lem disk (codes "logs/a") [] disk-IsSound disk-HasNoFiles logs_made

abbrev leap_morning : Tm
leap_morning = record {
  tm_year = 124;
  tm_mon = 1;
  tm_mday = 29;
  tm_hour = 9;
  tm_min = 30;
  tm_sec = 0;
}

leap_day : 29 ≤ days_in_month 2024 1
unfolding days_in_month is_leap
leap_day = omega arith

start_time-window_example :
    IsDate (start_time leap_morning)
    × (ordinal (start_time leap_morning) + 364 ≤ ordinal leap_morning)
    × (ordinal leap_morning ≤ ordinal (start_time leap_morning) + 365)
start_time-window_example =
    start_time-window leap_morning (omega arith, omega arith, leap_day) (omega arith)

abbrev silent : Sinks
silent = record { console = []; files = λ q. []; reads = 0 }

abbrev two_calls : List (LogLevel × Text)
two_calls = (info, codes "start") ∷ (error, codes "CURL") ∷ []

-- The file of the configured directory cannot be opened.
abbrev opens_local : Text → Bool
opens_local q = text_eq q (codes "log.txt")

replay_lem_example :
    ((replay disk
        (codes "/var/log")
        (λ n. leap_morning)
        opens_local
        (λ q. false)
        two_calls
        silent).console
      ≡ console_lines (λ n. leap_morning) 0 two_calls)
    × ((q : Text)
        → (replay disk
              (codes "/var/log")
              (λ n. leap_morning)
              opens_local
              (λ q. false)
              two_calls
              silent).files
            q
          ≡ (if is_file
                (log_file disk (codes "/var/log") (λ n. leap_morning) opens_local (λ q. false))
                q
              then file_lines (λ n. leap_morning) 0 two_calls
              else []))
replay_lem_example =
    replay_lem disk (codes "/var/log") (λ n. leap_morning) opens_local (λ q. false) two_calls silent

amount_or_zero-print_int_example : amount_or_zero (print_int (negsuc 12_499)) ≡ done (negsuc 12_499)
amount_or_zero-print_int_example =
    amount_or_zero-print_int (negsuc 12_499) (omega arith, omega arith)
