-- ===== src/Utility/Directory.antt =====
-- TradingCore/Utility/Directory.cpp, on a file system that answers `stat`, `mkdir`, `getcwd` and
-- `getenv("HOME")`.
pub mod Absolute
pub mod Ensure
use stock_trading_bot_server.Prelude.{
  ℕ, Bool, true, false, List, [], ◌∷◌, ◌++◌, Option, none, some, ◌==◌, ◌||◌, if◌then◌else◌,
}
use stock_trading_bot_server.Text.{Text}

-- What `mkdir` does: a new directory, EEXIST, or another error.
pub data MkdirAnswer : Type 0 where
  made already refused : MkdirAnswer

-- `is_dir` is `stat` with `S_ISDIR`: false also where `stat` fails.
pub record Disk : Type 1 where
  pub Fs : Type 0
  pub is_dir : Fs → Text → Bool
  pub mkdir : Fs → Text → MkdirAnswer × Fs
  pub home : Option Text
  pub cwd : Option Text

abbrev pub is_separator : ℕ → Bool
is_separator c = c == b'/' || c == b'\\'

-- `fullPath.size() > 0 && (fullPath[0] == '/' || fullPath[0] == '\\')`
abbrev pub is_absolute : Text → Bool
is_absolute [] = false
is_absolute (c ∷ t) = is_separator c

-- `if (t.back() != '/') t += '/';`
unfoldable pub with_slash : Text → Text
with_slash [] = b'/' ∷ []
with_slash (c ∷ []) = if c == b'/' then c ∷ [] else c ∷ b'/' ∷ []
with_slash (c ∷ d ∷ t) = c ∷ with_slash (d ∷ t)

-- The path behind its `~`, below the home directory.
unfoldable pub below_home : Text → Text → Text
below_home home [] = home
below_home home (c ∷ t) = if c == b'/' then home ++ (c ∷ t) else home ++ (b'/' ∷ c ∷ t)

unfoldable pub expand_home : Option Text → Text → Text → Text
expand_home none path rest = path
expand_home (some home) path rest = below_home home rest

-- `Directory::ConvertHomeToFull`
unfoldable pub convert_home_to_full : Option Text → Text → Text
convert_home_to_full home [] = []
convert_home_to_full home (c ∷ t) = if c == b'~' then expand_home home (c ∷ t) t else c ∷ t

unfoldable pub below_cwd : Option Text → Text → Text
below_cwd none path = path
below_cwd (some cwd) path = with_slash cwd ++ path

module _ (d : Disk) where
  open d use {Fs, is_dir, mkdir, home, cwd}

  -- `Directory::GetAbsolutePath`
  unfoldable pub get_absolute_path : Text → Text
  get_absolute_path path =
      let full = convert_home_to_full home path in
      if is_absolute full then full else below_cwd cwd full

  -- `Directory::HasDirExists`
  unfoldable pub has_dir_exists : Fs → Text → Bool
  has_dir_exists = is_dir

  abbrev pub accepted : MkdirAnswer → Bool
  accepted made = true
  accepted already = true
  accepted refused = false

  -- `Directory::MakeDir`
  unfoldable pub make_dir : Text → Fs → Bool × Fs
  make_dir path fs = let (answer, fs') = mkdir fs path in (accepted answer, fs')

  -- `if (!HasDirExists(path)) { if (!MakeDir(path)) return false; }`
  unfoldable pub make_missing : Text → Fs → Bool × Fs
  make_missing path fs = if has_dir_exists fs path then (true, fs) else make_dir path fs

  -- The loop, and the directory at the end, from the characters before position i and those from i
  -- on. The former are never empty, so the test `sub.empty()` never holds.
  unfoldable pub make_along : Text → Text → Fs → Bool × Fs
  make_along front [] fs = make_missing front fs
  make_along front (c ∷ rest) fs =
      let (ok, fs') = make_missing front fs in
      let here = make_along (front ++ (c ∷ [])) rest fs' in
      let past = make_along (front ++ (c ∷ [])) rest fs in
      if is_separator c then (if ok then here else (false, fs')) else past

  -- The path made absolute is empty only where `getcwd` fails, which the path given rules out.
  unfoldable pub make_all : Text → Fs → Bool × Fs
  make_all [] fs = make_missing [] fs
  make_all (c ∷ rest) fs = make_along (c ∷ []) rest fs

  -- `Directory::EnsureDirectoryExists`
  unfoldable pub ensure_directory_exists : Text → Fs → Bool × Fs
  ensure_directory_exists [] fs = (false, fs)
  ensure_directory_exists (c ∷ t) fs = make_all (get_absolute_path (c ∷ t)) fs
