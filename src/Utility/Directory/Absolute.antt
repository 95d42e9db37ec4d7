-- ===== src/Utility/Directory/Absolute.antt =====
-- What `GetAbsolutePath` gives.
use stock_trading_bot_server.Prelude.{
  ◌≡◌, refl, true, inl, inr, Bool-cases, [], ◌∷◌, ◌++◌, Option, some, arith,
}
use stock_trading_bot_server.Text.{Text}
use stock_trading_bot_server.Utility.Directory.{
  Disk, is_absolute, with_slash, convert_home_to_full, below_cwd, get_absolute_path,
}

absolute-append : (t u : Text) → is_absolute t ≡ true → is_absolute (t ++ u) ≡ true
absolute-append [] u h = cc
absolute-append (c ∷ t) u h = h

absolute-with_slash : (t : Text) → is_absolute t ≡ true → is_absolute (with_slash t) ≡ true
unfolding with_slash
absolute-with_slash [] h = refl
absolute-with_slash (c ∷ []) h = ground arith
absolute-with_slash (c ∷ d ∷ t) h = h

convert-absolute :
    (home : Option Text) (t : Text) → is_absolute t ≡ true → convert_home_to_full home t ≡ t
unfolding convert_home_to_full
convert-absolute home [] h = refl
convert-absolute home (c ∷ t) h = ground arith

module _ (d : Disk) where
  get-absolute :
      (path dir : Text)
      → d.cwd ≡ some dir
      → is_absolute dir ≡ true
      → is_absolute (get_absolute_path d path) ≡ true
  unfolding get_absolute_path below_cwd
  get-absolute path dir e h =
      let full = convert_home_to_full d.home path in
      elim (Bool-cases (is_absolute full)) [
        | inl a ↦ rw a a
        | inr a ↦ rw (a, e) (absolute-append (with_slash dir) full (absolute-with_slash dir h))
      ]

  get-fixed : (t : Text) → is_absolute t ≡ true → get_absolute_path d t ≡ t
  unfolding get_absolute_path
  get-fixed t a = rw (convert-absolute d.home t a, a) refl

  -- Where the working directory is known and absolute, `GetAbsolutePath` gives an absolute path, and
  -- gives back every path that it gave: `EnsureDirectoryExists` and the log agree on the directory.
  pub get_absolute_path_lem :
      (path dir : Text)
      → d.cwd ≡ some dir
      → is_absolute dir ≡ true
      → (is_absolute (get_absolute_path d path) ≡ true)
        × (get_absolute_path d (get_absolute_path d path) ≡ get_absolute_path d path)
  get_absolute_path_lem path dir e h =
      (get-absolute path dir e h, get-fixed (get_absolute_path d path) (get-absolute path dir e h))
