-- ===== src/Utility/Directory/Ensure.antt =====
-- What `EnsureDirectoryExists` ensures.
use stock_trading_bot_server.Prelude.{
  ℕ, ◌≡◌, refl, ◌≢◌, ◌⊎◌, Bool, true, false, inl, inr, List, [], ◌∷◌, ◌++◌, arith, if◌then◌else◌,
  All,
}
use stock_trading_bot_server.Text.{Text}
use stock_trading_bot_server.Utility.Directory.{
  made, already, Disk, is_separator, has_dir_exists, make_dir, make_missing, make_along, make_all,
  get_absolute_path, ensure_directory_exists,
}

-- The directories of a path: what stands before each separator but the first character, and the
-- whole path.
abbrev pub sub_paths_from : Text → Text → List Text
sub_paths_from front [] = front ∷ []
sub_paths_from front (c ∷ rest) =
    let more = sub_paths_from (front ++ (c ∷ [])) rest in
    if is_separator c then front ∷ more else more

abbrev pub sub_paths : Text → List Text
sub_paths [] = [] ∷ []
sub_paths (c ∷ rest) = sub_paths_from (c ∷ []) rest

-- A directory that `mkdir` made is one, and `mkdir` removes none.
pub record IsSound (d : Disk) : Type 0 where
  pub makes :
      (fs : d.Fs) (path : Text)
      → (d.mkdir fs path).0 ≡ made
      → d.is_dir (d.mkdir fs path).1 path ≡ true
  pub keeps :
      (fs : d.Fs) (path other : Text)
      → d.is_dir fs other ≡ true
      → d.is_dir (d.mkdir fs path).1 other ≡ true

-- No path that is asked for belongs to anything but a directory.
abbrev pub HasNoFiles : Disk → Type 0
HasNoFiles d = (fs : d.Fs) (path : Text) → d.is_dir fs path ≡ false → (d.mkdir fs path).0 ≢ already

module _ (d : Disk) where
  open d use {Fs, is_dir, mkdir}

  make_missing-keeps :
      IsSound d
      → (path other : Text) (fs : Fs) → is_dir fs other ≡ true
      → is_dir (make_missing d path fs).1 other ≡ true
  unfolding make_missing make_dir has_dir_exists
  make_missing-keeps sound path other fs h = ground (arith, sound.keeps fs path other)

  make_missing-makes :
      IsSound d
      → HasNoFiles d
      → (path : Text) (fs : Fs) → (make_missing d path fs).0 ≡ true
      → is_dir (make_missing d path fs).1 path ≡ true
  unfolding make_missing make_dir has_dir_exists
  make_missing-makes sound plain path fs h = ground (arith, sound.makes fs path, plain fs path)

  make_along-keeps :
      IsSound d
      → (front rest other : Text) (fs : Fs) → is_dir fs other ≡ true
      → is_dir (make_along d front rest fs).1 other ≡ true
  unfolding make_along
  make_along-keeps sound front [] other fs h = make_missing-keeps sound front other fs h
  make_along-keeps sound front (c ∷ rest) other fs h = ground (
    arith,
    make_missing-keeps sound front other fs h,
    make_along-keeps sound (front ++ (c ∷ [])) rest other fs h,
    make_along-keeps sound (front ++ (c ∷ [])) rest other (make_missing d front fs).1,
  )

  -- A round of the loop, from what its tests say.
  round-makes :
      (separates ok : Bool) (here past : Bool × Fs) (stop : Fs) (front : Text) (more : List Text)
      → (if separates then (if ok then here else (false, stop)) else past).0 ≡ true
      → (ok ≡ true → is_dir here.1 front ≡ true)
      → (here.0 ≡ true → All (λ q. is_dir here.1 q ≡ true) more)
      → (past.0 ≡ true → All (λ q. is_dir past.1 q ≡ true) more)
      → All
          (λ q.
            is_dir (if separates then (if ok then here else (false, stop)) else past).1 q ≡ true)
          (if separates then front ∷ more else more)
  round-makes true true here past stop front more h a b c = (a refl, b h)
  round-makes true false here past stop front more h a b c = cc
  round-makes false ok here past stop front more h a b c = c h

  make_along-makes :
      IsSound d
      → HasNoFiles d
      → (front rest : Text) (fs : Fs) → (make_along d front rest fs).0 ≡ true
      → All (λ q. is_dir (make_along d front rest fs).1 q ≡ true) (sub_paths_from front rest)
  unfolding make_along
  make_along-makes sound plain front [] fs h = (make_missing-makes sound plain front fs h, tt)
  make_along-makes sound plain front (c ∷ rest) fs h =
      let step = make_missing d front fs in
      let further = front ++ (c ∷ []) in
      round-makes (is_separator c) step.0 (make_along d further rest step.1)
        (make_along d further rest fs) step.1 front (sub_paths_from further rest) h
        (λ k.
          make_along-keeps sound further rest front step.1
            (make_missing-makes sound plain front fs k))
        (make_along-makes sound plain further rest step.1)
        (make_along-makes sound plain further rest fs)

  make_all-makes :
      IsSound d
      → HasNoFiles d
      → (full : Text) (fs : Fs) → (make_all d full fs).0 ≡ true
      → All (λ q. is_dir (make_all d full fs).1 q ≡ true) (sub_paths full)
  unfolding make_all
  make_all-makes sound plain [] fs h = (make_missing-makes sound plain [] fs h, tt)
  make_all-makes sound plain (c ∷ rest) fs h = make_along-makes sound plain (c ∷ []) rest fs h

  -- On a file system where `mkdir` makes what it says it made and removes no directory, and where no
  -- path belongs to anything but a directory: when `EnsureDirectoryExists` answers true, the path made
  -- absolute and every directory on the way to it exist.
  pub ensure_directory_exists_lem :
      (path : Text) (fs : Fs)
      → IsSound d
      → HasNoFiles d
      → (ensure_directory_exists d path fs).0 ≡ true
      → All
          (λ q. is_dir (ensure_directory_exists d path fs).1 q ≡ true)
          (sub_paths (get_absolute_path d path))
  unfolding ensure_directory_exists
  ensure_directory_exists_lem [] fs sound plain h = cc
  ensure_directory_exists_lem (c ∷ t) fs sound plain h =
      make_all-makes sound plain (get_absolute_path d (c ∷ t)) fs h

  -- A path that is a directory already, or where `mkdir` reports EEXIST for something else.
  abbrev pub IsTaken : Fs → Text → Type 0
  IsTaken fs q = (is_dir fs q ≡ true) ⊎ ((is_dir fs q ≡ false) × (mkdir fs q ≡ (already, fs)))

  make_missing-taken : (q : Text) (fs : Fs) → IsTaken fs q → make_missing d q fs ≡ (true, fs)
  unfolding make_missing make_dir has_dir_exists
  make_missing-taken q fs (inl h) = rw h refl
  make_missing-taken q fs (inr (n, m)) = rw (n, m) refl

  round-taken :
      (separates : Bool) (step here past : Bool × Fs) (fs : Fs) (front : Text) (more : List Text)
      → All (IsTaken fs) (if separates then front ∷ more else more)
      → (IsTaken fs front → step ≡ (true, fs))
      → (IsTaken fs front → All (IsTaken fs) more → here ≡ (true, fs))
      → (All (IsTaken fs) more → past ≡ (true, fs))
      → (if separates then (if step.0 then here else (false, step.1)) else past) ≡ (true, fs)
  round-taken true step here past fs front more (t, a) e h p = rw (e t) (h t a)
  round-taken false step here past fs front more a e h p = p a

  make_along-taken :
      (front rest : Text) (fs : Fs)
      → All (IsTaken fs) (sub_paths_from front rest)
      → make_along d front rest fs ≡ (true, fs)
  unfolding make_along
  make_along-taken front [] fs (t, a) = make_missing-taken front fs t
  make_along-taken front (c ∷ rest) fs a =
      let step = make_missing d front fs in
      let further = front ++ (c ∷ []) in
      let past = make_along-taken further rest fs in
      round-taken (is_separator c) step (make_along d further rest step.1)
        (make_along d further rest fs) fs front (sub_paths_from further rest) a
        (make_missing-taken front fs) (λ t b. rw (make_missing-taken front fs t) (past b)) past

  -- Where each directory of the path exists, or something else has its name so that `mkdir` reports
  -- EEXIST and changes nothing, `EnsureDirectoryExists` answers true and changes nothing: also where
  -- the path itself is a regular file.
  pub ensure_directory_exists-taken :
      (c : ℕ) (t : Text) (fs : Fs)
      → All (IsTaken fs) (sub_paths (get_absolute_path d (c ∷ t)))
      → ensure_directory_exists d (c ∷ t) fs ≡ (true, fs)
  unfolding ensure_directory_exists make_all
  ensure_directory_exists-taken c t fs a = go (get_absolute_path d (c ∷ t)) a
    where
      go : (full : Text) → All (IsTaken fs) (sub_paths full) → make_all d full fs ≡ (true, fs)
      go [] (t, a) = make_missing-taken [] fs t
      go (c ∷ rest) a = make_along-taken (c ∷ []) rest fs a
