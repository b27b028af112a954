-- ===== src/Config/StateDir.antt =====
-- internal/config/config.go: `pathWithin`, `resolvePathWithoutSymlinkEscape` and
-- `resolveAndValidateStateDir`. What the file system holds is an argument.
pub mod Within
pub mod Ends
use dnsvard.Base.{
  ℕ, zero, suc, Bool, true, false, Option, none, some, List, [], ◌∷◌, ◌++◌, if◌then◌else◌, Bytes,
  codes, text_eq, length, has_prefix, trim_space, is_abs, components, clean, path_base, path_dir,
  path_join, path_rel,
}
use dnsvard.Config.{
  Stat, not_exist, stat_error, entry, ConfigError, home_unknown, state_dir_required,
  state_dir_not_absolute, state_dir_outside_home, state_dir_resolves_outside, state_dir_too_broad,
  state_dir_is_home, state_dir_is_file, path_empty, path_not_absolute, path_is_symlink,
  path_not_directory, path_unknown, path_without_parent, out_of_fuel, Checked, passed, refused,
}

unfoldable pub is_inside : Option Bytes → Bool
unfolding text_eq has_prefix
is_inside none = false
is_inside (some rel) =
    if text_eq rel (codes ".")
    then true
    else if text_eq rel (codes "..")
    then false
    else if has_prefix rel (codes "../")
    then false
    else true

-- `pathWithin`
unfoldable pub path_within : Bytes → Bytes → Bool
unfolding is_inside path_rel
path_within base target = is_inside (path_rel base target)

-- The loop over `missing`, from its end.
unfoldable pub join_missing : Bytes → List Bytes → Bytes
unfolding path_join
join_missing resolved [] = resolved
join_missing resolved (m ∷ ms) = path_join (join_missing resolved ms) m

-- `filepath.EvalSymlinks` of what exists, and the missing components behind it.
unfoldable pub resolved_with : List Bytes → Option Bytes → Checked Bytes
unfolding clean join_missing
resolved_with missing none = refused path_unknown
resolved_with missing (some r) = passed (clean (join_missing (clean r) missing))

unfoldable pub is_none_of : List Bytes → Bool
is_none_of [] = true
is_none_of (m ∷ ms) = false

module _ (lstat : Bytes → Stat) (eval_symlinks : Bytes → Option Bytes) where
  -- Where `os.Lstat` finds an entry.
  unfoldable pub resolve_entry : Bytes → List Bytes → Bool → Bool → Checked Bytes
  unfolding resolved_with is_none_of
  resolve_entry current missing is_link is_dir =
      if is_link
      then refused path_is_symlink
      else if is_none_of missing
      then if is_dir
        then resolved_with missing (eval_symlinks current)
        else refused path_not_directory
      else resolved_with missing (eval_symlinks current)

  -- The loop, with so many rounds left.
  unfoldable pub resolve_loop : ℕ → Bytes → List Bytes → Checked Bytes
  unfolding resolve_entry path_dir path_base text_eq
  resolve_loop zero current missing = refused out_of_fuel
  resolve_loop (suc left) current missing =
      let parent = path_dir current in
      let rest = resolve_loop left parent (missing ++ path_base current ∷ []) in
      elim (lstat current) [
        | entry is_link is_dir ↦ resolve_entry current missing is_link is_dir
        | stat_error ↦ refused path_unknown
        | not_exist ↦ if text_eq parent current then refused path_without_parent else rest
      ]

  -- A round for each component and one for the root.
  unfoldable pub rounds : Bytes → ℕ
  unfolding components
  rounds path = suc (length (components path))

  unfoldable pub resolve_clean : Bytes → Checked Bytes
  unfolding resolve_loop rounds is_abs text_eq
  resolve_clean path =
      if text_eq path []
      then refused path_empty
      else if is_abs path
      then resolve_loop (rounds path) path []
      else refused path_not_absolute

  -- `resolvePathWithoutSymlinkEscape`
  unfoldable pub resolve_path : Bytes → Checked Bytes
  unfolding resolve_clean clean trim_space
  resolve_path path = resolve_clean (clean (trim_space path))

  unfoldable pub is_file : Stat → Bool
  is_file not_exist = false
  is_file stat_error = false
  is_file (entry is_link is_dir) = if is_dir then false else true

  -- The tests of the two resolved paths.
  unfoldable pub check_resolved : Checked Bytes → Checked Bytes → Checked Bytes
  unfolding path_within path_base is_file text_eq
  check_resolved (refused e) home = refused e
  check_resolved (passed dir) (refused e) = refused e
  check_resolved (passed dir) (passed home) =
      if path_within home dir
      then (if text_eq (path_base dir) (codes "dnsvard")
          then (if text_eq dir home
              then refused state_dir_is_home
              else if is_file (lstat dir)
              then refused state_dir_is_file
              else passed dir)
          else refused state_dir_too_broad)
      else refused state_dir_resolves_outside

  -- `resolveAndValidateStateDir`. The absolute path of a rooted path is the path itself.
  unfoldable pub resolve_state_dir :
      (abs : Bytes → Option Bytes) (state_dir home : Bytes) → Checked Bytes
  unfolding check_resolved resolve_path path_within is_abs clean trim_space text_eq
  resolve_state_dir abs state_dir home =
      if text_eq (trim_space state_dir) []
      then refused state_dir_required
      else if is_abs (clean (trim_space state_dir))
      then elim (abs (clean (trim_space home))) [
        | none ↦ refused home_unknown
        | some abs_home ↦
            if path_within abs_home (clean (trim_space state_dir))
            then check_resolved (resolve_path (clean (trim_space state_dir)))
                (resolve_path abs_home)
            else refused state_dir_outside_home
      ]
      else refused state_dir_not_absolute

  -- `SafeStateDirPath`, with `filepath.Abs` and the home directory.
  unfoldable pub safe_state_dir_path :
      (abs : Bytes → Option Bytes) (state_dir home : Bytes) → Checked Bytes
  unfolding resolve_state_dir trim_space text_eq
  safe_state_dir_path abs state_dir home =
      if text_eq (trim_space home) []
      then refused home_unknown
      else resolve_state_dir abs state_dir home
