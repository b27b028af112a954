-- ===== src/Identity/Label.antt =====
-- internal/identity/identity.go: `NormalizeLabel`, and the labels derived with it.
pub mod Shape
use dnsvard.Base.{
  ℕ, Bool, true, false, Option, none, some, List, [], ◌∷◌, ◌||◌, ◌&&◌, leb, ltb, ◌==◌,
  if◌then◌else◌, Bytes, codes, to_lower, trim_space, trim, trim_right, trim_suffix, is_dash, take,
  length, after_last, path_base, has_byte, has_prefix, text_eq,
}

-- The bytes that `[^a-z0-9-]` lets stand.
unfoldable pub is_label_char : ℕ → Bool
is_label_char c = (leb b'a' c && leb c b'z') || ((leb b'0' c && leb c b'9') || c == b'-')

-- `invalidLabelChars.ReplaceAllString(v, "-")`: a run of other bytes becomes one dash. The flag
-- is set inside such a run.
unfoldable pub replace_invalid : Bool → Bytes → Bytes
unfolding is_label_char
replace_invalid run [] = []
replace_invalid run (c ∷ s) =
    let rest = replace_invalid (if is_label_char c then false else true) s in
    if is_label_char c then c ∷ rest else if run then rest else b'-' ∷ rest

-- `if len(v) > 63 { v = strings.Trim(v[:63], "-") }`
unfoldable pub shorten : Bytes → Bytes
unfolding trim is_dash
shorten v = if ltb 63 (length v) then trim is_dash (take 63 v) else v

unfoldable pub normalize_label : Bytes → Bytes
unfolding shorten trim is_dash replace_invalid trim_suffix to_lower trim_space
normalize_label value =
    let v = to_lower (trim_space value) in
    let v = trim_suffix v (codes ".git") in
    let v = replace_invalid false v in shorten (trim is_dash v)

-- `strings.Contains(s, t)`
unfoldable pub contains : Bytes → Bytes → Bool
unfolding has_prefix
contains [] t = has_prefix [] t
contains (c ∷ s) t = has_prefix (c ∷ s) t || contains s t

pub record ProjectInput : Type 0 where
  pub remote_url : Bytes
  pub repo_base : Bytes

pub record WorkspaceInput : Type 0 where
  pub worktree_base : Bytes
  pub branch : Bytes
  pub cwd_base : Bytes

-- The tail of `projectRawName`, for a remote that is no URL.
unfoldable pub scp_name : Bytes → Bytes
unfolding path_base after_last
scp_name remote = path_base (after_last b':' remote)

-- `url_path` is the path that `url.Parse` finds, or nothing where it fails.
unfoldable pub project_raw_name : (Bytes → Option Bytes) → Bytes → Bytes
unfolding scp_name contains trim_space text_eq
project_raw_name url_path raw =
    let remote = trim_space raw in
    if text_eq remote []
    then []
    else if contains remote (codes "://")
    then elim (url_path remote) [ some p ↦ path_base p | none ↦ scp_name remote ]
    else scp_name remote

-- `label`, or another name where it is empty.
unfoldable pub or_name : Bytes → Bytes → Bytes
or_name [] name = name
or_name (c ∷ s) name = c ∷ s

unfoldable pub derive_project_label : (Bytes → Option Bytes) → ProjectInput → Bytes
unfolding project_raw_name normalize_label or_name
derive_project_label url_path input =
    or_name (normalize_label (or_name (project_raw_name url_path input.remote_url) input.repo_base))
      (codes "project")

-- The loop over the candidates.
unfoldable pub first_label : List Bytes → Bytes
unfolding normalize_label or_name
first_label [] = codes "default"
first_label (c ∷ cs) = or_name (normalize_label c) (first_label cs)

unfoldable pub derive_workspace_label : WorkspaceInput → Bytes
unfolding first_label
derive_workspace_label input =
    first_label (input.worktree_base ∷ input.branch ∷ input.cwd_base ∷ [])
