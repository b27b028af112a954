-- ===== src/Identity/Label/Shape.antt =====
-- The shape of a label, and the inputs that `NormalizeLabel` leaves alone.
use dnsvard.Base.{
  ℕ, ◌≤◌, Bool, true, false, Option, List, [], ◌∷◌, ◌≡◌, ◌≢◌, ◌↔◌, refl, arith, ltb, inl, inr,
  Bool-cases, Bytes, codes, lower, to_lower, trim_space, is_space, is_dash, trim, trim_suffix, take,
  length, length-take-le, All, All-take, All-imp, All-trim, NoHead, NoLast, trim-NoHead,
  trim-NoLast, trim_id, trim_none, length-trim-le, to_lower_idem, trim-to_lower, is_space-lower,
  subst,
}
use dnsvard.Identity.Label.{
  is_label_char, replace_invalid, shorten, normalize_label, or_name, first_label,
  derive_project_label, derive_workspace_label, project_raw_name, ProjectInput, WorkspaceInput,
}

abbrev pub LabelChar : ℕ → Type 0
LabelChar c = is_label_char c ≡ true

-- A DNS label of lower-case letters, digits and inner dashes, of at most 63 bytes.
pub record IsLabel (s : Bytes) : Type 0 where
  pub chars : All LabelChar s
  pub fits : length s ≤ 63
  pub head : NoHead is_dash s
  pub last : NoLast is_dash s

replace_invalid-LabelChar : (run : Bool) (s : Bytes) → All LabelChar (replace_invalid run s)
unfolding replace_invalid
replace_invalid-LabelChar run [] = tt
replace_invalid-LabelChar run (c ∷ s) =
    ground (arith, replace_invalid-LabelChar true s, replace_invalid-LabelChar false s)

shorten-IsLabel :
    (v : Bytes) → All LabelChar v → NoHead is_dash v → NoLast is_dash v → IsLabel (shorten v)
unfolding shorten
shorten-IsLabel v chars head last = elim (Bool-cases (ltb 63 (length v))) [
  | inl long ↦ rw long (record {
    chars = All-trim is_dash LabelChar (take 63 v) (All-take LabelChar 63 v chars);
    fits = omega (arith, length-trim-le is_dash (take 63 v), length-take-le 63 v);
    head = trim-NoHead is_dash (take 63 v);
    last = trim-NoLast is_dash (take 63 v);
  })
  | inr short ↦ rw short (record { chars = chars; fits = ground arith; head = head; last = last })
]

-- The result is a label, or empty.
pub normalize_label-IsLabel : (value : Bytes) → IsLabel (normalize_label value)
unfolding normalize_label
normalize_label-IsLabel value =
    let v = replace_invalid false (trim_suffix (to_lower (trim_space value)) (codes ".git")) in
    shorten-IsLabel (trim is_dash v)
      (All-trim is_dash LabelChar v (
        replace_invalid-LabelChar false (trim_suffix (to_lower (trim_space value)) (codes ".git"))))
      (trim-NoHead is_dash v) (trim-NoLast is_dash v)

replace_invalid_id : (run : Bool) (s : Bytes) → All LabelChar s → replace_invalid run s ≡ s
unfolding replace_invalid
replace_invalid_id run [] h = refl
replace_invalid_id run (c ∷ s) (p, h) = ground (arith, replace_invalid_id false s h)

lower_label : (c : ℕ) → LabelChar c → lower c ≡ c
unfolding lower is_label_char
lower_label c h = ground arith

pub to_lower_label : (s : Bytes) → All LabelChar s → to_lower s ≡ s
unfolding to_lower
to_lower_label [] h = refl
to_lower_label (c ∷ s) (p, h) = cc (lower_label c p, to_lower_label s h)

pub not_space : (c : ℕ) → LabelChar c → is_space c ≡ false
unfolding is_space is_label_char
not_space c h = ground arith

trim_suffix_label : (s : Bytes) → All LabelChar s → trim_suffix s (codes ".git") ≡ s
unfolding trim_suffix is_label_char
trim_suffix_label [] h = refl
trim_suffix_label (c ∷ s) (p, h) = ground (arith, trim_suffix_label s h)

not_long : (n : ℕ) → n ≤ 63 → ltb 63 n ≡ false
not_long n h = ground arith

shorten_id : (s : Bytes) → length s ≤ 63 → shorten s ≡ s
unfolding shorten
shorten_id s h = rw (not_long (length s) h)

normalize_label_id : (s : Bytes) → IsLabel s → normalize_label s ≡ s
unfolding normalize_label
normalize_label_id s ok =
    rw
      (
        trim_none is_space s (All-imp not_space s ok.chars),
        to_lower_label s ok.chars,
        trim_suffix_label s ok.chars,
        replace_invalid_id false s ok.chars,
        trim_id is_dash s ok.head ok.last,
      )
      (shorten_id s ok.fits)

-- A text is left as it is exactly when it is a label or empty.
pub normalize_label_iff : (s : Bytes) → (normalize_label s ≡ s) ↔ IsLabel s
normalize_label_iff s = ((λ e. subst IsLabel e (normalize_label-IsLabel s)), normalize_label_id s)

-- Letter case makes no difference.
pub normalize_label-to_lower : (s : Bytes) → normalize_label (to_lower s) ≡ normalize_label s
unfolding normalize_label
normalize_label-to_lower s = rw (trim-to_lower is_space is_space-lower s, to_lower_idem)

or_name-IsLabel :
    (s name : Bytes)
    → IsLabel s
    → IsLabel name
    → name ≢ []
    → IsLabel (or_name s name) × (or_name s name ≢ [])
unfolding or_name
or_name-IsLabel [] name h k ne = (k, ne)
or_name-IsLabel (c ∷ s) name h k ne = (h, λ e. cc)

project-IsLabel : IsLabel (codes "project")
unfolding is_label_char is_dash
project-IsLabel = record { chars = ground arith; fits = omega arith; head = refl; last = refl }

default-IsLabel : IsLabel (codes "default")
unfolding is_label_char is_dash
default-IsLabel = record { chars = ground arith; fits = omega arith; head = refl; last = refl }

abbrev pub IsName : Bytes → Type 0
IsName s = IsLabel s × (s ≢ [])

first_label-IsName : (cs : List Bytes) → IsName (first_label cs)
unfolding first_label
first_label-IsName [] = (default-IsLabel, λ e. cc)
first_label-IsName (c ∷ cs) =
    let rest = first_label-IsName cs in
    or_name-IsLabel (normalize_label c) (first_label cs) (normalize_label-IsLabel c) rest.0 rest.1

-- Whatever the remote, the directories and the branch are called, the project's and the
-- workspace's labels are labels and not empty.
pub derived-IsName :
    (url_path : Bytes → Option Bytes) (project : ProjectInput) (workspace : WorkspaceInput)
    → IsName (derive_project_label url_path project) × IsName (derive_workspace_label workspace)
unfolding derive_project_label derive_workspace_label
derived-IsName url_path project workspace =
    let raw = or_name (project_raw_name url_path project.remote_url) project.repo_base in
    (
      or_name-IsLabel (normalize_label raw) (codes "project") (normalize_label-IsLabel raw)
          project-IsLabel (λ e. cc),
      first_label-IsName (workspace.worktree_base ∷ workspace.branch ∷ workspace.cwd_base ∷ []),
    )
