-- ===== src/Docker/Labels.antt =====
-- internal/docker/provider.go: what the labels of a container say.
pub mod Unique
use dnsvard.Base.{
  ℕ, Bool, true, false, Option, none, some, List, [], ◌∷◌, ◌++◌, if◌then◌else◌, Bytes, codes,
  text_eq, to_lower, trim_space, split, Dict, lookup, path_base, path_dir,
}

-- `labels[key]`, which is empty for a missing key.
unfoldable pub label : Dict Bytes → Bytes → Bytes
unfolding lookup
label labels key = elim (lookup key labels) [ none ↦ [] | some v ↦ v ]

abbrev pub compose_service : Bytes
compose_service = codes "com.docker.compose.service"

abbrev pub compose_project : Bytes
compose_project = codes "com.docker.compose.project"

abbrev pub working_dir : Bytes
working_dir = codes "com.docker.compose.project.working_dir"

-- A directory's name that is neither the current directory nor the root.
unfoldable pub is_name : Bytes → Bool
unfolding text_eq
is_name s = if text_eq s (codes ".") then false else if text_eq s (codes "/") then false else true

-- The same, and not blank.
unfoldable pub is_filled_name : Bytes → Bool
unfolding is_name text_eq trim_space
is_filled_name s = if is_name s then if text_eq (trim_space s) [] then false else true else false

-- The project by its working directory: the parent's name, or its own.
unfoldable pub project_by_dir : Bytes → Option Bytes
unfolding is_filled_name path_base path_dir text_eq
project_by_dir wd =
    if text_eq wd []
    then none
    else if is_filled_name (path_base (path_dir wd))
    then some (path_base (path_dir wd))
    else if is_filled_name (path_base wd)
    then some (path_base wd)
    else none

unfoldable pub workspace_by_dir : Bytes → Option Bytes
unfolding is_name path_base text_eq
workspace_by_dir wd =
    if text_eq wd [] then none else if is_name (path_base wd) then some (path_base wd) else none

-- A label that is set, else what the directory says, else the compose project.
unfoldable pub first_name : Bytes → Option Bytes → Bytes → Bytes
first_name [] none project = project
first_name [] (some name) project = name
first_name (c ∷ s) by_dir project = c ∷ s

-- `projectLabel`
unfoldable pub project_label : Dict Bytes → Bytes
unfolding first_name label trim_space project_by_dir
project_label labels =
    first_name (trim_space (label labels (codes "dnsvard.project")))
      (project_by_dir (trim_space (label labels working_dir)))
      (trim_space (label labels compose_project))

-- `workspaceLabel`
unfoldable pub workspace_label : Dict Bytes → Bytes
unfolding first_name label trim_space workspace_by_dir
workspace_label labels =
    first_name (trim_space (label labels (codes "dnsvard.workspace")))
      (workspace_by_dir (trim_space (label labels working_dir)))
      (trim_space (label labels compose_project))

unfoldable pub trimmed_parts : List Bytes → List Bytes
unfolding trim_space text_eq
trimmed_parts [] = []
trimmed_parts (p ∷ ps) =
    let rest = trimmed_parts ps in if text_eq (trim_space p) [] then rest else trim_space p ∷ rest

-- `parseCSV`
unfoldable pub parse_csv : Bytes → List Bytes
unfolding trimmed_parts split
parse_csv v = trimmed_parts (split v b',')

-- `seen[k]`; the keys are those of the list `out`.
unfoldable pub has_label : List Bytes → Bytes → Bool
unfolding to_lower text_eq
has_label [] k = false
has_label (v ∷ vs) k = if text_eq (to_lower v) k then true else has_label vs k

unfoldable pub unique_from : List Bytes → List Bytes → List Bytes
unfolding has_label trim_space to_lower text_eq
unique_from [] out = out
unique_from (v ∷ vs) out =
    let n = trim_space v in
    unique_from vs
      (if text_eq n [] then out else if has_label out (to_lower n) then out else out ++ n ∷ [])

-- `uniqueHostLabels`
unfoldable pub unique_host_labels : List Bytes → List Bytes
unfolding unique_from
unique_host_labels values = unique_from values []
