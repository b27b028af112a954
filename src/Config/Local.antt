-- ===== src/Config/Local.antt =====
-- internal/config/config.go: `SetLocalSuffix` and `SetLocalHostPattern`. The YAML codec of the
-- file's map and the success of the calls that write are arguments; `left` is what the file holds
-- where `os.WriteFile` fails.
pub mod Written
use dnsvard.Base.{
  Bool, true, false, Option, none, some, List, [], ◌∷◌, if◌then◌else◌, Bytes, codes, text_eq,
  to_lower, trim_space, Dict, lookup, insert,
}
use dnsvard.Config.{
  FileRead, missing, read_error, content, ConfigError, suffix_required, host_pattern_required,
  unreadable, unparsable, create_dir_failed, write_failed, encode_failed,
}
use dnsvard.Config.Suffix.{normalize_suffix, validate_suffix_value}

-- A value of `map[string]any`.
pub data Value : Type 0 where
  text : Bytes → Value
  other : Bytes → Value

-- The codec, whether the directory could be made, and what a failed write leaves, if it fails.
pub record Disk : Type 0 where
  pub decode : Bytes → Option (Dict Value)
  pub encode : Dict Value → Option Bytes
  pub made_dir : Bool
  pub write_fails : Option FileRead

-- Whether the file was changed, or the error.
pub data Changed : Type 0 where
  unchanged changed : Changed
  not_set : ConfigError → Changed

-- `local["suffix"].(string)`, in the form in which it is compared.
unfoldable pub is_current : (Bytes → Bytes) → Bytes → Option Value → Bool
unfolding text_eq
is_current form v none = false
is_current form v (some (other b)) = false
is_current form v (some (text b)) = text_eq (form b) v

-- The map that the file holds, if it can be read.
unfoldable pub read_map : Disk → Bytes → FileRead → Option (Dict Value)
read_map disk path missing = some []
read_map disk path read_error = none
read_map disk path (content []) = some []
read_map disk path (content (c ∷ b)) = disk.decode (c ∷ b)

unfoldable pub read_failure : Bytes → FileRead → ConfigError
read_failure path missing = unreadable path
read_failure path read_error = unreadable path
read_failure path (content b) = unparsable path

unfoldable pub write_map : Disk → FileRead → Option Bytes → FileRead × Changed
write_map disk file none = (file, not_set encode_failed)
write_map disk file (some out) =
    if disk.made_dir
    then elim disk.write_fails [
      | none ↦ (content out, changed)
      | some left ↦ (left, not_set write_failed)
    ]
    else (file, not_set create_dir_failed)

-- What both functions do with a value in normal form.
unfoldable pub set_value :
    Disk → Bytes → (Bytes → Bytes) → Bytes → Bytes → FileRead → FileRead × Changed
unfolding read_map read_failure is_current write_map lookup insert
set_value disk key form v path file = elim (read_map disk path file) [
  | none ↦ (file, not_set (read_failure path file))
  | some local ↦
      if is_current form v (lookup key local)
      then (file, unchanged)
      else write_map disk file (disk.encode (insert key (text v) local))
]

-- `SetLocalSuffix`
unfoldable pub set_local_suffix : Disk → Bytes → Bytes → FileRead → FileRead × Changed
unfolding set_value normalize_suffix validate_suffix_value text_eq
set_local_suffix disk path suffix file =
    if text_eq (normalize_suffix suffix) []
    then (file, not_set suffix_required)
    else elim (validate_suffix_value (normalize_suffix suffix)) [
      | some e ↦ (file, not_set e)
      | none ↦ set_value disk (codes "suffix") normalize_suffix (normalize_suffix suffix) path file
    ]

-- `strings.ToLower(strings.TrimSpace(v))`
unfoldable pub plain_pattern : Bytes → Bytes
unfolding to_lower trim_space
plain_pattern v = to_lower (trim_space v)

-- `SetLocalHostPattern`
unfoldable pub set_local_host_pattern : Disk → Bytes → Bytes → FileRead → FileRead × Changed
unfolding set_value plain_pattern text_eq
set_local_host_pattern disk path pattern file =
    if text_eq (plain_pattern pattern) []
    then (file, not_set host_pattern_required)
    else set_value disk (codes "host_pattern") plain_pattern (plain_pattern pattern) path file
