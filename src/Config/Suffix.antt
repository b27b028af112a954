-- ===== src/Config/Suffix.antt =====
-- internal/config/config.go: `normalizeSuffix` and `validateSuffixValue`.
pub mod Accepted
use dnsvard.Base.{
  ℕ, Bool, true, false, ◌&&◌, ◌||◌, Option, none, some, List, [], ◌∷◌, if◌then◌else◌, ltb, leb,
  ◌==◌, Bytes, codes, text_eq, length, has_suffix, to_lower, trim, is_dot, trim_space, split,
}
use dnsvard.Config.{ConfigError, suffix_empty, suffix_reserved, suffix_too_long, suffix_bad_label}

-- `normalizeSuffix`
unfoldable pub normalize_suffix : Bytes → Bytes
unfolding to_lower trim is_dot trim_space
normalize_suffix v = to_lower (trim is_dot (trim_space v))

-- `[a-z0-9]`
unfoldable pub is_alnum : ℕ → Bool
is_alnum c = (leb b'a' c && leb c b'z') || (leb b'0' c && leb c b'9')

unfoldable pub head_alnum : Bytes → Bool
unfolding is_alnum
head_alnum [] = false
head_alnum (c ∷ s) = is_alnum c

unfoldable pub last_alnum : Bytes → Bool
unfolding is_alnum
last_alnum [] = false
last_alnum (c ∷ []) = is_alnum c
last_alnum (c ∷ d ∷ s) = last_alnum (d ∷ s)

unfoldable pub all_in_class : Bytes → Bool
unfolding is_alnum
all_in_class [] = true
all_in_class (c ∷ s) = (is_alnum c || c == b'-') && all_in_class s

-- `domainLabelPattern.MatchString(v)`, of `^[a-z0-9]([a-z0-9-]{0,61}[a-z0-9])?$`
unfoldable pub is_domain_label : Bytes → Bool
unfolding head_alnum last_alnum all_in_class
is_domain_label s = head_alnum s && (last_alnum s && (all_in_class s && leb (length s) 63))

-- The loop over the parts.
unfoldable pub check_labels : List Bytes → Option ConfigError
unfolding is_domain_label
check_labels [] = none
check_labels (p ∷ ps) =
    let rest = check_labels ps in if is_domain_label p then rest else some suffix_bad_label

unfoldable pub check_suffix : Bytes → Option ConfigError
unfolding check_labels split has_suffix text_eq
check_suffix v =
    if text_eq v []
    then some suffix_empty
    else if text_eq v (codes "local") || has_suffix v (codes ".local")
    then some suffix_reserved
    else if ltb 253 (length v)
    then some suffix_too_long
    else check_labels (split v b'.')

-- `validateSuffixValue`
unfoldable pub validate_suffix_value : Bytes → Option ConfigError
unfolding check_suffix normalize_suffix
validate_suffix_value v = check_suffix (normalize_suffix v)
