-- ===== src/Identity/Pattern.antt =====
-- internal/identity/identity.go: `ParseHostPattern` and `renderPatternHost`.

pub mod Grammar
pub mod RoundTrip
use dnsvard.Base.{
  ℕ, Bool, true, false, Option, none, some, List, [], ◌∷◌, ◌++◌, ltb, if◌then◌else◌, Bytes, codes,
  to_lower, trim_space, split, join, text_eq, length,
}

abbrev pub default_host_pattern : Bytes
default_host_pattern = codes "service-workspace-project-tld"

abbrev pub service_token : Bytes
service_token = codes "service"

abbrev pub workspace_token : Bytes
workspace_token = codes "workspace"

abbrev pub project_token : Bytes
project_token = codes "project"

abbrev pub tld_token : Bytes
tld_token = codes "tld"

-- `allowedPatternTokens`
unfoldable pub is_allowed : Bytes → Bool
unfolding text_eq
is_allowed t =
    if text_eq t service_token
    then true
    else if text_eq t workspace_token
    then true
    else if text_eq t project_token
    then true
    else text_eq t tld_token

-- One constructor for each error that `ParseHostPattern` returns.
pub data PatternError : Type 0 where
  too_short no_workspace no_tld tld_not_last : PatternError
  unknown_token duplicate_token : Bytes → PatternError

pub record HostPattern : Type 0 where
  pub tokens : List Bytes
  pub has_service : Bool

pub data Parsed : Type 0 where
  ok : HostPattern → Parsed
  err : PatternError → Parsed

-- `seen[part]`
unfoldable pub has_token : List Bytes → Bytes → Bool
unfolding text_eq
has_token [] t = false
has_token (s ∷ ts) t = if text_eq s t then true else has_token ts t

-- The variables of the loop over the parts.
pub record Scan : Type 0 where
  pub seen : List Bytes
  pub has_workspace : Bool
  pub has_tld : Bool
  pub has_service : Bool

-- `seen[part] = struct{}{}` and the switch.
unfoldable pub note_part : Bytes → Scan → Scan
unfolding text_eq
note_part part st =
    let st' : Scan = record st { seen = part ∷ st.seen } in
    if text_eq part workspace_token
    then record st' { has_workspace = true }
    else if text_eq part tld_token
    then record st' { has_tld = true }
    else if text_eq part service_token
    then record st' { has_service = true }
    else st'

pub data Scanned : Type 0 where
  done : Scan → Scanned
  failed : PatternError → Scanned

unfoldable pub scan_parts : List Bytes → Scan → Scanned
unfolding is_allowed has_token note_part
scan_parts [] st = done st
scan_parts (part ∷ parts) st =
    let rest = scan_parts parts (note_part part st) in
    if is_allowed part
    then if has_token st.seen part then failed (duplicate_token part) else rest
    else failed (unknown_token part)

-- `parts[len(parts)-1]`; the list is not empty where it is read.
unfoldable pub last_part : List Bytes → Bytes
last_part [] = []
last_part (p ∷ []) = p
last_part (p ∷ q ∷ ps) = last_part (q ∷ ps)

-- The tests after the loop.
unfoldable pub conclude : List Bytes → Scan → Parsed
unfolding last_part text_eq
conclude parts st =
    if st.has_workspace
    then if st.has_tld
      then if text_eq (last_part parts) tld_token
        then ok (record { tokens = parts; has_service = st.has_service })
        else err tld_not_last
      else err no_tld
    else err no_workspace

unfoldable pub parse_parts : List Bytes → Parsed
unfolding scan_parts conclude
parse_parts parts =
    if ltb (length parts) 2
    then err too_short
    else elim (scan_parts parts
        (record { seen = []; has_workspace = false; has_tld = false; has_service = false })) [
          | done st ↦ conclude parts st
          | failed e ↦ err e
        ]

-- `if v == "" { v = DefaultHostPattern }`
unfoldable pub or_default : Bytes → Bytes
or_default [] = default_host_pattern
or_default (c ∷ s) = c ∷ s

-- `strings.Split(v, "-")`
unfoldable pub raw_parts : Bytes → List Bytes
unfolding or_default to_lower trim_space split
raw_parts raw = split (or_default (to_lower (trim_space raw))) b'-'

unfoldable pub parse_host_pattern : Bytes → Parsed
unfolding parse_parts raw_parts
parse_host_pattern raw = parse_parts (raw_parts raw)

-- `HostPattern.WithoutService`
unfoldable pub without_service : List Bytes → List Bytes
unfolding text_eq
without_service [] = []
without_service (t ∷ ts) =
    let rest = without_service ts in if text_eq t service_token then rest else t ∷ rest

pub record PatternHostInput : Type 0 where
  pub tokens : List Bytes
  pub project : Bytes
  pub workspace : Bytes
  pub service : Bytes
  pub domain : Bytes

-- What one token adds to the labels.
unfoldable pub token_labels : Bytes → PatternHostInput → List Bytes
unfolding text_eq
token_labels token input =
    if text_eq token service_token
    then if text_eq input.service [] then [] else input.service ∷ []
    else if text_eq token workspace_token
    then input.workspace ∷ []
    else if text_eq token project_token
    then input.project ∷ []
    else if text_eq token tld_token
    then input.domain ∷ []
    else []

unfoldable pub pattern_labels : List Bytes → PatternHostInput → List Bytes
unfolding token_labels
pattern_labels [] input = []
pattern_labels (t ∷ ts) input = token_labels t input ++ pattern_labels ts input

unfoldable pub render_pattern_host : PatternHostInput → Bytes
unfolding pattern_labels join
render_pattern_host input = join (pattern_labels input.tokens input) (codes ".")
