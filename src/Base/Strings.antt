-- ===== src/Base/Strings.antt =====
-- The functions of Go's `strings` that the program calls, on ASCII text.
use Prim.Native.Nat.{ℕ, ◌+◌}
use mathlib.Core.Bool.{Bool, true, false, ◌&&◌, ◌||◌}
use mathlib.Core.List.{List, [], ◌∷◌, ◌++◌}
use dnsvard.Base.Tests.{◌==◌, leb, if◌then◌else◌}
use dnsvard.Base.Text.{Bytes, text_eq}

-- `unicode.ToLower`
unfoldable pub lower : ℕ → ℕ
lower c = if leb b'A' c && leb c b'Z' then c + 32 else c

-- `strings.ToLower`
unfoldable pub to_lower : Bytes → Bytes
unfolding lower
to_lower [] = []
to_lower (c ∷ s) = lower c ∷ to_lower s

-- `unicode.IsSpace`: tab, line feed, vertical tab, form feed, carriage return, space.
unfoldable pub is_space : ℕ → Bool
is_space c = (leb 9 c && leb c 13) || c == 32

module _ (p : ℕ → Bool) where
  unfoldable pub trim_left : Bytes → Bytes
  trim_left [] = []
  trim_left (c ∷ s) = let rest = trim_left s in if p c then rest else c ∷ s

  -- `c` in front of a text that is trimmed on the right.
  abbrev pub push_right : ℕ → Bytes → Bytes
  push_right c [] = if p c then [] else c ∷ []
  push_right c (d ∷ s) = c ∷ d ∷ s

  unfoldable pub trim_right : Bytes → Bytes
  trim_right [] = []
  trim_right (c ∷ s) = push_right c (trim_right s)

-- `strings.Trim` and `strings.TrimFunc`: the bytes that pass the test go at both ends.
unfoldable pub trim : (ℕ → Bool) → Bytes → Bytes
unfolding trim_left trim_right
trim p s = trim_right p (trim_left p s)

-- `strings.TrimSpace`
unfoldable pub trim_space : Bytes → Bytes
unfolding is_space trim
trim_space = trim is_space

unfoldable pub is_dot : ℕ → Bool
is_dot c = c == b'.'

unfoldable pub is_dash : ℕ → Bool
is_dash c = c == b'-'

-- `strings.HasPrefix(s, t)`
unfoldable pub has_prefix : Bytes → Bytes → Bool
has_prefix s [] = true
has_prefix [] (d ∷ t) = false
has_prefix (c ∷ s) (d ∷ t) = c == d && has_prefix s t

-- `strings.HasSuffix(s, t)`
unfoldable pub has_suffix : Bytes → Bytes → Bool
unfolding text_eq
has_suffix [] t = text_eq [] t
has_suffix (c ∷ s) t = text_eq (c ∷ s) t || has_suffix s t

-- `strings.TrimSuffix(s, t)`
unfoldable pub trim_suffix : Bytes → Bytes → Bytes
unfolding text_eq
trim_suffix [] t = []
trim_suffix (c ∷ s) t = let rest = trim_suffix s t in if text_eq (c ∷ s) t then [] else c ∷ rest

-- What stands before the first `c`: `s[:strings.Index(s, c)]` where `c` occurs, `s` elsewhere.
unfoldable pub before : ℕ → Bytes → Bytes
before c [] = []
before c (d ∷ s) = let rest = before c s in if d == c then [] else d ∷ rest

-- `strings.Contains(s, string(c))`
unfoldable pub has_byte : ℕ → Bytes → Bool
has_byte c [] = false
has_byte c (d ∷ s) = d == c || has_byte c s

-- What stands behind the last `c`: `s[strings.LastIndex(s, c)+1:]`, and `s` if `c` is missing.
unfoldable pub after_last : ℕ → Bytes → Bytes
unfolding has_byte
after_last c [] = []
after_last c (d ∷ s) =
    let rest = after_last c s in if has_byte c s then rest else if d == c then s else d ∷ s

unfoldable pub split_from : ℕ → Bytes → Bytes → List Bytes
split_from c cur [] = cur ∷ []
split_from c cur (d ∷ s) =
    let next = split_from c [] s in
    let more = split_from c (cur ++ d ∷ []) s in if d == c then cur ∷ next else more

-- `strings.Split(s, string(c))`
unfoldable pub split : Bytes → ℕ → List Bytes
unfolding split_from
split s c = split_from c [] s

-- `strings.Join(parts, sep)`
unfoldable pub join : List Bytes → Bytes → Bytes
join [] sep = []
join (p ∷ []) sep = p
join (p ∷ q ∷ ps) sep = p ++ (sep ++ join (q ∷ ps) sep)

-- The text behind as many bytes as another has.
unfoldable pub behind : Bytes → Bytes → Bytes
behind s [] = s
behind [] (d ∷ t) = []
behind (c ∷ s) (d ∷ t) = behind s t

-- `strings.TrimPrefix(s, t)`
unfoldable pub trim_prefix : Bytes → Bytes → Bytes
unfolding has_prefix behind
trim_prefix s t = if has_prefix s t then behind s t else s

-- `strings.EqualFold(s, t)`
unfoldable pub equal_fold : Bytes → Bytes → Bool
unfolding to_lower text_eq
equal_fold s t = text_eq (to_lower s) (to_lower t)
