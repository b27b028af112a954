-- ===== src/Base/Paths.antt =====
-- Go's `path/filepath` on Unix, on clean texts.
use Prim.Native.Nat.{ℕ}
use mathlib.Core.Bool.{Bool, true, false, ◌&&◌}
use mathlib.Core.Option.{Option, none, some}
use mathlib.Core.List.{List, [], ◌∷◌, ◌++◌, reverse}
use dnsvard.Base.Tests.{◌==◌, if◌then◌else◌}
use dnsvard.Base.Text.{Bytes, codes, text_eq}
use dnsvard.Base.Strings.{split, join, trim_right, after_last, has_byte}

-- `filepath.Base`, which is `path.Base` on Unix.
unfoldable pub path_base : Bytes → Bytes
unfolding trim_right after_last text_eq
path_base [] = codes "."
path_base (c ∷ s) =
    let last = after_last b'/' (trim_right (λ d. d == b'/') (c ∷ s)) in
    if text_eq last [] then codes "/" else last

-- A component behind those that were read, the last one first.
unfoldable pub add_component : Bool → Bytes → List Bytes → List Bytes
unfolding text_eq
add_component rooted c [] =
    if text_eq c []
    then []
    else if text_eq c (codes ".")
    then []
    else if text_eq c (codes "..")
    then if rooted then [] else c ∷ []
    else c ∷ []
add_component rooted c (t ∷ ts) =
    if text_eq c []
    then t ∷ ts
    else if text_eq c (codes ".")
    then t ∷ ts
    else if text_eq c (codes "..")
    then if text_eq t (codes "..") then c ∷ t ∷ ts else ts
    else c ∷ t ∷ ts

unfoldable pub components_from : Bool → List Bytes → List Bytes → List Bytes
unfolding add_component
components_from rooted [] acc = reverse acc
components_from rooted (c ∷ cs) acc = components_from rooted cs (add_component rooted c acc)

-- `filepath.IsAbs`
unfoldable pub is_abs : Bytes → Bool
is_abs [] = false
is_abs (c ∷ s) = c == b'/'

-- The components of a path, without empty ones, dots, and what `..` takes back.
unfoldable pub components : Bytes → List Bytes
unfolding components_from is_abs split
components p = components_from (is_abs p) (split p b'/') []

unfoldable pub render_path : Bool → List Bytes → Bytes
unfolding join
render_path true cs = b'/' ∷ join cs (codes "/")
render_path false [] = codes "."
render_path false (c ∷ cs) = join (c ∷ cs) (codes "/")

-- `filepath.Clean`
unfoldable pub clean : Bytes → Bytes
unfolding render_path components is_abs
clean p = render_path (is_abs p) (components p)

-- What stands up to the last `c`, with it, and nothing if `c` is missing.
unfoldable pub upto_last : ℕ → Bytes → Bytes
unfolding has_byte
upto_last c [] = []
upto_last c (d ∷ s) =
    let rest = upto_last c s in if has_byte c s then d ∷ rest else if d == c then d ∷ [] else []

-- `filepath.Dir`
unfoldable pub path_dir : Bytes → Bytes
unfolding clean upto_last
path_dir p = clean (upto_last b'/' p)

-- `filepath.Join(p, q)`: an empty one is left out.
unfoldable pub path_join : Bytes → Bytes → Bytes
unfolding clean
path_join [] [] = []
path_join [] (d ∷ q) = clean (d ∷ q)
path_join (c ∷ p) [] = clean (c ∷ p)
path_join (c ∷ p) (d ∷ q) = clean ((c ∷ p) ++ (b'/' ∷ (d ∷ q)))

-- `filepath.Rel(base, target)` of rooted paths: one `..` for each component of the base that the
-- target does not share, and the rest of the target.
unfoldable pub ups : List Bytes → List Bytes
ups [] = []
ups (c ∷ cs) = codes ".." ∷ ups cs

unfoldable pub rel_parts : List Bytes → List Bytes → List Bytes
unfolding ups text_eq
rel_parts [] ts = ts
rel_parts (b ∷ bs) [] = ups (b ∷ bs)
rel_parts (b ∷ bs) (t ∷ ts) = if text_eq b t then rel_parts bs ts else ups (b ∷ bs) ++ (t ∷ ts)

unfoldable pub path_rel : Bytes → Bytes → Option Bytes
unfolding rel_parts render_path components is_abs
path_rel base target =
    if is_abs base && is_abs target
    then some (render_path false (rel_parts (components base) (components target)))
    else none
