-- ===== src/Base/Cleaned.antt =====
-- Rooted paths that are clean: their components, their directory, and how far up it leads.
use Prim.Native.Nat.{ℕ}
use mathlib.Core.Path.{◌≡◌, refl, sym, ap, ◌∙◌}
use mathlib.Core.Logic.{◌≢◌, inl, inr}
use mathlib.Core.Bool.{Bool, true, false}
use mathlib.Core.List.{
  List, [], ◌∷◌, ◌++◌, reverse, reverse_aux, reverse-reverse, append_assoc, append-nil,
}
use native.Mathlib.Omega.{arith}
use dnsvard.Base.Tests.{◌==◌, ==_iff, if◌then◌else◌, Bool-cases}
use dnsvard.Base.Lists.{All, All-append}
use dnsvard.Base.Text.{Bytes, codes, text_eq, text_eq_iff}
use dnsvard.Base.Strings.{split, split_from, join, has_byte}
use dnsvard.Base.Split.{Lacks, split-join, split_from-append, split_from-sep}
use dnsvard.Base.Paths.{
  add_component, components_from, components, is_abs, render_path, clean, upto_last, path_dir,
}

-- A component of a clean rooted path.
pub record IsComponent (c : Bytes) : Type 0 where
  pub filled : c ≢ []
  pub here : c ≢ codes "."
  pub up : c ≢ codes ".."
  pub whole : Lacks b'/' c

add_component-cons :
    (c : Bytes) (acc : List Bytes) → IsComponent c → add_component true c acc ≡ c ∷ acc
unfolding add_component
add_component-cons c [] k =
    let a = k.filled in
    let b = k.here in
    let d = k.up in
    ground (arith, text_eq_iff c [], text_eq_iff c (codes "."), text_eq_iff c (codes ".."), a, b, d)
add_component-cons c (t ∷ ts) k =
    let a = k.filled in
    let b = k.here in
    let d = k.up in
    ground (arith, text_eq_iff c [], text_eq_iff c (codes "."), text_eq_iff c (codes ".."), a, b, d)

add_component-nil : (acc : List Bytes) → add_component true [] acc ≡ acc
unfolding add_component text_eq
add_component-nil [] = refl
add_component-nil (t ∷ ts) = refl

-- Components are read as they stand.
components_from-append :
    (cs rest acc : List Bytes)
    → All IsComponent cs
    → components_from true (cs ++ rest) acc ≡ components_from true rest (reverse_aux cs acc)
unfolding components_from
components_from-append [] rest acc h = refl
components_from-append (c ∷ cs) rest acc (k, h) =
    ap (components_from true (cs ++ rest)) (add_component-cons c acc k)
    ∙ components_from-append cs rest (c ∷ acc) h

-- Each component with the slash behind it.
lead : List Bytes → Bytes
lead [] = []
lead (c ∷ cs) = c ++ b'/' ∷ lead cs

whole_of : (cs : List Bytes) → All IsComponent cs → All (Lacks b'/') cs
whole_of [] h = tt
whole_of (c ∷ cs) (k, h) = (k.whole, whole_of cs h)

split-rooted : (s : Bytes) → split (b'/' ∷ s) b'/' ≡ [] ∷ split s b'/'
unfolding split
split-rooted s = split_from-sep b'/' s []

split-lead : (cs : List Bytes) → All (Lacks b'/') cs → split (lead cs) b'/' ≡ cs ++ [] ∷ []
unfolding lead split split_from
split-lead [] h = refl
split-lead (c ∷ cs) (k, h) =
    split_from-append b'/' c (b'/' ∷ lead cs) [] k
    ∙ split_from-sep b'/' (lead cs) c
    ∙ ap (λ l. c ∷ l) (split-lead cs h)

components-rooted : (s : Bytes) → components (b'/' ∷ s) ≡ components_from true (split s b'/') []
unfolding components components_from is_abs
components-rooted s =
    ap (λ l. components_from true l []) (split-rooted s)
    ∙ ap (λ acc. components_from true (split s b'/') acc) (add_component-nil [])

back_and_forth : (cs : List Bytes) → reverse (reverse_aux cs []) ≡ cs
back_and_forth cs = reverse-reverse cs

components-lead : (cs : List Bytes) → All IsComponent cs → components (b'/' ∷ lead cs) ≡ cs
unfolding components_from
components-lead cs h =
    components-rooted (lead cs)
    ∙ ap (λ l. components_from true l []) (split-lead cs (whole_of cs h))
    ∙ components_from-append cs ([] ∷ []) [] h
    ∙ ap reverse (add_component-nil (reverse_aux cs []))
    ∙ back_and_forth cs

-- A clean rooted path has the components that it is made of.
pub components-render_path :
    (cs : List Bytes) → All IsComponent cs → components (render_path true cs) ≡ cs
unfolding render_path components_from lead
components-render_path [] h = components-lead [] tt
components-render_path (c ∷ cs) h =
    components-rooted (join (c ∷ cs) (codes "/"))
    ∙ ap (λ l. components_from true l [])
        (split-join b'/' (c ∷ cs) (λ e. cc) (whole_of (c ∷ cs) h) ∙ sym (append-nil (c ∷ cs)))
    ∙ components_from-append (c ∷ cs) [] [] h
    ∙ back_and_forth (c ∷ cs)

has_byte-append : (b : ℕ) (p rest : Bytes) → has_byte b (p ++ b ∷ rest) ≡ true
unfolding has_byte
has_byte-append b [] rest = ground arith
has_byte-append b (c ∷ p) rest = ground (arith, has_byte-append b p rest)

upto_last-append :
    (b : ℕ) (p rest : Bytes) → upto_last b (p ++ b ∷ rest) ≡ p ++ upto_last b (b ∷ rest)
unfolding upto_last
upto_last-append b [] rest = refl
upto_last-append b (c ∷ p) rest =
    rw (has_byte-append b p rest) (ap (λ t. c ∷ t) (upto_last-append b p rest))

has_byte-Lacks : (b : ℕ) (l : Bytes) → Lacks b l → has_byte b l ≡ false
unfolding has_byte
has_byte-Lacks b [] h = refl
has_byte-Lacks b (c ∷ l) (ne, h) = ground (arith, has_byte-Lacks b l h)

upto_last-here : (b : ℕ) (l : Bytes) → Lacks b l → upto_last b (b ∷ l) ≡ b ∷ []
unfolding upto_last
upto_last-here b l h = rw (has_byte-Lacks b l h, (==_iff b b).1 refl)

upto_last-lead :
    (cs : List Bytes) (l : Bytes)
    → Lacks b'/' l
    → upto_last b'/' (b'/' ∷ (lead cs ++ l)) ≡ b'/' ∷ lead cs
unfolding lead
upto_last-lead [] l h = upto_last-here b'/' l h
upto_last-lead (c ∷ cs) l h =
    ap (λ t. upto_last b'/' (b'/' ∷ t)) (append_assoc c (b'/' ∷ lead cs) l)
    ∙ upto_last-append b'/' (b'/' ∷ c) (lead cs ++ l)
    ∙ ap (λ t. b'/' ∷ (c ++ t)) (upto_last-lead cs l h)

join-snoc : (cs : List Bytes) (l : Bytes) → join (cs ++ l ∷ []) (codes "/") ≡ lead cs ++ l
unfolding join lead
join-snoc [] l = refl
join-snoc (c ∷ []) l = sym (append_assoc c (codes "/") l)
join-snoc (c ∷ d ∷ cs) l =
    ap (λ t. c ++ b'/' ∷ t) (join-snoc (d ∷ cs) l) ∙ sym (append_assoc c (b'/' ∷ lead (d ∷ cs)) l)

-- The directory of a clean rooted path: the last component goes.
pub path_dir-render_path :
    (cs : List Bytes) (l : Bytes)
    → All IsComponent cs
    → IsComponent l
    → path_dir (render_path true (cs ++ l ∷ [])) ≡ render_path true cs
unfolding path_dir render_path clean is_abs
path_dir-render_path cs l h k =
    ap (λ t. clean (upto_last b'/' (b'/' ∷ t))) (join-snoc cs l)
    ∙ ap clean (upto_last-lead cs l k.whole)
    ∙ ap (render_path true) (components-lead cs h)

text_eq-IsComponent :
    (c : Bytes)
    → Lacks b'/' c
    → text_eq c [] ≡ false
    → text_eq c (codes ".") ≡ false
    → text_eq c (codes "..") ≡ false
    → IsComponent c
text_eq-IsComponent c w e f g = record {
  filled = λ z. absurd (cc (e, (text_eq_iff c []).1 z));
  here = λ z. absurd (cc (f, (text_eq_iff c (codes ".")).1 z));
  up = λ z. absurd (cc (g, (text_eq_iff c (codes "..")).1 z));
  whole = w;
}

add_component-All :
    (c : Bytes) (acc : List Bytes)
    → Lacks b'/' c
    → All IsComponent acc
    → All IsComponent (add_component true c acc)
unfolding add_component
add_component-All c [] w h = elim (Bool-cases (text_eq c [])) [
  | inl e ↦ rw (e, add_component) tt
  | inr e ↦ elim (Bool-cases (text_eq c (codes "."))) [
    | inl f ↦ rw (e, f, add_component) tt
    | inr f ↦ elim (Bool-cases (text_eq c (codes ".."))) [
      | inl g ↦ rw (e, f, g, add_component) tt
      | inr g ↦ rw (e, f, g, add_component) (text_eq-IsComponent c w e f g, tt)
    ]
  ]
]
add_component-All c (t ∷ ts) w (k, h) = elim (Bool-cases (text_eq c [])) [
  | inl e ↦ rw (e, add_component) (k, h)
  | inr e ↦ elim (Bool-cases (text_eq c (codes "."))) [
    | inl f ↦ rw (e, f, add_component) (k, h)
    | inr f ↦ elim (Bool-cases (text_eq c (codes ".."))) [
      | inl g ↦ elim (Bool-cases (text_eq t (codes ".."))) [
        | inl u ↦ absurd (k.up ((text_eq_iff t (codes "..")).0 u))
        | inr u ↦ rw (e, f, g, u, add_component) h
      ]
      | inr g ↦ rw (e, f, g, add_component) (text_eq-IsComponent c w e f g, (k, h))
    ]
  ]
]

reverse_aux-All :
    (cs acc : List Bytes)
    → All IsComponent cs
    → All IsComponent acc
    → All IsComponent (reverse_aux cs acc)
reverse_aux-All [] acc h k = k
reverse_aux-All (c ∷ cs) acc (p, h) k = reverse_aux-All cs (c ∷ acc) h (p, k)

components_from-All :
    (cs acc : List Bytes)
    → All (Lacks b'/') cs
    → All IsComponent acc
    → All IsComponent (components_from true cs acc)
unfolding components_from
components_from-All [] acc w h = reverse_aux-All acc [] h tt
components_from-All (c ∷ cs) acc (k, w) h =
    components_from-All cs (add_component true c acc) w (add_component-All c acc k h)

split_from-Lacks : (b : ℕ) (s cur : Bytes) → Lacks b cur → All (Lacks b) (split_from b cur s)
unfolding split_from
split_from-Lacks b [] cur h = (h, tt)
split_from-Lacks b (c ∷ s) cur h = elim (Bool-cases (c == b)) [
  | inl e ↦ rw (e, split_from) (h, split_from-Lacks b s [] tt)
  | inr e ↦
      rw (e, split_from)
        (split_from-Lacks b s (cur ++ c ∷ [])
          (All-append (λ d. d ≢ b) cur (c ∷ []) h ((λ z. cc (e, (==_iff c b).1 z)), tt)))
]

-- A rooted path is cleaned to components.
pub components-All : (s : Bytes) → is_abs s ≡ true → All IsComponent (components s)
unfolding components split
components-All s h =
    rw h (components_from-All (split_from b'/' [] s) [] (split_from-Lacks b'/' s [] tt) tt)

pub path_dir_root : path_dir (render_path true []) ≡ render_path true []
unfolding path_dir clean upto_last components components_from split add_component render_path is_abs
    text_eq
path_dir_root = refl

-- A component of a path that need not be rooted.
abbrev IsWhole : Bytes → Type 0
IsWhole c = (c ≢ []) × Lacks b'/' c

if_All :
    (b : Bool) (xs ys : List Bytes)
    → (b ≡ true → All IsWhole xs)
    → (b ≡ false → All IsWhole ys)
    → All IsWhole (if b then xs else ys)
if_All true xs ys h k = h refl
if_All false xs ys h k = k refl

add_component-IsWhole :
    (rooted : Bool) (c : Bytes) (acc : List Bytes)
    → Lacks b'/' c
    → All IsWhole acc
    → All IsWhole (add_component rooted c acc)
unfolding add_component
add_component-IsWhole rooted c [] w h =
    if_All (text_eq c []) _ _ (λ _. tt)
      (λ e.
        let k : IsWhole c = ((λ z. cc (e, (text_eq_iff c []).1 z)), w) in
        if_All (text_eq c (codes ".")) _ _ (λ _. tt)
          (λ _.
            if_All (text_eq c (codes "..")) _ _ (λ _. if_All rooted _ _ (λ _. tt) (λ _. (k, tt)))
              (λ _. (k, tt))))
add_component-IsWhole rooted c (t ∷ ts) w h =
    if_All (text_eq c []) _ _ (λ _. h)
      (λ e.
        let k : IsWhole c = ((λ z. cc (e, (text_eq_iff c []).1 z)), w) in
        if_All (text_eq c (codes ".")) _ _ (λ _. h)
          (λ _.
            if_All (text_eq c (codes "..")) _ _
              (λ _. if_All (text_eq t (codes "..")) _ _ (λ _. (k, h)) (λ _. h.1)) (λ _. (k, h))))

reverse_aux-IsWhole :
    (cs acc : List Bytes) → All IsWhole cs → All IsWhole acc → All IsWhole (reverse_aux cs acc)
reverse_aux-IsWhole [] acc h k = k
reverse_aux-IsWhole (c ∷ cs) acc (p, h) k = reverse_aux-IsWhole cs (c ∷ acc) h (p, k)

components_from-IsWhole :
    (rooted : Bool) (cs acc : List Bytes)
    → All (Lacks b'/') cs
    → All IsWhole acc
    → All IsWhole (components_from rooted cs acc)
unfolding components_from
components_from-IsWhole rooted [] acc w h = reverse_aux-IsWhole acc [] h tt
components_from-IsWhole rooted (c ∷ cs) acc (k, w) h =
    components_from-IsWhole rooted cs (add_component rooted c acc) w
      (add_component-IsWhole rooted c acc k h)

relative_path : (cs : List Bytes) → All IsWhole cs → is_abs (render_path false cs) ≡ false
unfolding render_path is_abs join
relative_path [] h = refl
relative_path ([] ∷ cs) ((ne, w), h) = absurd (ne refl)
relative_path ((d ∷ c) ∷ []) ((ne, w), h) = let k = w.0 in ground (arith, k)
relative_path ((d ∷ c) ∷ b ∷ cs) ((ne, w), h) = let k = w.0 in ground (arith, k)

-- Only a rooted path is rooted when it is clean.
pub clean-rooted : (p : Bytes) → is_abs (clean p) ≡ true → is_abs p ≡ true
unfolding clean components split
clean-rooted p h = elim (Bool-cases (is_abs p)) [
  | inl e ↦ e
  | inr e ↦
      let k = relative_path (components_from false (split_from b'/' [] p) []) (
        components_from-IsWhole false (split_from b'/' [] p) [] (split_from-Lacks b'/' p [] tt)
          tt) in
      absurd (cc (k, rw (e, clean) at h))
]

pub clean-render_path :
    (p : Bytes) → is_abs (clean p) ≡ true → clean p ≡ render_path true (components p)
unfolding clean
clean-render_path p h = ap (λ r. render_path r (components p)) (clean-rooted p h)
