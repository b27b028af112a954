-- ===== src/Config/StateDir/Within.antt =====
-- Which paths are inside a directory.
use dnsvard.Base.{
  ℕ, zero, suc, length, true, false, some, List, [], ◌∷◌, ◌++◌, ◌≡◌, ◌≢◌, ◌⊎◌, ◌↔◌, inl, inr, refl,
  ap, ◌∙◌, subst, arith, Bool-cases, Bytes, codes, text_eq, text_eq_iff, All, has_prefix, join,
  is_abs, components, render_path, ups, rel_parts, path_rel, IsComponent, components-All, Lacks,
}
use dnsvard.Config.StateDir.{is_inside, path_within}

-- The relative path leads down, or one up first.
rel_parts-cases :
    (bs ts : List Bytes)
    → ((rest : List Bytes) × (ts ≡ bs ++ rest) × (rel_parts bs ts ≡ rest))
      ⊎ ((more : List Bytes) × (rel_parts bs ts ≡ codes ".." ∷ more)
          × ((rest : List Bytes) → ts ≢ bs ++ rest))
unfolding rel_parts ups
rel_parts-cases [] ts = inl (ts, refl, refl)
rel_parts-cases (b ∷ bs) [] = inr (ups bs, refl, λ rest e. cc)
rel_parts-cases (b ∷ bs) (t ∷ ts) = elim (Bool-cases (text_eq b t)) [
  | inl e ↦
      let same = (text_eq_iff b t).0 e in
      elim (rel_parts-cases bs ts) [
        | inl (rest, p, q) ↦ inl (rest, cc (same, p), rw (e, rel_parts) q)
        | inr (more, q, n) ↦ inr (more, rw (e, rel_parts) q, λ rest z. n rest (cc z))
      ]
  | inr e ↦
      inr (ups bs ++ (t ∷ ts), rw (e, rel_parts) refl, λ rest z. cc (e, (text_eq_iff b t).1 (cc z)))
]

up_inside : (more : List Bytes) → is_inside (some (render_path false (codes ".." ∷ more))) ≡ false
unfolding is_inside render_path join has_prefix text_eq
up_inside [] = refl
up_inside (m ∷ more) = refl

first_up :
    (c s : Bytes) → Lacks b'/' c → has_prefix (c ++ b'/' ∷ s) (codes "../") ≡ true → c ≡ codes ".."
unfolding has_prefix
first_up [] s w h = ground arith
first_up (x ∷ []) s w h = ground arith
first_up (x ∷ y ∷ []) s w h = ground arith
first_up (x ∷ y ∷ z ∷ c) s (_, (_, (n, _))) h = ground arith

inside_of :
    (t : Bytes) → t ≢ codes ".." → has_prefix t (codes "../") ≡ false → is_inside (some t) ≡ true
unfolding is_inside
inside_of t ne h = elim (Bool-cases (text_eq t (codes "."))) [
  | inl e ↦ rw (e, is_inside) refl
  | inr e ↦ elim (Bool-cases (text_eq t (codes ".."))) [
    | inl f ↦ absurd (ne ((text_eq_iff t (codes "..")).0 f))
    | inr f ↦ rw (e, f, h, is_inside) refl
  ]
]

alone : (c : Bytes) → Lacks b'/' c → has_prefix c (codes "../") ≡ false
unfolding has_prefix
alone [] w = refl
alone (x ∷ []) w = ground arith
alone (x ∷ y ∷ []) w = ground arith
alone (x ∷ y ∷ z ∷ c) (_, (_, (n, _))) = ground (arith, n)

abbrev byte_at : ℕ → Bytes → ℕ
byte_at n [] = 0
byte_at zero (c ∷ s) = c
byte_at (suc n) (c ∷ s) = byte_at n s

not_up : (c s : Bytes) → (c ++ b'/' ∷ s) ≢ codes ".."
not_up [] s e = absurd (omega (arith, ap (byte_at 0) e))
not_up (x ∷ []) s e = absurd (omega (arith, ap (byte_at 1) e))
not_up (x ∷ y ∷ []) s e = absurd (omega (arith, ap (byte_at 2) e))
not_up (x ∷ y ∷ z ∷ c) s e = absurd (omega (arith, ap length e))

down_inside :
    (cs : List Bytes) → All IsComponent cs → is_inside (some (render_path false cs)) ≡ true
unfolding is_inside render_path join text_eq
down_inside [] h = refl
down_inside (c ∷ []) (k, h) = inside_of c k.up (alone c k.whole)
down_inside (c ∷ d ∷ cs) (k, h) =
    let s = join (d ∷ cs) (codes "/") in
    inside_of (c ++ b'/' ∷ s) (not_up c s)
      (elim (Bool-cases (has_prefix (c ++ b'/' ∷ s) (codes "../"))) [
        | inl e ↦ absurd (k.up (first_up c s k.whole e))
        | inr e ↦ e
      ])

rest_All : (bs rest : List Bytes) → All IsComponent (bs ++ rest) → All IsComponent rest
rest_All [] rest h = h
rest_All (b ∷ bs) rest (k, h) = rest_All bs rest h

-- A rooted path is within another exactly when its components, with `.` and `..` taken away, start
-- with those of the other.
pub path_within_iff :
    (base target : Bytes)
    → is_abs base ≡ true
    → is_abs target ≡ true
    → (path_within base target ≡ true)
      ↔ ((rest : List Bytes) × (components target ≡ components base ++ rest))
unfolding path_within path_rel
path_within_iff base target b t =
    let shape : path_within base target
        ≡ is_inside (some (render_path false (rel_parts (components base) (components target)))) =
      rw (b, t, path_rel) refl in
    elim (rel_parts-cases (components base) (components target)) [
      | inl (rest, p, q) ↦ (
        (λ _. (rest, p)),
        (λ _.
            shape
            ∙ ap (λ r. is_inside (some (render_path false r))) q
            ∙ down_inside rest (
                rest_All (components base) rest
                  (subst (All IsComponent) p (components-All target t)))),
      )
      | inr (more, q, n) ↦ (
        (λ e.
            absurd (
              cc (e, shape ∙ ap (λ r. is_inside (some (render_path false r))) q ∙ up_inside more))),
        (λ (rest, p). absurd (n rest p)),
      )
    ]
