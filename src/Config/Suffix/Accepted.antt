-- ===== src/Config/Suffix/Accepted.antt =====
-- Which suffixes are accepted.
use dnsvard.Base.{
  ℕ, ◌≤◌, Bool, true, false, ◌&&◌, ◌||◌, none, List, [], ◌∷◌, ◌≡◌, ◌≢◌, ◌↔◌, inl, inr, refl, arith,
  ltb, Bool-cases, Bytes, codes, text_eq, text_eq_iff, length, has_suffix, split, All, leb→le,
  is_dash, NoHead, NoLast,
}
use dnsvard.Identity.Label.{is_label_char}
use dnsvard.Identity.Label.Shape.{LabelChar, IsName}
use dnsvard.Config.Suffix.{
  normalize_suffix, is_alnum, head_alnum, last_alnum, all_in_class, is_domain_label, check_labels,
  check_suffix, validate_suffix_value,
}

-- Not reserved for multicast DNS, not longer than a DNS name can be, and of labels.
pub record IsSuffix (v : Bytes) : Type 0 where
  pub filled : v ≢ []
  pub unicast : (v ≢ codes "local") × (has_suffix v (codes ".local") ≡ false)
  pub short : length v ≤ 253
  pub labels : All IsName (split v b'.')

alnum_iff : (c : ℕ) → (is_alnum c ≡ true) ↔ ((is_label_char c ≡ true) × (is_dash c ≡ false))
unfolding is_alnum is_label_char is_dash
alnum_iff c = ground arith

class_iff : (s : Bytes) → (all_in_class s ≡ true) ↔ All LabelChar s
unfolding all_in_class is_alnum is_label_char
class_iff [] = ((λ _. tt), (λ _. refl))
class_iff (c ∷ s) = ground (arith, class_iff s)

ends_iff : (s : Bytes) → All LabelChar s → ((last_alnum s ≡ true) ↔ ((s ≢ []) × NoLast is_dash s))
unfolding last_alnum
ends_iff [] h = ((λ e. cc), (λ (ne, _). absurd (ne refl)))
ends_iff (c ∷ []) (p, _) =
    let (f, g) = alnum_iff c in ((λ e. ((λ z. cc), (f e).1)), (λ (_, n). g (p, n)))
ends_iff (c ∷ d ∷ s) (p, h) =
    let (f, g) = ends_iff (d ∷ s) h in ((λ e. ((λ z. cc), (f e).1)), (λ (_, n). g ((λ z. cc), n)))

starts_iff : (s : Bytes) → All LabelChar s → ((head_alnum s ≡ true) ↔ ((s ≢ []) × NoHead is_dash s))
unfolding head_alnum
starts_iff [] h = ((λ e. cc), (λ (ne, _). absurd (ne refl)))
starts_iff (c ∷ s) (p, _) =
    let (f, g) = alnum_iff c in ((λ e. ((λ z. cc), (f e).1)), (λ (_, n). g (p, n)))

both : {a b : Bool} → (a && b) ≡ true → (a ≡ true) × (b ≡ true)
both {a} {b} h = ground arith

-- The pattern stands for the names that `NormalizeLabel` leaves alone.
is_domain_label_iff : (s : Bytes) → (is_domain_label s ≡ true) ↔ IsName s
unfolding is_domain_label
is_domain_label_iff s = (
  (λ e.
      let (h, r) = both e in
      let (l, q) = both r in
      let (c, n) = both q in
      let chars = (class_iff s).0 c in
      let (ne, first) = (starts_iff s chars).0 h in
      (
        record {
          chars = chars;
          fits = leb→le (length s) 63 n;
          head = first;
          last = ((ends_iff s chars).0 l).1;
        },
        ne,
      )),
  (λ (k, ne).
      let h = (starts_iff s k.chars).1 (ne, k.head) in
      let l = (ends_iff s k.chars).1 (ne, k.last) in
      let c = (class_iff s).1 k.chars in let fits = k.fits in ground (arith, h, l, c, fits)),
)

check_labels_iff : (ps : List Bytes) → (check_labels ps ≡ none) ↔ All IsName ps
unfolding check_labels
check_labels_iff [] = ((λ _. tt), (λ _. refl))
check_labels_iff (p ∷ ps) =
    let (f, g) = check_labels_iff ps in
    let (u, v) = is_domain_label_iff p in
    elim (Bool-cases (is_domain_label p)) [
      | inl e ↦
          ((λ h. (u e, f (rw (e, check_labels) at h))), (λ (_, h). rw (e, check_labels) (g h)))
      | inr e ↦ ((λ h. absurd (cc (rw (e, check_labels) at h))), (λ (n, _). absurd (cc (e, v n))))
    ]

unicast_of :
    (v : Bytes)
    → (text_eq v (codes "local") || has_suffix v (codes ".local")) ≡ false
    → (v ≢ codes "local") × (has_suffix v (codes ".local") ≡ false)
unicast_of v h =
    let u = text_eq_iff v (codes "local") in
    let t : (text_eq v (codes "local") ≡ false) × (has_suffix v (codes ".local") ≡ false) =
      ground arith in
    ((λ z. cc (t.0, u.1 z)), t.1)

reserved_false :
    (v : Bytes)
    → v ≢ codes "local"
    → has_suffix v (codes ".local") ≡ false
    → (text_eq v (codes "local") || has_suffix v (codes ".local")) ≡ true
    → ⊥
reserved_false v ne n h =
    let t : text_eq v (codes "local") ≡ true = ground arith in
    ne ((text_eq_iff v (codes "local")).0 t)

check_suffix_iff : (v : Bytes) → (check_suffix v ≡ none) ↔ IsSuffix v
unfolding check_suffix
check_suffix_iff v = elim (Bool-cases (text_eq v [])) [
  | inl e ↦ (
    (λ h. absurd (cc (rw (e, check_suffix) at h))),
    (λ k. absurd (k.filled ((text_eq_iff v []).0 e))),
  )
  | inr e ↦ elim (Bool-cases (text_eq v (codes "local") || has_suffix v (codes ".local"))) [
    | inl l ↦ (
      (λ h. absurd (cc (rw (e, l, check_suffix) at h))),
      (λ k. absurd (reserved_false v k.unicast.0 k.unicast.1 l)),
    )
    | inr l ↦ elim (Bool-cases (ltb 253 (length v))) [
      | inl b ↦ (
        (λ h. absurd (cc (rw (e, l, b, check_suffix) at h))),
        (λ k. let s = k.short in absurd (ground (arith, b, s))),
      )
      | inr b ↦
          let (f, g) = check_labels_iff (split v b'.') in
          (
            (λ h. record {
              filled = λ z. absurd (cc (e, (text_eq_iff v []).1 z));
              unicast = unicast_of v l;
              short = ground (arith, b);
              labels = f (rw (e, l, b, check_suffix) at h);
            }),
            (λ k. rw (e, l, b, check_suffix) (g k.labels)),
          )
    ]
  ]
]

-- A suffix is accepted exactly when it is, without white space and dots around it and in lower
-- case, not empty, not `local` and not below it, at most 253 bytes long, and made of labels.
pub validate_suffix_value_iff :
    (v : Bytes) → (validate_suffix_value v ≡ none) ↔ IsSuffix (normalize_suffix v)
unfolding validate_suffix_value
validate_suffix_value_iff v = check_suffix_iff (normalize_suffix v)
