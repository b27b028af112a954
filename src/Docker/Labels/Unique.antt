-- ===== src/Docker/Labels/Unique.antt =====
-- The labels of a service.
use dnsvard.Base.{
  true, List, [], ◌∷◌, ◌++◌, ◌≡◌, ◌≢◌, ◌↔◌, inl, inr, refl, sym, ap, ◌∙◌, subst, Bytes, text_eq,
  text_eq_iff, to_lower, trim_space, All, All-append, In, In-append_left, In-append_right, Distinct,
  Bool-cases,
}
use dnsvard.Docker.Labels.{has_label, unique_from, unique_host_labels}

-- The list has a label that is the text up to the case of letters.
abbrev pub Has : List Bytes → Bytes → Type 0
Has out n = (w : Bytes) × In w out × (to_lower w ≡ to_lower n)

has_label_iff : (out : List Bytes) (n : Bytes) → (has_label out (to_lower n) ≡ true) ↔ Has out n
unfolding has_label
has_label_iff [] n = ((λ e. absurd (cc)), (λ (w, i, _). absurd i))
has_label_iff (v ∷ vs) n = elim (Bool-cases (text_eq (to_lower v) (to_lower n))) [
  | inl e ↦ rw e ((λ _. (v, inl refl, (text_eq_iff (to_lower v) (to_lower n)).0 e)), (λ _. refl))
  | inr e ↦ rw e (
    (λ h. let (w, i, s) = (has_label_iff vs n).0 h in (w, inr i, s)),
    (λ (w, i, s). elim i [
      | inl same ↦
          absurd (cc (e, (text_eq_iff (to_lower v) (to_lower n)).1 (sym (ap to_lower same) ∙ s)))
      | inr j ↦ (has_label_iff vs n).1 (w, j, s)
    ]),
  )
]

Distinct-snoc :
    (out : List Bytes) (n : Bytes)
    → Distinct to_lower out
    → ¬ Has out n
    → Distinct to_lower (out ++ n ∷ [])
Distinct-snoc [] n d h = (tt, tt)
Distinct-snoc (v ∷ vs) n (fresh, d) h = (
  All-append (λ y. to_lower y ≢ to_lower v) vs (n ∷ []) fresh ((λ e. h (v, inl refl, sym e)), tt),
  Distinct-snoc vs n d (λ (w, i, s). h (w, inr i, s)),
)

-- What the loop keeps: the labels that it has are different, not empty, and stay.
pub record IsUnique (values out result : List Bytes) : Type 0 where
  pub distinct : Distinct to_lower result
  pub filled : All (λ v. v ≢ []) result
  pub kept : (v : Bytes) → Has out v → Has result v
  pub covers : (v : Bytes) → In v values → trim_space v ≢ [] → Has result (trim_space v)

Has-append : (out : List Bytes) (n v : Bytes) → Has out v → Has (out ++ n ∷ []) v
Has-append out n v (w, i, s) = (w, In-append_left w out (n ∷ []) i, s)

unique_from-IsUnique :
    (values out : List Bytes)
    → Distinct to_lower out
    → All (λ v. v ≢ []) out
    → IsUnique values out (unique_from values out)
unfolding unique_from
unique_from-IsUnique [] out d f = record {
  distinct = d;
  filled = f;
  kept = λ v h. h;
  covers = λ v i. absurd i;
}
unique_from-IsUnique (v ∷ vs) out d f =
    let n = trim_space v in
    elim (Bool-cases (text_eq n [])) [
      | inl e ↦ rw e (
          joined out (λ u h. h) (λ ne. absurd (ne ((text_eq_iff n []).0 e)))
            (unique_from-IsUnique vs out d f))
      | inr e ↦ elim (Bool-cases (has_label out (to_lower n))) [
        | inl h ↦
            rw (e, h)
              (joined out (λ u k. k) (λ ne. (has_label_iff out n).0 h)
                (unique_from-IsUnique vs out d f))
        | inr h ↦
            rw (e, h)
              (joined (out ++ n ∷ []) (Has-append out n)
                (λ ne. (n, In-append_right n out (n ∷ []) (inl refl), refl))
                (unique_from-IsUnique vs (out ++ n ∷ [])
                  (Distinct-snoc out n d (λ k. absurd (cc (h, (has_label_iff out n).1 k))))
                  (All-append (λ w. w ≢ []) out (n ∷ []) f
                    ((λ z. absurd (cc (e, (text_eq_iff n []).1 z))), tt))))
      ]
    ]
  where
    joined :
        (next : List Bytes)
        → ((u : Bytes) → Has out u → Has next u)
        → (trim_space v ≢ [] → Has next (trim_space v))
        → IsUnique vs next (unique_from vs next)
        → IsUnique (v ∷ vs) out (unique_from vs next)
    joined next more here rest = record {
      distinct = rest.distinct;
      filled = rest.filled;
      kept = λ u h. rest.kept u (more u h);
      covers = λ u i ne. elim i [
        | inl same ↦
            subst (λ x. Has (unique_from vs next) (trim_space x)) (sym same)
              (rest.kept (trim_space v) (here (subst (λ x. trim_space x ≢ []) same ne)))
        | inr j ↦ rest.covers u j ne
      ];
    }

-- The host labels of a service are not empty, differ by more than the case of letters, and have
-- each value that is not blank, up to that case.
pub unique_host_labels-IsUnique :
    (values : List Bytes) → IsUnique values [] (unique_host_labels values)
unfolding unique_host_labels
unique_host_labels-IsUnique values = unique_from-IsUnique values [] tt tt
