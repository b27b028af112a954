-- ===== src/Leases/Overlap.antt =====
-- Hostnames that two leases share, and the eviction of leases for them.
use dnsvard.Base.{
  true, List, [], ◌∷◌, ◌≡◌, ◌≢◌, ◌↔◌, inl, inr, refl, sym, ap, ◌∙◌, subst, Bytes, text_eq,
  text_eq_iff, Bool-cases, In,
}
use dnsvard.Leases.{canonical_name, canonical_set, is_incoming, has_hostname_overlap}

-- The lease has a hostname with the canonical form `h`.
abbrev pub Claims : List Bytes → Bytes → Type 0
Claims hosts h = (v : Bytes) × In v hosts × (canonical_name v ≡ h)

-- Two leases claim one hostname that is not empty.
abbrev pub Share : List Bytes → List Bytes → Type 0
Share xs ys = (h : Bytes) × (h ≢ []) × Claims xs h × Claims ys h

is_incoming_iff : (hs : List Bytes) (h : Bytes) → (is_incoming hs h ≡ true) ↔ In h hs
unfolding is_incoming
is_incoming_iff [] h = ((λ e. absurd (cc)), (λ i. absurd i))
is_incoming_iff (x ∷ hs) h = elim (Bool-cases (text_eq x h)) [
  | inl e ↦ rw e ((λ _. inl (sym ((text_eq_iff x h).0 e))), (λ _. refl))
  | inr e ↦ rw e (
    (λ z. inr ((is_incoming_iff hs h).0 z)),
    (λ i. elim i [
      | inl same ↦ absurd (cc (e, (text_eq_iff x h).1 (sym same)))
      | inr j ↦ (is_incoming_iff hs h).1 j
    ]),
  )
]

-- The set holds what is claimed, the empty name excepted.
canonical_set_iff :
    (vs : List Bytes) (h : Bytes) → In h (canonical_set vs) ↔ (Claims vs h × (h ≢ []))
unfolding canonical_set
canonical_set_iff [] h = ((λ i. absurd i), (λ ((v, i, p), ne). absurd i))
canonical_set_iff (v ∷ vs) h = elim (Bool-cases (text_eq (canonical_name v) [])) [
  | inl e ↦ rw e (
    (λ i. let ((w, j, p), ne) = (canonical_set_iff vs h).0 i in ((w, inr j, p), ne)),
    (λ ((w, j, p), ne). elim j [
      | inl same ↦
          absurd (ne (sym p ∙ ap canonical_name same ∙ (text_eq_iff (canonical_name v) []).0 e))
      | inr i ↦ (canonical_set_iff vs h).1 ((w, i, p), ne)
    ]),
  )
  | inr e ↦ rw e (
    (λ i. elim i [
      | inl same ↦ (
        (v, inl refl, sym same),
        (λ z. absurd (cc (e, (text_eq_iff (canonical_name v) []).1 (sym same ∙ z)))),
      )
      | inr j ↦ let ((w, k, p), ne) = (canonical_set_iff vs h).0 j in ((w, inr k, p), ne)
    ]),
    (λ ((w, j, p), ne). elim j [
      | inl same ↦ inl (sym p ∙ ap canonical_name same)
      | inr i ↦ inr ((canonical_set_iff vs h).1 ((w, i, p), ne))
    ]),
  )
]

overlap_iff :
    (inc hosts : List Bytes)
    → (has_hostname_overlap inc hosts ≡ true)
      ↔ ((v : Bytes) × In v hosts × In (canonical_name v) inc)
unfolding has_hostname_overlap
overlap_iff inc [] = ((λ e. absurd (cc)), (λ (v, i, _). absurd i))
overlap_iff inc (x ∷ hosts) = elim (Bool-cases (is_incoming inc (canonical_name x))) [
  | inl e ↦ rw e ((λ _. (x, inl refl, (is_incoming_iff inc (canonical_name x)).0 e)), (λ _. refl))
  | inr e ↦ rw e (
    (λ z. let (v, i, p) = (overlap_iff inc hosts).0 z in (v, inr i, p)),
    (λ (v, i, p). elim i [
      | inl same ↦ absurd (
          cc (
            e,
            (is_incoming_iff inc (canonical_name x)).1
                (subst (λ w. In (canonical_name w) inc) same p),
          ))
      | inr j ↦ (overlap_iff inc hosts).1 (v, j, p)
    ]),
  )
]

pub overlap-Share :
    (new old : List Bytes) → (has_hostname_overlap (canonical_set new) old ≡ true) ↔ Share new old
overlap-Share new old = (
  (λ e.
      let (v, i, p) = (overlap_iff (canonical_set new) old).0 e in
      let (c, ne) = (canonical_set_iff new (canonical_name v)).0 p in
      (canonical_name v, ne, c, (v, i, refl))),
  (λ (h, ne, c, (v, i, p)). (overlap_iff (canonical_set new) old).1 (
    v,
    i,
    (canonical_set_iff new (canonical_name v)).1
        (subst (λ x. Claims new x × (x ≢ [])) (sym p) (c, ne)),
  )),
)
