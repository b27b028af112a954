-- ===== src/Leases/Disjoint.antt =====
-- No two leases of the file have a hostname in common.
use dnsvard.Base.{
  ℕ, Bool, true, List, [], ◌∷◌, ◌≡◌, ◌↔◌, ◌⊎◌, inl, inr, sym, ap, ◌∙◌, subst, Bytes, text_eq,
  text_eq_iff, Dict, insert, erase, Bool-cases, In,
}
use dnsvard.Leases.{Lease, canonical_set, has_hostname_overlap, evict, with_lease, drop_stopped}
use dnsvard.Leases.Overlap.{Share, overlap-Share}

-- What keeps a lease from eviction.
abbrev pub IsSpared : Bytes → List Bytes → Bytes → Lease → Type 0
IsSpared id new k l = (k ≡ id) ⊎ ¬ Share new l.hostnames

abbrev pub Spares : Bytes → List Bytes → Bytes → Lease → Dict Lease → Dict Lease → Type 0
Spares id new k l m m' = In (k, l) m' ↔ (In (k, l) m × IsSpared id new k l)

module _ (id : Bytes) (new : List Bytes) (k : Bytes) (l : Lease) where
  entry_stays :
      (j : Bytes) (old : Lease) (m m' : Dict Lease)
      → IsSpared id new j old
      → Spares id new k l m m'
      → Spares id new k l ((j, old) ∷ m) ((j, old) ∷ m')
  entry_stays j old m m' why rest = (
    (λ i. elim i [
      | inl e ↦ (inl e, subst (λ (x : Bytes × Lease). IsSpared id new x.0 x.1) (sym e) why)
      | inr h ↦ let (g, w) = rest.0 h in (inr g, w)
    ]),
    (λ (i, w). elim i [ inl e ↦ inl e | inr h ↦ inr (rest.1 (h, w)) ]),
  )

  entry_goes :
      (j : Bytes) (old : Lease) (m m' : Dict Lease)
      → ¬ IsSpared id new j old
      → Spares id new k l m m'
      → Spares id new k l ((j, old) ∷ m) m'
  entry_goes j old m m' why rest = (
    (λ h. let (g, w) = rest.0 h in (inr g, w)),
    (λ (i, w). elim i [
      | inl e ↦ absurd (why (subst (λ (x : Bytes × Lease). IsSpared id new x.0 x.1) e w))
      | inr h ↦ rest.1 (h, w)
    ]),
  )

  pub evict-Spares : (m : Dict Lease) → Spares id new k l m (evict id (canonical_set new) m)
  unfolding evict
  evict-Spares [] = ((λ i. absurd i), (λ (i, _). absurd i))
  evict-Spares ((j, old) ∷ m) =
      let m' = evict id (canonical_set new) m in
      elim (Bool-cases (text_eq j id)) [
        | inl e ↦ rw e (entry_stays j old m m' (inl ((text_eq_iff j id).0 e)) (evict-Spares m))
        | inr e ↦ elim (Bool-cases (has_hostname_overlap (canonical_set new) old.hostnames)) [
          | inl o ↦
              rw (e, o)
                (entry_goes j old m m'
                  (λ w. elim w [
                    | inl s ↦ absurd (cc (e, (text_eq_iff j id).1 s))
                    | inr n ↦ n ((overlap-Share new old.hostnames).0 o)
                  ])
                  (evict-Spares m))
          | inr o ↦
              rw (e, o)
                (entry_stays j old m m'
                  (inr (λ s. absurd (cc (o, (overlap-Share new old.hostnames).1 s))))
                  (evict-Spares m))
        ]
      ]

insert-In :
    (id k : Bytes) (new l : Lease) (m : Dict Lease)
    → In (k, l) (insert id new m)
    → ((k ≡ id) × (l ≡ new)) ⊎ In (k, l) m
unfolding insert
insert-In id k new l [] (inl e) =
    inl (ap (λ (x : Bytes × Lease). x.0) e, ap (λ (x : Bytes × Lease). x.1) e)
insert-In id k new l [] (inr i) = absurd i
insert-In id k new l ((j, w) ∷ m) i = elim (Bool-cases (text_eq j id)) [
  | inl e ↦ replaced e (rw (e, insert) at i)
  | inr e ↦ passed (rw (e, insert) at i) (insert-In id k new l m)
]
  where
    replaced :
        text_eq j id ≡ true
        → In (k, l) ((id, new) ∷ m)
        → ((k ≡ id) × (l ≡ new)) ⊎ In (k, l) ((j, w) ∷ m)
    replaced e (inl p) = inl (ap (λ (x : Bytes × Lease). x.0) p, ap (λ (x : Bytes × Lease). x.1) p)
    replaced e (inr h) = inr (inr h)

    passed :
        In (k, l) ((j, w) ∷ insert id new m)
        → (In (k, l) (insert id new m) → ((k ≡ id) × (l ≡ new)) ⊎ In (k, l) m)
        → ((k ≡ id) × (l ≡ new)) ⊎ In (k, l) ((j, w) ∷ m)
    passed (inl p) f = inr (inl p)
    passed (inr h) f = elim (f h) [ inl x ↦ inl x | inr y ↦ inr (inr y) ]

pub erase-In : (id k : Bytes) (l : Lease) (m : Dict Lease) → In (k, l) (erase id m) → In (k, l) m
unfolding erase
erase-In id k l [] i = absurd i
erase-In id k l ((j, w) ∷ m) i = elim (Bool-cases (text_eq j id)) [
  | inl e ↦ inr (erase-In id k l m (rw (e, erase) at i))
  | inr e ↦ elim (rw (e, erase) at i) [ inl p ↦ inl p | inr h ↦ inr (erase-In id k l m h) ]
]

pub drop_stopped-In :
    (running : ℕ → Bool) (k : Bytes) (l : Lease) (m : Dict Lease)
    → In (k, l) (drop_stopped running m)
    → In (k, l) m
unfolding drop_stopped
drop_stopped-In running k l [] i = absurd i
drop_stopped-In running k l ((j, w) ∷ m) i = elim (Bool-cases (running w.pid)) [
  | inr e ↦ inr (drop_stopped-In running k l m (rw (e, drop_stopped) at i))
  | inl e ↦ elim (rw (e, drop_stopped) at i) [
    | inl p ↦ inl p
    | inr h ↦ inr (drop_stopped-In running k l m h)
  ]
]

-- Two leases of a map that claim one hostname stand under one key.
unfoldable pub IsDisjoint : Dict Lease → Type 0
IsDisjoint m =
    (k j : Bytes) (x y : Lease) → In (k, x) m → In (j, y) m → Share x.hostnames y.hostnames → k ≡ j

Share-sym : (xs ys : List Bytes) → Share xs ys → Share ys xs
Share-sym xs ys (h, ne, a, b) = (h, ne, b, a)

pub with_lease-cases :
    (new : Lease) (m : Dict Lease) (k : Bytes) (l : Lease)
    → In (k, l) (with_lease new m)
    → ((k ≡ new.id) × (l ≡ new)) ⊎ (In (k, l) m × IsSpared new.id new.hostnames k l)
unfolding with_lease
with_lease-cases new m k l i =
    elim (insert-In new.id k new l (evict new.id (canonical_set new.hostnames) m) i) [
      | inl p ↦ inl p
      | inr h ↦ inr ((evict-Spares new.id new.hostnames k l m).0 h)
    ]

pub with_lease-IsDisjoint :
    (new : Lease) (m : Dict Lease) → IsDisjoint m → IsDisjoint (with_lease new m)
unfolding IsDisjoint
with_lease-IsDisjoint new m ok k j x y i h s =
    both (with_lease-cases new m k x i) (with_lease-cases new m j y h)
  where
    spared :
        (k : Bytes) (z : Lease)
        → IsSpared new.id new.hostnames k z
        → Share new.hostnames z.hostnames
        → k ≡ new.id
    spared k z (inl e) t = e
    spared k z (inr n) t = absurd (n t)

    both :
        ((k ≡ new.id) × (x ≡ new)) ⊎ (In (k, x) m × IsSpared new.id new.hostnames k x)
        → ((j ≡ new.id) × (y ≡ new)) ⊎ (In (j, y) m × IsSpared new.id new.hostnames j y)
        → k ≡ j
    both (inl (a, _)) (inl (b, _)) = a ∙ sym b
    both (inl (a, e)) (inr (_, w)) =
        a ∙ sym (spared j y w (subst (λ z. Share z.hostnames y.hostnames) e s))
    both (inr (_, w)) (inl (b, e)) =
        spared k x w
          (Share-sym x.hostnames new.hostnames (subst (λ z. Share x.hostnames z.hostnames) e s))
        ∙ sym b
    both (inr (g, _)) (inr (g', _)) = ok k j x y g g' s
