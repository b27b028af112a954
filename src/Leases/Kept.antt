-- ===== src/Leases/Kept.antt =====
-- What one `Upsert` does to the other leases.
use dnsvard.Base.{
  Bool, none, some, [], ◌∷◌, ◌≡◌, ◌≢◌, ◌↔◌, inl, inr, refl, sym, ap, ◌∙◌, subst, arith, Bytes,
  text_eq, text_eq_iff, trim_space, Dict, lookup, insert, lookup-insert_self, Bool-cases,
  Option-cases, In,
}
use dnsvard.Leases.{
  Lease, leases, canonical_set, evict, check_lease, dated, with_lease, load_leases, save_leases,
  store_lease, upsert,
}
use dnsvard.Leases.Overlap.{Share}
use dnsvard.Leases.Disjoint.{evict-Spares, with_lease-cases}

insert-keeps :
    (id k : Bytes) (new l : Lease) (m : Dict Lease)
    → k ≢ id
    → In (k, l) m
    → In (k, l) (insert id new m)
unfolding insert
insert-keeps id k new l [] ne i = absurd i
insert-keeps id k new l ((j, w) ∷ m) ne i = elim (Bool-cases (text_eq j id)) [
  | inl e ↦
      rw (e, insert)
        (elim i [
          | inl p ↦ absurd (ne (ap (λ (x : Bytes × Lease). x.0) p ∙ (text_eq_iff j id).0 e))
          | inr h ↦ inr h
        ])
  | inr e ↦ rw (e, insert) (elim i [ inl p ↦ inl p | inr h ↦ inr (insert-keeps id k new l m ne h) ])
]

-- What `Upsert` stores where it succeeds.
upsert_stored :
    (written : Bool) (now : Bytes) (l : Lease) (m m' : Dict Lease)
    → upsert written now l (leases m) ≡ (leases m', none)
    → m' ≡ with_lease (dated now l) m
unfolding upsert store_lease load_leases save_leases
upsert_stored written now l m m' h = elim (Option-cases (check_lease l)) [
  | inr (x, e) ↦ absurd (ground arith)
  | inl e ↦ elim (Bool-cases written) [ inl w ↦ ground arith | inr w ↦ absurd (ground arith) ]
]

dated-keeps :
    (now : Bytes) (l : Lease) → ((dated now l).id ≡ l.id) × ((dated now l).hostnames ≡ l.hostnames)
unfolding dated
dated-keeps now l = elim (Bool-cases (text_eq (trim_space l.created_at) [])) [
  | inl e ↦ rw e (refl, refl)
  | inr e ↦ rw e (refl, refl)
]

with_lease_iff :
    (new : Lease) (m : Dict Lease) (k : Bytes) (x : Lease)
    → k ≢ new.id
    → In (k, x) (with_lease new m) ↔ (In (k, x) m × ¬ Share new.hostnames x.hostnames)
unfolding with_lease
with_lease_iff new m k x ne = (
  (λ i. elim (with_lease-cases new m k x i) [
    | inl (e, _) ↦ absurd (ne e)
    | inr (g, inl e) ↦ absurd (ne e)
    | inr (g, inr n) ↦ (g, n)
  ]),
  (λ (g, n).
      insert-keeps new.id k new x (evict new.id (canonical_set new.hostnames) m) ne
        ((evict-Spares new.id new.hostnames k x m).1 (g, inr n))),
)

-- Where `Upsert` succeeds, the lease stands in the file under its id, and a lease of another id
-- stays exactly when it has no hostname in common with it.
pub upsert_keeps_iff :
    (written : Bool) (now : Bytes) (l : Lease) (m m' : Dict Lease)
    → upsert written now l (leases m) ≡ (leases m', none)
    → (lookup l.id m' ≡ some (dated now l))
      × ((k : Bytes) (x : Lease)
          → k ≢ l.id
          → In (k, x) m' ↔ (In (k, x) m × ¬ Share l.hostnames x.hostnames))
unfolding with_lease
upsert_keeps_iff written now l m m' h =
    let e = upsert_stored written now l m m' h in
    let (same_id, same_hosts) = dated-keeps now l in
    let new = dated now l in
    (
      ap (lookup l.id) e
          ∙ ap (λ k. lookup k (with_lease new m)) (sym same_id)
          ∙ lookup-insert_self new.id new (evict new.id (canonical_set new.hostnames) m),
      (λ k x ne.
          subst (λ hosts. In (k, x) m' ↔ (In (k, x) m × ¬ Share hosts x.hostnames)) same_hosts
            (subst (λ n. In (k, x) n ↔ (In (k, x) m × ¬ Share new.hostnames x.hostnames)) (sym e)
              (with_lease_iff new m k x (λ z. ne (z ∙ same_id))))),
    )
