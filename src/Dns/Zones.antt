-- ===== src/Dns/Zones.antt =====
-- Which names a table is responsible for, and under which zone.
use dnsvard.Base.{
  ◌≤◌, true, false, List, [], ◌∷◌, ◌++◌, ◌≡◌, ◌≢◌, ◌↔◌, ◌⊎◌, inl, inr, refl, sym, ap, ◌∙◌, subst,
  arith, ltb, if◌then◌else◌, Bytes, text_eq, text_eq_iff, has_suffix, length, In, All, Bool-cases,
}
use dnsvard.Dns.Table.{
  Table, canonical_fqdn, has_managed_zone, best_zone_from, best_managed_zone, allows, zone_for_name,
}

has_suffix→append : (s t : Bytes) → has_suffix s t ≡ true → (p : Bytes) × (s ≡ p ++ t)
unfolding has_suffix
has_suffix→append [] t h = ([], (text_eq_iff [] t).0 h)
has_suffix→append (c ∷ s) t h = elim (Bool-cases (text_eq (c ∷ s) t)) [
  | inl e ↦ ([], (text_eq_iff (c ∷ s) t).0 e)
  | inr n ↦ let (p, e) = has_suffix→append s t (ground arith) in (c ∷ p, ap (λ x. c ∷ x) e)
]

append→has_suffix : (p t : Bytes) → has_suffix (p ++ t) t ≡ true
unfolding has_suffix
append→has_suffix [] [] = refl
append→has_suffix [] (d ∷ t) = ground (arith, text_eq_iff (d ∷ t) (d ∷ t))
append→has_suffix (c ∷ p) t = ground (arith, append→has_suffix p t)

managed→In :
    (zones : List Bytes) (fqdn : Bytes)
    → has_managed_zone zones fqdn ≡ true
    → (z : Bytes) × In z zones × (has_suffix fqdn z ≡ true)
unfolding has_managed_zone
managed→In [] fqdn h = absurd (cc)
managed→In (z ∷ zones) fqdn h = elim (Bool-cases (has_suffix fqdn z)) [
  | inl e ↦ (z, inl refl, e)
  | inr n ↦ let (y, i, e) = managed→In zones fqdn (ground arith) in (y, inr i, e)
]

In→managed :
    (zones : List Bytes) (fqdn z : Bytes)
    → In z zones
    → has_suffix fqdn z ≡ true
    → has_managed_zone zones fqdn ≡ true
unfolding has_managed_zone
In→managed [] fqdn z i h = absurd i
In→managed (y ∷ zones) fqdn z (inl e) h =
    let here : has_suffix fqdn y ≡ true = subst (λ x. has_suffix fqdn x ≡ true) e h in ground arith
In→managed (y ∷ zones) fqdn z (inr i) h = ground (arith, In→managed zones fqdn z i h)

-- A name is allowed exactly when its canonical form is any text followed by a managed zone. The
-- text need not end in a dot, so a name that only ends in the letters of a zone is allowed too.
pub allows_iff :
    (t : Table) (name : Bytes)
    → (allows t name ≡ true)
      ↔ ((z : Bytes) × (p : Bytes) × In z t.managed_zones × (canonical_fqdn name ≡ p ++ z))
unfolding allows
allows_iff t name = (
  (λ h.
      let (z, i, e) = managed→In t.managed_zones (canonical_fqdn name) h in
      let (p, f) = has_suffix→append (canonical_fqdn name) z e in (z, p, i, f)),
  (λ (z, p, i, f).
      In→managed t.managed_zones (canonical_fqdn name) z i (rw f (append→has_suffix p z))),
)

-- The best zone so far, or a longer one of the list; none of the list that fits is longer.
record IsBest (zones : List Bytes) (fqdn best result : Bytes) : Type 0 where
  origin : (result ≡ best) ⊎ (In result zones × (has_suffix fqdn result ≡ true))
  grows : length best ≤ length result
  longest : (z : Bytes) → In z zones → has_suffix fqdn z ≡ true → length z ≤ length result

abbrev better : Bytes → Bytes → Bytes → Bytes
better fqdn best z =
    if has_suffix fqdn z then if ltb (length best) (length z) then z else best else best

better_lem :
    (fqdn best z : Bytes)
    → ((better fqdn best z ≡ best) ⊎ ((better fqdn best z ≡ z) × (has_suffix fqdn z ≡ true)))
      × (length best ≤ length (better fqdn best z))
      × (has_suffix fqdn z ≡ true → length z ≤ length (better fqdn best z))
better_lem fqdn best z = elim (Bool-cases (has_suffix fqdn z)) [
  | inl e ↦ elim (Bool-cases (ltb (length best) (length z))) [
    | inl l ↦ (rw (e, l) (inr (refl, refl)), rw (e, l) (ground arith), rw (e, l) (λ _. omega arith))
    | inr l ↦ (rw (e, l) (inl refl), rw (e, l) (omega arith), rw (e, l) (λ _. ground arith))
  ]
  | inr e ↦ (rw e (inl refl), rw e (omega arith), rw e (λ h. absurd (cc)))
]

best_zone_from-IsBest :
    (zones : List Bytes) (fqdn best : Bytes)
    → IsBest zones fqdn best (best_zone_from zones fqdn best)
unfolding best_zone_from
best_zone_from-IsBest [] fqdn best = record {
  origin = inl refl;
  grows = omega arith;
  longest = λ z i. absurd i;
}
best_zone_from-IsBest (z ∷ zones) fqdn best =
    let (from, more, long) = better_lem fqdn best z in
    joined from more long (best_zone_from-IsBest zones fqdn (better fqdn best z))
  where
    joined :
        (better fqdn best z ≡ best) ⊎ ((better fqdn best z ≡ z) × (has_suffix fqdn z ≡ true))
        → length best ≤ length (better fqdn best z)
        → (has_suffix fqdn z ≡ true → length z ≤ length (better fqdn best z))
        → IsBest zones fqdn (better fqdn best z) (best_zone_from zones fqdn (better fqdn best z))
        → IsBest (z ∷ zones) fqdn best (best_zone_from zones fqdn (better fqdn best z))
    joined from more long rest = record {
      origin = elim rest.origin [
        | inl e ↦ elim from [
          | inl f ↦ inl (e ∙ f)
          | inr (f, h) ↦ inr (inl (e ∙ f), subst (λ x. has_suffix fqdn x ≡ true) (sym (e ∙ f)) h)
        ]
        | inr (i, h) ↦ inr (inr i, h)
      ];
      grows = omega (arith, more, rest.grows);
      longest = λ y i h. elim i [
        | inl e ↦
            let l = long (subst (λ x. has_suffix fqdn x ≡ true) e h) in
            let same : length y ≡ length z = ap length e in omega (arith, l, rest.grows)
        | inr j ↦ rest.longest y j h
      ];
    }

some_zone : (z : Bytes) → z ≢ [] → (text_eq z [] ≡ false)
some_zone z ne = elim (Bool-cases (text_eq z [])) [
  | inl e ↦ absurd (ne ((text_eq_iff z []).0 e))
  | inr e ↦ e
]

zone_for_name-best :
    (t : Table) (name : Bytes)
    → text_eq (best_zone_from t.managed_zones (canonical_fqdn name) []) [] ≡ false
    → zone_for_name t name ≡ best_zone_from t.managed_zones (canonical_fqdn name) []
unfolding zone_for_name best_managed_zone
zone_for_name-best t name h = rw (h, zone_for_name, best_managed_zone)

-- The zone reported for a name that is allowed is a managed zone that ends the name, and no other
-- such zone is longer; the managed zones are not empty texts.
pub zone_for_name-longest :
    (t : Table) (name : Bytes)
    → All (λ z. z ≢ []) t.managed_zones
    → allows t name ≡ true
    → In (zone_for_name t name) t.managed_zones
      × (has_suffix (canonical_fqdn name) (zone_for_name t name) ≡ true)
      × ((z : Bytes)
          → In z t.managed_zones
          → has_suffix (canonical_fqdn name) z ≡ true
          → length z ≤ length (zone_for_name t name))
unfolding allows
zone_for_name-longest t name filled h =
    let fqdn = canonical_fqdn name in
    let best = best_zone_from t.managed_zones fqdn [] in
    let is_best = best_zone_from-IsBest t.managed_zones fqdn [] in
    let (z, i, e) = managed→In t.managed_zones fqdn h in
    let ne : best ≢ [] = λ p.
      filled_ne t.managed_zones z filled i
        (empty z (omega (arith, is_best.longest z i e, ap length p))) in
    subst
      (λ x.
        In x t.managed_zones
        × (has_suffix fqdn x ≡ true)
        × ((y : Bytes) → In y t.managed_zones → has_suffix fqdn y ≡ true → length y ≤ length x))
      (sym (zone_for_name-best t name (some_zone best ne)))
      (elim is_best.origin [ inl p ↦ absurd (ne p) | inr (j, s) ↦ (j, s, is_best.longest) ])
  where
    filled_ne : (zs : List Bytes) (z : Bytes) → All (λ y. y ≢ []) zs → In z zs → z ≢ []
    filled_ne [] z a i = absurd i
    filled_ne (y ∷ zs) z (n, a) (inl p) = λ q. n (sym p ∙ q)
    filled_ne (y ∷ zs) z (n, a) (inr j) = filled_ne zs z a j

    empty : (z : Bytes) → length z ≤ 0 → z ≡ []
    empty [] l = refl
    empty (c ∷ z) l = absurd (omega arith)
