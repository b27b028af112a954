-- ===== src/RouteBuild/Targets/Avoided.antt =====
-- Which target is picked for a service where some are avoided.
use dnsvard.Base.{
  ℕ, Bool, true, false, List, [], ◌∷◌, ◌++◌, ◌≡◌, ◌≢◌, ◌⊎◌, inl, inr, refl, sym, ap, subst,
  if◌then◌else◌, ◌==◌, ==_iff, Bytes, text_eq, text_eq_iff, Dict, All, All-append, Bool-cases,
  Option, append-nil, append_assoc,
}
use dnsvard.Docker.{ServiceRoute}
use dnsvard.RouteBuild.Targets.{
  http_target, is_target_avoided, route_ips, Picked, pick_from, pick_among, or_clock,
  pick_service_route_target,
}

-- The first of the targets, if there is one.
abbrev pub front : List Bytes → Bytes
front [] = []
front (t ∷ ts) = t

abbrev pub is_some : List Bytes → Bool
is_some [] = false
is_some (t ∷ ts) = true

abbrev pub Avoided : Dict ℕ → ℕ → Bytes → Type 0
Avoided avoid now t = is_target_avoided t avoid now ≡ true

-- The targets up to one that is not avoided, where there is one.
pub record IsFirstFree (avoid : Dict ℕ) (now : ℕ) (targets : List Bytes) (p : Picked) : Type 0 where
  pub before : List Bytes
  pub after : List Bytes
  pub split : targets ≡ before ++ p.target ∷ after
  pub held : All (Avoided avoid now) before
  pub free : is_target_avoided p.target avoid now ≡ false
  pub avoided : p.avoided ≡ front before
  pub alternate : p.alternate ≡ is_some before

pub record IsLastResort (avoid : Dict ℕ) (now : ℕ) (targets : List Bytes) (p : Picked)
    : Type 0 where
  pub held : All (Avoided avoid now) targets
  pub target : p.target ≡ front targets
  pub avoided : p.avoided ≡ []
  pub alternate : p.alternate ≡ false

http_target_ne : (ip : Bytes) (port : ℕ) → http_target ip port ≢ []
unfolding http_target
http_target_ne ip port e = cc

-- The targets at a port.
abbrev pub targets_at : ℕ → List Bytes → List Bytes
targets_at port [] = []
targets_at port (ip ∷ ips) = http_target ip port ∷ targets_at port ips

-- What was looked at already is not empty text.
abbrev Solid : List Bytes → Type 0
Solid seen = All (λ t. t ≢ []) seen

front-snoc :
    (seen : List Bytes) (t : Bytes)
    → Solid seen
    → (if text_eq (front seen) [] then t else front seen) ≡ front (seen ++ t ∷ [])
unfolding text_eq
front-snoc [] t h = refl
front-snoc (s ∷ seen) t (ne, h) = elim (Bool-cases (text_eq s [])) [
  | inl e ↦ absurd (ne ((text_eq_iff s []).0 e))
  | inr e ↦ rw e refl
]

alternate-front :
    (seen : List Bytes)
    → Solid seen
    → (if text_eq (front seen) [] then false else true) ≡ is_some seen
unfolding text_eq
alternate-front [] h = refl
alternate-front (s ∷ seen) (ne, h) = elim (Bool-cases (text_eq s [])) [
  | inl e ↦ absurd (ne ((text_eq_iff s []).0 e))
  | inr e ↦ rw e refl
]

snoc-All :
    (P : Bytes → Type 0) (seen : List Bytes) (t : Bytes) → All P seen → P t → All P (seen ++ t ∷ [])
snoc-All P seen t h p = All-append P seen (t ∷ []) h (p, tt)

module _ (avoid : Dict ℕ) (now port : ℕ) (fallback : Picked) where
  pick_from-cases :
      (ips seen : List Bytes)
      → Solid seen
      → All (Avoided avoid now) seen
      → (All (Avoided avoid now) (seen ++ targets_at port ips)
          × (pick_from avoid now port fallback ips (front seen) ≡ fallback))
        ⊎ IsFirstFree avoid now
            (seen ++ targets_at port ips)
            (pick_from avoid now port fallback ips (front seen))
  unfolding pick_from
  pick_from-cases [] seen solid held =
      inl (subst (All (Avoided avoid now)) (sym (append-nil seen)) held, refl)
  pick_from-cases (ip ∷ ips) seen solid held =
      let t = http_target ip port in
      elim (Bool-cases (is_target_avoided t avoid now)) [
        | inr free ↦ inr (
            rw (free, pick_from)
              (record {
                before = seen;
                after = targets_at port ips;
                split = refl;
                held = held;
                free = free;
                avoided = refl;
                alternate = alternate-front seen solid;
              }))
        | inl taken ↦
            let rest =
              pick_from-cases ips (seen ++ t ∷ [])
                (snoc-All (λ t. t ≢ []) seen t solid (http_target_ne ip port))
                (snoc-All (Avoided avoid now) seen t held taken) in
            rw (taken, pick_from, front-snoc seen t solid)
              (subst
                (λ ts.
                  (All (Avoided avoid now) ts
                    × (pick_from avoid now port fallback ips (front (seen ++ t ∷ [])) ≡ fallback))
                  ⊎ IsFirstFree avoid now ts
                      (pick_from avoid now port fallback ips (front (seen ++ t ∷ []))))
                (append_assoc seen (t ∷ []) (targets_at port ips)) rest)
      ]

-- For a service with an HTTP port and an address: the first of its targets that is not avoided is
-- picked, with the first that was avoided before it, if there was one, as an alternate; and where
-- all of them are avoided it is the first of them, and no alternate.
pub pick_service_route_target-first :
    (r : ServiceRoute) (avoid : Dict ℕ) (now : Option ℕ) (clock : ℕ)
    → r.http_port ≢ 0
    → route_ips r ≢ []
    → IsFirstFree avoid
        (or_clock now clock)
        (targets_at r.http_port (route_ips r))
        (pick_service_route_target r avoid now clock)
      ⊎ IsLastResort avoid
          (or_clock now clock)
          (targets_at r.http_port (route_ips r))
          (pick_service_route_target r avoid now clock)
unfolding pick_service_route_target pick_among
pick_service_route_target-first r avoid now clock ne some_ip =
    elim (Bool-cases (r.http_port == 0)) [
      | inl e ↦ absurd (ne ((==_iff r.http_port 0).0 e))
      | inr e ↦ rw (e, pick_service_route_target) (among (route_ips r) some_ip)
    ]
  where
    among :
        (ips : List Bytes)
        → ips ≢ []
        → IsFirstFree avoid
            (or_clock now clock)
            (targets_at r.http_port ips)
            (pick_among avoid (or_clock now clock) r.http_port ips)
          ⊎ IsLastResort avoid
              (or_clock now clock)
              (targets_at r.http_port ips)
              (pick_among avoid (or_clock now clock) r.http_port ips)
    among [] some_ip = absurd (some_ip refl)
    among (ip ∷ ips) some_ip =
        let t = http_target ip r.http_port in
        let fallback : Picked = record { target = t; avoided = []; alternate = false } in
        elim (pick_from-cases avoid (or_clock now clock) r.http_port fallback (ip ∷ ips) [] tt tt) [
          | inr first ↦ inl first
          | inl (all, e) ↦ inr (record {
            held = all;
            target = ap (λ p. p.target) e;
            avoided = ap (λ p. p.avoided) e;
            alternate = ap (λ p. p.alternate) e;
          })
        ]
