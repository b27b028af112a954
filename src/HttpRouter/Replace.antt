-- ===== src/HttpRouter/Replace.antt =====
-- What `SetRoutes` leaves behind.
use dnsvard.Base.{
  true, false, Option, none, some, List, [], ◌∷◌, ◌≡◌, ◌≢◌, ◌↔◌, ◌⊎◌, inl, inr, refl, sym, ap, ◌∙◌,
  arith, if◌then◌else◌, Bytes, codes, text_eq, text_eq_iff, trim_space, Dict, lookup, insert, erase,
  lookup-insert, lookup-erase, Bool-cases, Option-cases, All,
}
use dnsvard.HttpRouter.{
  Route, BreakerState, Router, RouteError, canonical_host, Built, built, rejected, check_scheme,
  check_route, build_routes, drop_missing, drop_present, set_routes, breaker_of, zero_state,
}

drop_present-none :
    (h : Bytes) (next : Dict Route) (b : Dict BreakerState)
    → lookup h b ≡ none
    → lookup h (drop_present next b) ≡ none
unfolding drop_present
drop_present-none h [] b e = e
drop_present-none h ((k, r) ∷ next) b e =
    drop_present-none h next (erase k b) (ground (arith, lookup-erase k h b))

drop_present-some :
    (h : Bytes) (next : Dict Route) (b : Dict BreakerState)
    → lookup h next ≢ none
    → lookup h (drop_present next b) ≡ none
unfolding drop_present lookup
drop_present-some h [] b ne = absurd (ne refl)
drop_present-some h ((k, r) ∷ next) b ne = elim (Bool-cases (text_eq k h)) [
  | inl e ↦ drop_present-none h next (erase k b) (lookup-erase k h b ∙ rw e)
  | inr e ↦ drop_present-some h next (erase k b) (λ z. ne (rw (e, lookup) z))
]

drop_missing-none :
    (h : Bytes) (next : Dict Route) (xs b : Dict BreakerState)
    → lookup h next ≡ none
    → (lookup h xs ≡ none → lookup h b ≡ none)
    → lookup h (drop_missing next xs b) ≡ none
unfolding drop_missing lookup
drop_missing-none h next [] b gone all = all refl
drop_missing-none h next ((k, st) ∷ xs) b gone all = elim (Option-cases (lookup k next)) [
  | inl e ↦ rw e (drop_missing-none h next xs (erase k b) gone (erased (Bool-cases (text_eq k h))))
  | inr (r, e) ↦ rw e (drop_missing-none h next xs b gone (kept r e (Bool-cases (text_eq k h))))
]
  where
    erased :
        (text_eq k h ≡ true) ⊎ (text_eq k h ≡ false)
        → lookup h xs ≡ none
        → lookup h (erase k b) ≡ none
    erased (inl s) z = lookup-erase k h b ∙ rw s
    erased (inr s) z = lookup-erase k h b ∙ rw s (all (rw (s, lookup) z))

    kept :
        (r : Route)
        → lookup k next ≡ some r
        → (text_eq k h ≡ true) ⊎ (text_eq k h ≡ false)
        → lookup h xs ≡ none
        → lookup h b ≡ none
    kept r e (inl s) z =
        absurd (cc (sym e ∙ ap (λ x. lookup x next) ((text_eq_iff k h).0 s) ∙ gone))
    kept r e (inr s) z = all (rw (s, lookup) z)

all_dropped :
    (h : Bytes) (next : Dict Route) (b : Dict BreakerState)
    → lookup h (drop_present next (drop_missing next b b)) ≡ none
all_dropped h next b = elim (Option-cases (lookup h next)) [
  | inl e ↦
      drop_present-none h next (drop_missing next b b) (drop_missing-none h next b b e (λ z. z))
  | inr (r, e) ↦ drop_present-some h next (drop_missing next b b) (λ z. absurd (cc (e, z)))
]

-- A route has a host and a target, and the target is a URL of one of the two schemes.
pub record IsServable (url_scheme : Bytes → Option Bytes) (r : Route) : Type 0 where
  pub host : canonical_host r.hostname ≢ []
  pub target : trim_space r.target ≢ []
  pub scheme :
      (url_scheme (trim_space r.target) ≡ some (codes "http"))
      ⊎ (url_scheme (trim_space r.target) ≡ some (codes "https"))

check_scheme_iff :
    (host : Bytes) (o : Option Bytes)
    → (check_scheme host o ≡ none) ↔ ((o ≡ some (codes "http")) ⊎ (o ≡ some (codes "https")))
unfolding check_scheme
check_scheme_iff host none = ((λ e. absurd (cc)), (λ s. ground arith))
check_scheme_iff host (some x) = (
  (λ e. elim (Bool-cases (text_eq x (codes "http"))) [
    | inl b ↦ inl (ap some ((text_eq_iff x (codes "http")).0 b))
    | inr b ↦ inr (ap some ((text_eq_iff x (codes "https")).0 (ground arith)))
  ]),
  (λ s. ground (arith, text_eq_iff x (codes "http"), text_eq_iff x (codes "https"))),
)

check_route_iff :
    (url_scheme : Bytes → Option Bytes) (r : Route)
    → (check_route url_scheme (canonical_host r.hostname) (trim_space r.target) ≡ none)
      ↔ IsServable url_scheme r
unfolding check_route
check_route_iff url_scheme r =
    let host = canonical_host r.hostname in
    let target = trim_space r.target in
    let scheme = check_scheme_iff host (url_scheme target) in
    (
      (λ e. record {
        host = λ z. ground (arith, text_eq_iff host []);
        target = λ z. ground (arith, text_eq_iff target []);
        scheme = scheme.0 (ground arith);
      }),
      (λ s.
          ground (
            arith,
            s.host,
            s.target,
            scheme.1 s.scheme,
            text_eq_iff host [],
            text_eq_iff target [],
          )),
    )

abbrev pub proxy_of : Route → Route
proxy_of r = record { hostname = canonical_host r.hostname; target = trim_space r.target }

-- The proxy of the last route with a host, or the one before.
unfoldable pub last_for : List Route → Bytes → Option Route → Option Route
last_for [] h o = o
last_for (r ∷ rs) h o =
    last_for rs h (if text_eq (canonical_host r.hostname) h then some (proxy_of r) else o)

-- What the loop has done where it ends without an error.
record IsBuilt (url_scheme : Bytes → Option Bytes) (rs : List Route) (m routes : Dict Route)
    : Type 0 where
  servable : All (IsServable url_scheme) rs
  last : (h : Bytes) → lookup h routes ≡ last_for rs h (lookup h m)

build_sound :
    (url_scheme : Bytes → Option Bytes) (rs : List Route) (m routes : Dict Route)
    (n targets : Dict Bytes)
    → build_routes url_scheme rs m n ≡ built routes targets
    → IsBuilt url_scheme rs m routes
unfolding build_routes last_for
build_sound url_scheme [] m routes n targets e = record {
  servable = tt;
  last = λ h. ap (lookup h) (ground arith);
}
build_sound url_scheme (r ∷ rs) m routes n targets e =
    elim (Option-cases (check_route url_scheme (canonical_host r.hostname) (trim_space r.target))) [
      | inr (x, f) ↦ absurd (ground arith)
      | inl f ↦
          let rest =
            build_sound url_scheme rs (insert (canonical_host r.hostname) (proxy_of r) m) routes
              (insert (canonical_host r.hostname) (trim_space r.target) n) targets
              (rw (f, build_routes) at e) in
          record {
            servable = ((check_route_iff url_scheme r).0 f, rest.servable);
            last = λ h.
                rest.last h
                ∙ ap (last_for rs h) (lookup-insert (canonical_host r.hostname) h (proxy_of r) m);
          }
    ]

build_complete :
    (url_scheme : Bytes → Option Bytes) (rs : List Route) (m : Dict Route) (n : Dict Bytes)
    → All (IsServable url_scheme) rs
    → (routes : Dict Route) × (targets : Dict Bytes) × (build_routes url_scheme rs m n
        ≡ built routes targets)
unfolding build_routes
build_complete url_scheme [] m n ok = (m, n, refl)
build_complete url_scheme (r ∷ rs) m n (s, ok) =
    let (routes, targets, e) =
      build_complete url_scheme rs (insert (canonical_host r.hostname) (proxy_of r) m)
        (insert (canonical_host r.hostname) (trim_space r.target) n) ok in
    (routes, targets, rw ((check_route_iff url_scheme r).1 s, build_routes) e)

Built-cases :
    (b : Built)
    → ((routes : Dict Route) × (targets : Dict Bytes) × (b ≡ built routes targets))
      ⊎ ((e : RouteError) × (b ≡ rejected e))
Built-cases (built routes targets) = inl (routes, targets, refl)
Built-cases (rejected e) = inr (e, refl)

-- `SetRoutes` accepts routes exactly when each has a host and a URL with the scheme http or https
-- as its target; where it refuses them, the router stays as it was.
pub set_routes_iff :
    (url_scheme : Bytes → Option Bytes) (rs : List Route) (r : Router)
    → (((set_routes url_scheme rs r).1 ≡ none) ↔ All (IsServable url_scheme) rs)
      × ((set_routes url_scheme rs r).1 ≢ none → (set_routes url_scheme rs r).0 ≡ r)
unfolding set_routes
set_routes_iff url_scheme rs r = elim (Built-cases (build_routes url_scheme rs [] [])) [
  | inl (routes, targets, e) ↦ (
    (
      (λ h. (build_sound url_scheme rs [] routes [] targets e).servable),
      (λ ok. rw (e, set_routes)),
    ),
    (λ ne. ground arith),
  )
  | inr (x, e) ↦ (
    (
      (λ h. absurd (ground arith)),
      (λ ok.
          let (routes, targets, f) = build_complete url_scheme rs [] [] ok in absurd (cc (e, f))),
    ),
    (λ ne. ground arith),
  )
]

-- Where `SetRoutes` accepts the routes, every host has the proxy of its last route and no other,
-- and every breaker is closed, also those of hosts that had a route before.
pub set_routes-last :
    (url_scheme : Bytes → Option Bytes) (rs : List Route) (r : Router) (host : Bytes)
    → (set_routes url_scheme rs r).1 ≡ none
    → (lookup host (set_routes url_scheme rs r).0.routes ≡ last_for rs host none)
      × (breaker_of host (set_routes url_scheme rs r).0 ≡ zero_state)
unfolding set_routes breaker_of
set_routes-last url_scheme rs r host h = elim (Built-cases (build_routes url_scheme rs [] [])) [
  | inl (routes, targets, e) ↦
      rw (e, set_routes)
        (
          (build_sound url_scheme rs [] routes [] targets e).last host,
          rw (all_dropped host routes r.breaker, breaker_of),
        )
  | inr (x, e) ↦ absurd (ground arith)
]
