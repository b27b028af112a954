-- ===== src/HttpRouter/Isolation.antt =====
-- Requests to one host and the breakers of the others.
use dnsvard.Base.{
  ℕ, Option, some, List, [], ◌∷◌, ◌⊎◌, ap, trim_space, Dict, All, All-insert, All_of_lookup, ◌≡◌,
  ◌≢◌, inl, inr, refl, sym, ◌∙◌, subst, ltb, Bytes, text_eq, text_eq_iff, lookup, insert,
  Bool-cases, Option-cases,
}
use dnsvard.HttpRouter.{
  Route, BreakerState, Router, zero_state, canonical_host, breaker_of, record_success,
  record_failure, is_breaker_open, Upstream, responds, fails_at, serve_proxy, forward, handle,
  RouteError, Built, built, rejected, check_route, build_routes, set_routes,
}
use dnsvard.HttpRouter.Breaker.{breaker_of-insert, failed_once}

-- Every proxy reports to the breaker of the host it stands under.
abbrev pub HasOwnHosts : Router → Type 0
HasOwnHosts r = (host : Bytes) (p : Route) → lookup host r.routes ≡ some p → p.hostname ≡ host

insert-other :
    (host other : Bytes) (st : BreakerState) (r : Router)
    → host ≢ other
    → breaker_of other (record r { breaker = insert host st r.breaker }) ≡ breaker_of other r
insert-other host other st r ne = elim (Bool-cases (text_eq host other)) [
  | inl e ↦ absurd (ne ((text_eq_iff host other).0 e))
  | inr e ↦ breaker_of-insert host other st r ∙ rw e
]

is_breaker_open-other :
    (now : ℕ) (host other : Bytes) (r : Router)
    → host ≢ other
    → (breaker_of other (is_breaker_open now host r).0 ≡ breaker_of other r)
      × ((is_breaker_open now host r).0.routes ≡ r.routes)
unfolding is_breaker_open
is_breaker_open-other now host other r ne = elim (Option-cases (breaker_of host r).open_until) [
  | inl e ↦ rw (e, is_breaker_open) (refl, refl)
  | inr (till, e) ↦ elim (Bool-cases (ltb till now)) [
    | inl b ↦ rw (e, b, is_breaker_open) (insert-other host other zero_state r ne, refl)
    | inr b ↦ rw (e, b, is_breaker_open) (refl, refl)
  ]
]

serve_proxy-other :
    (p : Route) (up : Upstream) (other : Bytes) (r : Router)
    → p.hostname ≢ other
    → breaker_of other (serve_proxy p up r).0 ≡ breaker_of other r
unfolding serve_proxy record_success record_failure
serve_proxy-other p responds other r ne = insert-other p.hostname other zero_state r ne
serve_proxy-other p (fails_at later) other r ne =
    insert-other p.hostname other (failed_once later (breaker_of p.hostname r)) r ne

forward-other :
    (host other : Bytes) (up : Upstream) (r : Router)
    → HasOwnHosts r
    → host ≢ other
    → breaker_of other (forward host up r).0 ≡ breaker_of other r
unfolding forward
forward-other host other up r own ne = elim (Option-cases (lookup host r.routes)) [
  | inl e ↦ rw (e, forward)
  | inr (p, e) ↦ rw (e, forward) (serve_proxy-other p up other r (λ q. ne (sym (own host p e) ∙ q)))
]

-- A request to one host leaves the breakers of all others as they were, where every proxy reports
-- to the breaker of its own host.
pub handle-other :
    (now : ℕ) (request_host other : Bytes) (up : Upstream) (r : Router)
    → HasOwnHosts r
    → canonical_host request_host ≢ other
    → breaker_of other (handle now request_host up r).0 ≡ breaker_of other r
unfolding handle
handle-other now request_host other up r own ne =
    let host = canonical_host request_host in
    let (same, routes) = is_breaker_open-other now host other r ne in
    elim (Option-cases (is_breaker_open now host r).1) [
      | inl e ↦
          rw (e, handle)
            (forward-other host other up (is_breaker_open now host r).0
                (subst (λ m. (h : Bytes) (p : Route) → lookup h m ≡ some p → p.hostname ≡ h)
                  (sym routes) own)
                ne
              ∙ same)
      | inr (s, e) ↦ rw (e, handle) same
    ]

abbrev routes_of : Built → Dict Route
routes_of (built routes targets) = routes
routes_of (rejected e) = []

Built-cases :
    (b : Built)
    → ((routes : Dict Route) × (targets : Dict Bytes) × (b ≡ built routes targets))
      ⊎ ((e : RouteError) × (b ≡ rejected e))
Built-cases (built routes targets) = inl (routes, targets, refl)
Built-cases (rejected e) = inr (e, refl)

abbrev IsOwnEntry : Bytes × Route → Type 0
IsOwnEntry (host, p) = p.hostname ≡ host

build_routes-IsOwnEntry :
    (url_scheme : Bytes → Option Bytes) (rs : List Route) (routes : Dict Route)
    (targets : Dict Bytes) (out : Dict Route) (outs : Dict Bytes)
    → All IsOwnEntry routes
    → build_routes url_scheme rs routes targets ≡ built out outs
    → All IsOwnEntry out
unfolding build_routes
build_routes-IsOwnEntry url_scheme [] routes targets out outs own h =
    subst (All IsOwnEntry) (ap routes_of h) own
build_routes-IsOwnEntry url_scheme (r ∷ rs) routes targets out outs own h =
    let host = canonical_host r.hostname in
    let target = trim_space r.target in
    let p : Route = record { hostname = host; target = target } in
    elim (Option-cases (check_route url_scheme host target)) [
      | inr (e, c) ↦ absurd (cc (rw (c, build_routes) at h))
      | inl c ↦
          build_routes-IsOwnEntry url_scheme rs (insert host p routes) (insert host target targets)
            out outs (All-insert IsOwnEntry host p routes refl own) (rw (c, build_routes) at h)
    ]

-- `SetRoutes` leaves a router whose proxies report to their own hosts.
pub set_routes-HasOwnHosts :
    (url_scheme : Bytes → Option Bytes) (rs : List Route) (r : Router)
    → HasOwnHosts r
    → HasOwnHosts (set_routes url_scheme rs r).0
unfolding set_routes
set_routes-HasOwnHosts url_scheme rs r own = elim (Built-cases (build_routes url_scheme rs [] [])) [
  | inl (out, outs, e) ↦
      let all = build_routes-IsOwnEntry url_scheme rs [] [] out outs tt e in
      rw (e, set_routes) (λ host p l. All_of_lookup IsOwnEntry host p out all l)
  | inr (x, e) ↦ rw (e, set_routes) own
]
