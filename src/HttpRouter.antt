-- ===== src/HttpRouter.antt =====
-- internal/httprouter/router.go: routes by hostname, each with a circuit breaker. `url.Parse` is
-- an argument: the scheme that it finds, or nothing where it fails. A reverse proxy is its
-- hostname and its target; what its upstream does is an argument of `handle`. Times are
-- nanoseconds since some epoch.
mod Tests
pub mod Breaker
pub mod Replace
pub mod History
pub mod Isolation
use dnsvard.Base.{
  ℕ, ◌+◌, ◌-◌, ◌*◌, ◌/◌, ◌^◌, Bool, true, false, Option, none, some, List, [], ◌∷◌, ltb, leb,
  if◌then◌else◌, Bytes, codes, text_eq, to_lower, trim_space, trim_suffix, before, Dict, lookup,
  insert, erase,
}

pub record Route : Type 0 where
  pub hostname : Bytes
  pub target : Bytes

pub record BreakerState : Type 0 where
  pub failures : ℕ
  pub open_until : Option ℕ

-- `routes`, `targets` and `breaker` of the source's `Router`.
pub record Router : Type 0 where
  pub routes : Dict Route
  pub targets : Dict Bytes
  pub breaker : Dict BreakerState

-- `New`
abbrev pub new_router : Router
new_router = record { routes = []; targets = []; breaker = [] }

-- The zero value that Go reads for a missing key.
abbrev pub zero_state : BreakerState
zero_state = record { failures = 0; open_until = none }

unfoldable pub canonical_host : Bytes → Bytes
unfolding to_lower trim_space trim_suffix before
canonical_host v = before b':' (trim_suffix (trim_space (to_lower v)) (codes "."))

pub data RouteError : Type 0 where
  hostname_required : RouteError
  target_required bad_target bad_scheme : Bytes → RouteError

pub data Built : Type 0 where
  built : Dict Route → Dict Bytes → Built
  rejected : RouteError → Built

-- `u.Scheme != "http" && u.Scheme != "https"`, where the target parses.
unfoldable pub check_scheme : Bytes → Option Bytes → Option RouteError
unfolding text_eq
check_scheme host none = some (bad_target host)
check_scheme host (some scheme) =
    if text_eq scheme (codes "http")
    then none
    else if text_eq scheme (codes "https")
    then none
    else some (bad_scheme host)

-- The tests of one round of `SetRoutes`, on the canonical host and the trimmed target.
unfoldable pub check_route : (Bytes → Option Bytes) → Bytes → Bytes → Option RouteError
unfolding check_scheme text_eq
check_route url_scheme host target =
    if text_eq host []
    then some hostname_required
    else if text_eq target []
    then some (target_required host)
    else check_scheme host (url_scheme target)

-- The loop of `SetRoutes`.
unfoldable pub build_routes : (Bytes → Option Bytes) → List Route → Dict Route → Dict Bytes → Built
unfolding check_route canonical_host trim_space insert
build_routes url_scheme [] routes targets = built routes targets
build_routes url_scheme (r ∷ rs) routes targets =
    let host = canonical_host r.hostname in
    let target = trim_space r.target in
    let rest =
      build_routes url_scheme rs (insert host (record { hostname = host; target = target }) routes)
        (insert host target targets) in
    elim (check_route url_scheme host target) [ none ↦ rest | some e ↦ rejected e ]

-- `for host := range r.breaker`: the breakers of hosts without a route go.
unfoldable pub drop_missing : Dict Route → Dict BreakerState → Dict BreakerState → Dict BreakerState
unfolding lookup erase
drop_missing next [] b = b
drop_missing next ((host, st) ∷ rest) b =
    drop_missing next rest (elim (lookup host next) [ none ↦ erase host b | some r ↦ b ])

-- `for host := range nextRoutes`: so do those of the hosts with one.
unfoldable pub drop_present : Dict Route → Dict BreakerState → Dict BreakerState
unfolding erase
drop_present [] b = b
drop_present ((host, r) ∷ rest) b = drop_present rest (erase host b)

-- `SetRoutes`: the new router and the error, if any.
unfoldable pub set_routes :
    (Bytes → Option Bytes) → List Route → Router → Router × Option RouteError
unfolding build_routes drop_missing drop_present
set_routes url_scheme rs r = elim (build_routes url_scheme rs [] []) [
  | built routes targets ↦ (
    record {
      routes = routes;
      targets = targets;
      breaker = drop_present routes (drop_missing routes r.breaker r.breaker);
    },
    none,
  )
  | rejected e ↦ (r, some e)
]

-- `r.breaker[host]`
unfoldable pub breaker_of : Bytes → Router → BreakerState
unfolding lookup
breaker_of host r = elim (lookup host r.breaker) [ none ↦ zero_state | some st ↦ st ]

-- `recordSuccess`
unfoldable pub record_success : Bytes → Router → Router
unfolding insert
record_success host r = record r { breaker = insert host zero_state r.breaker }

-- Ten seconds, in nanoseconds.
abbrev pub open_time : ℕ
open_time = 10 * 10 ^ 9

-- `recordFailure`
unfoldable pub record_failure : ℕ → Bytes → Router → Router
unfolding breaker_of insert
record_failure now host r =
    let st = breaker_of host r in
    record r {
      breaker =
          insert host
            (record {
              failures = st.failures + 1;
              open_until =
                  if leb 5 (st.failures + 1) then some (now + open_time) else st.open_until;
            })
            r.breaker;
    }

-- The whole seconds until a time, and at least one.
unfoldable pub retry_after : ℕ → ℕ → ℕ
retry_after now till = let s = (till - now) / 10 ^ 9 in if ltb s 1 then 1 else s

-- `isBreakerOpen`: the router behind it, and the seconds to wait where the breaker is open.
unfoldable pub is_breaker_open : ℕ → Bytes → Router → Router × Option ℕ
unfolding breaker_of insert retry_after
is_breaker_open now host r = elim (breaker_of host r).open_until [
  | none ↦ (r, none)
  | some till ↦
      if ltb till now
      then (record r { breaker = insert host zero_state r.breaker }, none)
      else (r, some (retry_after now till))
]

-- What the upstream of a proxy does: it responds, or cannot be reached at some time.
pub data Upstream : Type 0 where
  responds : Upstream
  fails_at : ℕ → Upstream

pub data Response : Type 0 where
  proxied : Route → Response
  degraded : ℕ → Response
  no_route unavailable : Response

-- `proxy.ServeHTTP`, with the two hooks that `SetRoutes` gives the proxy.
unfoldable pub serve_proxy : Route → Upstream → Router → Router × Response
unfolding record_success record_failure
serve_proxy p responds r = (record_success p.hostname r, proxied p)
serve_proxy p (fails_at later) r = (record_failure later p.hostname r, unavailable)

-- `handle` behind the test of the breaker.
unfoldable pub forward : Bytes → Upstream → Router → Router × Response
unfolding serve_proxy lookup
forward host up r = elim (lookup host r.routes) [
  | none ↦ (r, no_route)
  | some p ↦ serve_proxy p up r
]

unfoldable pub handle : ℕ → Bytes → Upstream → Router → Router × Response
unfolding is_breaker_open forward canonical_host
handle now request_host up r =
    let host = canonical_host request_host in
    let (r', wait) = is_breaker_open now host r in
    elim wait [ some s ↦ (r', degraded s) | none ↦ forward host up r' ]
