-- ===== src/HttpRouter/Tests.antt =====
-- Runs of the router, and its theorems at concrete inputs.
use dnsvard.Base.{
  ℕ, ◌+◌, ◌≤◌, Option, none, some, List, [], ◌∷◌, ◌≡◌, ◌≢◌, ◌↔◌, refl, Bytes, codes, All, lookup,
  length, text_eq, text_eq_iff, trim_space, insert, erase,
}
use dnsvard.HttpRouter.{
  Route, new_router, zero_state, canonical_host, set_routes, build_routes, check_route,
  check_scheme, breaker_of, is_breaker_open, open_time, fails_at, unavailable, handle, Router,
  record_failure, forward, serve_proxy, drop_missing, drop_present,
}
use dnsvard.HttpRouter.Replace.{IsServable, set_routes_iff}
use dnsvard.HttpRouter.History.{
  Event, replaced, requested, run, run_open_iff, fail_all, fail_all-opens,
}
use dnsvard.HttpRouter.Isolation.{HasOwnHosts, set_routes-HasOwnHosts, handle-other}

-- Every target parses, with the scheme http.
abbrev always_http : Bytes → Option Bytes
always_http target = some (codes "http")

abbrev web : Route
web = record { hostname = codes "Web.Test.:80"; target = codes " http://127.0.0.1:3000" }

abbrev api : Route
api = record { hostname = codes "api.test"; target = codes "http://127.0.0.1:3001" }

-- The dot in front of a port stays.
port_dot : canonical_host web.hostname ≡ codes "web.test."
unfolding canonical_host
port_dot = refl

set_routes_iff_example :
    (((set_routes always_http (web ∷ api ∷ []) new_router).1 ≡ none)
      ↔ All (IsServable always_http) (web ∷ api ∷ []))
    × ((set_routes always_http (web ∷ api ∷ []) new_router).1 ≢ none
        → (set_routes always_http (web ∷ api ∷ []) new_router).0 ≡ new_router)
set_routes_iff_example = set_routes_iff always_http (web ∷ api ∷ []) new_router

both_set : (set_routes always_http (web ∷ api ∷ []) new_router).1 ≡ none
unfolding set_routes build_routes check_route check_scheme canonical_host text_eq
both_set = refl

abbrev events : List Event
events = replaced (api ∷ []) ∷ requested 1 (codes "API.test") (fails_at 2) ∷ []

run_open_iff_example :
    ((breaker_of (codes "api.test") (run always_http events new_router)).open_until ≢ none)
    ↔ (5 ≤ (breaker_of (codes "api.test") (run always_http events new_router)).failures)
run_open_iff_example = run_open_iff always_http events (codes "api.test")

new_closed : breaker_of (codes "api.test") new_router ≡ zero_state
unfolding breaker_of lookup
new_closed = refl

fail_all-opens_example :
    ((is_breaker_open 9
        (codes "api.test")
        (fail_all (5 ∷ 4 ∷ 3 ∷ 2 ∷ 1 ∷ []) (codes "api.test") new_router)).1
      ≢ none)
    ↔ ((5 ≤ length {A = ℕ} (5 ∷ 4 ∷ 3 ∷ 2 ∷ 1 ∷ [])) × (9 ≤ 5 + open_time))
fail_all-opens_example =
    fail_all-opens 5 (4 ∷ 3 ∷ 2 ∷ 1 ∷ []) 9 (codes "api.test") new_router new_closed

new-HasOwnHosts : HasOwnHosts new_router
unfolding lookup
new-HasOwnHosts host p e = absurd (cc)

abbrev shop : Route
shop = record { hostname = codes "shop.test"; target = codes "http://127.0.0.1:3002" }

-- A router of two hosts, one of which failed once.
abbrev routed : Router
routed = record_failure 2 (codes "api.test") (set_routes always_http (api ∷ shop ∷ []) new_router).0

routed-HasOwnHosts : HasOwnHosts routed
unfolding record_failure
routed-HasOwnHosts = set_routes-HasOwnHosts always_http (api ∷ shop ∷ []) new_router new-HasOwnHosts

other_host : canonical_host (codes "Shop.test:80") ≢ codes "api.test"
unfolding canonical_host text_eq
other_host = λ e. cc ((text_eq_iff (canonical_host (codes "Shop.test:80")) (codes "api.test")).1 e)

handle-other_example :
    breaker_of (codes "api.test") (handle 3 (codes "Shop.test:80") (fails_at 4) routed).0
    ≡ breaker_of (codes "api.test") routed
handle-other_example =
    handle-other 3 (codes "Shop.test:80") (codes "api.test") (fails_at 4) routed routed-HasOwnHosts
      other_host

-- The proxy was asked, and the failure of each host is counted for itself.
counted_apart :
    ((handle 3 (codes "Shop.test:80") (fails_at 4) routed).1 ≡ unavailable)
    × ((breaker_of
          (codes "shop.test")
          (handle 3 (codes "Shop.test:80") (fails_at 4) routed).0).failures
        ≡ 1)
    × ((breaker_of (codes "api.test") routed).failures ≡ 1)
unfolding handle is_breaker_open forward serve_proxy record_failure breaker_of set_routes
    build_routes check_route check_scheme drop_missing drop_present canonical_host trim_space insert
    lookup erase text_eq
counted_apart = (refl, refl, refl)
