-- ===== src/RouteBuild/Targets.antt =====
-- cmd/dnsvard/routes_build.go: `pickServiceRouteTarget`.
pub mod Avoided
use dnsvard.Base.{
  ℕ, Bool, true, false, Option, none, some, List, [], ◌∷◌, ◌++◌, if◌then◌else◌, ◌==◌, ltb, Bytes,
  codes, text_eq, trim_space, decimal, Dict, lookup,
}
use dnsvard.Docker.{ServiceRoute}

-- `fmt.Sprintf("http://%s:%d", ip, port)`
unfoldable pub http_target : Bytes → ℕ → Bytes
unfolding decimal
http_target ip port = codes "http://" ++ (ip ++ (codes ":" ++ decimal port))

-- `isTargetAvoided`
unfoldable pub is_target_avoided : Bytes → Dict ℕ → ℕ → Bool
unfolding lookup trim_space
is_target_avoided target avoid now = elim (lookup (trim_space target) avoid) [
  | none ↦ false
  | some expires_at ↦ ltb now expires_at
]

unfoldable pub has_ip : List Bytes → Bytes → Bool
unfolding text_eq
has_ip [] ip = false
has_ip (e ∷ es) ip = if text_eq e ip then true else has_ip es ip

-- The loop over `CandidateIPs`.
unfoldable pub add_ips : List Bytes → List Bytes → List Bytes
unfolding trim_space text_eq has_ip
add_ips [] out = out
add_ips (i ∷ is) out =
    let ip = trim_space i in
    add_ips is (if text_eq ip [] then out else if has_ip out ip then out else out ++ ip ∷ [])

unfoldable pub route_ips : ServiceRoute → List Bytes
unfolding add_ips trim_space text_eq
route_ips r =
    add_ips r.candidate_ips
      (if text_eq (trim_space r.container_ip) [] then [] else trim_space r.container_ip ∷ [])

-- The target, the first target that was avoided, and whether another was taken for it.
pub record Picked : Type 0 where
  pub target : Bytes
  pub avoided : Bytes
  pub alternate : Bool

abbrev pub no_target : Picked
no_target = record { target = []; avoided = []; alternate = false }

-- The loop over the candidates; `fallback` is what is returned where all are avoided.
unfoldable pub pick_from : Dict ℕ → ℕ → ℕ → Picked → List Bytes → Bytes → Picked
unfolding http_target is_target_avoided text_eq
pick_from avoid now port fallback [] first = fallback
pick_from avoid now port fallback (ip ∷ ips) first =
    let target = http_target ip port in
    let rest = pick_from avoid now port fallback ips (if text_eq first [] then target else first) in
    if is_target_avoided target avoid now then rest else record {
      target = target;
      avoided = first;
      alternate = if text_eq first [] then false else true;
    }

unfoldable pub pick_among : Dict ℕ → ℕ → ℕ → List Bytes → Picked
unfolding pick_from http_target
pick_among avoid now port [] = no_target
pick_among avoid now port (ip ∷ ips) =
    pick_from avoid now port
      (record { target = http_target ip port; avoided = []; alternate = false }) (ip ∷ ips) []

-- `now`, or the clock where it is zero.
unfoldable pub or_clock : Option ℕ → ℕ → ℕ
or_clock none clock = clock
or_clock (some now) clock = now

-- `pickServiceRouteTarget`
unfoldable pub pick_service_route_target : ServiceRoute → Dict ℕ → Option ℕ → ℕ → Picked
unfolding pick_among route_ips or_clock
pick_service_route_target r avoid now clock =
    if r.http_port == 0
    then no_target
    else pick_among avoid (or_clock now clock) r.http_port (route_ips r)
