-- ===== src/RouteBuild/Services.antt =====
-- cmd/dnsvard/routes_build.go: the loops of `buildRoutes` over the scopes, the leases and the
-- services that docker has.
use dnsvard.Base.{
  ℕ, ◌+◌, Bool, true, false, none, some, List, [], ◌∷◌, ◌++◌, if◌then◌else◌, ◌==◌, ltb, ◌&&◌, Bytes,
  codes, text_eq, decimal, Dict, lookup, insert, has_number,
}
use dnsvard.Netip.{Addr, invalid, v4, v6}
use dnsvard.Netip.Dotted.{addr_text}
use dnsvard.Routes.{Source, docker, runtime}
use dnsvard.Leases.{Lease, Listed, listed, list_failed, active}
use dnsvard.Docker.{ServiceRoute}
use dnsvard.RouteBuild.{Scope, Env, Warning, scope_failed, quarantined, Builder, leases_failed}
use dnsvard.RouteBuild.Domains.{runtime_lease_domain}
use dnsvard.RouteBuild.Targets.{pick_service_route_target}
use dnsvard.RouteBuild.Scopes.{workspace_key, upsert_scope, hostnames_for_scope, manage}
use dnsvard.RouteBuild.Actions.{
  Action, Result, ok, err, pure, raise, modify, ◌>>=◌, ◌>>◌, when, attempt,
}

abbrev pub add_entry : Bytes → Addr → Source → Builder → Builder
add_entry host ip source b = record b {
  entries = b.entries ++ record { hostname = host; ip = ip; source = source } ∷ [];
}

abbrev pub add_http : Bytes → Bytes → Builder → Builder
add_http host target b = record b {
  http_routes = b.http_routes ++ record { hostname = host; target = target } ∷ [];
}

abbrev pub warn : Warning → Builder → Builder
warn w b = record b { warnings = b.warnings ++ w ∷ [] }

-- A container whose scope has failed.
unfoldable pub warn_scope : Bytes → Result Scope → Builder → Builder
warn_scope container (err e) b = warn (scope_failed container e) b
warn_scope container (ok s) b = b

-- `m[key]++`
unfoldable pub count_up : Bytes → Dict ℕ → Dict ℕ
unfolding lookup insert
count_up key m = insert key (elim (lookup key m) [ none ↦ 1 | some n ↦ n + 1 ]) m

-- `if m[key] == "" { m[key] = v }`
unfoldable pub set_first : Bytes → Bytes → Dict Bytes → Dict Bytes
unfolding lookup insert text_eq
set_first key v m = elim (lookup key m) [
  | none ↦ insert key v m
  | some old ↦ if text_eq old [] then insert key v m else m
]

-- `m[key] = append(m[key], v)`
unfoldable pub push_to : Bytes → Bytes → Dict (List Bytes) → Dict (List Bytes)
unfolding lookup insert
push_to key v m = insert key (elim (lookup key m) [ none ↦ v ∷ [] | some vs ↦ vs ++ v ∷ [] ]) m

-- `scope.ip.String()`
unfoldable pub ip_text : (ℕ → Bytes) → Addr → Bytes
unfolding addr_text
ip_text v6_text invalid = codes "invalid IP"
ip_text v6_text (v4 a) = addr_text a
ip_text v6_text (v6 a) = v6_text a

module _ (env : Env) where
  -- The first loop over the services: each has its scope, or a warning.
  unfoldable pub scopes_of_services : List ServiceRoute → Action (Unit {0})
  unfolding upsert_scope warn_scope
  scopes_of_services [] = pure tt
  scopes_of_services (r ∷ rs) =
      attempt (upsert_scope env r.project r.workspace r.workspace_path invalid) >>= λ o.
      modify (warn_scope r.container_name o) >> scopes_of_services rs

  -- The loop over the scopes.
  unfoldable pub scope_entries : List Scope → Action (Unit {0})
  unfolding hostnames_for_scope push_to
  scope_entries [] = pure tt
  scope_entries (s ∷ ss) = hostnames_for_scope env s [] >>= λ h.
      modify (add_entry h.workspace_fqdn s.ip runtime)
      >> (modify (λ b. record b {
        project_workspaces = push_to s.project s.workspace b.project_workspaces;
      })
          >> scope_entries ss)

  -- `fmt.Sprintf("http://localhost:%d", lease.HTTPPort)`
  unfoldable pub lease_target : Lease → Bytes
  unfolding decimal
  lease_target l = codes "http://localhost:" ++ decimal l.http_port

  unfoldable pub lease_hosts : Lease → List Bytes → Builder → Builder
  unfolding lease_target
  lease_hosts l [] b = b
  lease_hosts l (h ∷ hs) b =
      let b' = add_entry h env.workspace_ip runtime b in
      lease_hosts l hs (if l.http_port == 0 then b' else add_http h (lease_target l) b')

  -- The loop over the leases.
  unfoldable pub lease_entries : List Lease → Builder → Builder
  unfolding lease_hosts manage runtime_lease_domain
  lease_entries [] b = b
  lease_entries (l ∷ ls) b =
      lease_entries ls (lease_hosts l l.hostnames (manage (runtime_lease_domain l) b))

  unfoldable pub with_leases : Listed → Action (Unit {0})
  unfolding lease_entries
  with_leases (listed ls) = modify (lease_entries ls)
  with_leases (list_failed e) = raise (leases_failed e)

  -- `runtimeProvider.Active()` and the loop over what it returns.
  unfoldable pub active_leases : Action (Unit {0})
  unfolding active with_leases
  active_leases b =
      let (file, ls) = active env.leases_written env.running b.lease_file in
      with_leases ls (record b { lease_file = file })

  -- The loop over the ports of a service, with `portSeen`.
  unfoldable pub tcp_routes_of : ServiceRoute → Addr → List ℕ → List ℕ → Builder → Builder
  unfolding ip_text has_number
  tcp_routes_of r ip [] seen b = b
  tcp_routes_of r ip (p ∷ ps) seen b =
      let skipped = tcp_routes_of r ip ps seen b in
      let added = tcp_routes_of r ip ps (p ∷ seen) (record b {
        tcp_routes =
            b.tcp_routes
            ++ record {
              listen_ip = ip_text env.v6_text ip;
              listen_port = p;
              target_ip = r.container_ip;
              target_port = p;
            }
              ∷ [];
      }) in
      if p == env.http_port then skipped else if has_number seen p then skipped else added

  -- `route.HTTPEnabled && route.HTTPPort > 0`
  unfoldable pub serves_http : ServiceRoute → Bool
  serves_http r = r.http_enabled && ltb 0 r.http_port

  -- The loop over the host labels.
  unfoldable pub label_routes : ServiceRoute → Scope → Bytes → List Bytes → Action (Unit {0})
  unfolding hostnames_for_scope serves_http
  label_routes r s target [] = pure tt
  label_routes r s target (l ∷ ls) = hostnames_for_scope env s l >>= λ h.
      modify (add_entry h.service_fqdn s.ip docker)
      >> (when (serves_http r) (modify (add_http h.service_fqdn target))
          >> label_routes r s target ls)

  -- The target of a service, and the warning where another was avoided for it.
  unfoldable pub target_of : ServiceRoute → Builder → Bytes × Builder
  unfolding pick_service_route_target text_eq
  target_of r b =
      let p = pick_service_route_target r env.avoid env.now env.clock in
      (
        p.target,
        if p.alternate && (if text_eq p.avoided [] then false else true)
            then warn (quarantined p.avoided r p.target) b
            else b,
      )

  unfoldable pub count_http : ServiceRoute → Bytes → Bytes → Builder → Builder
  unfolding serves_http count_up set_first
  count_http r key target b =
      if serves_http r
      then record b {
        http_counts = count_up key b.http_counts;
        first_targets = set_first key target b.first_targets;
      }
      else b

  unfoldable pub count_default : ServiceRoute → Bytes → Bytes → Builder → Builder
  unfolding count_up set_first
  count_default r key target b =
      if r.default_http
      then record b {
        default_counts = count_up key b.default_counts;
        default_targets = set_first key target b.default_targets;
      }
      else b

  -- A round of the second loop over the services behind the choice of the target.
  unfoldable pub service_to : ServiceRoute → Scope → Bytes → Action (Unit {0})
  unfolding tcp_routes_of count_http label_routes count_default workspace_key
  service_to r s target =
      let key = workspace_key s.project s.workspace in
      modify (tcp_routes_of r s.ip r.tcp_ports [])
      >> (modify (count_http r key target)
          >> (label_routes r s target r.host_labels >> modify (count_default r key target)))

  -- Such a round, whose scope is found.
  unfoldable pub service_with : ServiceRoute → Scope → Action (Unit {0})
  unfolding target_of service_to
  service_with r s b = let (target, b1) = target_of r b in service_to r s target b1

  unfoldable pub service_in : ServiceRoute → Result Scope → Action (Unit {0})
  unfolding service_with
  service_in r (err e) = pure tt
  service_in r (ok s) = service_with r s

  -- The second loop over the services.
  unfoldable pub service_entries : List ServiceRoute → Action (Unit {0})
  unfolding upsert_scope service_in
  service_entries [] = pure tt
  service_entries (r ∷ rs) =
      attempt (upsert_scope env r.project r.workspace r.workspace_path invalid) >>= λ o.
      service_in r o >> service_entries rs
