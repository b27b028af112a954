-- ===== src/RouteBuild/Owned/Services.antt =====
-- The loops over the scopes, the leases and the services keep the statement.
use dnsvard.Base.{
  ℕ, true, false, List, [], ◌∷◌, ◌++◌, ◌≡◌, ◌≢◌, inl, inr, refl, arith, if◌then◌else◌, ◌==◌, ==_iff,
  ◌&&◌, Option-cases, Bytes, text_eq, text_eq_iff, Dict, lookup, values, has_number, All,
  All-append, All-insert,
}
use dnsvard.Netip.{Addr, invalid}
use dnsvard.Routes.{Entry, Source, docker, runtime}
use dnsvard.Identity.Label.{normalize_label}
use dnsvard.Identity.Host.Preferred.{labels}
use dnsvard.Leases.{Lease, Listed, listed, list_failed, active}
use dnsvard.Docker.{ServiceRoute}
use dnsvard.Allocator.{Allocator}
use dnsvard.RouteBuild.{Scope, Env, Builder}
use dnsvard.RouteBuild.Domains.{runtime_lease_domain}
use dnsvard.RouteBuild.Targets.{pick_service_route_target}
use dnsvard.RouteBuild.Actions.{modify}
use dnsvard.RouteBuild.Actions.Kept.{
  Anything, attempt-Keeps, sequel-Keeps, then-Keeps, modify-Keeps, pure-Keeps, raise-Keeps,
  when-Keeps,
}
use dnsvard.RouteBuild.Scopes.{workspace_key, is_valid, upsert_scope}
use dnsvard.RouteBuild.Actions.{Result, ok, err}
use dnsvard.RouteBuild.Services.{
  add_entry, add_http, push_to, ip_text, warn_scope, scopes_of_services, scope_entries, lease_hosts,
  lease_entries, with_leases, active_leases, tcp_routes_of, serves_http, label_routes, target_of,
  count_http, count_default, service_to, service_with, service_in, service_entries,
}
use dnsvard.RouteBuild.Owned.{
  Owned, HasOwned, IsListener, Owns, Safe, if-Owns, with_entries, with_routes, with_projects,
}
use dnsvard.RouteBuild.Owned.Scopes.{upsert_scope-Safe, manage-Owns, hostnames_for_scope-Safe}

labels-snoc : (ws : List Bytes) (w : Bytes) → normalize_label w ≢ [] → labels (ws ++ w ∷ []) ≢ []
unfolding labels
labels-snoc [] w ne z = ground (arith, text_eq_iff (normalize_label w) [])
labels-snoc (v ∷ ws) w ne z = ground (arith, labels-snoc ws w ne)

pub All-values :
    {V : Type 0} (P : V → Type 0) (m : Dict V) → All (λ (p : Bytes × V). P p.1) m → All P (values m)
All-values P [] h = tt
All-values P ((k, v) ∷ m) (p, h) = (p, All-values P m h)

abbrev pub HasLabel : Bytes × List Bytes → Type 0
HasLabel p = labels p.1 ≢ []

push_to-labels :
    (key v : Bytes) (m : Dict (List Bytes))
    → normalize_label v ≢ []
    → All HasLabel m
    → All HasLabel (push_to key v m)
unfolding push_to
push_to-labels key v m ne h = elim (Option-cases (lookup key m)) [
  | inl e ↦ rw (e, push_to) (All-insert HasLabel key (v ∷ []) m (labels-snoc [] v ne) h)
  | inr (vs, e) ↦ rw (e, push_to) (All-insert HasLabel key (vs ++ v ∷ []) m (labels-snoc vs v ne) h)
]

module _ {env : Env} {pool : Allocator} where
  pub add_entry-Owns :
      (host : Bytes) (a : Addr) (source : Source) (b : Builder)
      → Owned env pool a
      → Owns env pool b
      → Owns env pool (add_entry host a source b)
  add_entry-Owns host a source b own h =
      with_entries env pool h
        (b.entries ++ record { hostname = host; ip = a; source = source } ∷ [])
        (All-append (λ (e : Entry). Owned env pool e.ip) b.entries _ h.entries (own, tt))

  pub add_entry-Safe :
      (host : Bytes) (a : Addr) (source : Source)
      → Owned env pool a
      → Safe env pool Anything (modify (add_entry host a source))
  add_entry-Safe host a source own =
      modify-Keeps (add_entry host a source) (λ b k. add_entry-Owns host a source b own k)

  pub add_http-Safe : (host target : Bytes) → Safe env pool Anything (modify (add_http host target))
  add_http-Safe host target = modify-Keeps (add_http host target) (λ b k. k)

  push_to-Safe :
      (s : Scope)
      → normalize_label s.workspace ≢ []
      → Safe env pool Anything (
          modify (λ b. record b {
            project_workspaces = push_to s.project s.workspace b.project_workspaces;
          }))
  push_to-Safe s ne = record {
    behind = λ b k. (
      with_projects env pool k (push_to s.project s.workspace b.project_workspaces)
          (push_to-labels s.project s.workspace b.project_workspaces ne k.projects),
      tt,
    );
  }

  pub service_scope-Safe :
      (r : ServiceRoute)
      → Safe env pool
          (HasOwned env pool)
          (upsert_scope env r.project r.workspace r.workspace_path invalid)
  unfolding is_valid
  service_scope-Safe r =
      upsert_scope-Safe r.project r.workspace r.workspace_path invalid (λ e. absurd (cc e))

  warn_scope-Owns :
      (container : Bytes) (o : Result Scope) (b : Builder)
      → Owns env pool b
      → Owns env pool (warn_scope container o b)
  unfolding warn_scope
  warn_scope-Owns container (err e) b h = h
  warn_scope-Owns container (ok s) b h = h

  pub scopes_of_services-Safe :
      (rs : List ServiceRoute) → Safe env pool Anything (scopes_of_services env rs)
  unfolding scopes_of_services
  scopes_of_services-Safe [] = pure-Keeps tt
  scopes_of_services-Safe (r ∷ rs) = sequel-Keeps (attempt-Keeps (service_scope-Safe r)) (λ o _.
      then-Keeps (modify-Keeps (warn_scope r.container_name o) (warn_scope-Owns r.container_name o))
        (scopes_of_services-Safe rs))

  pub scope_entries-Safe :
      (ss : List Scope) → All (HasOwned env pool) ss → Safe env pool Anything (scope_entries env ss)
  unfolding scope_entries
  scope_entries-Safe [] h = pure-Keeps tt
  scope_entries-Safe (s ∷ ss) ((own, ne), h) = sequel-Keeps (hostnames_for_scope-Safe s []) (λ n _.
      then-Keeps (add_entry-Safe n.workspace_fqdn s.ip runtime own)
        (then-Keeps (push_to-Safe s ne) (scope_entries-Safe ss h)))

  lease_hosts-Owns :
      (l : Lease) (hs : List Bytes) (b : Builder)
      → Owns env pool b
      → Owns env pool (lease_hosts env l hs b)
  unfolding lease_hosts
  lease_hosts-Owns l [] b h = h
  lease_hosts-Owns l (n ∷ hs) b h =
      let k = add_entry-Owns n env.workspace_ip runtime b (inl refl) h in
      lease_hosts-Owns l hs _ (if-Owns env pool (l.http_port == 0) _ _ (λ _. k) (λ _. k))

  lease_entries-Owns :
      (ls : List Lease) (b : Builder) → Owns env pool b → Owns env pool (lease_entries env ls b)
  unfolding lease_entries
  lease_entries-Owns [] b h = h
  lease_entries-Owns (l ∷ ls) b h =
      lease_entries-Owns ls _
        (lease_hosts-Owns l l.hostnames _ (manage-Owns (runtime_lease_domain l) b h))

  with_leases-Safe : (l : Listed) → Safe env pool Anything (with_leases env l)
  unfolding with_leases
  with_leases-Safe (listed ls) = modify-Keeps (lease_entries env ls) (lease_entries-Owns ls)
  with_leases-Safe (list_failed e) = raise-Keeps (λ z. cc)

  pub active_leases-Safe : Safe env pool Anything (active_leases env)
  unfolding active_leases
  active_leases-Safe = record {
    behind = λ b h.
        let p = active env.leases_written env.running b.lease_file in
        (with_leases-Safe p.1).behind (record b { lease_file = p.0 }) h;
  }

  -- The TCP routes of a service on a scope with such an address.
  tcp_routes_of-Owns :
      (r : ServiceRoute) (a : Addr) (ps seen : List ℕ) (b : Builder)
      → Owned env pool a
      → Owns env pool b
      → Owns env pool (tcp_routes_of env r a ps seen b)
  unfolding tcp_routes_of
  tcp_routes_of-Owns r a [] seen b own h = h
  tcp_routes_of-Owns r a (p ∷ ps) seen b own h =
      if-Owns env pool (p == env.http_port) _ _ (λ _. tcp_routes_of-Owns r a ps seen b own h)
        (λ e.
          if-Owns env pool (has_number seen p) _ _ (λ _. tcp_routes_of-Owns r a ps seen b own h)
            (λ _. tcp_routes_of-Owns r a ps (p ∷ seen) _ own (added e)))
    where
      added :
          (p == env.http_port) ≡ false
          → Owns env pool (record b {
            tcp_routes =
                b.tcp_routes
                ++ record {
                  listen_ip = ip_text env.v6_text a;
                  listen_port = p;
                  target_ip = r.container_ip;
                  target_port = p;
                }
                  ∷ [];
          })
      added e = with_routes env pool h _ (
          All-append (IsListener env pool) b.tcp_routes _ h.routes (
            record {
              address = a;
              owned = own;
              text = refl;
              apart = λ z. cc (e, (==_iff p env.http_port).1 z);
              port = refl;
            },
            tt,
          ))

  label_routes-Safe :
      (r : ServiceRoute) (s : Scope) (target : Bytes) (ls : List Bytes)
      → Owned env pool s.ip
      → Safe env pool Anything (label_routes env r s target ls)
  unfolding label_routes
  label_routes-Safe r s target [] own = pure-Keeps tt
  label_routes-Safe r s target (l ∷ ls) own = sequel-Keeps (hostnames_for_scope-Safe s l) (λ n _.
      then-Keeps (add_entry-Safe n.service_fqdn s.ip docker own) (
        then-Keeps (when-Keeps (serves_http env r) (add_http-Safe n.service_fqdn target))
          (label_routes-Safe r s target ls own)))

  count_http-Owns :
      (r : ServiceRoute) (key target : Bytes) (b : Builder)
      → Owns env pool b
      → Owns env pool (count_http env r key target b)
  unfolding count_http
  count_http-Owns r key target b h = if-Owns env pool (serves_http env r) _ _ (λ _. h) (λ _. h)

  count_default-Owns :
      (r : ServiceRoute) (key target : Bytes) (b : Builder)
      → Owns env pool b
      → Owns env pool (count_default env r key target b)
  unfolding count_default
  count_default-Owns r key target b h = if-Owns env pool r.default_http _ _ (λ _. h) (λ _. h)

  target_of-Owns :
      (r : ServiceRoute) (b : Builder) → Owns env pool b → Owns env pool (target_of env r b).1
  unfolding target_of
  target_of-Owns r b h =
      let p = pick_service_route_target r env.avoid env.now env.clock in
      if-Owns env pool (p.alternate && (if text_eq p.avoided [] then false else true)) _ _ (λ _. h)
        (λ _. h)

  service_to-Safe :
      (r : ServiceRoute) (s : Scope) (target : Bytes)
      → Owned env pool s.ip
      → Safe env pool Anything (service_to env r s target)
  unfolding service_to
  service_to-Safe r s target own =
      let key = workspace_key s.project s.workspace in
      then-Keeps
        (modify-Keeps (tcp_routes_of env r s.ip r.tcp_ports [])
          (λ c k. tcp_routes_of-Owns r s.ip r.tcp_ports [] c own k))
        (then-Keeps (modify-Keeps (count_http env r key target) (count_http-Owns r key target)) (
          then-Keeps (label_routes-Safe r s target r.host_labels own)
            (modify-Keeps (count_default env r key target) (count_default-Owns r key target))))

  service_with-Safe :
      (r : ServiceRoute) (s : Scope)
      → HasOwned env pool s
      → Safe env pool Anything (service_with env r s)
  unfolding service_with
  service_with-Safe r s (own, ne) = record {
    behind = λ b h.
        (service_to-Safe r s (target_of env r b).0 own).behind (target_of env r b).1
          (target_of-Owns r b h);
  }

  service_in-Safe :
      (r : ServiceRoute) (o : Result Scope)
      → ((s : Scope) → o ≡ ok s → HasOwned env pool s)
      → Safe env pool Anything (service_in env r o)
  unfolding service_in
  service_in-Safe r (err e) k = pure-Keeps tt
  service_in-Safe r (ok s) k = service_with-Safe r s (k s refl)

  pub service_entries-Safe :
      (rs : List ServiceRoute) → Safe env pool Anything (service_entries env rs)
  unfolding service_entries
  service_entries-Safe [] = pure-Keeps tt
  service_entries-Safe (r ∷ rs) =
      sequel-Keeps (attempt-Keeps (service_scope-Safe r))
        (λ o k. then-Keeps (service_in-Safe r o k) (service_entries-Safe rs))
