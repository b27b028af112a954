-- ===== src/RouteBuild/Owned/Result.antt =====
-- Whose addresses the records and the TCP routes of all workspaces have.
use dnsvard.Base.{List, [], ◌∷◌, ◌++◌, ◌≡◌, ◌≢◌, inl, refl, subst, values, All}
use dnsvard.Routes.{Entry, merge, runtime}
use dnsvard.Routes.Origin.{merge-All}
use dnsvard.Dns.Table.{Record}
use dnsvard.Allocator.{Allocator}
use dnsvard.Allocator.Holders.{IsSound}
use dnsvard.Leases.{LeaseFile}
use dnsvard.Docker.{ServiceRoute, Diagnostics}
use dnsvard.Docker.{DiscoverError}
use dnsvard.Docker.Discover.{Discovered, discovered, discover_failed}
use dnsvard.RouteBuild.{Scope, Env, docker_discover_failed, Builder, new_builder, panicked}
use dnsvard.RouteBuild.Actions.{Result, ok, err, modify, ◌>>◌}
use dnsvard.RouteBuild.Actions.Kept.{
  Anything, Yields, sequel-Keeps, then-Keeps, modify-Keeps, pure-Keeps, raise-Keeps, if-Keeps,
  look-Keeps,
}
use dnsvard.RouteBuild.Services.{warn, scope_entries}
use dnsvard.RouteBuild.Defaults.{settle_defaults, default_routes, project_entries}
use dnsvard.RouteBuild.Assemble.{
  BuildResult, to_records, docker_warnings, finish, bare_entries, without_docker, with_docker,
  build_with, build_routes,
}
use dnsvard.RouteBuild.Owned.{Owned, HasOwned, IsListener, Owns, IsError, Safe}
use dnsvard.RouteBuild.Owned.Scopes.{upsert_scope-Safe, hostnames_for_scope-Safe}
use dnsvard.RouteBuild.Owned.Services.{
  All-values, add_entry-Safe, scopes_of_services-Safe, scope_entries-Safe, active_leases-Safe,
  service_entries-Safe,
}
use dnsvard.RouteBuild.Owned.Defaults.{
  settle_defaults-Owns, default_routes-Safe, project_entries-Safe,
}

module _ (env : Env) (pool : Allocator) where
  -- The records and the listeners of a result.
  pub record IsServed (r : BuildResult) : Type 0 where
    pub records : All (λ (x : Record). Owned env pool x.ip) r.records
    pub listeners : All (IsListener env pool) r.tcp_routes

  to_records-All :
      (es : List Entry)
      → All (λ (e : Entry). Owned env pool e.ip) es
      → All (λ (x : Record). Owned env pool x.ip) (to_records es)
  unfolding to_records
  to_records-All [] h = tt
  to_records-All (e ∷ es) (p, h) = (p, to_records-All es h)

  finish-Safe : Safe env pool IsServed (finish env)
  unfolding finish
  finish-Safe = record {
    behind = λ b h. (
      h,
      record {
        records =
            to_records-All (merge b.entries).entries
              (merge-All (Owned env pool) b.entries h.entries);
        listeners = h.routes;
      },
    );
  }

  bare_entries-Safe :
      (ss : List Scope) → All (HasOwned env pool) ss → Safe env pool Anything (bare_entries env ss)
  unfolding bare_entries
  bare_entries-Safe [] h = pure-Keeps tt
  bare_entries-Safe (s ∷ ss) ((own, ne), h) = sequel-Keeps (hostnames_for_scope-Safe s []) (λ n _.
      then-Keeps (add_entry-Safe n.workspace_fqdn s.ip runtime own)
        (then-Keeps (add_entry-Safe n.project_fqdn s.ip runtime own) (bare_entries-Safe ss h)))

  scopes_of : (b : Builder) → Owns env pool b → All (HasOwned env pool) (values b.scopes)
  scopes_of b h = All-values (HasOwned env pool) b.scopes h.scopes

  bare-Safe :
      (e : DiscoverError)
      → Safe env pool IsServed (
          modify (warn (docker_discover_failed e))
          >> ((λ b. bare_entries env (values b.scopes) b) >> finish env))
  bare-Safe e = then-Keeps (modify-Keeps (warn (docker_discover_failed e)) (λ b h. h)) (
      then-Keeps
        (look-Keeps (λ b. values b.scopes) (bare_entries env)
          (λ b h. bare_entries-Safe (values b.scopes) (scopes_of b h)))
        finish-Safe)

  without_docker-Safe : (e : DiscoverError) → Safe env pool IsServed (without_docker env e)
  unfolding without_docker
  without_docker-Safe e = if-Keeps env.required (λ _. raise-Keeps (λ z. cc)) (λ _. bare-Safe e)

  with_docker-Safe :
      (services : List ServiceRoute) (diag : Diagnostics)
      → Safe env pool IsServed (with_docker env services diag)
  unfolding with_docker
  with_docker-Safe services diag =
      then-Keeps
        (modify-Keeps (λ b. record b { warnings = b.warnings ++ docker_warnings diag }) (λ b h. h))
        (then-Keeps (scopes_of_services-Safe services) (
          then-Keeps
            (look-Keeps (λ b. values b.scopes) (scope_entries env)
              (λ b h. scope_entries-Safe (values b.scopes) (scopes_of b h)))
            (then-Keeps active_leases-Safe (
              then-Keeps (service_entries-Safe services) (
                then-Keeps
                  (modify-Keeps (λ b. settle_defaults b.http_counts b)
                    (λ b. settle_defaults-Owns b.http_counts b))
                  (then-Keeps
                    (look-Keeps (λ b. b.default_targets) (default_routes env)
                      (λ b h. default_routes-Safe b.default_targets))
                    (then-Keeps
                      (look-Keeps (λ b. b.project_workspaces) (project_entries env)
                        (λ b h. project_entries-Safe b.project_workspaces h.projects))
                      finish-Safe)))))))

  build_with-Safe : (found : Discovered) → Safe env pool IsServed (build_with env found)
  unfolding build_with
  build_with-Safe (discover_failed e) = without_docker-Safe e
  build_with-Safe (discovered services diag) = with_docker-Safe services diag

  new_builder-Owns : (file : LeaseFile) → IsSound pool → Owns env pool (new_builder pool file)
  new_builder-Owns file sound = record {
    sound = sound;
    network = refl;
    bits = refl;
    scopes = tt;
    entries = tt;
    routes = tt;
    projects = tt;
  }

-- Whatever docker answers, on a sound allocator: the function does not panic, and leaves a sound
-- allocator; and where it succeeds, every record has the address of the current workspace or one
-- of the allocator's pool, and every TCP route listens at such an address, on a port that is not
-- that of HTTP, for the same port of its target.
pub build_routes-IsServed :
    (env : Env) (found : Discovered) (pool : Allocator) (file : LeaseFile)
    → IsSound pool
    → ((build_routes env found pool file).0 ≢ err panicked)
      × IsSound (build_routes env found pool file).1.allocator
      × ((r : BuildResult) → (build_routes env found pool file).0 ≡ ok r → IsServed env pool r)
unfolding build_routes
build_routes-IsServed env found pool file sound = apart (build_routes env found pool file) (
    (sequel-Keeps
        (upsert_scope-Safe env.project env.workspace env.workspace_path env.workspace_ip
          (λ _. inl refl))
        (λ s _. build_with-Safe env pool found)).behind
      (new_builder pool file) (new_builder-Owns env pool file sound))
  where
    same : {y r : BuildResult} → ok y ≡ ok r → y ≡ r
    same e = cc

    apart :
        (x : Result BuildResult × Builder)
        → Yields (Owns env pool) (IsError env pool) (IsServed env pool) x
        → (x.0 ≢ err panicked)
          × IsSound x.1.allocator
          × ((r : BuildResult) → x.0 ≡ ok r → IsServed env pool r)
    apart (ok y, b) (h, s) = ((λ z. cc), h.sound, λ r e. subst (IsServed env pool) (same e) s)
    apart (err e, b) (h, s) = ((λ z. s (cc)), h.sound, λ r e. absurd (cc e))
