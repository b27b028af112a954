-- ===== src/RouteBuild/Assemble.antt =====
-- cmd/dnsvard/routes_build.go: `buildRoutes`.
use dnsvard.Base.{List, [], ◌∷◌, ◌++◌, if◌then◌else◌, Bytes, Dict, values, map}
use dnsvard.Routes.{Entry, merge, runtime}
use dnsvard.Dns.Table.{Record}
use dnsvard.HttpRouter
use dnsvard.TcpProxy
use dnsvard.Allocator.{Allocator}
use dnsvard.Leases.{LeaseFile}
use dnsvard.Config.{ConfigError}
use dnsvard.Docker
use dnsvard.Docker.{ServiceRoute, Diagnostics}
use dnsvard.Docker.Discover.{Discovered, discovered, discover_failed}
use dnsvard.RouteBuild.{
  Scope, Env, Warning, docker_discover_failed, docker_warning, label_validation, config_load_failed,
  merge_warning, Builder, new_builder, docker_failed,
}
use dnsvard.RouteBuild.Domains.{managed_domains_from_set, config_files_from}
use dnsvard.RouteBuild.Scopes.{upsert_scope, hostnames_for_scope}
use dnsvard.RouteBuild.Services.{
  add_entry, warn, scopes_of_services, scope_entries, active_leases, service_entries,
}
use dnsvard.RouteBuild.Defaults.{settle_defaults, default_routes, project_entries}
use dnsvard.RouteBuild.Actions.{Action, Result, ok, pure, raise, modify, ◌>>=◌, ◌>>◌}

-- `buildRoutesResult`
pub record BuildResult : Type 0 where
  pub records : List Record
  pub http_routes : List HttpRouter.Route
  pub tcp_routes : List TcpProxy.Route
  pub managed_domains : List Bytes
  pub workspace_domains : Dict Bytes
  pub warnings : List Warning
  pub config_files : List Bytes

unfoldable pub to_records : List Entry → List Record
to_records [] = []
to_records (e ∷ es) = record { hostname = e.hostname; ip = e.ip } ∷ to_records es

unfoldable pub config_warnings : Dict ConfigError → List Warning
config_warnings [] = []
config_warnings ((path, e) ∷ ps) = config_load_failed path e ∷ config_warnings ps

unfoldable pub merge_warnings : List Bytes → List Warning
merge_warnings [] = []
merge_warnings (w ∷ ws) = merge_warning w ∷ merge_warnings ws

unfoldable pub docker_warnings : Diagnostics → List Warning
docker_warnings d = map docker_warning d.warnings ++ map label_validation d.errors

module _ (env : Env) where
  -- The end of the function, on both ways.
  unfoldable pub finish : Action BuildResult
  unfolding merge to_records config_warnings merge_warnings managed_domains_from_set
      config_files_from values
  finish b =
      let merged = merge b.entries in
      (
        ok (record {
          records = to_records merged.entries;
          http_routes = b.http_routes;
          tcp_routes = b.tcp_routes;
          managed_domains = managed_domains_from_set b.managed_domains env.domain;
          workspace_domains = b.workspace_domains;
          warnings =
              b.warnings ++ (config_warnings b.routing_warnings ++ merge_warnings merged.warnings);
          config_files = config_files_from (values b.scopes) [];
        }),
        b,
      )

  -- The loop over the scopes where docker cannot be asked.
  unfoldable pub bare_entries : List Scope → Action (Unit {0})
  unfolding hostnames_for_scope
  bare_entries [] = pure tt
  bare_entries (s ∷ ss) = hostnames_for_scope env s [] >>= λ h.
      modify (add_entry h.workspace_fqdn s.ip runtime)
      >> (modify (add_entry h.project_fqdn s.ip runtime) >> bare_entries ss)

  unfoldable pub without_docker : Docker.DiscoverError → Action BuildResult
  unfolding bare_entries finish values
  without_docker e =
      if env.required
      then raise (docker_failed e)
      else modify (warn (docker_discover_failed e))
        >> ((λ b. bare_entries (values b.scopes) b) >> finish)

  -- The rest of the function where docker has answered.
  unfoldable pub with_docker : List ServiceRoute → Diagnostics → Action BuildResult
  unfolding docker_warnings scopes_of_services scope_entries active_leases service_entries
      settle_defaults default_routes project_entries finish values
  with_docker services diag =
      modify (λ b. record b { warnings = b.warnings ++ docker_warnings diag })
      >> (scopes_of_services env services
          >> ((λ b. scope_entries env (values b.scopes) b)
              >> (active_leases env
                  >> (service_entries env services
                      >> (modify (λ b. settle_defaults b.http_counts b)
                          >> ((λ b. default_routes env b.default_targets b)
                              >> ((λ b. project_entries env b.project_workspaces b) >> finish)))))))

  unfoldable pub build_with : Discovered → Action BuildResult
  unfolding without_docker with_docker
  build_with (discover_failed e) = without_docker e
  build_with (discovered services diag) = with_docker services diag

  -- `buildRoutes`, from what `provider.Discover` answers.
  unfoldable pub build_routes : Discovered → Allocator → LeaseFile → Result BuildResult × Builder
  unfolding upsert_scope build_with
  build_routes found a file =
      (upsert_scope env env.project env.workspace env.workspace_path env.workspace_ip >>= λ s.
      build_with found)
        (new_builder a file)
