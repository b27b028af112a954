-- ===== src/RouteBuild/Scopes.antt =====
-- cmd/dnsvard/routes_build.go: the closures `upsertScope` and `hostnamesForScope`.
use dnsvard.Base.{
  Bool, true, false, Option, none, some, [], ◌∷◌, ◌++◌, if◌then◌else◌, Bytes, codes, text_eq,
  to_lower, trim_space, clean, lookup, insert, keys,
}
use dnsvard.Config.{ConfigError, Checked, passed, refused}
use dnsvard.Netip.{Addr, invalid, v4, v6}
use dnsvard.Identity.Label.{normalize_label, or_name}
use dnsvard.Identity.Host.{
  HostnameSet, Named, named, domain_required, labels_required, bad_pattern, hostnames,
}
use dnsvard.Allocator
use dnsvard.Allocator.{Allocator, allocate, assigned, done, failed}
use dnsvard.RouteBuild.{
  Scope, ScopeConfig, Env, Builder, BuildError, allocation_failed, bad_hostnames,
}
use dnsvard.RouteBuild
use dnsvard.RouteBuild.Domains.{plain_domain, has_path}
use dnsvard.RouteBuild.Actions.{Action, pure, raise, modify, ◌>>=◌, ◌>>◌}

-- `workspaceKey`
unfoldable pub workspace_key : Bytes → Bytes → Bytes
unfolding normalize_label
workspace_key project workspace =
    normalize_label project ++ (codes "|" ++ normalize_label workspace)

unfoldable pub is_valid : Addr → Bool
is_valid invalid = false
is_valid (v4 a) = true
is_valid (v6 a) = true

abbrev pub put_scope : Bytes → Scope → Builder → Builder
put_scope key s b = record b { scopes = insert key s b.scopes }

-- A scope that is there already: its path is filled in where it had none.
unfoldable pub touch_scope : Bytes → Bytes → Scope → Action Scope
unfolding text_eq insert
touch_scope key path s =
    if text_eq s.path []
    then (if text_eq path []
        then pure s
        else modify (put_scope key (record s { path = path })) >> pure (record s { path = path }))
    else pure s

-- `alloc.Allocate(workspaceID)`
unfoldable pub allocated : Allocator.Outcome → Action Addr
allocated (assigned ip) = pure (v4 ip)
allocated done = raise (allocation_failed done)
allocated (failed e) = raise (allocation_failed (failed e))

-- The id of a scope's workspace.
unfoldable pub scope_id : (Bytes → Bytes) → Bytes → Bytes → Bytes → Bytes
scope_id workspace_id project workspace [] = workspace_id (project ++ (codes "/" ++ workspace))
scope_id workspace_id project workspace (c ∷ s) = workspace_id (c ∷ s)

-- A value, or the fallback where it is empty.
unfoldable pub or_default_text : Bytes → Bytes → Bytes
or_default_text [] fallback = fallback
or_default_text (c ∷ s) fallback = c ∷ s

-- `pushRoutingWarning`. One path has one error, since what is loaded is cached.
unfoldable pub push_warning : Bytes → ConfigError → Builder → Builder
unfolding has_path
push_warning path e b =
    if has_path (keys b.routing_warnings) path
    then b
    else record b { routing_warnings = b.routing_warnings ++ (path, e) ∷ [] }

-- `managedDomainSet[domain] = struct{}{}`, where the domain is not empty.
unfoldable pub manage : Bytes → Builder → Builder
unfolding has_path text_eq
manage domain b =
    if text_eq domain []
    then b
    else if has_path b.managed_domains domain
    then b
    else record b { managed_domains = b.managed_domains ++ domain ∷ [] }

-- `workspaceDomainMap[...] = fqdn`, where the name is not empty.
unfoldable pub note_domain : Scope → Bytes → Builder → Builder
unfolding insert text_eq
note_domain s fqdn b = if text_eq fqdn [] then b else record b {
  workspace_domains = insert (s.workspace ++ (codes "@" ++ s.project)) fqdn b.workspace_domains;
}

unfoldable pub named_hosts : Scope → Named → Action HostnameSet
unfolding note_domain trim_space
named_hosts s (named hosts) = modify (note_domain s (trim_space hosts.workspace_fqdn)) >> pure hosts
named_hosts s domain_required = raise (bad_hostnames domain_required)
named_hosts s labels_required = raise (bad_hostnames labels_required)
named_hosts s (bad_pattern e) = raise (bad_hostnames (bad_pattern e))

module _ (env : Env) where
  unfoldable pub allocate_for : Bytes → Action Addr
  unfolding allocate allocated
  allocate_for id b =
      let after = allocate env.hash (env.can_write id) env.clock id b.allocator in
      allocated after.outcome (record b { allocator = after.state })

  -- The address of a new scope: the preferred one if it is valid.
  unfoldable pub scope_ip : Bytes → Bytes → Bytes → Addr → Action Addr
  unfolding allocate_for scope_id is_valid
  scope_ip project workspace path preferred =
      if is_valid preferred
      then pure preferred
      else allocate_for (scope_id env.workspace_id project workspace path)

  unfoldable pub new_scope : Bytes → Bytes → Bytes → Bytes → Addr → Action Scope
  unfolding scope_ip insert
  new_scope key project workspace path preferred =
      scope_ip project workspace path preferred >>= λ ip.
      modify
        (put_scope key (record { project = project; workspace = workspace; path = path; ip = ip }))
      >> pure (record { project = project; workspace = workspace; path = path; ip = ip })

  -- `upsertScope` behind the tests of the labels, with what is found under the key.
  unfoldable pub place_found : Bytes → Bytes → Bytes → Addr → Option Scope → Action Scope
  unfolding new_scope touch_scope workspace_key
  place_found project workspace path preferred (some s) =
      touch_scope (workspace_key project workspace) path s
  place_found project workspace path preferred none =
      new_scope (workspace_key project workspace) project workspace path preferred

  unfoldable pub place_scope : Bytes → Bytes → Bytes → Addr → Action Scope
  unfolding place_found lookup workspace_key
  place_scope project workspace path preferred b =
      place_found project workspace path preferred
        (lookup (workspace_key project workspace) b.scopes) b

  unfoldable pub upsert_scope : Bytes → Bytes → Bytes → Addr → Action Scope
  unfolding place_scope normalize_label or_name text_eq trim_space
  upsert_scope project_label workspace_label path preferred =
      let project = or_name (normalize_label project_label) (normalize_label env.project) in
      let workspace = or_name (normalize_label workspace_label) (normalize_label env.workspace) in
      if (if text_eq project [] then true else text_eq workspace [])
      then raise RouteBuild.labels_required
      else place_scope project workspace (trim_space path) preferred

  -- `effectiveRoutingForScope`, with the config of the scope's directory.
  unfoldable pub routing_with : Bytes → Checked ScopeConfig → Action ScopeConfig
  unfolding push_warning plain_domain or_default_text to_lower trim_space
  routing_with path (refused e) =
      modify (push_warning path e)
      >> pure (record { domain = env.domain; host_pattern = env.host_pattern })
  routing_with path (passed c) = pure (record {
    domain = or_default_text (plain_domain c.domain) env.domain;
    host_pattern = or_default_text (to_lower (trim_space c.host_pattern)) env.host_pattern;
  })

  unfoldable pub effective_routing : Bytes → Action ScopeConfig
  unfolding routing_with text_eq trim_space clean
  effective_routing path =
      if text_eq (trim_space path) []
      then pure (record { domain = env.domain; host_pattern = env.host_pattern })
      else routing_with (trim_space path) (env.load_scope (clean (trim_space path)))

  unfoldable pub hostnames_for_scope : Scope → Bytes → Action HostnameSet
  unfolding effective_routing manage hostnames named_hosts plain_domain
  hostnames_for_scope s service = effective_routing s.path >>= λ c.
      modify (manage (plain_domain c.domain))
      >> named_hosts s (
          hostnames (record {
            domain = c.domain;
            project = s.project;
            workspace = s.workspace;
            service = service;
            pattern = c.host_pattern;
          }))
