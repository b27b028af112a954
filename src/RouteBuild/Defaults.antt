-- ===== src/RouteBuild/Defaults.antt =====
-- cmd/dnsvard/routes_build.go: the loops of `buildRoutes` that choose the default of each
-- workspace and of each project.
use dnsvard.Base.{
  ℕ, Option, none, some, List, [], ◌∷◌, if◌then◌else◌, ◌==◌, ltb, Bytes, text_eq, Dict, lookup,
  insert,
}
use dnsvard.Routes.{runtime}
use dnsvard.Identity.Host.{Run, value, panic, resolve_default_workspace}
use dnsvard.RouteBuild.{Scope, Env, no_default, several_defaults, Builder, panicked}
use dnsvard.RouteBuild.Scopes.{workspace_key, hostnames_for_scope}
use dnsvard.RouteBuild.Services.{add_entry, add_http, warn}
use dnsvard.RouteBuild.Actions.{Action, pure, raise, modify, ◌>>=◌, ◌>>◌}

-- `m[key]` of a map of counts, and of one of texts.
unfoldable pub count_of : Bytes → Dict ℕ → ℕ
unfolding lookup
count_of key m = elim (lookup key m) [ none ↦ 0 | some n ↦ n ]

unfoldable pub text_of : Bytes → Dict Bytes → Bytes
unfolding lookup
text_of key m = elim (lookup key m) [ none ↦ [] | some v ↦ v ]

-- A round of the loop over the counts of HTTP services.
unfoldable pub settle_default : Bytes → ℕ → Builder → Builder
unfolding count_of text_of insert
settle_default key count b =
    let defaults = count_of key b.default_counts in
    if defaults == 0
    then (if count == 1
        then record b {
          default_targets = insert key (text_of key b.first_targets) b.default_targets;
        }
        else if ltb 1 count
        then warn (no_default key) b
        else b)
    else if ltb 1 defaults
    then warn (several_defaults key) b
    else b

unfoldable pub settle_defaults : Dict ℕ → Builder → Builder
unfolding settle_default
settle_defaults [] b = b
settle_defaults ((key, count) ∷ m) b = settle_defaults m (settle_default key count b)

module _ (env : Env) where
  unfoldable pub workspace_http : Scope → Bytes → Action (Unit {0})
  unfolding hostnames_for_scope
  workspace_http s target =
      hostnames_for_scope env s [] >>= λ h. modify (add_http h.workspace_fqdn target)

  -- A round of the loop over the default targets, with the scope of the key.
  unfoldable pub default_found : Bytes → Option Scope → Action (Unit {0})
  unfolding workspace_http text_eq
  default_found target none = pure tt
  default_found target (some s) = if text_eq target [] then pure tt else workspace_http s target

  unfoldable pub default_route : Bytes → Bytes → Action (Unit {0})
  unfolding default_found lookup
  default_route key target b = default_found target (lookup key b.scopes) b

  unfoldable pub default_routes : Dict Bytes → Action (Unit {0})
  unfolding default_route
  default_routes [] = pure tt
  default_routes ((key, target) ∷ m) = default_route key target >> default_routes m

  unfoldable pub project_http : Bytes → Bytes → Builder → Builder
  unfolding text_eq
  project_http host target b = if text_eq target [] then b else add_http host target b

  unfoldable pub project_with : Bytes → Scope → Action (Unit {0})
  unfolding hostnames_for_scope project_http text_of
  project_with key s = hostnames_for_scope env s [] >>= λ h.
      modify (add_entry h.project_fqdn s.ip runtime)
      >> modify (λ b. project_http h.project_fqdn (text_of key b.default_targets) b)

  unfoldable pub project_found : Bytes → Option Scope → Action (Unit {0})
  unfolding project_with
  project_found key none = pure tt
  project_found key (some s) = project_with key s

  unfoldable pub project_in : Bytes → Action (Unit {0})
  unfolding project_found lookup
  project_in key b = project_found key (lookup key b.scopes) b

  -- What the default workspace of a project leads to.
  unfoldable pub project_default : Bytes → Run → Action (Unit {0})
  unfolding project_in workspace_key
  project_default project panic = raise panicked
  project_default project (value []) = pure tt
  project_default project (value (c ∷ s)) = project_in (workspace_key project (c ∷ s))

  -- The loop over the projects.
  unfoldable pub project_entries : Dict (List Bytes) → Action (Unit {0})
  unfolding project_default resolve_default_workspace
  project_entries [] = pure tt
  project_entries ((project, workspaces) ∷ m) =
      project_default project (resolve_default_workspace workspaces) >> project_entries m
