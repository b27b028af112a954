-- ===== src/RouteBuild/Owned/Defaults.antt =====
-- The loops that choose the defaults keep the statement.
use dnsvard.Base.{
  ℕ, Option, none, some, List, [], ◌∷◌, ◌≡◌, ◌≢◌, refl, ◌==◌, ltb, Bytes, text_eq, Dict, lookup,
  All,
}
use dnsvard.Routes.{runtime}
use dnsvard.Identity.Host.{Run, value, panic, resolve_default_workspace}
use dnsvard.Identity.Host.Preferred.{resolve_default_workspace_panics}
use dnsvard.Allocator.{Allocator}
use dnsvard.RouteBuild.{Scope, Env, Builder}
use dnsvard.RouteBuild.Actions.{modify}
use dnsvard.RouteBuild.Actions.Kept.{
  Anything, sequel-Keeps, then-Keeps, pure-Keeps, if-Keeps, look-Keeps,
}
use dnsvard.RouteBuild.Scopes.{workspace_key}
use dnsvard.RouteBuild.Defaults.{
  count_of, text_of, settle_default, settle_defaults, workspace_http, default_found, default_route,
  default_routes, project_http, project_with, project_found, project_in, project_default,
  project_entries,
}
use dnsvard.RouteBuild.Owned.{HasOwned, Owns, Safe, if-Owns}
use dnsvard.RouteBuild.Owned.Scopes.{scope_at, hostnames_for_scope-Safe}
use dnsvard.RouteBuild.Owned.Services.{HasLabel, add_entry-Safe, add_http-Safe}

module _ {env : Env} {pool : Allocator} where
  settle_default-Owns :
      (key : Bytes) (count : ℕ) (b : Builder)
      → Owns env pool b
      → Owns env pool (settle_default key count b)
  unfolding settle_default
  settle_default-Owns key count b h =
      let defaults = count_of key b.default_counts in
      if-Owns env pool (defaults == 0) _ _
        (λ _.
          if-Owns env pool (count == 1) _ _ (λ _. h)
            (λ _. if-Owns env pool (ltb 1 count) _ _ (λ _. h) (λ _. h)))
        (λ _. if-Owns env pool (ltb 1 defaults) _ _ (λ _. h) (λ _. h))

  pub settle_defaults-Owns :
      (m : Dict ℕ) (b : Builder) → Owns env pool b → Owns env pool (settle_defaults m b)
  unfolding settle_defaults
  settle_defaults-Owns [] b h = h
  settle_defaults-Owns ((key, count) ∷ m) b h =
      settle_defaults-Owns m (settle_default key count b) (settle_default-Owns key count b h)

  workspace_http-Safe :
      (s : Scope) (target : Bytes) → Safe env pool Anything (workspace_http env s target)
  unfolding workspace_http
  workspace_http-Safe s target =
      sequel-Keeps (hostnames_for_scope-Safe s []) (λ n _. add_http-Safe n.workspace_fqdn target)

  default_found-Safe :
      (target : Bytes) (o : Option Scope) → Safe env pool Anything (default_found env target o)
  unfolding default_found
  default_found-Safe target none = pure-Keeps tt
  default_found-Safe target (some s) =
      if-Keeps (text_eq target []) (λ _. pure-Keeps tt) (λ _. workspace_http-Safe s target)

  default_route-Safe : (key target : Bytes) → Safe env pool Anything (default_route env key target)
  unfolding default_route
  default_route-Safe key target =
      look-Keeps (λ b. lookup key b.scopes) (default_found env target)
        (λ b _. default_found-Safe target (lookup key b.scopes))

  pub default_routes-Safe : (m : Dict Bytes) → Safe env pool Anything (default_routes env m)
  unfolding default_routes
  default_routes-Safe [] = pure-Keeps tt
  default_routes-Safe ((key, target) ∷ m) =
      then-Keeps (default_route-Safe key target) (default_routes-Safe m)

  project_http-Owns :
      (host target : Bytes) (b : Builder)
      → Owns env pool b
      → Owns env pool (project_http env host target b)
  unfolding project_http
  project_http-Owns host target b h = if-Owns env pool (text_eq target []) _ _ (λ _. h) (λ _. h)

  project_http-Safe :
      (key host : Bytes)
      → Safe env pool Anything
          (modify (λ b. project_http env host (text_of key b.default_targets) b))
  project_http-Safe key host = record {
    behind = λ b h. (project_http-Owns host (text_of key b.default_targets) b h, tt);
  }

  project_found-Safe :
      (key : Bytes) (o : Option Scope)
      → ((s : Scope) → o ≡ some s → HasOwned env pool s)
      → Safe env pool Anything (project_found env key o)
  unfolding project_found project_with
  project_found-Safe key none k = pure-Keeps tt
  project_found-Safe key (some s) k = sequel-Keeps (hostnames_for_scope-Safe s []) (λ n _.
      then-Keeps (add_entry-Safe n.project_fqdn s.ip runtime (k s refl).0)
        (project_http-Safe key n.project_fqdn))

  project_in-Safe : (key : Bytes) → Safe env pool Anything (project_in env key)
  unfolding project_in
  project_in-Safe key =
      look-Keeps (λ b. lookup key b.scopes) (project_found env key)
        (λ b h. project_found-Safe key (lookup key b.scopes) (λ s e. scope_at key b s h e))

  project_default-Safe :
      (project : Bytes) (r : Run)
      → r ≢ panic
      → Safe env pool Anything (project_default env project r)
  unfolding project_default
  project_default-Safe project panic ne = absurd (ne refl)
  project_default-Safe project (value []) ne = pure-Keeps tt
  project_default-Safe project (value (c ∷ s)) ne = project_in-Safe (workspace_key project (c ∷ s))

  -- The default workspace of a project that has a label is found, so that nothing panics.
  pub project_entries-Safe :
      (m : Dict (List Bytes)) → All HasLabel m → Safe env pool Anything (project_entries env m)
  unfolding project_entries
  project_entries-Safe [] h = pure-Keeps tt
  project_entries-Safe ((project, ws) ∷ m) (ne, h) =
      then-Keeps
        (project_default-Safe project (resolve_default_workspace ws)
          (λ e. ne ((resolve_default_workspace_panics ws).0 e).1))
        (project_entries-Safe m h)
