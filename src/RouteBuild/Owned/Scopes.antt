-- ===== src/RouteBuild/Owned/Scopes.antt =====
-- `upsertScope` and `hostnamesForScope` keep the statement.
use dnsvard.Config.{ConfigError, Checked, passed, refused}
use dnsvard.Base.{
  keys, ℕ, ◌+◌, ◌<◌, true, false, Option, none, some, [], ◌∷◌, ◌≡◌, ◌≢◌, inr, refl, sym, ap, ◌∙◌,
  subst, arith, if◌then◌else◌, Bytes, text_eq, text_eq_iff, trim_space, clean, lookup, insert,
  All-insert, All_of_lookup,
}
use dnsvard.Netip.{Addr}
use dnsvard.Identity.Label.{normalize_label, or_name}
use dnsvard.Identity.Label.Shape.{normalize_label-IsLabel, normalize_label_iff}
use dnsvard.Identity.Host.{Named, named, domain_required, labels_required, bad_pattern}
use dnsvard.Allocator
use dnsvard.Allocator.{host_capacity, Allocator, allocate, assigned, done, failed}
use dnsvard.Allocator.Rounds.{InPool}
use dnsvard.Allocator.Holders.{allocate-IsSound}
use dnsvard.Allocator.Pool.{allocate-InPool, allocate-prefix}
use dnsvard.RouteBuild.{Scope, ScopeConfig, Env, Builder}
use dnsvard.RouteBuild.Domains.{has_path, plain_domain}
use dnsvard.RouteBuild.Actions.{pure, modify, ◌>>◌}
use dnsvard.RouteBuild.Actions.Kept.{
  Anything, sequel-Keeps, then-Keeps, modify-Keeps, pure-Keeps, raise-Keeps, if-Keeps, look-Keeps,
}
use dnsvard.RouteBuild.Scopes.{
  workspace_key, is_valid, put_scope, touch_scope, allocated, scope_id, push_warning, manage,
  note_domain, named_hosts, allocate_for, scope_ip, new_scope, place_found, place_scope,
  upsert_scope, routing_with, effective_routing, hostnames_for_scope,
}
use dnsvard.RouteBuild.Owned.{Owned, HasOwned, Owns, Safe, if-Owns, with_scopes, with_allocator}

chosen_label :
    (s n m : Bytes)
    → normalize_label s ≡ s
    → normalize_label n ≡ n
    → or_name s n ≡ m
    → m ≢ []
    → normalize_label m ≢ []
unfolding or_name
chosen_label [] n m e f c ne z = ne (sym c ∙ sym f ∙ ap normalize_label c ∙ z)
chosen_label (k ∷ s) n m e f c ne z = ne (sym c ∙ sym e ∙ ap normalize_label c ∙ z)

normal_label : (s : Bytes) → normalize_label (normalize_label s) ≡ normalize_label s
normal_label s = (normalize_label_iff (normalize_label s)).1 (normalize_label-IsLabel s)

neither : (p w : Bytes) → (if text_eq p [] then true else text_eq w []) ≡ false → w ≢ []
neither p w h z = ground (arith, text_eq_iff w [])

module _ {env : Env} {pool : Allocator} where
  put_scope-Owns :
      (key : Bytes) (s : Scope) (b : Builder)
      → HasOwned env pool s
      → Owns env pool b
      → Owns env pool (put_scope key s b)
  put_scope-Owns key s b own h =
      with_scopes env pool h (insert key s b.scopes)
        (All-insert (λ (p : Bytes × Scope). HasOwned env pool p.1) key s b.scopes own h.scopes)

  put_scope-Safe :
      (key : Bytes) (s : Scope)
      → HasOwned env pool s
      → Safe env pool (HasOwned env pool) (modify (put_scope key s) >> pure s)
  put_scope-Safe key s own =
      then-Keeps (modify-Keeps (put_scope key s) (λ b. put_scope-Owns key s b own)) (pure-Keeps own)

  touch_scope-Safe :
      (key path : Bytes) (s : Scope)
      → HasOwned env pool s
      → Safe env pool (HasOwned env pool) (touch_scope key path s)
  unfolding touch_scope
  touch_scope-Safe key path s own =
      if-Keeps (text_eq s.path [])
        (λ _.
          if-Keeps (text_eq path []) (λ _. pure-Keeps own)
            (λ _. put_scope-Safe key (record s { path = path }) own))
        (λ _. pure-Keeps own)

  pool_of : (b : Builder) (ip : ℕ) → Owns env pool b → InPool b.allocator ip → InPool pool ip
  pool_of b ip h i = record {
    host = i.host;
    low = i.low;
    high = subst (λ n. i.host < host_capacity n) h.bits i.high;
    place = i.place ∙ ap (λ n. n + i.host) h.network;
  }

  allocated-Safe :
      (o : Allocator.Outcome)
      → ((ip : ℕ) → o ≡ assigned ip → InPool pool ip)
      → Safe env pool (Owned env pool) (allocated o)
  unfolding allocated
  allocated-Safe (assigned ip) k = pure-Keeps (inr (ip, refl, k ip refl))
  allocated-Safe done k = raise-Keeps (λ z. cc)
  allocated-Safe (failed x) k = raise-Keeps (λ z. cc)

  allocate_for-Safe : (id : Bytes) → Safe env pool (Owned env pool) (allocate_for env id)
  unfolding allocate_for
  allocate_for-Safe id = record {
    behind = λ b h.
        let after = allocate env.hash (env.can_write id) env.clock id b.allocator in
        let kept = allocate-prefix env.hash (env.can_write id) env.clock id b.allocator in
        (allocated-Safe after.outcome (λ ip e. pool_of b ip h (
            allocate-InPool env.hash (env.can_write id) env.clock id b.allocator ip h.sound
              e))).behind
          (record b { allocator = after.state })
          (with_allocator env pool h after.state
            (allocate-IsSound env.hash (env.can_write id) env.clock id b.allocator h.sound)
            (kept.0 ∙ h.network) (kept.1 ∙ h.bits));
  }

  scope_ip-Safe :
      (project workspace path : Bytes) (preferred : Addr)
      → (is_valid preferred ≡ true → Owned env pool preferred)
      → Safe env pool (Owned env pool) (scope_ip env project workspace path preferred)
  unfolding scope_ip
  scope_ip-Safe project workspace path preferred own =
      if-Keeps (is_valid preferred) (λ e. pure-Keeps (own e))
        (λ _. allocate_for-Safe (scope_id env.workspace_id project workspace path))

  place_found-Safe :
      (project workspace path : Bytes) (preferred : Addr) (o : Option Scope)
      → (is_valid preferred ≡ true → Owned env pool preferred)
      → normalize_label workspace ≢ []
      → ((s : Scope) → o ≡ some s → HasOwned env pool s)
      → Safe env pool (HasOwned env pool) (place_found env project workspace path preferred o)
  unfolding place_found new_scope
  place_found-Safe project workspace path preferred (some s) own ne k =
      touch_scope-Safe (workspace_key project workspace) path s (k s refl)
  place_found-Safe project workspace path preferred none own ne k =
      sequel-Keeps (scope_ip-Safe project workspace path preferred own) (λ ip o.
        put_scope-Safe (workspace_key project workspace)
          (record { project = project; workspace = workspace; path = path; ip = ip }) (o, ne))

  pub scope_at :
      (key : Bytes) (b : Builder) (s : Scope)
      → Owns env pool b
      → lookup key b.scopes ≡ some s
      → HasOwned env pool s
  scope_at key b s h e =
      All_of_lookup (λ (p : Bytes × Scope). HasOwned env pool p.1) key s b.scopes h.scopes e

  place_scope-Safe :
      (project workspace path : Bytes) (preferred : Addr)
      → (is_valid preferred ≡ true → Owned env pool preferred)
      → normalize_label workspace ≢ []
      → Safe env pool (HasOwned env pool) (place_scope env project workspace path preferred)
  unfolding place_scope
  place_scope-Safe project workspace path preferred own ne =
      look-Keeps (λ b. lookup (workspace_key project workspace) b.scopes)
        (place_found env project workspace path preferred)
        (λ b h.
          place_found-Safe project workspace path preferred
            (lookup (workspace_key project workspace) b.scopes) own ne
            (λ s e. scope_at (workspace_key project workspace) b s h e))

  -- `upsertScope` gives a scope with such an address, whatever the labels.
  pub upsert_scope-Safe :
      (project workspace path : Bytes) (preferred : Addr)
      → (is_valid preferred ≡ true → Owned env pool preferred)
      → Safe env pool (HasOwned env pool) (upsert_scope env project workspace path preferred)
  unfolding upsert_scope
  upsert_scope-Safe project workspace path preferred own =
      let p = or_name (normalize_label project) (normalize_label env.project) in
      let w = or_name (normalize_label workspace) (normalize_label env.workspace) in
      if-Keeps (if text_eq p [] then true else text_eq w []) (λ _. raise-Keeps (λ z. cc))
        (λ e. place_scope-Safe p w (trim_space path) preferred own (
          chosen_label (normalize_label workspace) (normalize_label env.workspace) w
            (normal_label workspace) (normal_label env.workspace) refl (neither p w e)))

  push_warning-Owns :
      (path : Bytes) (e : ConfigError) (b : Builder)
      → Owns env pool b
      → Owns env pool (push_warning path e b)
  unfolding push_warning
  push_warning-Owns path e b h =
      if-Owns env pool (has_path (keys b.routing_warnings) path) _ _ (λ _. h) (λ _. h)

  pub manage-Owns : (d : Bytes) (b : Builder) → Owns env pool b → Owns env pool (manage d b)
  unfolding manage
  manage-Owns d b h =
      if-Owns env pool (text_eq d []) _ _ (λ _. h)
        (λ _. if-Owns env pool (has_path b.managed_domains d) _ _ (λ _. h) (λ _. h))

  note_domain-Owns :
      (s : Scope) (d : Bytes) (b : Builder) → Owns env pool b → Owns env pool (note_domain s d b)
  unfolding note_domain
  note_domain-Owns s d b h = if-Owns env pool (text_eq d []) _ _ (λ _. h) (λ _. h)

  named_hosts-Safe : (s : Scope) (n : Named) → Safe env pool Anything (named_hosts s n)
  unfolding named_hosts
  named_hosts-Safe s (named hosts) =
      then-Keeps
        (modify-Keeps (note_domain s (trim_space hosts.workspace_fqdn))
          (note_domain-Owns s (trim_space hosts.workspace_fqdn)))
        (pure-Keeps tt)
  named_hosts-Safe s domain_required = raise-Keeps (λ z. cc)
  named_hosts-Safe s labels_required = raise-Keeps (λ z. cc)
  named_hosts-Safe s (bad_pattern e) = raise-Keeps (λ z. cc)

  routing_with-Safe :
      (path : Bytes) (o : Checked ScopeConfig) → Safe env pool Anything (routing_with env path o)
  unfolding routing_with
  routing_with-Safe path (refused e) =
      then-Keeps (modify-Keeps (push_warning path e) (push_warning-Owns path e)) (pure-Keeps tt)
  routing_with-Safe path (passed c) = pure-Keeps tt

  effective_routing-Safe : (path : Bytes) → Safe env pool Anything (effective_routing env path)
  unfolding effective_routing
  effective_routing-Safe path =
      if-Keeps (text_eq (trim_space path) []) (λ _. pure-Keeps tt)
        (λ _. routing_with-Safe (trim_space path) (env.load_scope (clean (trim_space path))))

  pub hostnames_for_scope-Safe :
      (s : Scope) (service : Bytes) → Safe env pool Anything (hostnames_for_scope env s service)
  unfolding hostnames_for_scope
  hostnames_for_scope-Safe s service = sequel-Keeps (effective_routing-Safe s.path) (λ c _.
      then-Keeps
        (modify-Keeps (manage (plain_domain c.domain)) (manage-Owns (plain_domain c.domain)))
        (named_hosts-Safe s _))
