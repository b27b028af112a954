-- ===== src/RouteBuild/Domains.antt =====
-- cmd/dnsvard/routes_build.go: the domains of leases and of scopes.
use dnsvard.Base.{
  ℕ, ◌-◌, Bool, true, false, List, [], ◌∷◌, ◌++◌, if◌then◌else◌, ◌==◌, ltb, ◌&&◌, ◌||◌, Bytes,
  codes, text_eq, to_lower, trim_space, trim, is_dot, split, join, length, sort_by, path_join,
}
use dnsvard.Leases.{Lease}
use dnsvard.RouteBuild.{Scope}

-- `strings.ToLower(strings.Trim(strings.TrimSpace(v), "."))`
unfoldable pub plain_domain : Bytes → Bytes
unfolding to_lower trim is_dot trim_space
plain_domain v = to_lower (trim is_dot (trim_space v))

-- The variables of `inferDomainFromHostnames`.
pub record Best : Type 0 where
  pub best : Bytes
  pub best_parts : ℕ

-- What stands behind the first part, where there are two or more.
unfoldable pub tail_parts : List Bytes → List Bytes
tail_parts [] = []
tail_parts (p ∷ ps) = ps

-- Whether a candidate replaces the best one so far.
unfoldable pub is_better : Bytes → ℕ → Best → Bool
unfolding text_eq
is_better candidate parts b =
    text_eq b.best []
    || (ltb parts b.best_parts || (parts == b.best_parts && ltb (length candidate) (length b.best)))

-- The rest of a round, from the parts of the hostname on.
unfoldable pub consider_parts : List Bytes → Best → Best
unfolding tail_parts is_better join text_eq
consider_parts parts b =
    let candidate = join (tail_parts parts) (codes ".") in
    if ltb (length parts) 2
    then b
    else if text_eq candidate []
    then b
    else if is_better candidate (length parts - 1) b
    then record { best = candidate; best_parts = length parts - 1 }
    else b

unfoldable pub infer_from : List Bytes → Best → Best
unfolding consider_parts plain_domain split text_eq
infer_from [] b = b
infer_from (h ∷ hs) b =
    let host = plain_domain h in
    infer_from hs (if text_eq host [] then b else consider_parts (split host b'.') b)

-- `inferDomainFromHostnames`
unfoldable pub infer_domain : List Bytes → Bytes
unfolding infer_from
infer_domain hosts = (infer_from hosts (record { best = []; best_parts = 0 })).best

-- `runtimeLeaseDomain`
unfoldable pub runtime_lease_domain : Lease → Bytes
unfolding plain_domain infer_domain text_eq
runtime_lease_domain l =
    if text_eq (plain_domain l.domain) [] then infer_domain l.hostnames else plain_domain l.domain

unfoldable pub plain_domains : List Bytes → List Bytes
unfolding plain_domain text_eq
plain_domains [] = []
plain_domains (d ∷ ds) =
    let rest = plain_domains ds in
    if text_eq (plain_domain d) [] then rest else plain_domain d ∷ rest

-- The fallback, where the list is empty.
unfoldable pub or_fallback : List Bytes → Bytes → List Bytes
unfolding plain_domains
or_fallback [] fallback = plain_domains (fallback ∷ [])
or_fallback (d ∷ ds) fallback = d ∷ ds

-- `managedDomainsFromSet`
unfoldable pub managed_domains_from_set : List Bytes → Bytes → List Bytes
unfolding sort_by or_fallback plain_domains
managed_domains_from_set domains fallback =
    sort_by (λ d. d) (or_fallback (plain_domains domains) fallback)

unfoldable pub has_path : List Bytes → Bytes → Bool
unfolding text_eq
has_path [] p = false
has_path (q ∷ qs) p = if text_eq q p then true else has_path qs p

-- `workspaceConfigFiles`, behind the files that were found.
unfoldable pub config_files_from : List Scope → List Bytes → List Bytes
unfolding trim_space text_eq has_path path_join
config_files_from [] out = out
config_files_from (s ∷ ss) out =
    let path = trim_space s.path in
    let file = path_join path (codes "dnsvard.yaml") in
    config_files_from ss
      (if text_eq path [] then out else if has_path out file then out else out ++ file ∷ [])
