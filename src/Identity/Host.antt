-- ===== src/Identity/Host.antt =====
-- internal/identity/identity.go: `Hostnames` and `ResolveDefaultWorkspace`.
pub mod Domain
pub mod Preferred
use dnsvard.Base.{
  ℕ, Bool, true, false, ◌&&◌, not, List, [], ◌∷◌, ◌++◌, if◌then◌else◌, Bytes, codes, to_lower,
  trim_space, trim, is_dot, text_eq,
}
use dnsvard.Identity.Label.{normalize_label}
use dnsvard.Identity.Pattern.{
  PatternError, PatternHostInput, parse_host_pattern, without_service, render_pattern_host,
  HostPattern, ok, err, has_token,
}

pub record HostnameInput : Type 0 where
  pub domain : Bytes
  pub project : Bytes
  pub workspace : Bytes
  pub service : Bytes
  pub pattern : Bytes

-- An empty `service_fqdn` means that there is none.
pub record HostnameSet : Type 0 where
  pub project_fqdn : Bytes
  pub workspace_fqdn : Bytes
  pub service_fqdn : Bytes

pub data Named : Type 0 where
  named : HostnameSet → Named
  domain_required labels_required : Named
  bad_pattern : PatternError → Named

unfoldable pub normalize_domain : Bytes → Bytes
unfolding to_lower trim_space trim is_dot
normalize_domain domain = trim is_dot (to_lower (trim_space domain))

-- The hostnames, with the domain and the labels in normal form and the pattern parsed.
unfoldable pub build_hosts : Bytes → Bytes → Bytes → Bytes → HostPattern → HostnameSet
unfolding render_pattern_host without_service text_eq
build_hosts domain project workspace service pattern = record {
  project_fqdn = project ++ (codes "." ++ domain);
  workspace_fqdn = render_pattern_host (record {
    tokens = without_service pattern.tokens;
    project = project;
    workspace = workspace;
    service = [];
    domain = domain;
  });
  service_fqdn =
      if not (text_eq service []) && pattern.has_service
      then render_pattern_host (record {
        tokens = pattern.tokens;
        project = project;
        workspace = workspace;
        service = service;
        domain = domain;
      })
      else [];
}

unfoldable pub hostnames : HostnameInput → Named
unfolding text_eq
hostnames input =
    let domain = normalize_domain input.domain in
    let project = normalize_label input.project in
    let workspace = normalize_label input.workspace in
    if text_eq domain []
    then domain_required
    else if (if text_eq project [] then true else text_eq workspace [])
    then labels_required
    else elim (parse_host_pattern input.pattern) [
      | ok pattern ↦
          named (build_hosts domain project workspace (normalize_label input.service) pattern)
      | err e ↦ bad_pattern e
    ]

-- A result, or the run-time panic of an index out of range.
pub data Run : Type 0 where
  value : Bytes → Run
  panic : Run

-- The loop that fills `normalized`; the list is also the set `seen`.
unfoldable pub normalize_all : List Bytes → List Bytes → List Bytes
unfolding text_eq
normalize_all [] out = out
normalize_all (ws ∷ rest) out =
    let n = normalize_label ws in
    normalize_all rest
      (if text_eq n [] then out else if has_token out n then out else out ++ n ∷ [])

-- `normalized[0]`
unfoldable pub first_of_list : List Bytes → Run
first_of_list [] = panic
first_of_list (n ∷ ns) = value n

unfoldable pub preferred : List Bytes → Run
unfolding first_of_list
preferred normalized =
    if has_token normalized (codes "master")
    then value (codes "master")
    else if has_token normalized (codes "main")
    then value (codes "main")
    else first_of_list normalized

unfoldable pub resolve_default_workspace : List Bytes → Run
resolve_default_workspace [] = value []
resolve_default_workspace (ws ∷ rest) = preferred (normalize_all (ws ∷ rest) [])
