-- ===== src/Identity/Tests.antt =====
-- Runs of the functions on labels, patterns and hostnames, and their theorems at concrete inputs.
use dnsvard.Base.{none, List, [], ◌∷◌, ◌≡◌, ◌≢◌, ◌↔◌, refl, inl, inr, Bytes, codes, In, join}
use dnsvard.Identity.Label.{normalize_label, ProjectInput, WorkspaceInput, derive_project_label}
use dnsvard.Identity.Label.Shape.{IsLabel, normalize_label-IsLabel, normalize_label_iff}
use dnsvard.Identity.Pattern.{
  ok, err, unknown_token, duplicate_token, tld_not_last, parse_parts, parse_host_pattern,
  workspace_token, tld_token, has_token, last_part,
}
use dnsvard.Identity.Pattern.Grammar.{IsPattern, parsed_tokens, parse_parts_iff}
use dnsvard.Identity.Pattern.RoundTrip.{parse_host_pattern-join}
use dnsvard.Identity.Host.{
  HostnameInput, HostnameSet, named, normalize_domain, build_hosts, hostnames, value, panic,
  normalize_all, preferred, first_of_list, resolve_default_workspace,
}
use dnsvard.Identity.Host.Domain.{AreBelow, hostnames-AreBelow}
use dnsvard.Identity.Host.Preferred.{
  labels, resolve_default_workspace_order, resolve_default_workspace_panics,
}

branch_label : normalize_label (codes "  Feature/Add_Login.git ") ≡ codes "feature-add-login"
unfolding normalize_label
branch_label = refl

scp_remote :
    derive_project_label
      (λ _. none)
      (record { remote_url = codes "git@host.org:team/My.App.git"; repo_base = codes "dir" })
    ≡ codes "my-app"
unfolding derive_project_label
scp_remote = refl

normalize_label-IsLabel_example : IsLabel (normalize_label (codes "-A b-"))
normalize_label-IsLabel_example = normalize_label-IsLabel (codes "-A b-")

normalize_label_iff_example : (normalize_label (codes "a-b") ≡ codes "a-b") ↔ IsLabel (codes "a-b")
normalize_label_iff_example = normalize_label_iff (codes "a-b")

abbrev remote : ProjectInput
remote = record { remote_url = codes "git@host.org:team/app.git"; repo_base = codes "dir" }

abbrev worktree : WorkspaceInput
worktree = record { worktree_base = codes "..."; branch = codes "feat/x"; cwd_base = codes "app" }

abbrev two_tokens : List Bytes
two_tokens = workspace_token ∷ tld_token ∷ []

two_tokens-IsPattern : IsPattern two_tokens
unfolding last_part
two_tokens-IsPattern = record {
  allowed = (inr (inl refl), (inr (inr (inr (inl refl))), tt));
  distinct = (((λ e. cc), tt), (tt, tt));
  workspace = inl refl;
  last = refl;
}

parse_parts_iff_example :
    (parse_parts two_tokens ≡ ok (parsed_tokens two_tokens))
    ↔ (IsPattern two_tokens × (parsed_tokens two_tokens ≡ parsed_tokens two_tokens))
parse_parts_iff_example = parse_parts_iff two_tokens (parsed_tokens two_tokens)

parse_host_pattern-join_example :
    parse_host_pattern (join two_tokens (codes "-")) ≡ ok (parsed_tokens two_tokens)
parse_host_pattern-join_example = parse_host_pattern-join two_tokens two_tokens-IsPattern

pattern_errors :
    (parse_host_pattern (codes "service-tld-workspace") ≡ err tld_not_last)
    × (parse_host_pattern (codes "workspace-host-tld") ≡ err (unknown_token (codes "host")))
    × (parse_host_pattern (codes "tld-tld") ≡ err (duplicate_token (codes "tld")))
unfolding parse_host_pattern
pattern_errors = (refl, refl, refl)

abbrev request : HostnameInput
request = record {
  domain = codes " Test. ";
  project = codes "app";
  workspace = codes "Feat/Auth";
  service = codes "web";
  pattern = [];
}

abbrev answer : HostnameSet
answer = record {
  project_fqdn = codes "app.test";
  workspace_fqdn = codes "feat-auth.app.test";
  service_fqdn = codes "web.feat-auth.app.test";
}

request_answer : hostnames request ≡ named answer
unfolding hostnames normalize_domain normalize_label parse_host_pattern build_hosts
request_answer = refl

hostnames-AreBelow_example :
    (normalize_domain request.domain ≢ []) × AreBelow (normalize_domain request.domain) answer
hostnames-AreBelow_example = hostnames-AreBelow request answer request_answer

abbrev branches : List Bytes
branches = codes "dev" ∷ codes "Main" ∷ []

main_first : resolve_default_workspace branches ≡ value (codes "main")
unfolding resolve_default_workspace normalize_all normalize_label preferred has_token
main_first = refl

resolve_default_workspace_order_example :
    (In (codes "master") (labels branches)
      → resolve_default_workspace branches ≡ value (codes "master"))
    × (¬ In (codes "master") (labels branches)
        → In (codes "main") (labels branches)
        → resolve_default_workspace branches ≡ value (codes "main"))
    × (¬ In (codes "master") (labels branches)
        → ¬ In (codes "main") (labels branches)
        → resolve_default_workspace branches ≡ first_of_list (labels branches))
resolve_default_workspace_order_example = resolve_default_workspace_order branches (λ e. cc)

resolve_default_workspace_panics_example :
    (resolve_default_workspace (codes "..." ∷ []) ≡ panic)
    ↔ ((codes "..." ∷ [] ≢ []) × (labels (codes "..." ∷ []) ≡ []))
resolve_default_workspace_panics_example = resolve_default_workspace_panics (codes "..." ∷ [])
