-- ===== src/Docker/Tests.antt =====
-- Runs on two containers of a compose project, and the theorems applied to them.
use dnsvard.Base.{
  ℕ, ◌==◌, ◌≤◌, Bool, true, false, none, some, List, [], ◌∷◌, ◌++◌, ◌≡◌, ◌≢◌, ◌↔◌, ◌⊎◌, refl, arith,
  Bytes, codes, text_eq, to_lower, trim_space, trim_prefix, equal_fold, split, atoi, is_port,
  has_number, sort_numbers, lookup, insert, sort_by, All, In, Ascends,
}
use dnsvard.Netip.Dotted.{parse_addr}
use dnsvard.Docker.{ServiceRoute, Answer, answered, DockerInspect}
use dnsvard.Docker.Ports.{
  candidate_tcp_ports, collect_ports, parse_tcp_port, parse_port_parts, port_of, add_port,
}
use dnsvard.Docker.Ports.Candidates.{Declares, candidate_tcp_ports-exact}
use dnsvard.Docker.Networks.{
  Candidate, selected, no_network, select_container_network, network_candidates,
}
use dnsvard.Docker.Networks.Choice.{IsCandidate, IsChoice, tried, select_container_network-IsChoice}
use dnsvard.Docker.Discover.{validate_default_http, defaults_from, discovered, discover}
use dnsvard.Docker.Discover.Scopes.{HasOneDefaultEach, IsUnbarred}
use dnsvard.Docker.Discover.Defaults.{validate_default_http_iff, IsOfListed, discover-IsUsable}
use dnsvard.Docker.{several_networks, several_defaults}
use dnsvard.Docker.Labels.{
  label, project_label, workspace_label, first_name, project_by_dir, workspace_by_dir, parse_csv,
  trimmed_parts, unique_host_labels, unique_from, has_label,
}
use dnsvard.Docker.Ports.{preferred_probe_ports, add_probe_ports}
use dnsvard.Docker.Networks.{
  order_candidates, preferred_first, append_by_name, append_others, has_candidate, choose,
  first_reachable, ip_reachable, selected_of, candidate_ip_order, append_ips, append_ip, has_text,
}
use dnsvard.Docker.Inspect.{
  parse_inspect, by_port, explicit_port, explicit_of_port, with_port, build_route, host_labels_of,
  service_name_of, default_http_of, detect_manual_of, detect_warnings,
}
use dnsvard.Docker.Discover.{
  scope_key, counted, container_ids, id_lines, discover_listed, inspected, check_all, parse_all,
  add_route, note_error, validate_http_ports,
}

abbrev is_ip : Bytes → Bool
is_ip s = elim (parse_addr s) [ none ↦ false | some a ↦ true ]

-- Only the second address answers.
abbrev dials : Bytes → ℕ → Bool
dials ip port = text_eq ip (codes "10.0.0.2")

abbrev web : DockerInspect
web = record {
  id = codes "c1";
  name = codes "/shop-web-1";
  labels =
      (codes "com.docker.compose.service", codes "web")
      ∷ (codes "dnsvard.http_port", codes "3000")
      ∷ (codes "dnsvard.project", codes "shop")
      ∷ (codes "dnsvard.workspace", codes "main")
      ∷ [];
  exposed_ports = codes "3000/tcp" ∷ codes "53/udp" ∷ [];
  ports = codes "80/tcp" ∷ codes "3000/tcp" ∷ [];
  networks =
      (codes "a", record { ip_address = codes "10.0.0.1"; network_id = codes "n1" })
      ∷ (codes "b", record { ip_address = codes "10.0.0.2"; network_id = codes "n2" })
      ∷ [];
}

ports_run : candidate_tcp_ports web ≡ 80 ∷ 3000 ∷ []
unfolding candidate_tcp_ports collect_ports parse_tcp_port parse_port_parts port_of add_port split
    atoi is_port has_number sort_numbers to_lower text_eq
ports_run = refl

candidate_tcp_ports-exact_example :
    Ascends (candidate_tcp_ports web)
    × ((p : ℕ)
        → (In p (candidate_tcp_ports web) ↔ Declares (web.exposed_ports ++ web.ports) p)
          × (In p (candidate_tcp_ports web) → p ≤ 65535))
candidate_tcp_ports-exact_example = candidate_tcp_ports-exact web

select_container_network-IsChoice_example :
    ((n : Candidate) (ips : List Bytes)
      → select_container_network is_ip dials web (3000 ∷ []) ≡ selected n ips
      → IsCandidate is_ip web.networks n × IsChoice dials (3000 ∷ []) (tried is_ip web) n)
    × (network_candidates is_ip web.networks ≢ []
        → select_container_network is_ip dials web (3000 ∷ []) ≢ no_network)
select_container_network-IsChoice_example =
    select_container_network-IsChoice is_ip dials web (3000 ∷ [])

abbrev web_route : ServiceRoute
web_route = record {
  container_id = codes "c1";
  container_name = codes "shop-web-1";
  service_name = codes "web";
  project = codes "shop";
  workspace = codes "main";
  workspace_path = [];
  container_ip = codes "10.0.0.2";
  candidate_ips = codes "10.0.0.2" ∷ codes "10.0.0.1" ∷ [];
  network_name = codes "b";
  network_id = codes "n2";
  host_labels = codes "web" ∷ [];
  http_port = 3000;
  tcp_ports = 80 ∷ 3000 ∷ [];
  http_enabled = true;
  default_http = false;
  detect_manual = false;
}

-- Two defaults of two workspaces.
abbrev main_default : ServiceRoute
main_default = record web_route { default_http = true }

abbrev fix_default : ServiceRoute
fix_default = record main_default { workspace = codes "fix-1" }

ne_of_test : (c d : ℕ) → (c == d) ≡ false → c ≢ d
ne_of_test c d h = ground arith

main-IsUnbarred : IsUnbarred main_default
unfolding to_lower trim_space
main-IsUnbarred = (
  ne_of_test b's' b'|' refl,
  (ne_of_test b'h' b'|' refl, (ne_of_test b'o' b'|' refl, (ne_of_test b'p' b'|' refl, tt))),
)

validate_default_http_iff_example :
    (validate_default_http (main_default ∷ fix_default ∷ []) ≡ none)
    ↔ HasOneDefaultEach (main_default ∷ fix_default ∷ [])
validate_default_http_iff_example =
    validate_default_http_iff (main_default ∷ fix_default ∷ [])
      (main-IsUnbarred, (main-IsUnbarred, tt))

both_defaults_pass : validate_default_http (main_default ∷ fix_default ∷ []) ≡ none
unfolding validate_default_http defaults_from scope_key counted insert lookup to_lower trim_space
    text_eq
both_defaults_pass = refl

-- A bar in the project makes two scopes one.
barred_scopes_collide :
    validate_default_http (
      record main_default { project = codes "a|b"; workspace = codes "c" }
      ∷ record main_default { project = codes "a"; workspace = codes "b|c" }
      ∷ [])
    ≡ some (several_defaults (codes "a") (codes "b|c"))
unfolding validate_default_http defaults_from scope_key counted insert lookup to_lower trim_space
    text_eq
barred_scopes_collide = refl

abbrev ask : List Bytes → Answer (List DockerInspect)
ask ids = answered (web ∷ [])

discover_run :
    discover is_ip dials (answered (codes "c1\n")) ask
    ≡ discovered (web_route ∷ []) (record {
      warnings = several_networks (codes "c1") (codes "b") (codes "10.0.0.2") ∷ [];
      errors = [];
    })
unfolding discover discover_listed container_ids id_lines inspected check_all parse_all
    parse_inspect by_port explicit_port explicit_of_port with_port build_route
    select_container_network network_candidates order_candidates preferred_first append_by_name
    append_others has_candidate choose first_reachable ip_reachable selected_of candidate_ip_order
    append_ips append_ip has_text preferred_probe_ports add_probe_ports candidate_tcp_ports
    collect_ports parse_tcp_port parse_port_parts port_of add_port split atoi is_port has_number
    sort_numbers sort_by to_lower text_eq trim_space trim_prefix equal_fold label project_label
    workspace_label first_name project_by_dir workspace_by_dir parse_csv trimmed_parts
    unique_host_labels unique_from has_label host_labels_of service_name_of default_http_of
    detect_manual_of detect_warnings add_route note_error validate_default_http validate_http_ports
    defaults_from lookup insert parse_addr
discover_run = refl

discover-IsUsable_example :
    ((container_ids (answered (codes "c1\n")) ≡ answered []) × (web_route ∷ [] ≡ []))
    ⊎ ((is : List Bytes) × (cs : List DockerInspect) × (container_ids (answered (codes "c1\n"))
          ≡ answered is)
        × (ask is ≡ answered cs)
        × All (IsOfListed is_ip dials cs) (web_route ∷ []))
discover-IsUsable_example =
    discover-IsUsable is_ip dials (answered (codes "c1\n")) ask (web_route ∷ [])
      (record {
        warnings = several_networks (codes "c1") (codes "b") (codes "10.0.0.2") ∷ [];
        errors = [];
      })
      discover_run
