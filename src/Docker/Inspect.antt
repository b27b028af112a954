-- ===== src/Docker/Inspect.antt =====
-- internal/docker/provider.go: `parseInspect`.
pub mod Usable
use dnsvard.Base.{
  ℕ, Bool, true, false, Option, none, some, List, [], ◌∷◌, ◌++◌, if◌then◌else◌, ◌==◌, ltb, Bytes,
  codes, text_eq, trim_space, trim_prefix, equal_fold, length, ℤ, atoi,
}
use dnsvard.Docker.{
  ServiceRoute, Warning, unknown_detect, several_http_ports, no_http_port_detected,
  several_networks, DiagError, invalid_http_port, no_network_ip, Diagnostics, DockerInspect,
}
use dnsvard.Docker.Ports.{port_of, candidate_tcp_ports, candidate_http_ports, preferred_probe_ports}
use dnsvard.Docker.Labels.{
  label, compose_service, working_dir, project_label, workspace_label, parse_csv,
  unique_host_labels,
}
use dnsvard.Docker.Networks.{Candidate, Selected, no_network, selected, select_container_network}

-- A container is skipped, or has a route; with the diagnostics.
pub record Parsed : Type 0 where
  pub route : Option ServiceRoute
  pub diag : Diagnostics

-- The name of the service, by its label or else by the container's name.
unfoldable pub service_name_of : DockerInspect → Bytes
unfolding label trim_space trim_prefix text_eq
service_name_of c = trim_space (
    if text_eq (label c.labels compose_service) []
    then trim_prefix c.name (codes "/")
    else label c.labels compose_service)

-- `dnsvard.detect` and its warning.
unfoldable pub detect_manual_of : DockerInspect → Bool
unfolding equal_fold trim_space label
detect_manual_of c =
    equal_fold (trim_space (label c.labels (codes "dnsvard.detect"))) (codes "manual")

unfoldable pub detect_warnings : DockerInspect → List Warning
unfolding detect_manual_of label trim_space text_eq
detect_warnings c =
    let mode = trim_space (label c.labels (codes "dnsvard.detect")) in
    if text_eq mode [] then [] else if detect_manual_of c then [] else unknown_detect c.id mode ∷ []

-- The port that the label `dnsvard.http_port` gives.
pub data Explicit : Type 0 where
  unset : Explicit
  invalid : Bytes → Explicit
  set_to : ℕ → Explicit

unfoldable pub explicit_of_port : Bytes → ℕ → Explicit
explicit_of_port hp p = if p == 0 then invalid hp else set_to p

unfoldable pub explicit_port : DockerInspect → Explicit
unfolding explicit_of_port port_of atoi label trim_space text_eq
explicit_port c =
    let hp = trim_space (label c.labels (codes "dnsvard.http_port")) in
    if text_eq hp [] then unset else explicit_of_port hp (port_of (atoi hp))

unfoldable pub default_http_of : DockerInspect → Bool
unfolding equal_fold label
default_http_of c = equal_fold (label c.labels (codes "dnsvard.default_http")) (codes "true")

-- The port that is detected for a default service without one, and the warnings.
unfoldable pub detected_port : Bytes → Bool → List ℕ → ℕ × List Warning
detected_port id manual [] = (0, if manual then [] else no_http_port_detected id ∷ [])
detected_port id manual (p ∷ []) = (p, [])
detected_port id manual (p ∷ q ∷ ps) =
    (0, if manual then [] else several_http_ports id (p ∷ q ∷ ps) ∷ [])

-- The rest of the function, from the HTTP port on.
unfoldable pub build_route :
    DockerInspect → Selected → List Bytes → ℕ → Bool → List Warning → Parsed
unfolding service_name_of project_label workspace_label default_http_of detect_manual_of
    candidate_tcp_ports trim_prefix label trim_space
build_route c no_network hosts http_port enabled warnings = record {
  route = none;
  diag = record { warnings = warnings; errors = no_network_ip c.id ∷ [] };
}
build_route c (selected n ips) hosts http_port enabled warnings = record {
  route = some (record {
    container_id = c.id;
    container_name = trim_prefix c.name (codes "/");
    service_name = service_name_of c;
    project = project_label c.labels;
    workspace = workspace_label c.labels;
    workspace_path = trim_space (label c.labels working_dir);
    container_ip = n.ip;
    candidate_ips = ips;
    network_name = n.name;
    network_id = n.id;
    host_labels = hosts;
    http_port = http_port;
    tcp_ports = candidate_tcp_ports c;
    http_enabled = enabled;
    default_http = default_http_of c;
    detect_manual = detect_manual_of c;
  });
  diag = record {
    warnings =
        warnings
        ++ (if ltb 1 (length c.networks) then several_networks c.id n.name n.ip ∷ [] else []);
    errors = [];
  };
}

unfoldable pub host_labels_of : DockerInspect → List Bytes
unfolding service_name_of parse_csv unique_host_labels label
host_labels_of c =
    unique_host_labels
      (service_name_of c ∷ parse_csv (label c.labels (codes "dnsvard.service_names")))

module _ (is_ip : Bytes → Bool) (dials : Bytes → ℕ → Bool) where
  unfoldable pub with_port : DockerInspect → ℕ → Bool → List Warning → Parsed
  unfolding build_route select_container_network preferred_probe_ports host_labels_of
      candidate_tcp_ports
  with_port c http_port enabled warnings =
      build_route c
        (select_container_network is_ip dials c
          (preferred_probe_ports http_port (candidate_tcp_ports c)))
        (host_labels_of c) http_port enabled warnings

  -- The cases of the explicit port.
  unfoldable pub by_port : DockerInspect → Explicit → Parsed
  unfolding with_port detected_port detect_warnings default_http_of candidate_http_ports
      detect_manual_of
  by_port c (invalid hp) = record {
    route = none;
    diag = record { warnings = detect_warnings c; errors = invalid_http_port c.id hp ∷ [] };
  }
  by_port c (set_to p) = with_port c p true (detect_warnings c)
  by_port c unset =
      if default_http_of c
      then (let (p, more) = detected_port c.id (detect_manual_of c) (candidate_http_ports c) in
          with_port c p true (detect_warnings c ++ more))
      else with_port c 0 false (detect_warnings c)

  unfoldable pub parse_inspect : DockerInspect → Parsed
  unfolding by_port explicit_port service_name_of text_eq
  parse_inspect c =
      if text_eq (service_name_of c) []
      then record { route = none; diag = record { warnings = []; errors = [] } }
      else by_port c (explicit_port c)
