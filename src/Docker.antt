-- ===== src/Docker.antt =====
-- internal/docker/provider.go: what the provider makes of the containers that docker lists. The
-- answers of the docker commands, the parser of IP addresses and whether a TCP connection can be
-- opened are arguments. A message is a constructor with the values that its text shows.
mod Tests
pub mod Ports
pub mod Labels
pub mod Networks
pub mod Inspect
pub mod Discover
use dnsvard.Base.{ℕ, Bool, List, Bytes, Dict}

-- A port that is not positive is 0.
pub record ServiceRoute : Type 0 where
  pub container_id : Bytes
  pub container_name : Bytes
  pub service_name : Bytes
  pub project : Bytes
  pub workspace : Bytes
  pub workspace_path : Bytes
  pub container_ip : Bytes
  pub candidate_ips : List Bytes
  pub network_name : Bytes
  pub network_id : Bytes
  pub host_labels : List Bytes
  pub http_port : ℕ
  pub tcp_ports : List ℕ
  pub http_enabled : Bool
  pub default_http : Bool
  pub detect_manual : Bool

pub data Warning : Type 0 where
  unknown_detect : Bytes → Bytes → Warning
  several_http_ports : Bytes → List ℕ → Warning
  no_http_port_detected : Bytes → Warning
  several_networks : Bytes → Bytes → Bytes → Warning

pub data DiagError : Type 0 where
  invalid_http_port : Bytes → Bytes → DiagError
  no_network_ip : Bytes → DiagError
  several_defaults : Bytes → Bytes → DiagError
  no_backend_port : Bytes → DiagError

-- What a docker command answers, or the text of the error.
pub data Answer (A : Type 0) : Type 0 where
  answered : A → Answer A
  command_failed : Bytes → Answer A

-- The errors of `Discover`.
pub data DiscoverError : Type 0 where
  docker_error : Bytes → DiscoverError
  empty_inspect : DiscoverError

pub record Diagnostics : Type 0 where
  pub warnings : List Warning
  pub errors : List DiagError

pub record Network : Type 0 where
  pub ip_address : Bytes
  pub network_id : Bytes

-- `dockerInspect`; of the maps of ports only the keys are read.
pub record DockerInspect : Type 0 where
  pub id : Bytes
  pub name : Bytes
  pub labels : Dict Bytes
  pub exposed_ports : List Bytes
  pub ports : List Bytes
  pub networks : Dict Network
