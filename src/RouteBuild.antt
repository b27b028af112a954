-- ===== src/RouteBuild.antt =====
-- cmd/dnsvard/routes_build.go: the records and routes of all workspaces, out of the containers that
-- docker lists, the runtime leases, and the allocator. `config.Load` for the directory of a scope,
-- the workspace ids (SHA-1 in hexadecimal), the clock and the success of writes are fields of the
-- environment; the cache of loaded configs is left out, since loading answers the same each time.
-- A warning is a constructor with the values that its text shows.
mod Tests
pub mod Domains
pub mod Targets
pub mod Actions
pub mod Scopes
pub mod Services
pub mod Defaults
pub mod Assemble
pub mod Configs
pub mod Owned
use dnsvard.Base.{ℕ, Bool, true, false, Option, List, [], Bytes, Dict}
use dnsvard.Netip.{Addr}
use dnsvard.Allocator
use dnsvard.Allocator.{Allocator}
use dnsvard.Routes.{Entry}
use dnsvard.HttpRouter
use dnsvard.TcpProxy
use dnsvard.Config.{ConfigError, Checked}
use dnsvard.Leases.{LeaseFile, LeaseError}
use dnsvard.Docker
use dnsvard.Identity.Host.{Named}

-- `workspaceScope`
pub record Scope : Type 0 where
  pub project : Bytes
  pub workspace : Bytes
  pub path : Bytes
  pub ip : Addr

-- What is read of the config of a scope's directory.
pub record ScopeConfig : Type 0 where
  pub domain : Bytes
  pub host_pattern : Bytes

-- The inputs of `buildRoutes` and what it calls. `required` is the docker discovery mode.
pub record Env : Type 0 where
  pub domain : Bytes
  pub host_pattern : Bytes
  pub http_port : ℕ
  pub required : Bool
  pub workspace_path : Bytes
  pub project : Bytes
  pub workspace : Bytes
  pub workspace_ip : Addr
  pub avoid : Dict ℕ
  pub now : Option ℕ
  pub clock : ℕ
  pub load_scope : Bytes → Checked ScopeConfig
  pub workspace_id : Bytes → Bytes
  pub hash : Bytes → ℕ
  pub can_write : Bytes → Bool
  pub v6_text : ℕ → Bytes
  pub leases_written : Bool
  pub running : ℕ → Bool

pub data BuildError : Type 0 where
  labels_required : BuildError
  docker_failed : Docker.DiscoverError → BuildError
  leases_failed : LeaseError → BuildError
  allocation_failed : Allocator.Outcome → BuildError
  bad_hostnames : Named → BuildError
  panicked : BuildError

-- `quarantined` has the target that is avoided, the service with its container and network, and the
-- target that is taken.
pub data Warning : Type 0 where
  docker_discover_failed : Docker.DiscoverError → Warning
  docker_warning : Docker.Warning → Warning
  label_validation : Docker.DiagError → Warning
  scope_failed : Bytes → BuildError → Warning
  quarantined : Bytes → Docker.ServiceRoute → Bytes → Warning
  no_default several_defaults : Bytes → Warning
  config_load_failed : Bytes → ConfigError → Warning
  merge_warning : Bytes → Warning

-- The variables of `buildRoutes`, with the allocator and the file of leases that it changes. The
-- routing warnings are the paths that they are about, with the errors.
pub record Builder : Type 0 where
  pub allocator : Allocator
  pub lease_file : LeaseFile
  pub routing_warnings : Dict ConfigError
  pub managed_domains : List Bytes
  pub workspace_domains : Dict Bytes
  pub scopes : Dict Scope
  pub entries : List Entry
  pub http_routes : List HttpRouter.Route
  pub tcp_routes : List TcpProxy.Route
  pub warnings : List Warning
  pub project_workspaces : Dict (List Bytes)
  pub http_counts : Dict ℕ
  pub default_counts : Dict ℕ
  pub default_targets : Dict Bytes
  pub first_targets : Dict Bytes

abbrev pub new_builder : Allocator → LeaseFile → Builder
new_builder a file = record {
  allocator = a;
  lease_file = file;
  routing_warnings = [];
  managed_domains = [];
  workspace_domains = [];
  scopes = [];
  entries = [];
  http_routes = [];
  tcp_routes = [];
  warnings = [];
  project_workspaces = [];
  http_counts = [];
  default_counts = [];
  default_targets = [];
  first_targets = [];
}
