-- ===== src/Config.antt =====
-- internal/config/config.go: the configuration, from its defaults, a global file, the files of the
-- directories above, an explicit one, and the environment. The YAML decoder and encoder, git, the
-- user database and what the file system holds are arguments.
mod Tests
pub mod Suffix
pub mod Files
pub mod StateDir
pub mod Valid
pub mod Load
pub mod Local
use dnsvard.Base.{ℕ, Bool, Option, List, Bytes, ℤ}

-- `Config`, without what `Load` adds of the project and the workspace. `dns_ttl` is a uint32.
pub record Config : Type 0 where
  pub domains : List Bytes
  pub domain : Bytes
  pub host_pattern : Bytes
  pub loopback_cidr : Bytes
  pub dns_listen : Bytes
  pub dns_ttl : ℕ
  pub http_port : ℤ
  pub state_dir : Bytes
  pub log_level : Bytes
  pub docker_discovery_mode : Bytes

-- `globalConfigFile`
pub record GlobalFile : Type 0 where
  pub suffix : Bytes
  pub host_pattern : Bytes
  pub loopback_cidr : Bytes
  pub dns_listen : Bytes
  pub dns_ttl : ℕ
  pub http_port : ℤ
  pub state_dir : Bytes
  pub log_level : Bytes
  pub docker_discovery_mode : Bytes

-- What `os.ReadFile` finds.
pub data FileRead : Type 0 where
  missing read_error : FileRead
  content : Bytes → FileRead

-- What `os.Lstat` finds: nothing, an error, or an entry, and whether it is a link or a directory.
pub data Stat : Type 0 where
  not_exist stat_error : Stat
  entry : Bool → Bool → Stat

pub data ConfigError : Type 0 where
  cwd_unknown : ConfigError
  init_failed unreadable unparsable : Bytes → ConfigError
  suffix_required host_pattern_required dns_listen_required : ConfigError
  loopback_cidr_required state_dir_required : ConfigError
  suffix_empty suffix_reserved suffix_too_long suffix_bad_label : ConfigError
  dns_listen_invalid dns_ttl_zero http_port_invalid same_ports bad_discovery_mode : ConfigError
  home_unknown state_dir_not_absolute state_dir_outside_home state_dir_resolves_outside :
      ConfigError
  state_dir_too_broad state_dir_is_home state_dir_is_file : ConfigError
  path_empty path_not_absolute path_is_symlink path_not_directory : ConfigError
  path_unknown path_without_parent : ConfigError
  out_of_fuel : ConfigError
  create_dir_failed write_failed encode_failed : ConfigError

-- A value, or the error that stands in its place.
pub data Checked {ℓ} (A : Type ℓ) : Type ℓ where
  passed : A → Checked A
  refused : ConfigError → Checked A
