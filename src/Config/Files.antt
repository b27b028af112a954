-- ===== src/Config/Files.antt =====
-- internal/config/config.go: the defaults, the files and the environment, and
-- internal/netutil/listen_port.go.
pub mod Ends
use dnsvard.Base.{
  ℕ, zero, suc, Bool, true, false, Option, none, some, List, [], ◌∷◌, ◌++◌, if◌then◌else◌, ◌==◌,
  ◌&&◌, Bytes, codes, text_eq, length, to_lower, trim_space, has_prefix, trim_prefix, ℤ, pos,
  negsuc, atoi, is_abs, components, clean, path_dir, path_join, reverse,
}
use dnsvard.Config.{
  Config, GlobalFile, FileRead, missing, read_error, content, ConfigError, init_failed, unreadable,
  unparsable, Checked, passed, refused,
}
use dnsvard.Config.Suffix.{normalize_suffix}
use dnsvard.Config.StateDir.{path_within}

-- What `effectiveHomeDir` asks for: whether root runs the program, the variables, and the answers
-- of `user.LookupId` and `os.UserHomeDir`.
pub record HomeSources : Type 0 where
  pub is_root : Bool
  pub sudo_uid : Bytes
  pub home_of_uid : Bytes → Option Bytes
  pub user_home : Option Bytes
  pub home_variable : Bytes

-- A text that is not blank.
unfoldable pub non_blank : Option Bytes → Option Bytes
unfolding trim_space text_eq
non_blank none = none
non_blank (some s) = if text_eq (trim_space s) [] then none else some s

unfoldable pub own_home : HomeSources → Bytes
unfolding non_blank trim_space text_eq
own_home h = elim (non_blank h.user_home) [
  | some home ↦ home
  | none ↦ if text_eq (trim_space h.home_variable) [] then codes "." else trim_space h.home_variable
]

-- `effectiveHomeDir`
unfoldable pub effective_home_dir : HomeSources → Bytes
unfolding own_home non_blank trim_space text_eq
effective_home_dir h =
    if h.is_root
    then (if text_eq (trim_space h.sudo_uid) []
        then own_home h
        else elim (non_blank (h.home_of_uid (trim_space h.sudo_uid))) [
          | some home ↦ home
          | none ↦ own_home h
        ])
    else own_home h

abbrev pub mode_required : Bytes
mode_required = codes "required"

abbrev pub mode_optional : Bytes
mode_optional = codes "optional"

abbrev pub default_pattern : Bytes
default_pattern = codes "service-workspace-project-tld"

-- `Default`, for a home directory.
unfoldable pub default_config : Bytes → Config
unfolding path_join
default_config home = record {
  domains = codes "test" ∷ [];
  domain = codes "test";
  host_pattern = default_pattern;
  loopback_cidr = codes "127.90.0.0/16";
  dns_listen = codes "127.0.0.1:1053";
  dns_ttl = 5;
  http_port = pos 80;
  state_dir = path_join home (codes ".local/state/dnsvard");
  log_level = codes "info";
  docker_discovery_mode = mode_required;
}

-- `normalizeDockerDiscoveryMode`
unfoldable pub normalize_mode : Bytes → Bytes
unfolding to_lower trim_space
normalize_mode v = to_lower (trim_space v)

-- A value, or the one behind it where it is empty, or where it is blank.
unfoldable pub or_old : Bytes → Bytes → Bytes
or_old [] old = old
or_old (c ∷ s) old = c ∷ s

unfoldable pub unless_blank : Bytes → Bytes → Bytes
unfolding trim_space text_eq
unless_blank v old = if text_eq (trim_space v) [] then old else v

unfoldable pub is_zero : ℤ → Bool
is_zero (pos n) = n == 0
is_zero (negsuc n) = false

-- What `loadGlobalYAMLFile` makes of a file that parses.
unfoldable pub merge_global : GlobalFile → Config → Config
unfolding or_old unless_blank normalize_suffix normalize_mode trim_space is_zero
merge_global g c = record {
  domains = c.domains;
  domain = or_old (normalize_suffix g.suffix) c.domain;
  host_pattern = or_old (trim_space g.host_pattern) c.host_pattern;
  loopback_cidr = unless_blank g.loopback_cidr c.loopback_cidr;
  dns_listen = unless_blank g.dns_listen c.dns_listen;
  dns_ttl = if g.dns_ttl == 0 then c.dns_ttl else g.dns_ttl;
  http_port = if is_zero g.http_port then c.http_port else g.http_port;
  state_dir = unless_blank g.state_dir c.state_dir;
  log_level = unless_blank g.log_level c.log_level;
  docker_discovery_mode = or_old (normalize_mode g.docker_discovery_mode) c.docker_discovery_mode;
}

-- `loadGlobalYAMLFile`: with `init` a missing file is written; `init_done` is whether it could be
-- written and given to the user.
unfoldable pub load_global :
    (Bytes → Option GlobalFile) → Bool → Bool → Bytes → FileRead → Config → Checked Config
unfolding merge_global
load_global decode init init_done path missing c =
    if init then if init_done then passed c else refused (init_failed path) else passed c
load_global decode init init_done path read_error c = refused (unreadable path)
load_global decode init init_done path (content b) c = elim (decode b) [
  | none ↦ refused (unparsable path)
  | some g ↦ passed (merge_global g c)
]

-- `loadYAMLFile`
unfoldable pub load_file :
    (Bytes → Config → Option Config) → Bytes → FileRead → Config → Checked Config
load_file decode path missing c = passed c
load_file decode path read_error c = refused (unreadable path)
load_file decode path (content b) c = elim (decode b c) [
  | none ↦ refused (unparsable path)
  | some c' ↦ passed c'
]

-- The loop over the local files.
unfoldable pub load_files :
    (Bytes → Config → Option Config) → (Bytes → FileRead) → List Bytes → Config → Checked Config
unfolding load_file
load_files decode read [] c = passed c
load_files decode read (p ∷ ps) c = elim (load_file decode p (read p) c) [
  | passed c' ↦ load_files decode read ps c'
  | refused e ↦ refused e
]

-- The variables that `applyEnv` reads.
pub record Variables : Type 0 where
  pub suffix : Bytes
  pub host_pattern : Bytes
  pub loopback_cidr : Bytes
  pub dns_listen : Bytes
  pub state_dir : Bytes
  pub http_port : Bytes
  pub log_level : Bytes
  pub docker_discovery_mode : Bytes

unfoldable pub port_or : Option ℤ → ℤ → ℤ
port_or none old = old
port_or (some p) old = p

-- `applyEnv`
unfoldable pub apply_env : Variables → Config → Config
unfolding or_old normalize_mode trim_space port_or atoi
apply_env v c = record {
  domains = c.domains;
  domain = or_old (trim_space v.suffix) c.domain;
  host_pattern = or_old (trim_space v.host_pattern) c.host_pattern;
  loopback_cidr = or_old v.loopback_cidr c.loopback_cidr;
  dns_listen = or_old v.dns_listen c.dns_listen;
  dns_ttl = c.dns_ttl;
  http_port = port_or (atoi v.http_port) c.http_port;
  state_dir = or_old v.state_dir c.state_dir;
  log_level = or_old v.log_level c.log_level;
  docker_discovery_mode = or_old (normalize_mode v.docker_discovery_mode) c.docker_discovery_mode;
}

-- `v, err := strconv.Atoi(...)` of a port: none where it fails or is not positive.
unfoldable pub positive_of : Option ℤ → Option ℕ
positive_of none = none
positive_of (some (pos n)) = if n == 0 then none else some n
positive_of (some (negsuc n)) = none

-- `netutil.ParseListenPort`, with what `net.SplitHostPort` answers.
unfoldable pub parse_listen_port : (Bytes → Option (Bytes × Bytes)) → Bytes → Option ℕ
unfolding positive_of atoi has_prefix trim_prefix trim_space text_eq
parse_listen_port split_host_port listen =
    if text_eq (trim_space listen) []
    then none
    else if has_prefix (trim_space listen) (codes ":")
    then positive_of (atoi (trim_prefix (trim_space listen) (codes ":")))
    else elim (split_host_port (trim_space listen)) [
      | none ↦ none
      | some p ↦ positive_of (atoi (trim_space p.1))
    ]

-- `stopDir != "" && absBase == stopDir`
unfoldable pub is_stop : Option Bytes → Bytes → Bool
unfolding text_eq
is_stop none dir = false
is_stop (some s) dir = text_eq dir s

-- The loop of `localConfigPathsForMerge`, with so many rounds left; `is_plain` is whether there is
-- a file that is not a directory. The paths are found from the inside out.
unfoldable pub find_files : (Bytes → Bool) → Bytes → Option Bytes → ℕ → Bytes → List Bytes
unfolding path_join path_dir text_eq is_stop
find_files is_plain name stop zero dir = []
find_files is_plain name stop (suc left) dir =
    let rest = find_files is_plain name stop left (path_dir dir) in
    let more = if text_eq (path_dir dir) dir then [] else rest in
    let next = if is_stop stop dir then [] else more in
    if is_plain (path_join dir name) then path_join dir name ∷ next else next

-- The directory where the loop stops, from the absolute path of the home directory.
unfoldable pub stop_dir : Option Bytes → Bytes → Option Bytes
unfolding path_within
stop_dir none base = none
stop_dir (some home) base = if path_within home base then some home else none

unfoldable pub or_text : Bytes → Bytes → Bytes
or_text [] fallback = fallback
or_text (c ∷ s) fallback = c ∷ s

-- `localConfigPathsForMerge`, with what `filepath.Abs` answers.
unfoldable pub local_config_paths :
    (Bytes → Option Bytes) → (Bytes → Bool) → Bytes → Bytes → Bytes → List Bytes
unfolding find_files stop_dir or_text trim_space clean components
local_config_paths abs is_plain home cwd local_name =
    elim (abs (or_text (trim_space cwd) (codes "."))) [
      | none ↦ []
      | some base ↦ reverse (
          find_files is_plain (or_text (trim_space local_name) (codes "dnsvard.yaml"))
            (stop_dir (abs (clean home)) base) (suc (length (components base))) base)
    ]
