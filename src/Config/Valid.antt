-- ===== src/Config/Valid.antt =====
-- internal/config/config.go: `validate`.
pub mod Accepted
use dnsvard.Base.{
  ℕ, Bool, true, false, Option, none, some, List, [], ◌∷◌, if◌then◌else◌, ◌==◌, Bytes, codes,
  text_eq, trim_space, ℤ, pos, negsuc, is_port,
}
use dnsvard.Config.{
  Config, ConfigError, suffix_required, host_pattern_required, dns_listen_required,
  loopback_cidr_required, state_dir_required, dns_listen_invalid, dns_ttl_zero, http_port_invalid,
  same_ports, bad_discovery_mode, Checked, passed, refused,
}
use dnsvard.Config.Suffix.{normalize_suffix, validate_suffix_value}
use dnsvard.Config.Files.{parse_listen_port, normalize_mode, mode_required, mode_optional}

-- An error where a test holds.
unfoldable pub error_if : Bool → ConfigError → Option ConfigError
error_if true e = some e
error_if false e = none

unfoldable pub is_blank : Bytes → Bool
unfolding trim_space text_eq
is_blank s = text_eq (trim_space s) []

unfoldable pub error_of : Checked Bytes → Option ConfigError
error_of (passed p) = none
error_of (refused e) = some e

unfoldable pub is_none : Option (Bytes × Bytes) → Bool
is_none none = true
is_none (some p) = false

unfoldable pub is_same_port : Option ℕ → ℤ → Bool
is_same_port none p = false
is_same_port (some n) (pos m) = n == m
is_same_port (some n) (negsuc m) = false

unfoldable pub is_mode : Bytes → Bool
unfolding text_eq
is_mode m =
    if text_eq m [] then true else if text_eq m mode_required then true else text_eq m mode_optional

unfoldable pub negate : Bool → Bool
negate true = false
negate false = true

-- The first error of tests that follow each other.
unfoldable pub first_error : List (Option ConfigError) → Option ConfigError
first_error [] = none
first_error (none ∷ es) = first_error es
first_error (some e ∷ es) = some e

-- The tests of `validate`, in their order; `safe` is `SafeStateDirPath`.
unfoldable pub tests_of :
    (Bytes → Checked Bytes) → (Bytes → Option (Bytes × Bytes)) → Config → List (Option ConfigError)
unfolding error_if is_blank error_of is_none is_same_port is_mode negate normalize_suffix
    validate_suffix_value parse_listen_port normalize_mode is_port trim_space text_eq
tests_of safe split_host_port c =
    error_if (text_eq (normalize_suffix c.domain) []) suffix_required
    ∷ validate_suffix_value (normalize_suffix c.domain)
    ∷ error_if (is_blank c.host_pattern) host_pattern_required
    ∷ error_if (is_blank c.dns_listen) dns_listen_required
    ∷ error_if (is_none (split_host_port (trim_space c.dns_listen))) dns_listen_invalid
    ∷ error_if (is_blank c.loopback_cidr) loopback_cidr_required
    ∷ error_if (is_blank c.state_dir) state_dir_required
    ∷ error_of (safe c.state_dir)
    ∷ error_if (c.dns_ttl == 0) dns_ttl_zero
    ∷ error_if (negate (is_port c.http_port)) http_port_invalid
    ∷ error_if (is_same_port (parse_listen_port split_host_port c.dns_listen) c.http_port)
        same_ports
    ∷ error_if (negate (is_mode (normalize_mode c.docker_discovery_mode))) bad_discovery_mode
    ∷ []

-- `validate`
unfoldable pub validate :
    (Bytes → Checked Bytes) → (Bytes → Option (Bytes × Bytes)) → Config → Option ConfigError
unfolding first_error tests_of
validate safe split_host_port c = first_error (tests_of safe split_host_port c)
