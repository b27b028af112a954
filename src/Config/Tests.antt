-- ===== src/Config/Tests.antt =====
-- Runs on suffixes, paths and files, and the theorems at concrete inputs.
use dnsvard.Base.{
  true, false, none, some, List, [], ◌∷◌, ◌++◌, ◌≡◌, ◌≢◌, ◌↔◌, refl, Bytes, codes, text_eq, Dict,
  if◌then◌else◌, is_abs, components, to_lower, trim_space, trim,
}
use dnsvard.Config.{missing, content, Stat, not_exist, entry, out_of_fuel, passed, refused}
use dnsvard.Config.Suffix.{
  normalize_suffix, validate_suffix_value, check_suffix, check_labels, is_domain_label,
}
use dnsvard.Config.StateDir.{safe_state_dir_path, path_within, resolve_path}
use dnsvard.Config.StateDir.Within.{path_within_iff}
use dnsvard.Config.StateDir.Ends.{resolve_path_ends}
use dnsvard.Config.Files.{default_config, effective_home_dir}
use dnsvard.Config.Valid.{validate}
use dnsvard.Config.Valid.Accepted.{IsValid, validate_iff}
use dnsvard.Config.Load.{LoadOptions, System, Info, safe_path, load}
use dnsvard.Config.Load.Sound.{load-IsValid}
use dnsvard.Base.{ℕ, zero, suc, ap, subst, some-inj, lookup, insert}
use dnsvard.Config.Local.{
  Value, text, other, Disk, changed, plain_pattern, set_value, read_map, is_current, write_map,
  set_local_host_pattern,
}
use dnsvard.Config.Local.Written.{
  HasSameEntries, IsCodec, IsWritten, set_local_host_pattern-IsWritten,
}

-- A blank behind a dot stays.
spaced_stays : normalize_suffix (codes ". a .") ≡ codes " a "
unfolding normalize_suffix to_lower trim trim_space
spaced_stays = refl

-- And is accepted.
spaced_accepted : validate_suffix_value (codes " a ") ≡ none
unfolding validate_suffix_value normalize_suffix check_suffix check_labels is_domain_label
spaced_accepted = refl

path_within_iff_example : (path_within (codes "/home/u") (codes "/home/u/x/../dnsvard") ≡ true) ↔ (
    (rest : List Bytes) × (components (codes "/home/u/x/../dnsvard")
      ≡ components (codes "/home/u") ++ rest))
unfolding is_abs
path_within_iff_example = path_within_iff (codes "/home/u") (codes "/home/u/x/../dnsvard") refl refl

abbrev tree : Bytes → Stat
tree p = if text_eq p (codes "/home") then entry false true else not_exist

resolve_path_ends_example :
    resolve_path tree (λ p. some p) (codes "/home/u/dnsvard") ≢ refused out_of_fuel
resolve_path_ends_example = resolve_path_ends tree (λ p. some p) (codes "/home/u/dnsvard")

-- Blanks around the home directory are taken away.
home_trimmed :
    safe_state_dir_path tree
      (λ p. some p)
      (λ p. some p)
      (codes "/home/u/.local/dnsvard")
      (codes " /home/u ")
    ≡ passed (codes "/home/u/.local/dnsvard")
unfolding safe_state_dir_path
home_trimmed = refl

abbrev sys : System
sys = record {
  getwd = some (codes "/home/u/app");
  home_sources = record {
    is_root = false;
    sudo_uid = [];
    home_of_uid = λ uid. none;
    user_home = some (codes "/home/u");
    home_variable = [];
  };
  abs = λ p. some p;
  read = λ p. missing;
  is_plain = λ p. false;
  lstat = tree;
  eval_symlinks = λ p. some p;
  decode_global = λ b. none;
  decode_local = λ b c. none;
  init_done = true;
  variables = record {
    suffix = [];
    host_pattern = [];
    loopback_cidr = [];
    dns_listen = [];
    state_dir = [];
    http_port = [];
    log_level = [];
    docker_discovery_mode = [];
  };
  split_host_port = λ s. some (codes "127.0.0.1", codes "1053");
  git = λ cwd args. [];
}

abbrev options : LoadOptions
options = record { cwd = []; explicit_path = []; local_name = []; skip_global_init = false }

abbrev info : Info
info = record {
  remote_url = [];
  repo_base = codes "app";
  worktree_base = codes "app";
  branch = [];
  cwd_base = codes "app";
  path = codes "/home/u/app";
}

loaded : load sys options ≡ passed (default_config (codes "/home/u"), info)
unfolding load default_config effective_home_dir
loaded = refl

load-IsValid_example :
    IsValid (safe_path sys) sys.split_host_port (default_config (codes "/home/u"))
load-IsValid_example = load-IsValid sys options (default_config (codes "/home/u")) info loaded

validate_iff_example :
    (validate (safe_path sys) sys.split_host_port (default_config (codes "/home/u")) ≡ none)
    ↔ IsValid (safe_path sys) sys.split_host_port (default_config (codes "/home/u"))
validate_iff_example =
    validate_iff (safe_path sys) sys.split_host_port (default_config (codes "/home/u"))

-- A codec of maps: the fields of the entries, each ended by a zero and its bytes one higher, with an
-- empty field before a text and a field of one byte before another value.
abbrev put_field : Bytes → Bytes → Bytes
put_field [] rest = 0 ∷ rest
put_field (c ∷ v) rest = suc c ∷ put_field v rest

abbrev head_with : ℕ → List Bytes → List Bytes
head_with c [] = (c ∷ []) ∷ []
head_with c (f ∷ fs) = (c ∷ f) ∷ fs

abbrev fields : Bytes → List Bytes
fields [] = []
fields (zero ∷ b) = [] ∷ fields b
fields (suc c ∷ b) = head_with c (fields b)

fields-put_field : (v rest : Bytes) → fields (put_field v rest) ≡ v ∷ fields rest
fields-put_field [] rest = refl
fields-put_field (c ∷ v) rest = ap (head_with c) (fields-put_field v rest)

abbrev put_value : Value → Bytes → Bytes
put_value (text v) rest = put_field [] (put_field v rest)
put_value (other v) rest = put_field (1 ∷ []) (put_field v rest)

abbrev put_map : Dict Value → Bytes
put_map [] = []
put_map ((k, x) ∷ m) = put_field k (put_value x (put_map m))

abbrev value_of : Bytes → Bytes → Value
value_of [] v = text v
value_of (c ∷ tag) v = other v

abbrev entries_of : List Bytes → Dict Value
entries_of [] = []
entries_of (k ∷ []) = []
entries_of (k ∷ tag ∷ []) = []
entries_of (k ∷ tag ∷ v ∷ fs) = (k, value_of tag v) ∷ entries_of fs

entries_of-put_map : (m : Dict Value) → entries_of (fields (put_map m)) ≡ m
entries_of-put_map [] = refl
entries_of-put_map ((k, text v) ∷ m) =
    rw
      (
        fields-put_field k (put_value (text v) (put_map m)),
        fields-put_field [] (put_field v (put_map m)),
        fields-put_field v (put_map m),
      )
      (ap (λ e. (k, text v) ∷ e) (entries_of-put_map m))
entries_of-put_map ((k, other v) ∷ m) =
    rw
      (
        fields-put_field k (put_value (other v) (put_map m)),
        fields-put_field (1 ∷ []) (put_field v (put_map m)),
        fields-put_field v (put_map m),
      )
      (ap (λ e. (k, other v) ∷ e) (entries_of-put_map m))

-- A line feed stands first, so that no text is empty.
abbrev disk : Disk
disk = record {
  decode = λ b. elim b [ [] ↦ none | c ∷ rest ↦ some (entries_of (fields rest)) ];
  encode = λ m. some (10 ∷ put_map m);
  made_dir = true;
  write_fails = none;
}

disk-IsCodec : IsCodec disk
disk-IsCodec m b h =
    subst (λ t. (t ≢ []) × ((n : Dict Value) × (disk.decode t ≡ some n) × HasSameEntries m n))
      (some-inj h) ((λ e. cc e), (m, ap some (entries_of-put_map m), (λ k. refl)))

-- The file has a suffix, a list and a pattern.
abbrev local_file : Bytes
local_file =
    10
    ∷ put_map (
        (codes "suffix", text (codes "test"))
        ∷ (codes "host_pattern", text (codes "workspace-project-tld"))
        ∷ (codes "ports", other (codes "[80]"))
        ∷ [])

abbrev written_file : Bytes
written_file =
    10
    ∷ put_map (
        (codes "suffix", text (codes "test"))
        ∷ (codes "host_pattern", text (codes "workspace-tld"))
        ∷ (codes "ports", other (codes "[80]"))
        ∷ [])

pattern_written :
    set_local_host_pattern disk (codes "dnsvard.yaml") (codes " Workspace-TLD") (content local_file)
    ≡ (content written_file, changed)
unfolding set_local_host_pattern plain_pattern set_value read_map is_current write_map lookup insert
    to_lower trim_space text_eq
pattern_written = refl

set_local_host_pattern-IsWritten_example :
    IsWritten disk
      (codes "dnsvard.yaml")
      (codes "host_pattern")
      (plain_pattern (codes " Workspace-TLD"))
      (content local_file)
      (content written_file)
set_local_host_pattern-IsWritten_example =
    set_local_host_pattern-IsWritten disk (codes "dnsvard.yaml") (codes " Workspace-TLD")
      (content local_file) (content written_file) disk-IsCodec pattern_written
