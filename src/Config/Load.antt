-- ===== src/Config/Load.antt =====
-- internal/config/config.go: `Load`.
pub mod Sound
use dnsvard.Base.{
  ℕ, Bool, true, false, Option, none, some, List, [], ◌∷◌, ◌++◌, if◌then◌else◌, not, Bytes, codes,
  text_eq, trim_space, has_suffix, path_base, path_dir, path_join,
}
use dnsvard.Config.{
  Config, GlobalFile, FileRead, Stat, ConfigError, cwd_unknown, Checked, passed, refused,
}
use dnsvard.Config.Suffix.{normalize_suffix}
use dnsvard.Config.StateDir.{safe_state_dir_path}
use dnsvard.Config.Files.{
  HomeSources, effective_home_dir, default_config, default_pattern, mode_required, normalize_mode,
  or_text, load_global, load_file, load_files, Variables, apply_env, local_config_paths,
}
use dnsvard.Config.Valid.{validate}

-- `LoadOptions`
pub record LoadOptions : Type 0 where
  pub cwd : Bytes
  pub explicit_path : Bytes
  pub local_name : Bytes
  pub skip_global_init : Bool

-- What `Load` asks of the system and of other packages.
pub record System : Type 0 where
  pub getwd : Option Bytes
  pub home_sources : HomeSources
  pub abs : Bytes → Option Bytes
  pub read : Bytes → FileRead
  pub is_plain : Bytes → Bool
  pub lstat : Bytes → Stat
  pub eval_symlinks : Bytes → Option Bytes
  pub decode_global : Bytes → Option GlobalFile
  pub decode_local : Bytes → Config → Option Config
  pub init_done : Bool
  pub variables : Variables
  pub split_host_port : Bytes → Option (Bytes × Bytes)
  pub git : Bytes → List Bytes → Bytes

-- `ProjectInfo` and `WorkspaceInfo`
pub record Info : Type 0 where
  pub remote_url : Bytes
  pub repo_base : Bytes
  pub worktree_base : Bytes
  pub branch : Bytes
  pub cwd_base : Bytes
  pub path : Bytes

-- `GlobalConfigPath`
unfoldable pub global_config_path : Bytes → Bytes
unfolding path_join
global_config_path home = path_join home (codes ".config/dnsvard/config.yaml")

-- `cfg.Domains = []string{cfg.Domain}`, where the domain is not empty.
unfoldable pub only_domain : Config → Config
unfolding text_eq
only_domain c = if text_eq c.domain [] then c else record c { domains = c.domain ∷ [] }

-- The statements between `applyEnv` and `validate`, for the suffix, the pattern and the mode.
unfoldable pub settle : Bytes → Config → Config
unfolding only_domain normalize_suffix default_config or_text normalize_mode trim_space text_eq
settle home c =
    let named = only_domain (record c {
      domain = or_text (normalize_suffix c.domain) (normalize_suffix (default_config home).domain);
    }) in
    record named {
      host_pattern =
          if text_eq (trim_space c.host_pattern) [] then default_pattern else c.host_pattern;
      docker_discovery_mode = or_text (normalize_mode c.docker_discovery_mode) mode_required;
    }

module _ (sys : System) where
  abbrev pub home : Bytes
  home = effective_home_dir sys.home_sources

  -- `SafeStateDirPath`
  unfoldable pub safe_path : Bytes → Checked Bytes
  unfolding safe_state_dir_path
  safe_path dir = safe_state_dir_path sys.lstat sys.eval_symlinks sys.abs dir home

  unfoldable pub load_explicit : Bytes → Config → Checked Config
  unfolding load_file
  load_explicit [] c = passed c
  load_explicit (d ∷ path) c = load_file sys.decode_local (d ∷ path) (sys.read (d ∷ path)) c

  -- The last part of a path to a common git directory, or of the root of the repository.
  unfoldable pub repo_base_of : Bytes → Bytes → Bytes
  unfolding has_suffix path_base path_dir text_eq
  repo_base_of root common =
      if text_eq common []
      then path_base root
      else if has_suffix common (codes ".git")
      then path_base (path_dir common)
      else path_base root

  unfoldable pub info_of : Bytes → Info
  unfolding or_text repo_base_of path_base
  info_of cwd = record {
    remote_url = sys.git cwd (codes "remote" ∷ codes "get-url" ∷ codes "origin" ∷ []);
    repo_base =
        repo_base_of (or_text (sys.git cwd (codes "rev-parse" ∷ codes "--show-toplevel" ∷ [])) cwd)
          (sys.git cwd
            (codes "rev-parse" ∷ codes "--path-format=absolute" ∷ codes "--git-common-dir" ∷ []));
    worktree_base = path_base cwd;
    branch =
        or_text (sys.git cwd (codes "branch" ∷ codes "--show-current" ∷ []))
          (sys.git cwd (codes "rev-parse" ∷ codes "--abbrev-ref" ∷ codes "HEAD" ∷ []));
    cwd_base = path_base cwd;
    path = cwd;
  }

  -- From `applyEnv` on.
  unfoldable pub load_rest : Bytes → Config → Checked (Config × Info)
  unfolding apply_env settle validate safe_path info_of
  load_rest cwd c =
      let settled = settle home (apply_env sys.variables c) in
      elim (validate safe_path sys.split_host_port settled) [
        | none ↦ passed (settled, info_of cwd)
        | some e ↦ refused e
      ]

  -- What follows a step that may refuse.
  unfoldable pub then_step {ℓ} : {A : Type ℓ} → Checked Config → (Config → Checked A) → Checked A
  then_step (passed c) k = k c
  then_step (refused e) k = refused e

  unfoldable pub load_in : LoadOptions → Bytes → Checked (Config × Info)
  unfolding then_step load_global load_files load_explicit load_rest local_config_paths
      global_config_path default_config or_text
  load_in opts cwd =
      let name = or_text opts.local_name (codes "dnsvard.yaml") in
      then_step
        (load_global sys.decode_global (not opts.skip_global_init) sys.init_done
          (global_config_path home) (sys.read (global_config_path home)) (default_config home))
        (λ a.
          then_step
            (load_files sys.decode_local sys.read
              (local_config_paths sys.abs sys.is_plain home cwd name) a)
            (λ b. then_step (load_explicit opts.explicit_path b) (load_rest cwd)))

  -- `Load`
  unfoldable pub load : LoadOptions → Checked (Config × Info)
  unfolding load_in text_eq
  load opts =
      if text_eq opts.cwd []
      then elim sys.getwd [ none ↦ refused cwd_unknown | some cwd ↦ load_in opts cwd ]
      else load_in opts opts.cwd
