-- ===== src/RouteBuild/Configs.antt =====
-- cmd/dnsvard/routes_build.go: the closure `loadScopeConfig`, on `config.Load`.
use dnsvard.Base.{false, [], ◌≡◌, refl, ap, subst, Bytes}
use dnsvard.Config.{Config, Checked, passed, refused}
use dnsvard.Config.Suffix.{normalize_suffix}
use dnsvard.Config.Suffix.Accepted.{IsSuffix}
use dnsvard.Config.Load.{LoadOptions, System, Info, load}
use dnsvard.Config.Load.Sound.{load-IsValid}
use dnsvard.RouteBuild.{ScopeConfig}

-- What is read of a config that was loaded.
unfoldable pub config_read : Checked (Config × Info) → Checked ScopeConfig
config_read (passed p) = passed (record { domain = p.0.domain; host_pattern = p.0.host_pattern })
config_read (refused e) = refused e

-- `loadScopeConfig`: the field `load_scope` of an environment.
unfoldable pub load_scope_config : System → Bytes → Checked ScopeConfig
unfolding config_read load
load_scope_config sys path = config_read (
    load sys (record { cwd = path; explicit_path = []; local_name = []; skip_global_init = false }))

scope_inj : {c d : ScopeConfig} → ◌≡◌ {A = Checked ScopeConfig} (passed c) (passed d) → c ≡ d
scope_inj e = cc

-- The domain of a scope's config is one that the configuration accepts.
pub load_scope_config-IsSuffix :
    (sys : System) (path : Bytes) (s : ScopeConfig)
    → load_scope_config sys path ≡ passed s
    → IsSuffix (normalize_suffix (normalize_suffix s.domain))
unfolding load_scope_config config_read
load_scope_config-IsSuffix sys path s h =
    read (load sys options) (λ c i e. (load-IsValid sys options c i e).suffix) h
  where
    options : LoadOptions
    options = record { cwd = path; explicit_path = []; local_name = []; skip_global_init = false }

    read :
        (r : Checked (Config × Info))
        → ((c : Config) (i : Info)
            → r ≡ passed (c, i)
            → IsSuffix (normalize_suffix (normalize_suffix c.domain)))
        → config_read r ≡ passed s
        → IsSuffix (normalize_suffix (normalize_suffix s.domain))
    read (passed (c, i)) k e =
        subst (λ (d : Bytes). IsSuffix (normalize_suffix (normalize_suffix d)))
          (ap (λ (x : ScopeConfig). x.domain) (scope_inj e)) (k c i refl)
    read (refused x) k e = absurd (cc e)
