-- ===== src/Config/Load/Sound.antt =====
-- What a configuration that is loaded guarantees.
use dnsvard.Base.{
  none, some, [], ◌≡◌, Bool, true, false, Option, inl, inr, subst, if◌then◌else◌, Option-cases,
  Bytes, text_eq, not, codes,
}
use dnsvard.Config.{cwd_unknown, Config, Checked, passed, refused}
use dnsvard.Config.Files.{
  load_global, load_files, local_config_paths, default_config, apply_env, or_text,
}
use dnsvard.Config.Valid.{validate}
use dnsvard.Config.Valid.Accepted.{IsValid, validate_iff}
use dnsvard.Config.Load.{
  LoadOptions, System, Info, global_config_path, settle, home, safe_path, load_explicit, load_rest,
  then_step, load_in, load,
}

module _ (sys : System) where
  abbrev Accepted : Checked (Config × Info) → Type 0
  Accepted r =
      (c : Config) (i : Info) → r ≡ passed (c, i) → IsValid (safe_path sys) sys.split_host_port c

  config_of :
      {c d : Config} {i j : Info}
      → ◌≡◌ {A = Checked (Config × Info)} (passed (c, i)) (passed (d, j))
      → c ≡ d
  config_of e = cc

  load_rest-Accepted : (cwd : Bytes) (a : Config) → Accepted (load_rest sys cwd a)
  unfolding load_rest
  load_rest-Accepted cwd a c i h =
      let settled = settle (home sys) (apply_env sys.variables a) in
      elim (Option-cases (validate (safe_path sys) sys.split_host_port settled)) [
        | inr (e, p) ↦ absurd (cc (rw (p, load_rest) at h))
        | inl p ↦
            subst (IsValid (safe_path sys) sys.split_host_port) (config_of (rw (p, load_rest) at h))
              ((validate_iff (safe_path sys) sys.split_host_port settled).0 p)
      ]

  then_step-Accepted :
      (r : Checked Config) (k : Config → Checked (Config × Info))
      → ((a : Config) → Accepted (k a))
      → Accepted (then_step sys r k)
  unfolding then_step
  then_step-Accepted (passed a) k f c i h = f a c i h
  then_step-Accepted (refused e) k f c i h = absurd (cc h)

  load_in-Accepted : (opts : LoadOptions) (cwd : Bytes) → Accepted (load_in sys opts cwd)
  unfolding load_in
  load_in-Accepted opts cwd =
      let paths =
        local_config_paths sys.abs sys.is_plain (home sys) cwd
          (or_text opts.local_name (codes "dnsvard.yaml")) in
      let explicit : Config → Checked (Config × Info) =
        λ b. then_step sys (load_explicit sys opts.explicit_path b) (load_rest sys cwd) in
      let local : Config → Checked (Config × Info) =
        λ a. then_step sys (load_files sys.decode_local sys.read paths a) explicit in
      then_step-Accepted
        (load_global sys.decode_global (not opts.skip_global_init) sys.init_done
          (global_config_path (home sys)) (sys.read (global_config_path (home sys)))
          (default_config (home sys)))
        local
        (λ a. then_step-Accepted (load_files sys.decode_local sys.read paths a) explicit (λ b.
          then_step-Accepted (load_explicit sys opts.explicit_path b) (load_rest sys cwd)
            (load_rest-Accepted cwd)))

  if_Accepted :
      (b : Bool) (x y : Checked (Config × Info))
      → Accepted x
      → Accepted y
      → Accepted (if b then x else y)
  if_Accepted true x y h k = h
  if_Accepted false x y h k = k

  from_getwd :
      (o : Option Bytes) (opts : LoadOptions)
      → Accepted (elim o [ none ↦ refused cwd_unknown | some cwd ↦ load_in sys opts cwd ])
  from_getwd none opts c i h = absurd (cc h)
  from_getwd (some cwd) opts c i h = load_in-Accepted opts cwd c i h

  load-Accepted : (opts : LoadOptions) → Accepted (load sys opts)
  unfolding load
  load-Accepted opts =
      if_Accepted (text_eq opts.cwd []) _ _ (from_getwd sys.getwd opts)
        (load_in-Accepted opts opts.cwd)

-- Whatever the files and the environment hold, a configuration that is loaded is valid.
pub load-IsValid :
    (sys : System) (opts : LoadOptions) (c : Config) (i : Info)
    → load sys opts ≡ passed (c, i)
    → IsValid (safe_path sys) sys.split_host_port c
load-IsValid sys opts c i h = load-Accepted sys opts c i h
