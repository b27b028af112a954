-- ===== src/Config/Valid/Accepted.antt =====
-- Which configurations are valid.
use dnsvard.Base.{
  ℕ, ◌≤◌, Bool, true, false, Option, none, some, List, [], ◌∷◌, ◌≡◌, ◌≢◌, ◌↔◌, ◌⊎◌, inl, inr, refl,
  sym, ap, ◌∙◌, arith, ◌==◌, ==_iff, ltb, leb, ◌&&◌, some-inj, Bool-cases, Bytes, text_eq,
  text_eq_iff, trim_space, ℤ, pos, negsuc, is_port,
}
use dnsvard.Config.{Config, ConfigError, Checked, passed, refused}
use dnsvard.Config.Suffix.{normalize_suffix}
use dnsvard.Config.Suffix.Accepted.{IsSuffix, validate_suffix_value_iff}
use dnsvard.Config.Files.{parse_listen_port, normalize_mode, mode_required, mode_optional}
use dnsvard.Config.Valid.{
  error_if, is_blank, error_of, is_none, is_same_port, is_mode, negate, first_error, tests_of,
  validate,
}

abbrev AllNone : List (Option ConfigError) → Type 0
AllNone [] = Unit
AllNone (e ∷ es) = (e ≡ none) × AllNone es

first_error_iff : (es : List (Option ConfigError)) → (first_error es ≡ none) ↔ AllNone es
unfolding first_error
first_error_iff [] = ((λ _. tt), (λ _. refl))
first_error_iff (none ∷ es) =
    let (f, g) = first_error_iff es in ((λ h. (refl, f h)), (λ (_, h). g h))
first_error_iff (some e ∷ es) = ((λ h. absurd (cc h)), (λ (h, _). absurd (cc h)))

error_if_iff : (b : Bool) (e : ConfigError) → (error_if b e ≡ none) ↔ (b ≡ false)
unfolding error_if
error_if_iff true e = ((λ h. absurd (cc h)), (λ h. absurd (cc h)))
error_if_iff false e = ((λ h. refl), (λ h. refl))

empty_iff : (s : Bytes) → (text_eq s [] ≡ false) ↔ (s ≢ [])
empty_iff s =
    let (f, g) = text_eq_iff s [] in
    (
      (λ h z. cc (h, g z)),
      (λ ne. elim (Bool-cases (text_eq s [])) [ inl e ↦ absurd (ne (f e)) | inr e ↦ e ]),
    )

safe_iff : (c : Checked Bytes) → (error_of c ≡ none) ↔ ((p : Bytes) × (c ≡ passed p))
unfolding error_of
safe_iff (passed p) = ((λ _. (p, refl)), (λ _. refl))
safe_iff (refused e) = ((λ h. absurd (cc h)), (λ (p, h). absurd (cc h)))

splits_iff :
    (o : Option (Bytes × Bytes)) → (is_none o ≡ false) ↔ ((p : Bytes × Bytes) × (o ≡ some p))
unfolding is_none
splits_iff none = ((λ h. absurd (cc h)), (λ (p, h). absurd (cc h)))
splits_iff (some p) = ((λ _. (p, refl)), (λ _. refl))

port_iff : (z : ℤ) → (negate (is_port z) ≡ false) ↔ ((n : ℕ) × (z ≡ pos n) × (1 ≤ n) × (n ≤ 65535))
unfolding negate is_port
port_iff (pos n) = (
  (λ h. let b : (1 ≤ n) × (n ≤ 65535) = in_bounds h in (n, refl, b.0, b.1)),
  (λ (k, e, lo, hi).
      let same : n ≡ k = cc in out_bounds (omega (arith, lo, same)) (omega (arith, hi, same))),
)
  where
    in_bounds : negate (ltb 0 n && leb n 65535) ≡ false → (1 ≤ n) × (n ≤ 65535)
    in_bounds h = ground arith

    out_bounds : 1 ≤ n → n ≤ 65535 → negate (ltb 0 n && leb n 65535) ≡ false
    out_bounds lo hi = ground arith
port_iff (negsuc n) = ((λ h. absurd (cc h)), (λ (p, e, _, _). absurd (cc e)))

apart_iff : (o : Option ℕ) (z : ℤ) → (is_same_port o z ≡ false) ↔ ((n : ℕ) → o ≡ some n → z ≢ pos n)
unfolding is_same_port
apart_iff none z = ((λ _ n e. absurd (cc e)), (λ _. refl))
apart_iff (some m) (pos k) = (
  (λ h n e z.
      let p : m ≡ n = some-inj e in let q : k ≡ n = cc in cc (h, (==_iff m k).1 (p ∙ sym q))),
  (λ f. elim (Bool-cases (m == k)) [
    | inl e ↦ absurd (f m refl (ap pos (sym ((==_iff m k).0 e))))
    | inr e ↦ e
  ]),
)
apart_iff (some m) (negsuc k) = ((λ _ n e z. absurd (cc z)), (λ _. refl))

mode_iff :
    (m : Bytes)
    → (negate (is_mode m) ≡ false) ↔ ((m ≡ []) ⊎ ((m ≡ mode_required) ⊎ (m ≡ mode_optional)))
unfolding negate is_mode
mode_iff m =
    ground (arith, text_eq_iff m [], text_eq_iff m mode_required, text_eq_iff m mode_optional)

-- What a configuration that is accepted guarantees.
pub record IsValid (safe : Bytes → Checked Bytes) (split_host_port : Bytes → Option (Bytes × Bytes))
    (c : Config) : Type 0 where
  pub named : normalize_suffix c.domain ≢ []
  pub suffix : IsSuffix (normalize_suffix (normalize_suffix c.domain))
  pub pattern : trim_space c.host_pattern ≢ []
  pub listens : trim_space c.dns_listen ≢ []
  pub splits : (p : Bytes × Bytes) × (split_host_port (trim_space c.dns_listen) ≡ some p)
  pub loopback : trim_space c.loopback_cidr ≢ []
  pub state : trim_space c.state_dir ≢ []
  pub safe_state : (p : Bytes) × (safe c.state_dir ≡ passed p)
  pub ttl : c.dns_ttl ≢ 0
  pub port : (n : ℕ) × (c.http_port ≡ pos n) × (1 ≤ n) × (n ≤ 65535)
  pub apart :
      (n : ℕ) → parse_listen_port split_host_port c.dns_listen ≡ some n → c.http_port ≢ pos n
  pub mode :
      (normalize_mode c.docker_discovery_mode ≡ [])
      ⊎ ((normalize_mode c.docker_discovery_mode ≡ mode_required)
          ⊎ (normalize_mode c.docker_discovery_mode ≡ mode_optional))

ttl_iff : (n : ℕ) → ((n == 0) ≡ false) ↔ (n ≢ 0)
ttl_iff n = ground arith

-- A configuration is accepted exactly when its suffix is, no text is blank that must not be, the
-- address of the DNS server has a host and a port, the state directory is safe, answers live for
-- some time, the port of HTTP is one of TCP and not that of the DNS server, and the discovery mode
-- is one of the two or empty.
pub validate_iff :
    (safe : Bytes → Checked Bytes) (split_host_port : Bytes → Option (Bytes × Bytes)) (c : Config)
    → (validate safe split_host_port c ≡ none) ↔ IsValid safe split_host_port c
unfolding validate tests_of is_blank
validate_iff safe split_host_port c =
    let (f, g) = first_error_iff (tests_of safe split_host_port c) in
    (
      (λ h.
          let (a1, (a2, (a3, (a4, (a5, (a6, (a7, (a8, (a9, (b1, (b2, (b3, _)))))))))))) = f h in
          record {
            named = (empty_iff _).0 ((error_if_iff _ _).0 a1);
            suffix = (validate_suffix_value_iff (normalize_suffix c.domain)).0 a2;
            pattern = (empty_iff _).0 ((error_if_iff _ _).0 a3);
            listens = (empty_iff _).0 ((error_if_iff _ _).0 a4);
            splits = (splits_iff _).0 ((error_if_iff _ _).0 a5);
            loopback = (empty_iff _).0 ((error_if_iff _ _).0 a6);
            state = (empty_iff _).0 ((error_if_iff _ _).0 a7);
            safe_state = (safe_iff _).0 a8;
            ttl = (ttl_iff _).0 ((error_if_iff _ _).0 a9);
            port = (port_iff _).0 ((error_if_iff _ _).0 b1);
            apart = (apart_iff _ _).0 ((error_if_iff _ _).0 b2);
            mode = (mode_iff _).0 ((error_if_iff _ _).0 b3);
          }),
      (λ k. g (
        (error_if_iff _ _).1 ((empty_iff _).1 k.named),
        (
          (validate_suffix_value_iff (normalize_suffix c.domain)).1 k.suffix,
          (
            (error_if_iff _ _).1 ((empty_iff _).1 k.pattern),
            (
              (error_if_iff _ _).1 ((empty_iff _).1 k.listens),
              (
                (error_if_iff _ _).1 ((splits_iff _).1 k.splits),
                (
                  (error_if_iff _ _).1 ((empty_iff _).1 k.loopback),
                  (
                    (error_if_iff _ _).1 ((empty_iff _).1 k.state),
                    (
                      (safe_iff _).1 k.safe_state,
                      (
                        (error_if_iff _ _).1 ((ttl_iff _).1 k.ttl),
                        (
                          (error_if_iff _ _).1 ((port_iff _).1 k.port),
                          (
                            (error_if_iff _ _).1 ((apart_iff _ _).1 k.apart),
                            ((error_if_iff _ _).1 ((mode_iff _).1 k.mode), tt),
                          ),
                        ),
                      ),
                    ),
                  ),
                ),
              ),
            ),
          ),
        ),
      )),
    )
