-- ===== src/Identity/Host/Domain.antt =====
-- Every hostname lies below the domain that it was asked for.
use dnsvard.Base.{
  ◌&&◌, not, List, [], ◌∷◌, ◌++◌, append_assoc, ◌≡◌, ◌≢◌, ◌⊎◌, inl, inr, refl, sym, ap, ◌∙◌, subst,
  arith, Bytes, codes, text_eq, text_eq_iff, In, In-append_right, In-append_left, join, Bool-cases,
}
use dnsvard.Identity.Label.{normalize_label}
use dnsvard.Identity.Pattern.{
  service_token, workspace_token, tld_token, PatternHostInput, token_labels, pattern_labels,
  PatternError, Parsed, raw_parts, render_pattern_host, without_service, last_part,
  parse_host_pattern, HostPattern, ok, err,
}
use dnsvard.Identity.Pattern.Grammar.{IsPattern, parse_parts_iff, parse_host_pattern_lem}
use dnsvard.Identity.Host.{
  HostnameInput, HostnameSet, named, normalize_domain, build_hosts, hostnames,
}

-- A non-empty text, a dot and the domain.
abbrev pub IsBelow : Bytes → Bytes → Type 0
IsBelow domain fqdn = (front : Bytes) × (front ≢ []) × (fqdn ≡ front ++ (codes "." ++ domain))

join-last :
    (p : Bytes) (ps : List Bytes) (sep d : Bytes)
    → join ((p ∷ ps) ++ d ∷ []) sep ≡ join (p ∷ ps) sep ++ (sep ++ d)
unfolding join
join-last p [] sep d = refl
join-last p (q ∷ ps) sep d = rw (join-last q ps sep d) (simp append_assoc)

join-ne-nil : (p : Bytes) (ps : List Bytes) (sep : Bytes) → In p ps → p ≢ [] → join ps sep ≢ []
unfolding join
join-ne-nil p [] sep m ne = absurd m
join-ne-nil p (q ∷ []) sep (inl e) ne = λ z. ne (e ∙ z)
join-ne-nil p (q ∷ []) sep (inr m) ne = absurd m
join-ne-nil p ([] ∷ r ∷ ps) sep (inl e) ne = absurd (ne e)
join-ne-nil p ([] ∷ r ∷ ps) [] (inr m) ne = join-ne-nil p (r ∷ ps) [] m ne
join-ne-nil p ([] ∷ r ∷ ps) (b ∷ sep) (inr m) ne = λ z. cc
join-ne-nil p ((c ∷ q) ∷ r ∷ ps) sep m ne = λ z. cc

-- What the labels before the domain are: they hold the workspace's if its token is there.
record Fronted (ts : List Bytes) (input : PatternHostInput) : Type 0 where
  front : List Bytes
  labels : pattern_labels ts input ≡ front ++ input.domain ∷ []
  holds : In workspace_token ts → In input.workspace front

token_labels-workspace :
    (t : Bytes) (input : PatternHostInput)
    → workspace_token ≡ t
    → token_labels t input ≡ input.workspace ∷ []
unfolding token_labels
token_labels-workspace t input e = rw (← e)

token_labels-tld :
    (t : Bytes) (input : PatternHostInput)
    → t ≡ tld_token
    → token_labels t input ≡ input.domain ∷ []
unfolding token_labels
token_labels-tld t input e = rw e

pattern_labels-Fronted :
    (ts : List Bytes) (input : PatternHostInput) → last_part ts ≡ tld_token → Fronted ts input
unfolding pattern_labels last_part
pattern_labels-Fronted [] input e = absurd (cc)
pattern_labels-Fronted (t ∷ []) input e = record {
  front = [];
  labels = rw (token_labels-tld t input e);
  holds = λ m. elim m [ inl p ↦ absurd (cc (p, e)) | inr n ↦ n ];
}
pattern_labels-Fronted (t ∷ u ∷ ts) input e =
    let rest = pattern_labels-Fronted (u ∷ ts) input e in
    record {
      front = token_labels t input ++ rest.front;
      labels =
          ap (λ l. token_labels t input ++ l) rest.labels
          ∙ sym (append_assoc (token_labels t input) rest.front (input.domain ∷ []));
      holds = λ m. elim m [
        | inl p ↦
            In-append_left input.workspace (token_labels t input) rest.front
              (rw (token_labels-workspace t input p) (inl refl))
        | inr n ↦ In-append_right input.workspace (token_labels t input) rest.front (rest.holds n)
      ];
    }

-- A rendered pattern that ends in `tld` and has `workspace` lies below the domain.
render-IsBelow :
    (input : PatternHostInput)
    → last_part input.tokens ≡ tld_token
    → In workspace_token input.tokens
    → input.workspace ≢ []
    → IsBelow input.domain (render_pattern_host input)
unfolding render_pattern_host
render-IsBelow input last m ne =
    let f = pattern_labels-Fronted input.tokens input last in below f.front f.labels (f.holds m)
  where
    below :
        (front : List Bytes)
        → pattern_labels input.tokens input ≡ front ++ input.domain ∷ []
        → In input.workspace front
        → IsBelow input.domain (join (pattern_labels input.tokens input) (codes "."))
    below [] e n = absurd n
    below (p ∷ ps) e n = (
      join (p ∷ ps) (codes "."),
      join-ne-nil input.workspace (p ∷ ps) (codes ".") n ne,
      ap (λ l. join l (codes ".")) e ∙ join-last p ps (codes ".") input.domain,
    )

last_part-cons :
    (t : Bytes) (ts : List Bytes) → last_part ts ≡ tld_token → last_part (t ∷ ts) ≡ tld_token
unfolding last_part
last_part-cons t [] e = absurd (cc)
last_part-cons t (u ∷ ts) e = e

last_part-without_service :
    (ts : List Bytes) → last_part ts ≡ tld_token → last_part (without_service ts) ≡ tld_token
unfolding last_part without_service
last_part-without_service [] e = e
last_part-without_service (t ∷ []) e = rw e
last_part-without_service (t ∷ u ∷ ts) e = elim (Bool-cases (text_eq t service_token)) [
  | inl same ↦ rw same (last_part-without_service (u ∷ ts) e)
  | inr other ↦
      rw other (last_part-cons t (without_service (u ∷ ts)) (last_part-without_service (u ∷ ts) e))
]

In-without_service :
    (ts : List Bytes) → In workspace_token ts → In workspace_token (without_service ts)
unfolding without_service
In-without_service [] m = m
In-without_service (t ∷ ts) (inl e) = rw (← e) (inl refl)
In-without_service (t ∷ ts) (inr m) = elim (Bool-cases (text_eq t service_token)) [
  | inl same ↦ rw same (In-without_service ts m)
  | inr other ↦ rw other (inr (In-without_service ts m))
]

-- The three hostnames below a domain, the service's only where there is one.
pub record AreBelow (domain : Bytes) (hosts : HostnameSet) : Type 0 where
  pub project : IsBelow domain hosts.project_fqdn
  pub workspace : IsBelow domain hosts.workspace_fqdn
  pub service : (hosts.service_fqdn ≡ []) ⊎ IsBelow domain hosts.service_fqdn

build_hosts-AreBelow :
    (domain project workspace service : Bytes) (p : HostPattern)
    → project ≢ []
    → workspace ≢ []
    → IsPattern p.tokens
    → AreBelow domain (build_hosts domain project workspace service p)
unfolding build_hosts
build_hosts-AreBelow domain project workspace service p np nw pat = record {
  project = (project, np, refl);
  workspace =
      render-IsBelow
        (record {
          tokens = without_service p.tokens;
          project = project;
          workspace = workspace;
          service = [];
          domain = domain;
        })
        (last_part-without_service p.tokens pat.last) (In-without_service p.tokens pat.workspace)
        nw;
  service = elim (Bool-cases (not (text_eq service []) && p.has_service)) [
    | inl with_service ↦ rw with_service (
        inr (
          render-IsBelow
            (record {
              tokens = p.tokens;
              project = project;
              workspace = workspace;
              service = service;
              domain = domain;
            })
            pat.last pat.workspace nw))
    | inr without ↦ rw without (inl refl)
  ];
}

-- What `hostnames` built, and from what.
record Built (input : HostnameInput) (hosts : HostnameSet) : Type 0 where
  pattern : HostPattern
  parsed : parse_host_pattern input.pattern ≡ ok pattern
  domain : normalize_domain input.domain ≢ []
  project : normalize_label input.project ≢ []
  workspace : normalize_label input.workspace ≢ []
  hosts_eq :
      hosts
      ≡ build_hosts
          (normalize_domain input.domain)
          (normalize_label input.project)
          (normalize_label input.workspace)
          (normalize_label input.service)
          pattern

Parsed-cases :
    (input : HostnameInput)
    → ((p : HostPattern) × (parse_host_pattern input.pattern ≡ ok p))
      ⊎ ((e : PatternError) × (parse_host_pattern input.pattern ≡ err e))
Parsed-cases input = split_parsed (parse_host_pattern input.pattern)
  where
    split_parsed :
        (r : Parsed) → ((p : HostPattern) × (r ≡ ok p)) ⊎ ((e : PatternError) × (r ≡ err e))
    split_parsed (ok p) = inl (p, refl)
    split_parsed (err e) = inr (e, refl)

hostnames-Built :
    (input : HostnameInput) (hosts : HostnameSet)
    → hostnames input ≡ named hosts
    → Built input hosts
unfolding hostnames
hostnames-Built input hosts h = elim (Parsed-cases input) [
  | inl (p, e) ↦ record {
    pattern = p;
    parsed = e;
    domain = ground (arith, text_eq_iff (normalize_domain input.domain) []);
    project = ground (arith, text_eq_iff (normalize_label input.project) []);
    workspace = ground (arith, text_eq_iff (normalize_label input.workspace) []);
    hosts_eq = ground arith;
  }
  | inr (x, e) ↦ absurd (ground arith)
]

parse_host_pattern-IsPattern :
    (raw : Bytes) (p : HostPattern) → parse_host_pattern raw ≡ ok p → IsPattern p.tokens
parse_host_pattern-IsPattern raw p h =
    let (pat, e) = (parse_parts_iff (raw_parts raw) p).0 (parse_host_pattern_lem raw ∙ h) in
    subst (λ q. IsPattern q.tokens) (sym e) pat

-- The hostnames of a project, a workspace and a service all lie below the domain that was asked
-- for, in normal form, which is not empty.
pub hostnames-AreBelow :
    (input : HostnameInput) (hosts : HostnameSet)
    → hostnames input ≡ named hosts
    → (normalize_domain input.domain ≢ []) × AreBelow (normalize_domain input.domain) hosts
hostnames-AreBelow input hosts h =
    let b = hostnames-Built input hosts h in
    (
      b.domain,
      subst (AreBelow (normalize_domain input.domain)) (sym b.hosts_eq) (
          build_hosts-AreBelow (normalize_domain input.domain) (normalize_label input.project)
            (normalize_label input.workspace) (normalize_label input.service) b.pattern b.project
            b.workspace (parse_host_pattern-IsPattern input.pattern b.pattern b.parsed)),
    )
