-- ===== src/Docker/Discover/Defaults.antt =====
-- The routes of all containers, and the check of their defaults.
use dnsvard.Base.{
  ℕ, ◌+◌, Bool, true, false, Option, none, some, List, [], ◌∷◌, ◌++◌, ◌≡◌, ◌≢◌, ◌↔◌, ◌⊎◌, inl, inr,
  refl, sym, ap, ◌∙◌, subst, arith, leb, if◌then◌else◌, Bytes, text_eq, text_eq_iff, Dict, lookup,
  insert, lookup-insert, All, In, All-append, Bool-cases,
}
use dnsvard.Docker.{Answer, answered, command_failed, ServiceRoute, Diagnostics, DockerInspect}
use dnsvard.Docker.Inspect.{parse_inspect}
use dnsvard.Docker.Inspect.Usable.{IsUsable, parse_inspect-IsUsable}
use dnsvard.Docker.Discover.Scopes.{
  key_of, HasSoleDefaults, HasOneDefaultEach, IsUnbarred, one_default_each_iff,
}
use dnsvard.Docker.Discover.{
  counted, defaults_from, validate_default_http, Discovered, discovered, discover_failed,
  no_diagnostics, add_route, parse_all, check_all, inspected, container_ids, discover_listed,
  discover,
}

-- Its scope was not counted yet.
abbrev IsNew : Dict ℕ → ServiceRoute → Type 0
IsNew counts r = r.default_http ≡ true → counted (key_of r) counts ≡ 0

counted-insert :
    (k j : Bytes) (n : ℕ) (m : Dict ℕ)
    → counted j (insert k n m) ≡ (if text_eq k j then n else counted j m)
unfolding counted
counted-insert k j n m = ground (arith, lookup-insert k j n m)

IsNew-insert :
    (k : Bytes) (counts : Dict ℕ) (rs : List ServiceRoute)
    → counted k counts ≡ 0
    → All (IsNew (insert k (counted k counts + 1) counts)) rs
      ↔ (All (IsNew counts) rs × All (λ q. q.default_http ≡ true → key_of q ≢ k) rs)
IsNew-insert k counts [] z = ((λ _. (tt, tt)), (λ _. tt))
IsNew-insert k counts (q ∷ rs) z =
    let (f, g) = IsNew-insert k counts rs z in
    let at = counted-insert k (key_of q) (counted k counts + 1) counts in
    (
      (λ (n, h).
          let (a, b) = f h in
          ((split n at (Bool-cases (text_eq k (key_of q))), a), (apart n at, b))),
      (λ ((n, a), (ne, b)). (joined n ne at (Bool-cases (text_eq k (key_of q))), g (a, b))),
    )
  where
    split :
        IsNew (insert k (counted k counts + 1) counts) q
        → counted (key_of q) (insert k (counted k counts + 1) counts)
          ≡ (if text_eq k (key_of q) then counted k counts + 1 else counted (key_of q) counts)
        → (text_eq k (key_of q) ≡ true) ⊎ (text_eq k (key_of q) ≡ false)
        → IsNew counts q
    split n at (inl e) d =
        let w : counted (key_of q) (insert k (counted k counts + 1) counts) ≡ counted k counts + 1 =
          at ∙ rw e in
        absurd (omega (arith, n d, w))
    split n at (inr e) d =
        let w : counted (key_of q) (insert k (counted k counts + 1) counts)
            ≡ counted (key_of q) counts =
          at ∙ rw e in
        sym w ∙ n d

    apart :
        IsNew (insert k (counted k counts + 1) counts) q
        → counted (key_of q) (insert k (counted k counts + 1) counts)
          ≡ (if text_eq k (key_of q) then counted k counts + 1 else counted (key_of q) counts)
        → q.default_http ≡ true
        → key_of q ≢ k
    apart n at d same =
        let w : counted (key_of q) (insert k (counted k counts + 1) counts) ≡ counted k counts + 1 =
          at ∙ rw ((text_eq_iff k (key_of q)).1 (sym same)) in
        absurd (omega (arith, n d, w))

    joined :
        IsNew counts q
        → (q.default_http ≡ true → key_of q ≢ k)
        → counted (key_of q) (insert k (counted k counts + 1) counts)
          ≡ (if text_eq k (key_of q) then counted k counts + 1 else counted (key_of q) counts)
        → (text_eq k (key_of q) ≡ true) ⊎ (text_eq k (key_of q) ≡ false)
        → IsNew (insert k (counted k counts + 1) counts) q
    joined n ne at (inl e) d = absurd (ne d (sym ((text_eq_iff k (key_of q)).0 e)))
    joined n ne at (inr e) d =
        let w : counted (key_of q) (insert k (counted k counts + 1) counts)
            ≡ counted (key_of q) counts =
          at ∙ rw e in
        w ∙ n d

defaults_from_iff :
    (rs : List ServiceRoute) (counts : Dict ℕ)
    → (defaults_from rs counts ≡ none) ↔ (HasSoleDefaults rs × All (IsNew counts) rs)
unfolding defaults_from
defaults_from_iff [] counts = ((λ _. (tt, tt)), (λ _. refl))
defaults_from_iff (r ∷ rs) counts = elim (Bool-cases r.default_http) [
  | inr e ↦
      let (f, g) = defaults_from_iff rs counts in
      (
        (λ h.
            let (a, b) = f (rw (e, defaults_from) at h) in
            (((λ d. absurd (cc (e, d))), a), ((λ d. absurd (cc (e, d))), b))),
        (λ ((_, a), (_, b)). rw (e, defaults_from) (g (a, b))),
      )
  | inl e ↦
      let k = key_of r in
      let (f, g) = defaults_from_iff rs (insert k (counted k counts + 1) counts) in
      elim (Bool-cases (leb (counted k counts + 1) 1)) [
        | inl l ↦
            let z : counted k counts ≡ 0 = ground arith in
            let (u, v) = IsNew-insert k counts rs z in
            (
              (λ h.
                  let (a, b) = f (rw (e, l, defaults_from) at h) in
                  let (n, apart) = u b in (((λ _. apart), a), ((λ _. z), n))),
              (λ ((apart, a), (_, n)). rw (e, l, defaults_from) (g (a, v (n, apart e)))),
            )
        | inr l ↦ (
          (λ h. absurd (cc (rw (e, l, defaults_from) at h))),
          (λ (_, (n, _)). absurd (ground (arith, n e))),
        )
      ]
]

all-IsNew : (rs : List ServiceRoute) → All (IsNew []) rs
unfolding counted lookup
all-IsNew [] = tt
all-IsNew (r ∷ rs) = ((λ _. refl), all-IsNew rs)

-- What the check finds, in terms of the keys it counts.
validate_default_http_keys :
    (rs : List ServiceRoute) → (validate_default_http rs ≡ none) ↔ HasSoleDefaults rs
unfolding validate_default_http
validate_default_http_keys rs =
    let (f, g) = defaults_from_iff rs [] in ((λ h. (f h).0), (λ h. g (h, all-IsNew rs)))

-- Where no project holds a bar, the check finds no error exactly when no two services that declare
-- themselves the default have one project and one workspace, up to white space and the case of
-- letters.
pub validate_default_http_iff :
    (rs : List ServiceRoute)
    → All IsUnbarred rs
    → (validate_default_http rs ≡ none) ↔ HasOneDefaultEach rs
validate_default_http_iff rs h =
    let (f, g) = validate_default_http_keys rs in
    let (to, from) = one_default_each_iff rs h in ((λ e. to (f e)), (λ u. g (from u)))

abbrev routes_of : Discovered → List ServiceRoute
routes_of (discovered rs d) = rs
routes_of (discover_failed e) = []

same_routes :
    {rs qs : List ServiceRoute} {d e : Diagnostics} → discovered rs d ≡ discovered qs e → rs ≡ qs
same_routes h = ap routes_of h

module _ (is_ip : Bytes → Bool) (dials : Bytes → ℕ → Bool) where
  -- The route is what is made of one of the containers, and can be routed to.
  abbrev pub IsOfListed : List DockerInspect → ServiceRoute → Type 0
  IsOfListed cs r =
      (c : DockerInspect) × In c cs
      × ((parse_inspect is_ip dials c).route ≡ some r)
      × IsUsable is_ip c r

  added :
      (all : List DockerInspect) (c : DockerInspect) (o : Option ServiceRoute)
      (rs : List ServiceRoute)
      → In c all
      → (parse_inspect is_ip dials c).route ≡ o
      → All (IsOfListed all) rs
      → All (IsOfListed all) (add_route o rs)
  unfolding add_route
  added all c none rs i e h = h
  added all c (some r) rs i e h =
      All-append (IsOfListed all) rs (r ∷ []) h
        ((c, i, e, parse_inspect-IsUsable is_ip dials c r e), tt)

  parse_all-IsOfListed :
      (all cs : List DockerInspect) (rs : List ServiceRoute) (d : Diagnostics)
      → ((c : DockerInspect) → In c cs → In c all)
      → All (IsOfListed all) rs
      → All (IsOfListed all) (parse_all is_ip dials cs rs d).0
  unfolding parse_all
  parse_all-IsOfListed all [] rs d sub h = h
  parse_all-IsOfListed all (c ∷ cs) rs d sub h =
      let p = parse_inspect is_ip dials c in
      parse_all-IsOfListed all cs (add_route p.route rs)
        (record { warnings = d.warnings ++ p.diag.warnings; errors = d.errors ++ p.diag.errors })
        (λ b i. sub b (inr i)) (added all c p.route rs (sub c (inl refl)) refl h)

  inspected-IsOfListed :
      (o : Answer (List DockerInspect)) (rs : List ServiceRoute) (d : Diagnostics)
      → inspected is_ip dials o ≡ discovered rs d
      → (cs : List DockerInspect) × (o ≡ answered cs) × All (IsOfListed cs) rs
  unfolding inspected check_all
  inspected-IsOfListed (command_failed e) rs d h = absurd (cc h)
  inspected-IsOfListed (answered []) rs d h = absurd (cc h)
  inspected-IsOfListed (answered (c ∷ cs)) rs d h = (
    c ∷ cs,
    refl,
    subst (All (IsOfListed (c ∷ cs))) (same_routes h)
        (parse_all-IsOfListed (c ∷ cs) (c ∷ cs) [] no_diagnostics (λ b i. i) tt),
  )

  discover_listed-IsOfListed :
      (ids : Answer (List Bytes)) (inspect : List Bytes → Answer (List DockerInspect))
      (rs : List ServiceRoute) (d : Diagnostics)
      → discover_listed is_ip dials ids inspect ≡ discovered rs d
      → ((ids ≡ answered []) × (rs ≡ []))
        ⊎ ((is : List Bytes) × (cs : List DockerInspect) × (ids ≡ answered is)
            × (inspect is ≡ answered cs)
            × All (IsOfListed cs) rs)
  unfolding discover_listed
  discover_listed-IsOfListed (command_failed e) inspect rs d h = absurd (cc h)
  discover_listed-IsOfListed (answered []) inspect rs d h = inl (refl, sym (same_routes h))
  discover_listed-IsOfListed (answered (i ∷ ids)) inspect rs d h =
      let (cs, e, all) = inspected-IsOfListed (inspect (i ∷ ids)) rs d h in
      inr (i ∷ ids, cs, refl, e, all)

  -- Where docker lists no container there is no route, and otherwise docker answered for the ids
  -- that it listed, and every route that is discovered is what is made of one of the containers of
  -- the answer, and can be routed to: it has a name, which is among its host labels, an address
  -- that parses, and an HTTP port in range, which is 0 unless HTTP is enabled.
  pub discover-IsUsable :
      (ps : Answer Bytes) (inspect : List Bytes → Answer (List DockerInspect))
      (rs : List ServiceRoute) (d : Diagnostics)
      → discover is_ip dials ps inspect ≡ discovered rs d
      → ((container_ids ps ≡ answered []) × (rs ≡ []))
        ⊎ ((is : List Bytes) × (cs : List DockerInspect) × (container_ids ps ≡ answered is)
            × (inspect is ≡ answered cs)
            × All (IsOfListed cs) rs)
  unfolding discover
  discover-IsUsable ps inspect rs d h = discover_listed-IsOfListed (container_ids ps) inspect rs d h
