-- ===== src/Docker/Networks/Choice.antt =====
-- The network that is taken.
use dnsvard.Base.{
  ℕ, Bool, true, false, none, some, List, [], ◌∷◌, ◌++◌, ◌≡◌, ◌≢◌, ◌⊎◌, inl, inr, refl, sym, ap,
  ◌∙◌, subst, Bytes, codes, text_eq, text_eq_iff, trim_space, Dict, All, All-append, All-sort_by,
  In, In-append_left, In-sort_by, sort_by, Bool-cases, Option-cases,
}
use dnsvard.Docker.{Network, DockerInspect}
use dnsvard.Docker.Labels.{label, compose_project}
use dnsvard.Docker.Networks.{
  Candidate, network_candidates, append_by_name, has_candidate, append_others, preferred_first,
  order_candidates, ip_reachable, first_reachable, no_network, selected, choose, selected_of,
  select_container_network,
}

-- The candidate is one of the container's networks, and its address is a trimmed IP address.
pub record IsCandidate (is_ip : Bytes → Bool) (ns : Dict Network) (c : Candidate) : Type 0 where
  pub network : Network
  pub listed : In (c.name, network) ns
  pub address : c.ip ≡ trim_space network.ip_address
  pub filled : c.ip ≢ []
  pub parses : is_ip c.ip ≡ true

IsCandidate-later :
    (is_ip : Bytes → Bool) (n : Bytes × Network) (ns : Dict Network) (cs : List Candidate)
    → All (IsCandidate is_ip ns) cs
    → All (IsCandidate is_ip (n ∷ ns)) cs
IsCandidate-later is_ip n ns [] h = tt
IsCandidate-later is_ip n ns (c ∷ cs) (h, hs) = (
  record {
    network = h.network;
    listed = inr h.listed;
    address = h.address;
    filled = h.filled;
    parses = h.parses;
  },
  IsCandidate-later is_ip n ns cs hs,
)

candidates-IsCandidate :
    (is_ip : Bytes → Bool) (ns : Dict Network)
    → All (IsCandidate is_ip ns) (network_candidates is_ip ns)
unfolding network_candidates
candidates-IsCandidate is_ip [] = tt
candidates-IsCandidate is_ip ((name, nw) ∷ ns) =
    let rest =
      IsCandidate-later is_ip (name, nw) ns (network_candidates is_ip ns)
        (candidates-IsCandidate is_ip ns) in
    let ip = trim_space nw.ip_address in
    elim (Bool-cases (text_eq ip [])) [
      | inl e ↦ rw e rest
      | inr e ↦ elim (Bool-cases (is_ip ip)) [
        | inr p ↦ rw (e, p) rest
        | inl p ↦
            rw (e, p)
              (
                record {
                  network = nw;
                  listed = inl refl;
                  address = refl;
                  filled = λ z. absurd (cc (e, (text_eq_iff ip []).1 z));
                  parses = p;
                },
                rest,
              )
      ]
    ]

module _ (P : Candidate → Type 0) where
  All-append_by_name :
      (name : Bytes) (cs out : List Candidate)
      → All P cs
      → All P out
      → All P (append_by_name name cs out)
  unfolding append_by_name
  All-append_by_name name [] out h k = k
  All-append_by_name name (c ∷ cs) out (p, h) k = elim (Bool-cases (text_eq c.name name)) [
    | inl e ↦ rw e (All-append P out (c ∷ []) k (p, tt))
    | inr e ↦ rw e (All-append_by_name name cs out h k)
  ]

  All-append_others :
      (cs out : List Candidate) → All P cs → All P out → All P (append_others cs out)
  unfolding append_others
  All-append_others [] out h k = k
  All-append_others (c ∷ cs) out (p, h) k = elim (Bool-cases (has_candidate out c.name)) [
    | inl e ↦ rw e (All-append_others cs out h k)
    | inr e ↦ rw e (All-append_others cs (out ++ c ∷ []) h (All-append P out (c ∷ []) k (p, tt)))
  ]

  All-order :
      (project : Bytes) (cs : List Candidate) → All P cs → All P (order_candidates project cs)
  unfolding order_candidates preferred_first
  All-order project cs h =
      All-append_others cs (append_by_name (codes "default") cs (preferred_first project cs)) h (
        All-append_by_name (codes "default") cs (preferred_first project cs) h
          (first (Bool-cases (text_eq project []))))
    where
      first :
          (text_eq project [] ≡ true) ⊎ (text_eq project [] ≡ false)
          → All P (preferred_first project cs)
      first (inl e) = rw (e, preferred_first) tt
      first (inr e) =
          rw (e, preferred_first) (All-append_by_name (project ++ codes "_default") cs [] h tt)

-- A candidate that can be reached at one of the ports.
abbrev pub Reaches : (Bytes → ℕ → Bool) → List ℕ → Candidate → Type 0
Reaches dials ports c = ip_reachable dials c.ip ports ≡ true

first_reachable-cases :
    (dials : Bytes → ℕ → Bool) (ports : List ℕ) (cs : List Candidate)
    → ((c : Candidate) × (first_reachable dials ports cs ≡ some c)
        × In c cs
        × Reaches dials ports c)
      ⊎ ((first_reachable dials ports cs ≡ none) × All (λ c. ¬ Reaches dials ports c) cs)
unfolding first_reachable
first_reachable-cases dials ports [] = inr (refl, tt)
first_reachable-cases dials ports (c ∷ cs) = elim (Bool-cases (ip_reachable dials c.ip ports)) [
  | inl e ↦ inl (c, rw e, inl refl, e)
  | inr e ↦ elim (first_reachable-cases dials ports cs) [
    | inl (d, f, i, r) ↦ inl (d, rw e f, inr i, r)
    | inr (f, none_reached) ↦ inr (rw e f, ((λ r. absurd (cc (e, r))), none_reached))
  ]
]

-- The choice among the candidates in their order.
pub record IsChoice (dials : Bytes → ℕ → Bool) (ports : List ℕ) (ordered : List Candidate)
    (c : Candidate) : Type 0 where
  pub member : In c ordered
  pub reached :
      (d : Candidate)
      → In d ordered
      → Reaches dials ports d
      → Reaches dials ports c ⊎ (ordered ≡ c ∷ [])

none-reached :
    (dials : Bytes → ℕ → Bool) (ports : List ℕ) (cs : List Candidate) (d : Candidate)
    → All (λ c. ¬ Reaches dials ports c) cs
    → In d cs
    → ¬ Reaches dials ports d
none-reached dials ports [] d h i = absurd i
none-reached dials ports (c ∷ cs) d (n, h) (inl e) = subst (λ x. ¬ Reaches dials ports x) (sym e) n
none-reached dials ports (c ∷ cs) d (n, h) (inr j) = none-reached dials ports cs d h j

choose-IsChoice :
    (dials : Bytes → ℕ → Bool) (ports : List ℕ) (ordered : List Candidate) (c : Candidate)
    → choose dials ports ordered ≡ some c
    → IsChoice dials ports ordered c
unfolding choose ip_reachable
choose-IsChoice dials [] [] c h = absurd (cc h)
choose-IsChoice dials [] (d ∷ cs) c h =
    let e : d ≡ c = cc in record { member = inl (sym e); reached = λ x i r. absurd (cc r) }
choose-IsChoice dials (p ∷ ps) [] c h = absurd (cc h)
choose-IsChoice dials (p ∷ ps) (d ∷ []) c h =
    let e : d ≡ c = cc in
    record { member = inl (sym e); reached = λ x i r. inr (ap (λ y. y ∷ []) e) }
choose-IsChoice dials (p ∷ ps) (d ∷ d' ∷ cs) c h =
    elim (first_reachable-cases dials (p ∷ ps) (d ∷ d' ∷ cs)) [
      | inl (x, f, i, r) ↦
          let e : x ≡ c = cc (rw (f, choose) at h) in
          record {
            member = subst (λ y. In y (d ∷ d' ∷ cs)) e i;
            reached = λ y j s. inl (subst (Reaches dials (p ∷ ps)) e r);
          }
      | inr (f, nr) ↦
          let e : d ≡ c = cc (rw (f, choose) at h) in
          record {
            member = inl (sym e);
            reached = λ y j s. absurd (none-reached dials (p ∷ ps) (d ∷ d' ∷ cs) y nr j s);
          }
    ]

In-others : (x : Candidate) (cs out : List Candidate) → In x out → In x (append_others cs out)
unfolding append_others
In-others x [] out i = i
In-others x (c ∷ cs) out i = elim (Bool-cases (has_candidate out c.name)) [
  | inl e ↦ rw e (In-others x cs out i)
  | inr e ↦ rw e (In-others x cs (out ++ c ∷ []) (In-append_left x out (c ∷ []) i))
]

others-filled : (cs out : List Candidate) → cs ≢ [] → append_others cs out ≢ []
unfolding append_others has_candidate
others-filled [] out ne = absurd (ne refl)
others-filled (c ∷ cs) [] ne = λ z. subst (λ l. In c l) z (In-others c cs (c ∷ []) (inl refl))
others-filled (c ∷ cs) (d ∷ out) ne =
    λ z. subst (λ l. In d l) z (In-others d (c ∷ cs) (d ∷ out) (inl refl))

choose-some :
    (dials : Bytes → ℕ → Bool) (ports : List ℕ) (ordered : List Candidate)
    → ordered ≢ []
    → (c : Candidate) × (choose dials ports ordered ≡ some c)
unfolding choose
choose-some dials [] [] ne = absurd (ne refl)
choose-some dials [] (c ∷ cs) ne = (c, refl)
choose-some dials (p ∷ ps) [] ne = absurd (ne refl)
choose-some dials (p ∷ ps) (c ∷ []) ne = (c, refl)
choose-some dials (p ∷ ps) (c ∷ d ∷ cs) ne =
    elim (Option-cases (first_reachable dials (p ∷ ps) (c ∷ d ∷ cs))) [
      | inl e ↦ (c, rw (e, choose))
      | inr (r, e) ↦ (r, rw (e, choose))
    ]

sort-filled : (cs : List Candidate) → cs ≢ [] → sort_by (λ (n : Candidate). n.name) cs ≢ []
sort-filled [] ne = absurd (ne refl)
sort-filled (c ∷ cs) ne =
    λ z. subst (λ l. In c l) z (In-sort_by (λ (n : Candidate). n.name) c (c ∷ cs) (inl refl))

-- The candidates of a container, in the order in which they are tried.
abbrev pub tried : (Bytes → Bool) → DockerInspect → List Candidate
tried is_ip c =
    order_candidates (trim_space (label c.labels compose_project))
      (sort_by (λ (n : Candidate). n.name) (network_candidates is_ip c.networks))

select_container_network_lem :
    (is_ip : Bytes → Bool) (dials : Bytes → ℕ → Bool) (c : DockerInspect) (ports : List ℕ)
    → select_container_network is_ip dials c ports
      ≡ selected_of (choose dials ports (tried is_ip c)) (tried is_ip c)
unfolding select_container_network
select_container_network_lem is_ip dials c ports = refl

pub tried-IsCandidate :
    (is_ip : Bytes → Bool) (c : DockerInspect) → All (IsCandidate is_ip c.networks) (tried is_ip c)
tried-IsCandidate is_ip c =
    All-order (IsCandidate is_ip c.networks) (trim_space (label c.labels compose_project))
      (sort_by (λ (n : Candidate). n.name) (network_candidates is_ip c.networks))
      (All-sort_by (λ (n : Candidate). n.name) (IsCandidate is_ip c.networks)
        (network_candidates is_ip c.networks) (candidates-IsCandidate is_ip c.networks))

pub All→In :
    (P : Candidate → Type 0) (x : Candidate) (cs : List Candidate) → All P cs → In x cs → P x
All→In P x [] h i = absurd i
All→In P x (c ∷ cs) (p, h) (inl e) = subst P (sym e) p
All→In P x (c ∷ cs) (p, h) (inr i) = All→In P x cs h i

-- The network that is taken is one of the container's, with a trimmed address that parses; it can
-- be reached at one of the ports if any of those that are tried can, unless it is the only one;
-- and one is taken whenever there is a candidate.
pub select_container_network-IsChoice :
    (is_ip : Bytes → Bool) (dials : Bytes → ℕ → Bool) (c : DockerInspect) (ports : List ℕ)
    → ((n : Candidate) (ips : List Bytes)
        → select_container_network is_ip dials c ports ≡ selected n ips
        → IsCandidate is_ip c.networks n × IsChoice dials ports (tried is_ip c) n)
      × (network_candidates is_ip c.networks ≢ []
          → select_container_network is_ip dials c ports ≢ no_network)
unfolding selected_of order_candidates
select_container_network-IsChoice is_ip dials c ports = (
  (λ n ips h.
      let h' = sym (select_container_network_lem is_ip dials c ports) ∙ h in
      elim (Option-cases (choose dials ports (tried is_ip c))) [
        | inl e ↦ absurd (cc (rw (e, selected_of) at h'))
        | inr (m, e) ↦
            let same : m ≡ n = cc (rw (e, selected_of) at h') in
            let ok = choose-IsChoice dials ports (tried is_ip c) m e in
            subst (λ x. IsCandidate is_ip c.networks x × IsChoice dials ports (tried is_ip c) x)
              same
              (
                All→In (IsCandidate is_ip c.networks) m (tried is_ip c) (tried-IsCandidate is_ip c)
                    ok.member,
                ok,
              )
      ]),
  (λ ne z.
      let candidates = sort_by (λ (n : Candidate). n.name) (network_candidates is_ip c.networks) in
      let project = trim_space (label c.labels compose_project) in
      let filled =
        others-filled candidates
          (append_by_name (codes "default") candidates (preferred_first project candidates))
          (sort-filled (network_candidates is_ip c.networks) ne) in
      let (m, e) = choose-some dials ports (tried is_ip c) filled in
      absurd
        (cc (rw (e, selected_of) at (sym (select_container_network_lem is_ip dials c ports) ∙ z)))),
)
