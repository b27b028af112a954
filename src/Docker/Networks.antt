-- ===== src/Docker/Networks.antt =====
-- internal/docker/provider.go: which network of a container is taken.
pub mod Choice
use dnsvard.Base.{
  ℕ, Bool, true, false, Option, none, some, List, [], ◌∷◌, ◌++◌, if◌then◌else◌, ◌==◌, ltb, Bytes,
  codes, text_eq, trim_space, Dict, sort_by, has_byte, length,
}
use dnsvard.Docker.{Network, DockerInspect}
use dnsvard.Docker.Labels.{label, compose_project}

-- `containerNetworkCandidate`
pub record Candidate : Type 0 where
  pub name : Bytes
  pub id : Bytes
  pub ip : Bytes

-- The loop over the networks.
unfoldable pub network_candidates : (Bytes → Bool) → Dict Network → List Candidate
unfolding trim_space text_eq
network_candidates is_ip [] = []
network_candidates is_ip ((name, nw) ∷ rest) =
    let more = network_candidates is_ip rest in
    let ip = trim_space nw.ip_address in
    if text_eq ip []
    then more
    else if is_ip ip
    then record { name = name; id = trim_space nw.network_id; ip = ip } ∷ more
    else more

-- `appendByName`: the first candidate with the name goes behind the others.
unfoldable pub append_by_name : Bytes → List Candidate → List Candidate → List Candidate
unfolding text_eq
append_by_name name [] ordered = ordered
append_by_name name (c ∷ cs) ordered =
    if text_eq c.name name then ordered ++ c ∷ [] else append_by_name name cs ordered

unfoldable pub has_candidate : List Candidate → Bytes → Bool
unfolding text_eq
has_candidate [] name = false
has_candidate (c ∷ cs) name = if text_eq c.name name then true else has_candidate cs name

-- The loop that appends the others.
unfoldable pub append_others : List Candidate → List Candidate → List Candidate
unfolding has_candidate
append_others [] ordered = ordered
append_others (c ∷ cs) ordered =
    append_others cs (if has_candidate ordered c.name then ordered else ordered ++ c ∷ [])

unfoldable pub preferred_first : Bytes → List Candidate → List Candidate
unfolding append_by_name text_eq
preferred_first project candidates =
    if text_eq project [] then [] else append_by_name (project ++ codes "_default") candidates []

-- The candidates in the order in which they are tried.
unfoldable pub order_candidates : Bytes → List Candidate → List Candidate
unfolding preferred_first append_by_name append_others
order_candidates project candidates =
    append_others candidates
      (append_by_name (codes "default") candidates (preferred_first project candidates))

-- `containerIPReachable`
unfoldable pub ip_reachable : (Bytes → ℕ → Bool) → Bytes → List ℕ → Bool
ip_reachable dials ip [] = false
ip_reachable dials ip (p ∷ ps) =
    if p == 0
    then ip_reachable dials ip ps
    else if dials ip p
    then true
    else ip_reachable dials ip ps

-- The first candidate that can be reached.
unfoldable pub first_reachable : (Bytes → ℕ → Bool) → List ℕ → List Candidate → Option Candidate
unfolding ip_reachable
first_reachable dials ports [] = none
first_reachable dials ports (c ∷ cs) =
    let rest = first_reachable dials ports cs in
    if ip_reachable dials c.ip ports then some c else rest

unfoldable pub has_text : List Bytes → Bytes → Bool
unfolding text_eq
has_text [] s = false
has_text (t ∷ ts) s = if text_eq t s then true else has_text ts s

-- `appendIP`
unfoldable pub append_ip : Bytes → List Bytes → List Bytes
unfolding trim_space text_eq has_text
append_ip ip out =
    if text_eq (trim_space ip) []
    then out
    else if has_text out (trim_space ip)
    then out
    else out ++ trim_space ip ∷ []

unfoldable pub append_ips : List Candidate → List Bytes → List Bytes
unfolding append_ip
append_ips [] out = out
append_ips (c ∷ cs) out = append_ips cs (append_ip c.ip out)

-- `candidateIPOrder`
unfoldable pub candidate_ip_order : Candidate → List Candidate → List Bytes
unfolding append_ips append_ip
candidate_ip_order selected ordered = append_ips ordered (append_ip selected.ip [])

-- The network that is taken, and the addresses in the order of preference; or none.
pub data Selected : Type 0 where
  no_network : Selected
  selected : Candidate → List Bytes → Selected

unfoldable pub choose : (Bytes → ℕ → Bool) → List ℕ → List Candidate → Option Candidate
unfolding first_reachable
choose dials [] [] = none
choose dials [] (c ∷ cs) = some c
choose dials (p ∷ ps) [] = none
choose dials (p ∷ ps) (c ∷ []) = some c
choose dials (p ∷ ps) (c ∷ d ∷ cs) = elim (first_reachable dials (p ∷ ps) (c ∷ d ∷ cs)) [
  | none ↦ some c
  | some r ↦ some r
]

unfoldable pub selected_of : Option Candidate → List Candidate → Selected
unfolding candidate_ip_order
selected_of none ordered = no_network
selected_of (some c) ordered = selected c (candidate_ip_order c ordered)

-- `selectContainerNetwork`
unfoldable pub select_container_network :
    (Bytes → Bool) → (Bytes → ℕ → Bool) → DockerInspect → List ℕ → Selected
unfolding network_candidates order_candidates choose selected_of sort_by label trim_space
select_container_network is_ip dials c probe_ports =
    let candidates = sort_by (λ (n : Candidate). n.name) (network_candidates is_ip c.networks) in
    let ordered = order_candidates (trim_space (label c.labels compose_project)) candidates in
    selected_of (choose dials probe_ports ordered) ordered
