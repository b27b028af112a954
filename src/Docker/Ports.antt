-- ===== src/Docker/Ports.antt =====
-- internal/docker/provider.go: the ports of a container.
pub mod Candidates
use dnsvard.Base.{
  ℕ, Bool, true, false, Option, none, some, List, [], ◌∷◌, ◌++◌, ltb, leb, ◌==◌, if◌then◌else◌,
  Bytes, codes, text_eq, to_lower, split, length, ℤ, pos, negsuc, atoi, is_port, has_number,
  sort_numbers,
}
use dnsvard.Docker.{DockerInspect}

-- The port that a number stands for, and 0 where it is none.
unfoldable pub port_of : Option ℤ → ℕ
unfolding is_port
port_of none = 0
port_of (some (pos n)) = if is_port (pos n) then n else 0
port_of (some (negsuc n)) = 0

-- `parseTCPPort`, on the parts of the text.
unfoldable pub parse_port_parts : List Bytes → ℕ
unfolding port_of atoi text_eq to_lower
parse_port_parts (port ∷ protocol ∷ []) =
    if text_eq (to_lower protocol) (codes "tcp") then port_of (atoi port) else 0
parse_port_parts [] = 0
parse_port_parts (port ∷ []) = 0
parse_port_parts (port ∷ protocol ∷ p ∷ ps) = 0

unfoldable pub parse_tcp_port : Bytes → ℕ
unfolding parse_port_parts split
parse_tcp_port v = parse_port_parts (split v b'/')

-- `portsSet[p] = struct{}{}`, where the port is positive.
unfoldable pub add_port : ℕ → List ℕ → List ℕ
unfolding has_number
add_port p set = if ltb 0 p then if has_number set p then set else p ∷ set else set

-- One of the two loops over the keys.
unfoldable pub collect_ports : List Bytes → List ℕ → List ℕ
unfolding add_port parse_tcp_port
collect_ports [] set = set
collect_ports (key ∷ keys) set = collect_ports keys (add_port (parse_tcp_port key) set)

-- `candidateTCPPorts`
unfoldable pub candidate_tcp_ports : DockerInspect → List ℕ
unfolding collect_ports sort_numbers
candidate_tcp_ports c = sort_numbers (collect_ports c.ports (collect_ports c.exposed_ports []))

unfoldable pub remove_number : ℕ → List ℕ → List ℕ
remove_number p [] = []
remove_number p (q ∷ qs) = let rest = remove_number p qs in if q == p then rest else q ∷ rest

-- The loop over the ports of the priority list, and the ports that remain behind it.
unfoldable pub order_ports : List ℕ → List ℕ → List ℕ
unfolding has_number remove_number
order_ports [] remaining = remaining
order_ports (p ∷ priority) remaining =
    let skipped = order_ports priority remaining in
    let taken = order_ports priority (remove_number p remaining) in
    if has_number remaining p then p ∷ taken else skipped

abbrev pub http_priority : List ℕ
http_priority = 80 ∷ 3000 ∷ 5173 ∷ 8080 ∷ 8888 ∷ 14000 ∷ []

-- `candidateHTTPPorts`
unfoldable pub candidate_http_ports : DockerInspect → List ℕ
unfolding candidate_tcp_ports order_ports
candidate_http_ports c = order_ports http_priority (candidate_tcp_ports c)

-- The loop of `preferredProbePorts`, which ends at three ports; the set holds what `out` holds.
unfoldable pub add_probe_ports : List ℕ → List ℕ → List ℕ
unfolding has_number
add_probe_ports [] out = out
add_probe_ports (p ∷ ps) out =
    let same = add_probe_ports ps out in
    let more = add_probe_ports ps (out ++ p ∷ []) in
    if p == 0
    then same
    else if has_number out p
    then same
    else if leb 3 (length (out ++ p ∷ []))
    then out ++ p ∷ []
    else more

unfoldable pub preferred_probe_ports : ℕ → List ℕ → List ℕ
unfolding add_probe_ports
preferred_probe_ports http_port tcp_ports =
    add_probe_ports tcp_ports (if ltb 0 http_port then http_port ∷ [] else [])
