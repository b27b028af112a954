-- ===== src/Allocator.antt =====
-- internal/allocator/allocator.go: a loopback address for each workspace, out of one prefix.
-- Times are nanoseconds since some epoch; Go's zero time is `none`. SHA-1 is the argument `hash`
-- (the first four bytes of the sum), the JSON decoder an argument, and whether the state file
-- could be written is an argument of each operation that saves.
mod Tests
pub mod Range
pub mod Rounds
pub mod Allocate
pub mod Holders
pub mod Pool
pub mod History
use dnsvard.Base.{
  ℕ, zero, suc, ◌+◌, ◌-◌, ◌*◌, ◌/◌, ◌%◌, ◌^◌, Bool, true, false, Option, none, some, List, [], ◌∷◌,
  ltb, leb, ◌==◌, if◌then◌else◌, Bytes, text_eq, Dict, lookup, insert,
}
use dnsvard.Netip.{Addr, invalid, v4, v6}
use dnsvard.Netip.Dotted.{addr_text, parse_addr}

pub record Assignment : Type 0 where
  pub workspace_id : Bytes
  pub ip : Bytes
  pub assigned_at : ℕ
  pub released_at : Option ℕ

-- `bits` and `network` are the masked prefix; `disk` is what the state file holds.
pub record Allocator : Type 0 where
  pub network : ℕ
  pub bits : ℕ
  pub cooldown : ℕ
  pub assignments : Dict Assignment
  pub disk : Dict Assignment

pub data Error : Type 0 where
  bad_cidr not_ipv4 id_required cidr_too_small none_free save_failed : Error
  unreadable unparsable : Error

-- What `os.ReadFile` finds at the state path.
pub data StateFile : Type 0 where
  missing read_error : StateFile
  content : Bytes → StateFile

pub data Loaded : Type 0 where
  loaded : Dict Assignment → Loaded
  load_failed : Error → Loaded

pub data Created : Type 0 where
  created : Allocator → Created
  create_failed : Error → Created

-- Ten minutes, in nanoseconds.
abbrev pub default_cooldown : ℕ
default_cooldown = 600 * 10 ^ 9

-- What `json.Unmarshal` makes of a file: a failure, or the assignments, which may be null.
abbrev pub Decoder : Type 0
Decoder = Bytes → Option (Option (Dict Assignment))

unfoldable pub load_content : Decoder → Bytes → Loaded
load_content decode [] = loaded []
load_content decode (c ∷ s) = elim (decode (c ∷ s)) [
  | none ↦ load_failed unparsable
  | some parsed ↦ elim parsed [ none ↦ loaded [] | some m ↦ loaded m ]
]

unfoldable pub load : Decoder → StateFile → Loaded
unfolding load_content
load decode missing = loaded []
load decode read_error = load_failed unreadable
load decode (content b) = load_content decode b

-- `prefix.Masked()`: the host bits are cleared.
unfoldable pub masked : ℕ → ℕ → ℕ
masked addr bits = addr / 2 ^ (32 - bits) * 2 ^ (32 - bits)

-- `New`, from the address and the length that `netip.ParsePrefix` finds in the text.
unfoldable pub new_allocator : Decoder → Option (Addr × ℕ) → StateFile → Created
unfolding load masked
new_allocator decode none file = create_failed bad_cidr
new_allocator decode (some (invalid, bits)) file = create_failed not_ipv4
new_allocator decode (some (v6 a, bits)) file = create_failed not_ipv4
new_allocator decode (some (v4 a, bits)) file = elim (load decode file) [
  | loaded m ↦ created (record {
    network = masked a bits;
    bits = bits;
    cooldown = default_cooldown;
    assignments = m;
    disk = m;
  })
  | load_failed e ↦ create_failed e
]

-- `hostCapacity`
unfoldable pub host_capacity : ℕ → ℕ
host_capacity bits =
    let size = 32 - bits in if size == 0 then 0 else if leb 31 size then 2 ^ 30 else 2 ^ size

-- `prefix.Contains(ip)`
unfoldable pub prefix_contains : ℕ → ℕ → ℕ → Bool
prefix_contains network bits ip = ip / 2 ^ (32 - bits) == network / 2 ^ (32 - bits)

-- `hostToAddr`, with the addition of `uint32`.
unfoldable pub host_to_addr : ℕ → ℕ → ℕ → Option ℕ
unfolding prefix_contains
host_to_addr network bits host =
    let ip = (network + host) % 2 ^ 32 in if prefix_contains network bits ip then some ip else none

-- One assignment lets the address be taken: it is of another address, or was released at least
-- the cooldown ago.
unfoldable pub leaves_free : ℕ → ℕ → Bytes → Assignment → Bool
leaves_free now cooldown ip asg =
    if text_eq asg.ip ip
    then elim asg.released_at [
      | none ↦ false
      | some released ↦ if ltb now (released + cooldown) then false else true
    ]
    else true

-- `isIPAvailable`
unfoldable pub is_ip_available : ℕ → ℕ → Bytes → Dict Assignment → Bool
unfolding leaves_free
is_ip_available now cooldown ip [] = true
is_ip_available now cooldown ip ((id, asg) ∷ m) =
    if leaves_free now cooldown ip asg then is_ip_available now cooldown ip m else false

-- The host number of round `i`, in `uint32`.
unfoldable pub probe_host : ℕ → ℕ → ℕ → ℕ
probe_host base max_hosts i =
    let host = (base + i) % 2 ^ 32 % max_hosts in if ltb host 2 then host + 2 else host

-- The address that round `i` looks at and finds free.
unfoldable pub probe : Allocator → ℕ → ℕ → ℕ → ℕ → Option ℕ
probe a now base max_hosts i = elim (host_to_addr a.network a.bits (probe_host base max_hosts i)) [
  | none ↦ none
  | some ip ↦ if is_ip_available now a.cooldown (addr_text ip) a.assignments then some ip else none
]

-- The loop of `Allocate` from round `i` on, with so many rounds left.
unfoldable pub search_from : Allocator → ℕ → ℕ → ℕ → ℕ → ℕ → Option ℕ
search_from a now base max_hosts zero i = none
search_from a now base max_hosts (suc left) i =
    let rest = search_from a now base max_hosts left (i + 1) in
    elim (probe a now base max_hosts i) [ none ↦ rest | some ip ↦ some ip ]

pub data Outcome : Type 0 where
  assigned : ℕ → Outcome
  done : Outcome
  failed : Error → Outcome

-- An operation's result with the state behind it.
pub record After : Type 0 where
  pub state : Allocator
  pub outcome : Outcome

-- `save`: the file is replaced, or stays as it was where a step of the write fails.
unfoldable pub save : Bool → Allocator → Outcome → After
save true a out = record { state = record a { disk = a.assignments }; outcome = out }
save false a out = record { state = a; outcome = failed save_failed }

unfoldable pub fresh_assignment : Bytes → ℕ → ℕ → Assignment
unfolding addr_text
fresh_assignment id ip now = record {
  workspace_id = id;
  ip = addr_text ip;
  assigned_at = now;
  released_at = none;
}

-- `Allocate` where the workspace has no address that parses.
unfoldable pub allocate_fresh : (Bytes → ℕ) → Bool → ℕ → Bytes → Allocator → After
allocate_fresh hash written now id a =
    let max_hosts = host_capacity a.bits in
    if ltb max_hosts 4
    then record { state = a; outcome = failed cidr_too_small }
    else elim (search_from a now (hash id) max_hosts max_hosts 0) [
      | none ↦ record { state = a; outcome = failed none_free }
      | some ip ↦
          save written
            (record a { assignments = insert id (fresh_assignment id ip now) a.assignments })
            (assigned ip)
    ]

-- The address that the workspace has, if its text parses.
unfoldable pub known_ip : Bytes → Allocator → Option ℕ
known_ip id a = elim (lookup id a.assignments) [ none ↦ none | some asg ↦ parse_addr asg.ip ]

unfoldable pub allocate : (Bytes → ℕ) → Bool → ℕ → Bytes → Allocator → After
unfolding known_ip
allocate hash written now [] a = record { state = a; outcome = failed id_required }
allocate hash written now (c ∷ s) a = elim (known_ip (c ∷ s) a) [
  | some ip ↦ record { state = a; outcome = assigned ip }
  | none ↦ allocate_fresh hash written now (c ∷ s) a
]

-- `Release`
unfoldable pub release : Bool → ℕ → Bytes → Allocator → After
unfolding save
release written now id a = elim (lookup id a.assignments) [
  | none ↦ record { state = a; outcome = done }
  | some asg ↦
      save written
        (record a { assignments = insert id (record asg { released_at = some now }) a.assignments })
        done
]
