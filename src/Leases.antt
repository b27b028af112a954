-- ===== src/Leases.antt =====
-- internal/runtimeprovider/provider.go: the leases of running processes, kept in one file. The
-- decoder of the file's JSON, the test whether a process runs, the current time as text and the
-- success of a write are arguments.
mod Tests
pub mod Overlap
pub mod Disjoint
pub mod History
pub mod Kept
use dnsvard.Base.{
  ℕ, Bool, true, false, Option, none, some, List, [], ◌∷◌, ltb, ◌==◌, if◌then◌else◌, Bytes, codes,
  text_eq, to_lower, trim_space, trim_suffix, Dict, insert, erase, values, sort_by,
}

-- A process number that is not positive is 0.
pub record Lease : Type 0 where
  pub id : Bytes
  pub pid : ℕ
  pub hostnames : List Bytes
  pub domain : Bytes
  pub http_port : ℕ
  pub created_at : Bytes

-- The errors of the provider; `nil_map_panic` is the panic of a write to the nil map that the JSON
-- null is decoded to.
pub data LeaseError : Type 0 where
  id_required pid_required hostnames_required : LeaseError
  unreadable unparsable save_failed nil_map_panic : LeaseError

-- What the state file holds: nothing (no file, or an empty one), what cannot be read or is no JSON
-- of this type, the JSON null, or leases.
pub data LeaseFile : Type 0 where
  missing read_error undecodable null_content : LeaseFile
  leases : Dict Lease → LeaseFile

pub data LoadedLeases : Type 0 where
  loaded : Dict Lease → LoadedLeases
  nil_map : LoadedLeases
  load_failed : LeaseError → LoadedLeases

-- `load`
unfoldable pub load_leases : LeaseFile → LoadedLeases
load_leases missing = loaded []
load_leases read_error = load_failed unreadable
load_leases undecodable = load_failed unparsable
load_leases null_content = nil_map
load_leases (leases m) = loaded m

unfoldable pub canonical_name : Bytes → Bytes
unfolding to_lower trim_space trim_suffix
canonical_name v = trim_suffix (trim_space (to_lower v)) (codes ".")

-- `canonicalHostSet`
unfoldable pub canonical_set : List Bytes → List Bytes
unfolding canonical_name text_eq
canonical_set [] = []
canonical_set (v ∷ vs) =
    let rest = canonical_set vs in
    if text_eq (canonical_name v) [] then rest else canonical_name v ∷ rest

-- `_, ok := incoming[host]`
unfoldable pub is_incoming : List Bytes → Bytes → Bool
unfolding text_eq
is_incoming [] host = false
is_incoming (h ∷ hs) host = if text_eq h host then true else is_incoming hs host

unfoldable pub has_hostname_overlap : List Bytes → List Bytes → Bool
unfolding is_incoming canonical_name
has_hostname_overlap incoming [] = false
has_hostname_overlap incoming (host ∷ hosts) =
    if is_incoming incoming (canonical_name host) then true else has_hostname_overlap incoming hosts

-- The loop of `Upsert` over the map: leases of other processes with one of the hostnames go.
unfoldable pub evict : Bytes → List Bytes → Dict Lease → Dict Lease
unfolding has_hostname_overlap text_eq
evict id incoming [] = []
evict id incoming ((k, old) ∷ m) =
    let rest = evict id incoming m in
    if text_eq k id
    then (k, old) ∷ rest
    else if has_hostname_overlap incoming old.hostnames
    then rest
    else (k, old) ∷ rest

-- The tests of `Upsert`.
unfoldable pub check_lease : Lease → Option LeaseError
unfolding text_eq
check_lease l =
    if text_eq l.id []
    then some id_required
    else if l.pid == 0
    then some pid_required
    else elim l.hostnames [ [] ↦ some hostnames_required | h ∷ hs ↦ none ]

-- `lease.CreatedAt`, with the current time where it is blank.
unfoldable pub dated : Bytes → Lease → Lease
unfolding trim_space text_eq
dated now l = if text_eq (trim_space l.created_at) [] then record l { created_at = now } else l

-- The map that `Upsert` saves.
unfoldable pub with_lease : Lease → Dict Lease → Dict Lease
unfolding evict canonical_set insert
with_lease l m = insert l.id l (evict l.id (canonical_set l.hostnames) m)

-- `save`: the file is replaced, or stays as it was.
unfoldable pub save_leases : Bool → Dict Lease → LeaseFile → LeaseFile × Option LeaseError
save_leases true m file = (leases m, none)
save_leases false m file = (file, some save_failed)

-- `save` of the nil map, which is encoded as null.
unfoldable pub save_null : Bool → LeaseFile → LeaseFile × Option LeaseError
save_null true file = (null_content, none)
save_null false file = (file, some save_failed)

unfoldable pub store_lease : Bool → Lease → LeaseFile → LeaseFile × Option LeaseError
unfolding load_leases save_leases with_lease
store_lease written l file = elim (load_leases file) [
  | load_failed e ↦ (file, some e)
  | nil_map ↦ (file, some nil_map_panic)
  | loaded m ↦ save_leases written (with_lease l m) file
]

-- `Upsert`
unfoldable pub upsert : Bool → Bytes → Lease → LeaseFile → LeaseFile × Option LeaseError
unfolding check_lease store_lease dated
upsert written now l file = elim (check_lease l) [
  | some e ↦ (file, some e)
  | none ↦ store_lease written (dated now l) file
]

-- `Remove`: nothing is deleted of the nil map.
unfoldable pub remove : Bool → Bytes → LeaseFile → LeaseFile × Option LeaseError
unfolding load_leases save_leases save_null erase
remove written id file = elim (load_leases file) [
  | load_failed e ↦ (file, some e)
  | nil_map ↦ save_null written file
  | loaded m ↦ save_leases written (erase id m) file
]

-- The loop of `Active`: leases whose process does not run go.
unfoldable pub drop_stopped : (ℕ → Bool) → Dict Lease → Dict Lease
drop_stopped running [] = []
drop_stopped running ((k, l) ∷ m) =
    let rest = drop_stopped running m in if running l.pid then (k, l) ∷ rest else rest

-- Whether the loop deletes a lease.
unfoldable pub any_stopped : (ℕ → Bool) → Dict Lease → Bool
any_stopped running [] = false
any_stopped running ((k, l) ∷ m) = if running l.pid then any_stopped running m else true

pub data Listed : Type 0 where
  listed : List Lease → Listed
  list_failed : LeaseError → Listed

unfoldable pub by_id : Dict Lease → List Lease
unfolding sort_by
by_id m = sort_by (λ l. l.id) (values m)

-- `Active` on the leases that were loaded.
unfoldable pub active_of : Bool → (ℕ → Bool) → Dict Lease → LeaseFile → LeaseFile × Listed
unfolding any_stopped drop_stopped by_id
active_of written running m file =
    let rest = drop_stopped running m in
    if any_stopped running m
    then if written then (leases rest, listed (by_id rest)) else (file, list_failed save_failed)
    else (file, listed (by_id rest))

-- `Active`: the file behind it, and the leases in the order of their ids.
unfoldable pub active : Bool → (ℕ → Bool) → LeaseFile → LeaseFile × Listed
unfolding load_leases active_of
active written running file = elim (load_leases file) [
  | load_failed e ↦ (file, list_failed e)
  | nil_map ↦ (file, listed [])
  | loaded m ↦ active_of written running m file
]
