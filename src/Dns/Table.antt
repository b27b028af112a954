-- ===== src/Dns/Table.antt =====
-- internal/dnsserver/table.go. The lock is left out: every method holds it throughout, except
-- `Set`, which reads the zone and builds the new map before it takes the lock.
use dnsvard.Base.{
  Bool, true, false, Option, none, some, List, [], ◌∷◌, ◌++◌, ltb, if◌then◌else◌, Bytes, codes,
  text_eq, to_lower, trim, trim_space, is_dot, has_suffix, length, Dict, lookup, insert, sort_by,
}
use dnsvard.Netip.{Addr, addr_eq}

pub record Record : Type 0 where
  pub hostname : Bytes
  pub ip : Addr

pub record Table : Type 0 where
  pub zone : Bytes
  pub managed_zones : List Bytes
  pub records : Dict Addr

-- `n + "."`, and the root for an empty name.
unfoldable pub dotted : Bytes → Bytes
dotted [] = codes "."
dotted (c ∷ s) = (c ∷ s) ++ codes "."

unfoldable pub canonical_fqdn : Bytes → Bytes
unfolding dotted to_lower trim_space trim is_dot
canonical_fqdn name = dotted (trim is_dot (to_lower (trim_space name)))

unfoldable pub new_table : Bytes → Table
unfolding canonical_fqdn
new_table zone = record {
  zone = canonical_fqdn zone;
  managed_zones = canonical_fqdn zone ∷ [];
  records = [];
}

-- `SetZone`
unfoldable pub set_zone : Bytes → Table → Table
unfolding canonical_fqdn
set_zone zone t = record t {
  zone = canonical_fqdn zone;
  managed_zones = canonical_fqdn zone ∷ [];
  records = [];
}

-- `seen[z]`; the list `out` is the same set.
unfoldable pub has_zone : List Bytes → Bytes → Bool
unfolding text_eq
has_zone [] z = false
has_zone (y ∷ ys) z = if text_eq y z then true else has_zone ys z

unfoldable pub collect_zones : List Bytes → List Bytes → List Bytes
unfolding has_zone text_eq
collect_zones [] out = out
collect_zones (zone ∷ zones) out =
    let z = canonical_fqdn zone in
    collect_zones zones
      (if text_eq z (codes ".") then out else if has_zone out z then out else out ++ z ∷ [])

unfoldable pub normalize_managed_zones : List Bytes → List Bytes
unfolding sort_by
normalize_managed_zones zones = sort_by (λ z. z) (collect_zones zones [])

-- `SetManagedZones`
unfoldable pub set_managed_zones : List Bytes → Table → Table
set_managed_zones zones t = record t { managed_zones = normalize_managed_zones zones }

unfoldable pub has_managed_zone : List Bytes → Bytes → Bool
unfolding has_suffix
has_managed_zone [] fqdn = false
has_managed_zone (zone ∷ zones) fqdn =
    if has_suffix fqdn zone then true else has_managed_zone zones fqdn

-- The loop of `bestManagedZone`, from the best zone so far.
unfoldable pub best_zone_from : List Bytes → Bytes → Bytes → Bytes
unfolding has_suffix
best_zone_from [] fqdn best = best
best_zone_from (zone ∷ zones) fqdn best =
    best_zone_from zones fqdn (
      if has_suffix fqdn zone then if ltb (length best) (length zone) then zone else best else best)

unfoldable pub best_managed_zone : List Bytes → Bytes → Option Bytes
unfolding best_zone_from text_eq
best_managed_zone zones fqdn =
    let best = best_zone_from zones fqdn [] in if text_eq best [] then none else some best

-- `Allows`
unfoldable pub allows : Table → Bytes → Bool
unfolding has_managed_zone
allows t name = has_managed_zone t.managed_zones (canonical_fqdn name)

-- `ZoneForName`
unfoldable pub zone_for_name : Table → Bytes → Bytes
unfolding best_managed_zone
zone_for_name t name = elim (best_managed_zone t.managed_zones (canonical_fqdn name)) [
  | none ↦ t.zone
  | some zone ↦ zone
]

pub data SetError : Type 0 where
  outside_zone duplicate_hostname : Bytes → SetError

pub data Next : Type 0 where
  next : Dict Addr → Next
  refused : SetError → Next

-- One round of `Set`, after the lookup of the hostname in `next`.
unfoldable pub add_record : Bytes → Bytes → Addr → Option Addr → Dict Addr → Next
unfolding has_suffix addr_eq
add_record zone h ip existing m =
    if has_suffix h zone
    then elim existing [
      | none ↦ next (insert h ip m)
      | some old ↦ if addr_eq old ip then next (insert h ip m) else refused (duplicate_hostname h)
    ]
    else refused (outside_zone h)

unfoldable pub build_records : Bytes → List Record → Dict Addr → Next
build_records zone [] m = next m
build_records zone (r ∷ rs) m =
    let h = canonical_fqdn r.hostname in
    elim (add_record zone h r.ip (lookup h m) m) [
      | next m' ↦ build_records zone rs m'
      | refused e ↦ refused e
    ]

-- `Set`: the new table and the error, if any.
unfoldable pub set_records : List Record → Table → Table × Option SetError
set_records rs t = elim (build_records t.zone rs []) [
  | next m ↦ (record t { records = m }, none)
  | refused e ↦ (t, some e)
]

-- `Lookup`
unfoldable pub lookup_name : Table → Bytes → Option Addr
lookup_name t name = lookup (canonical_fqdn name) t.records

-- `Exists`
unfoldable pub exists : Table → Bytes → Bool
exists t name = elim (lookup_name t name) [ none ↦ false | some ip ↦ true ]

unfoldable pub records_of : Dict Addr → List Record
records_of [] = []
records_of ((h, ip) ∷ m) = record { hostname = h; ip = ip } ∷ records_of m

-- `Snapshot`
unfoldable pub snapshot : Table → List Record
unfolding records_of sort_by
snapshot t = sort_by (λ r. r.hostname) (records_of t.records)
