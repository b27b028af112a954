-- ===== src/Routes.antt =====
-- internal/routes/merge.go: one address for each hostname out of the entries of three sources.
mod Tests
mod Winner
mod Outcome
pub mod Origin
mod Precedence
use dnsvard.Base.{
  ℕ, Bool, true, false, Option, none, some, List, [], ◌∷◌, ◌++◌, ltb, if◌then◌else◌, Bytes, codes,
  text_eq, to_lower, trim, trim_space, is_dot, Dict, lookup, insert, values, sort_by,
}
use dnsvard.Netip.{Addr, addr_eq}

-- `Source` is a string type: any other string takes the default of `priorityFor`.
pub data Source : Type 0 where
  docker runtime manual : Source
  other : Bytes → Source

pub record Entry : Type 0 where
  pub hostname : Bytes
  pub ip : Addr
  pub source : Source

pub record Result : Type 0 where
  pub entries : List Entry
  pub warnings : List Bytes

-- The local type `current` of `Merge`.
pub record Current : Type 0 where
  pub entry : Entry
  pub priority : ℕ

unfoldable pub source_text : Source → Bytes
source_text docker = codes "docker"
source_text runtime = codes "runtime"
source_text manual = codes "manual"
source_text (other s) = s

unfoldable pub priority_for : Source → ℕ
priority_for manual = 300
priority_for runtime = 200
priority_for docker = 100
priority_for (other s) = 0

-- `h + "."`, and the root for an empty name.
unfoldable pub with_dot : Bytes → Bytes
with_dot [] = codes "."
with_dot (c ∷ s) = (c ∷ s) ++ codes "."

unfoldable pub canonical : Bytes → Bytes
unfolding with_dot to_lower trim_space is_dot trim
canonical hostname = with_dot (trim is_dot (trim_space (to_lower hostname)))

unfoldable pub override_warning : Bytes → Source → Source → Bytes
unfolding source_text
override_warning host new old =
    codes "route "
    ++ (host ++ (codes " from " ++ (source_text new ++ (codes " overrides " ++ source_text old))))

unfoldable pub ignored_warning : Bytes → Source → Source → Bytes
unfolding source_text
ignored_warning host new old =
    codes "route "
    ++ (host
        ++ (codes " from "
            ++ (source_text new
                ++ (codes " ignored; " ++ (source_text old ++ codes " has higher precedence")))))

-- The variables of the loop of `Merge`.
pub record Progress : Type 0 where
  pub chosen : Dict Current
  pub warnings : List Bytes

-- One round, after the lookup of `host` in `chosen`. The entry has its canonical hostname.
unfoldable pub consider : Option Current → Entry → Progress → Progress
unfolding priority_for addr_eq override_warning ignored_warning
consider none e st = record st {
  chosen = insert e.hostname (record { entry = e; priority = priority_for e.source }) st.chosen;
}
consider (some existing) e st =
    if addr_eq existing.entry.ip e.ip
    then st
    else if ltb existing.priority (priority_for e.source)
    then record st {
      chosen = insert e.hostname (record { entry = e; priority = priority_for e.source }) st.chosen;
      warnings = st.warnings ++ (override_warning e.hostname e.source existing.entry.source ∷ []);
    }
    else record st {
      warnings = st.warnings ++ (ignored_warning e.hostname e.source existing.entry.source ∷ []);
    }

-- `entry.Hostname = host`
unfoldable pub canonical_entry : Entry → Entry
unfolding canonical
canonical_entry e = record e { hostname = canonical e.hostname }

unfoldable pub merge_loop : List Entry → Progress → Progress
unfolding consider canonical_entry lookup insert text_eq
merge_loop [] st = st
merge_loop (e ∷ es) st =
    let e' = canonical_entry e in merge_loop es (consider (lookup e'.hostname st.chosen) e' st)

unfoldable pub entry_of : List Current → List Entry
entry_of [] = []
entry_of (c ∷ cs) = c.entry ∷ entry_of cs

-- `out` is filled in the map's order, and then sorted.
unfoldable pub merge : List Entry → Result
unfolding merge_loop entry_of sort_by
merge es =
    let st = merge_loop es (record { chosen = []; warnings = [] }) in
    record {
      entries = sort_by (λ e. e.hostname) (entry_of (values st.chosen));
      warnings = st.warnings;
    }
