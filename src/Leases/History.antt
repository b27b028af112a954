-- ===== src/Leases/History.antt =====
-- Whole histories of the file of leases, and what one `Upsert` does to the other leases.
use dnsvard.Base.{
  ℕ, Bool, true, false, List, [], ◌∷◌, inl, inr, Bytes, Dict, erase, Bool-cases, Option-cases,
}
use dnsvard.Leases.{
  Lease, LeaseFile, missing, read_error, undecodable, null_content, save_null, leases, check_lease,
  dated, with_lease, load_leases, save_leases, store_lease, upsert, remove, drop_stopped,
  any_stopped, active_of, active,
}
use dnsvard.Leases.Disjoint.{IsDisjoint, with_lease-IsDisjoint, erase-In, drop_stopped-In}

-- The leases of the file, if it holds some, claim different hostnames.
abbrev pub HasDisjoint : LeaseFile → Type 0
HasDisjoint missing = Unit
HasDisjoint read_error = Unit
HasDisjoint undecodable = Unit
HasDisjoint null_content = Unit
HasDisjoint (leases m) = IsDisjoint m

-- A call, with whether the file could be written.
pub data Call : Type 0 where
  upserted : Bool → Bytes → Lease → Call
  removed : Bool → Bytes → Call
  activated : Bool → (ℕ → Bool) → Call

unfoldable pub perform : Call → LeaseFile → LeaseFile
perform (upserted written now l) file = (upsert written now l file).0
perform (removed written id) file = (remove written id file).0
perform (activated written running) file = (active written running file).0

unfoldable pub run : List Call → LeaseFile → LeaseFile
unfolding perform
run [] file = file
run (c ∷ cs) file = run cs (perform c file)

empty-IsDisjoint : IsDisjoint []
unfolding IsDisjoint
empty-IsDisjoint k j x y i h s = absurd i

save-HasDisjoint :
    (written : Bool) (m : Dict Lease) (file : LeaseFile)
    → IsDisjoint m
    → HasDisjoint file
    → HasDisjoint (save_leases written m file).0
unfolding save_leases
save-HasDisjoint true m file ok old = ok
save-HasDisjoint false m file ok old = old

store-HasDisjoint :
    (written : Bool) (l : Lease) (file : LeaseFile)
    → HasDisjoint file
    → HasDisjoint (store_lease written l file).0
unfolding store_lease load_leases
store-HasDisjoint written l missing ok =
    save-HasDisjoint written (with_lease l []) missing (with_lease-IsDisjoint l [] empty-IsDisjoint)
      tt
store-HasDisjoint written l read_error ok = tt
store-HasDisjoint written l undecodable ok = tt
store-HasDisjoint written l null_content ok = tt
store-HasDisjoint written l (leases m) ok =
    save-HasDisjoint written (with_lease l m) (leases m) (with_lease-IsDisjoint l m ok) ok

upsert-HasDisjoint :
    (written : Bool) (now : Bytes) (l : Lease) (file : LeaseFile)
    → HasDisjoint file
    → HasDisjoint (upsert written now l file).0
unfolding upsert
upsert-HasDisjoint written now l file ok = elim (Option-cases (check_lease l)) [
  | inl e ↦ rw (e, upsert) (store-HasDisjoint written (dated now l) file ok)
  | inr (x, e) ↦ rw (e, upsert) ok
]

erase-IsDisjoint : (id : Bytes) (m : Dict Lease) → IsDisjoint m → IsDisjoint (erase id m)
unfolding IsDisjoint
erase-IsDisjoint id m ok k j x y i h s = ok k j x y (erase-In id k x m i) (erase-In id j y m h) s

remove-HasDisjoint :
    (written : Bool) (id : Bytes) (file : LeaseFile)
    → HasDisjoint file
    → HasDisjoint (remove written id file).0
unfolding remove load_leases erase save_null
remove-HasDisjoint written id missing ok = save-HasDisjoint written [] missing empty-IsDisjoint tt
remove-HasDisjoint written id read_error ok = tt
remove-HasDisjoint written id undecodable ok = tt
remove-HasDisjoint true id null_content ok = tt
remove-HasDisjoint false id null_content ok = tt
remove-HasDisjoint written id (leases m) ok =
    save-HasDisjoint written (erase id m) (leases m) (erase-IsDisjoint id m ok) ok

drop_stopped-IsDisjoint :
    (running : ℕ → Bool) (m : Dict Lease) → IsDisjoint m → IsDisjoint (drop_stopped running m)
unfolding IsDisjoint
drop_stopped-IsDisjoint running m ok k j x y i h s =
    ok k j x y (drop_stopped-In running k x m i) (drop_stopped-In running j y m h) s

active_of-HasDisjoint :
    (written : Bool) (running : ℕ → Bool) (m : Dict Lease) (file : LeaseFile)
    → IsDisjoint m
    → HasDisjoint file
    → HasDisjoint (active_of written running m file).0
unfolding active_of
active_of-HasDisjoint written running m file ok old = elim (Bool-cases (any_stopped running m)) [
  | inr e ↦ rw (e, active_of) old
  | inl e ↦ elim (Bool-cases written) [
    | inl w ↦ rw (e, w, active_of) (drop_stopped-IsDisjoint running m ok)
    | inr w ↦ rw (e, w, active_of) old
  ]
]

active-HasDisjoint :
    (written : Bool) (running : ℕ → Bool) (file : LeaseFile)
    → HasDisjoint file
    → HasDisjoint (active written running file).0
unfolding active load_leases
active-HasDisjoint written running missing ok =
    active_of-HasDisjoint written running [] missing empty-IsDisjoint tt
active-HasDisjoint written running read_error ok = tt
active-HasDisjoint written running undecodable ok = tt
active-HasDisjoint written running null_content ok = tt
active-HasDisjoint written running (leases m) ok =
    active_of-HasDisjoint written running m (leases m) ok ok

-- From a file whose leases claim different hostnames, any calls, whether they can write the file
-- or not, lead to such a file.
pub run-HasDisjoint :
    (cs : List Call) (file : LeaseFile) → HasDisjoint file → HasDisjoint (run cs file)
unfolding run
run-HasDisjoint [] file ok = ok
run-HasDisjoint (upserted written now l ∷ cs) file ok =
    run-HasDisjoint cs (upsert written now l file).0 (upsert-HasDisjoint written now l file ok)
run-HasDisjoint (removed written id ∷ cs) file ok =
    run-HasDisjoint cs (remove written id file).0 (remove-HasDisjoint written id file ok)
run-HasDisjoint (activated written running ∷ cs) file ok =
    run-HasDisjoint cs (active written running file).0 (active-HasDisjoint written running file ok)
