-- ===== src/Routes/Winner.antt =====
-- The contest for one hostname, as a specification of `merge`, and the invariant of its loop.
use dnsvard.Base.{
  Option, none, some, List, [], ◌∷◌, ◌≡◌, refl, ap, ◌∙◌, arith, ltb, if◌then◌else◌, Bytes, text_eq,
  text_eq_iff, Dict, lookup, insert, NodupKeys, lookup-insert, insert-NodupKeys, All, All-insert,
  All_of_lookup,
}
use dnsvard.Netip.{addr_eq}
use dnsvard.Routes.{
  Entry, Current, Progress, priority_for, canonical, canonical_entry, consider, merge_loop,
}

-- The holder of a hostname stays unless a newcomer has another address and a higher priority.
unfoldable pub contest : Option Entry → Entry → Option Entry
contest none e = some e
contest (some w) e =
    if addr_eq w.ip e.ip
    then some w
    else if ltb (priority_for w.source) (priority_for e.source)
    then some e
    else some w

-- The holder of `h` after the entries, in their order, from the holder before them.
unfoldable pub winner : Bytes → Option Entry → List Entry → Option Entry
winner h w [] = w
winner h w (e ∷ es) =
    winner h (if text_eq (canonical e.hostname) h then contest w (canonical_entry e) else w) es

abbrev pub entry_at : Bytes → Dict Current → Option Entry
entry_at h m = elim (lookup h m) [ none ↦ none | some c ↦ some c.entry ]

abbrev pub Fits : Bytes × Current → Type 0
Fits p = (p.0 ≡ p.1.entry.hostname) × (p.1.priority ≡ priority_for p.1.entry.source)

-- What the loop keeps: one entry for each hostname, under that hostname, with its priority.
pub record IsConsistent (m : Dict Current) : Type 0 where
  pub nodup : NodupKeys m
  pub fits : All Fits m

abbrev current_of : Entry → Current
current_of e = record { entry = e; priority = priority_for e.source }

insert-IsConsistent :
    (e : Entry) (m : Dict Current)
    → IsConsistent m
    → IsConsistent (insert e.hostname (current_of e) m)
insert-IsConsistent e m ok = record {
  nodup = insert-NodupKeys e.hostname (current_of e) m ok.nodup;
  fits = All-insert Fits e.hostname (current_of e) m (refl, refl) ok.fits;
}

consider-IsConsistent :
    (o : Option Current) (e : Entry) (st : Progress)
    → IsConsistent st.chosen
    → IsConsistent (consider o e st).chosen
unfolding consider
consider-IsConsistent none e st ok = insert-IsConsistent e st.chosen ok
consider-IsConsistent (some c) e st ok = ground (arith, insert-IsConsistent e st.chosen ok)

pub merge_loop-IsConsistent :
    (es : List Entry) (st : Progress)
    → IsConsistent st.chosen
    → IsConsistent (merge_loop es st).chosen
unfolding merge_loop
merge_loop-IsConsistent [] st ok = ok
merge_loop-IsConsistent (e ∷ es) st ok =
    merge_loop-IsConsistent es _
      (consider-IsConsistent (lookup (canonical e.hostname) st.chosen) (canonical_entry e) st ok)

consider-contest :
    (h : Bytes) (o : Option Current) (e : Entry) (st : Progress)
    → lookup e.hostname st.chosen ≡ o
    → IsConsistent st.chosen
    → entry_at h (consider o e st).chosen
      ≡ (if text_eq e.hostname h then contest (entry_at h st.chosen) e else entry_at h st.chosen)
unfolding consider contest
consider-contest h none e st found ok =
    ground (arith, text_eq_iff e.hostname h, lookup-insert e.hostname h (current_of e) st.chosen)
consider-contest h (some c) e st found ok = ground (
  arith,
  text_eq_iff e.hostname h,
  lookup-insert e.hostname h (current_of e) st.chosen,
  All_of_lookup Fits e.hostname c st.chosen ok.fits found,
)

-- The loop computes the contest of every hostname at once.
pub merge_loop-winner :
    (h : Bytes) (es : List Entry) (st : Progress)
    → IsConsistent st.chosen
    → entry_at h (merge_loop es st).chosen ≡ winner h (entry_at h st.chosen) es
unfolding merge_loop winner canonical_entry
merge_loop-winner h [] st ok = refl
merge_loop-winner h (e ∷ es) st ok =
    let o = lookup (canonical e.hostname) st.chosen in
    merge_loop-winner h es (consider o (canonical_entry e) st)
      (consider-IsConsistent o (canonical_entry e) st ok)
    ∙ ap (λ w. winner h w es) (consider-contest h o (canonical_entry e) st refl ok)

abbrev pub no_progress : Progress
no_progress = record { chosen = []; warnings = [] }

pub chosen-IsConsistent : (es : List Entry) → IsConsistent (merge_loop es no_progress).chosen
chosen-IsConsistent es = merge_loop-IsConsistent es no_progress (record { nodup = tt; fits = tt })

pub entry_at-chosen :
    (h : Bytes) (es : List Entry) → entry_at h (merge_loop es no_progress).chosen ≡ winner h none es
unfolding lookup
entry_at-chosen h es = merge_loop-winner h es no_progress (record { nodup = tt; fits = tt })
