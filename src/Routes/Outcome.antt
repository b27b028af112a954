-- ===== src/Routes/Outcome.antt =====
-- The result of `merge`, entry by entry.
use dnsvard.Base.{
  none, some, List, [], ◌∷◌, ◌≡◌, ◌≢◌, ◌↔◌, refl, sym, inl, inr, ap, ◌∙◌, subst, arith, Bytes, Dict,
  lookup, values, keys, NodupKeys, All, In, All_of_lookup, All_of_In, In-values, key_of_value,
  lookup_of_In, Option-cases, lookup-In, In-sort_by, In-sort_by_back, Distinct, IsAscending,
  sort_by-IsAscending,
}
use dnsvard.Routes.{Entry, Current, entry_of, merge}
use dnsvard.Routes.Winner.{
  winner, entry_at, Fits, IsConsistent, chosen-IsConsistent, entry_at-chosen,
}

In-entry_of : (c : Current) (cs : List Current) → In c cs → In c.entry (entry_of cs)
unfolding entry_of
In-entry_of c [] m = absurd m
In-entry_of c (d ∷ cs) (inl e) = inl (ap (λ x. x.entry) e)
In-entry_of c (d ∷ cs) (inr m) = inr (In-entry_of c cs m)

current_of_In :
    (e : Entry) (cs : List Current) → In e (entry_of cs) → (c : Current) × In c cs × (e ≡ c.entry)
unfolding entry_of
current_of_In e [] m = absurd m
current_of_In e (d ∷ cs) (inl p) = (d, inl refl, p)
current_of_In e (d ∷ cs) (inr m) = let (c, n, p) = current_of_In e cs m in (c, inr n, p)

abbrev hostname_of : Entry → Bytes
hostname_of e = e.hostname

-- A map without double keys, each entry under its hostname, lists distinct hostnames.
entry_of-Distinct :
    (m : Dict Current) → NodupKeys m → All Fits m → Distinct hostname_of (entry_of (values m))
unfolding entry_of
entry_of-Distinct [] u f = tt
entry_of-Distinct ((k, c) ∷ m) (fresh, u) ((p, q), f) = (others m fresh f, entry_of-Distinct m u f)
  where
    others :
        (n : Dict Current)
        → All (λ j. j ≢ k) (keys n)
        → All Fits n
        → All (λ e. e.hostname ≢ c.entry.hostname) (entry_of (values n))
    others [] a b = tt
    others ((j, d) ∷ n) (ne, a) ((r, s), b) = ((λ eq. ne (r ∙ eq ∙ sym p)), others n a b)

-- The hostnames of the result ascend: none stands twice.
pub merge-IsAscending : (es : List Entry) → IsAscending hostname_of (merge es).entries
unfolding merge
merge-IsAscending es =
    let ok = chosen-IsConsistent es in
    sort_by-IsAscending hostname_of _ (entry_of-Distinct _ ok.nodup ok.fits)

entry_at-In :
    (h : Bytes) (e : Entry) (m : Dict Current)
    → IsConsistent m
    → entry_at h m ≡ some e
    → In e (entry_of (values m)) × (e.hostname ≡ h)
entry_at-In h e m ok found = elim (Option-cases (lookup h m)) [
  | inl p ↦ ground arith
  | inr (c, p) ↦
      let q : e ≡ c.entry = ground arith in
      let fit = All_of_lookup Fits h c m ok.fits p in
      rw q (In-entry_of c (values m) (In-values h c m (lookup-In h c m p)), sym fit.0)
]

entry_at_of :
    (k : Bytes) (c : Current) (m : Dict Current) → lookup k m ≡ some c → entry_at k m ≡ some c.entry
entry_at_of k c m there = ground arith

In-entry_at :
    (e : Entry) (m : Dict Current)
    → IsConsistent m
    → In e (entry_of (values m))
    → entry_at e.hostname m ≡ some e
In-entry_at e m ok h =
    let (c, n, p) = current_of_In e (values m) h in
    let (k, found) = key_of_value c m n in
    let fit = All_of_In Fits (k, c) m ok.fits found in
    let there = lookup_of_In k c m ok.nodup found in
    let same : e.hostname ≡ k = ap (λ x. x.hostname) p ∙ sym fit.0 in
    subst (λ x. entry_at x m ≡ some e) (sym same) (entry_at_of k c m there ∙ ap some (sym p))

-- The result holds an entry under a hostname exactly when it wins the contest for it.
pub merge_iff :
    (es : List Entry) (h : Bytes) (e : Entry)
    → (In e (merge es).entries × (e.hostname ≡ h)) ↔ (winner h none es ≡ some e)
unfolding merge
merge_iff es h e = (
  (λ (m, p). rw (← p) (
      sym (entry_at-chosen e.hostname es)
      ∙ In-entry_at e _ (chosen-IsConsistent es) (In-sort_by_back hostname_of e _ m))),
  (λ w.
      let (m, p) = entry_at-In h e _ (chosen-IsConsistent es) (entry_at-chosen h es ∙ w) in
      (In-sort_by hostname_of e _ m, p)),
)
