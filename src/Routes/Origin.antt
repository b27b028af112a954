-- ===== src/Routes/Origin.antt =====
-- Where the addresses of the merged entries come from.
use dnsvard.Base.{
  Option, none, some, List, [], ◌∷◌, refl, subst, ltb, Bool-cases, inl, inr, Bytes, text_eq, All,
  In,
}
use dnsvard.Netip.{Addr, addr_eq}
use dnsvard.Routes.{Entry, priority_for, canonical, canonical_entry, merge}
use dnsvard.Routes.Winner.{contest, winner}
use dnsvard.Routes.Outcome.{merge_iff}

module _ (P : Addr → Type 0) where
  abbrev Held : Option Entry → Type 0
  Held none = Unit
  Held (some e) = P e.ip

  contest-Held : (w : Option Entry) (e : Entry) → Held w → P e.ip → Held (contest w e)
  unfolding contest
  contest-Held none e h p = p
  contest-Held (some w) e h p = elim (Bool-cases (addr_eq w.ip e.ip)) [
    | inl q ↦ rw (q, contest) h
    | inr q ↦ elim (Bool-cases (ltb (priority_for w.source) (priority_for e.source))) [
      | inl r ↦ rw (q, r, contest) p
      | inr r ↦ rw (q, r, contest) h
    ]
  ]

  winner-Held :
      (h : Bytes) (w : Option Entry) (es : List Entry)
      → Held w
      → All (λ (e : Entry). P e.ip) es
      → Held (winner h w es)
  unfolding winner canonical_entry
  winner-Held h w [] k all = k
  winner-Held h w (e ∷ es) k (p, all) = elim (Bool-cases (text_eq (canonical e.hostname) h)) [
    | inl q ↦
        rw (q, winner)
          (winner-Held h (contest w (canonical_entry e)) es (contest-Held w (canonical_entry e) k p)
            all)
    | inr q ↦ rw (q, winner) (winner-Held h w es k all)
  ]

  all_of : (es : List Entry) → ((e : Entry) → In e es → P e.ip) → All (λ (e : Entry). P e.ip) es
  all_of [] f = tt
  all_of (e ∷ es) f = (f e (inl refl), all_of es (λ x i. f x (inr i)))

  -- What holds of all the addresses that are merged holds of those of the result.
  pub merge-All :
      (es : List Entry)
      → All (λ (e : Entry). P e.ip) es
      → All (λ (e : Entry). P e.ip) (merge es).entries
  merge-All es h = all_of (merge es).entries (λ e i.
      subst Held ((merge_iff es e.hostname e).0 (i, refl)) (winner-Held e.hostname none es tt h))
