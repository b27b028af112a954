-- ===== src/Routes/Precedence.antt =====
-- Which source wins a hostname: the promise of the precedence, and where it is not kept.
use dnsvard.Base.{
  ◌<◌, true, Option, none, some, List, [], ◌∷◌, ◌≡◌, ◌≢◌, ◌⊎◌, refl, sym, inl, inr, ap, ◌∙◌, arith,
  if◌then◌else◌, Bytes, text_eq, text_eq_iff, text_eq_refl, All, In, Bool-cases,
}
use dnsvard.Netip.{Addr, addr_eq_iff}
use dnsvard.Routes.{Entry, docker, runtime, manual, priority_for, canonical, canonical_entry, merge}
use dnsvard.Routes.Winner.{winner, contest}
use dnsvard.Routes.Outcome.{merge_iff}

-- Every entry for the hostname `h` either has another address and a lower priority than `best`,
-- or has its address and its priority.
abbrev pub Yields : Bytes → Entry → Entry → Type 0
Yields h best e =
    canonical e.hostname ≡ h
    → ((e.ip ≢ best.ip) × (priority_for e.source < priority_for best.source))
      ⊎ ((e.ip ≡ best.ip) × (priority_for e.source ≡ priority_for best.source))

-- The holder so far is beaten by `best`, or agrees with it.
abbrev Open : Entry → Option Entry → Type 0
Open best none = Unit
Open best (some w) =
    ((w.ip ≢ best.ip) × (priority_for w.source < priority_for best.source))
    ⊎ ((w.ip ≡ best.ip) × (priority_for w.source ≡ priority_for best.source))

abbrev Held : Entry → Option Entry → Type 0
Held best none = ⊥
Held best (some w) = (w.ip ≡ best.ip) × (priority_for w.source ≡ priority_for best.source)

contest-Open :
    (best e : Entry) (w : Option Entry) → Open best w → Open best (some e) → Open best (contest w e)
unfolding contest
contest-Open best e none o h = h
contest-Open best e (some w) o h = ground arith

contest-Held :
    (best e : Entry) (w : Option Entry) → Held best w → Open best (some e) → Held best (contest w e)
unfolding contest
contest-Held best e none o h = absurd o
contest-Held best e (some w) o h = ground (arith, addr_eq_iff w.ip e.ip)

contest-enter :
    (best e : Entry) (w : Option Entry)
    → Open best w
    → e.ip ≡ best.ip
    → priority_for e.source ≡ priority_for best.source
    → Held best (contest w e)
unfolding contest
contest-enter best e none o p q = (p, q)
contest-enter best e (some w) o p q = ground (arith, addr_eq_iff w.ip e.ip)

module _ (h : Bytes) (best e : Entry) (w : Option Entry) where
  abbrev after_round : Option Entry
  after_round = if text_eq (canonical e.hostname) h then contest w (canonical_entry e) else w

  round-Open : Yields h best e → Open best w → Open best after_round
  unfolding canonical_entry
  round-Open y o = elim (Bool-cases (text_eq (canonical e.hostname) h)) [
    | inl same ↦ rw same (contest-Open best (canonical_entry e) w o (y ((text_eq_iff _ h).0 same)))
    | inr other ↦ rw other o
  ]

  round-Held : Yields h best e → Held best w → Held best after_round
  unfolding canonical_entry
  round-Held y o = elim (Bool-cases (text_eq (canonical e.hostname) h)) [
    | inl same ↦ rw same (contest-Held best (canonical_entry e) w o (y ((text_eq_iff _ h).0 same)))
    | inr other ↦ rw other o
  ]

  enter-Held : canonical best.hostname ≡ h → Open best w → best ≡ e → Held best after_round
  unfolding canonical_entry
  enter-Held c o p =
      let same : text_eq (canonical e.hostname) h ≡ true =
        (text_eq_iff _ h).1 (ap (λ x. canonical x.hostname) (sym p) ∙ c) in
      rw same (
        contest-enter best (canonical_entry e) w o (ap (λ x. x.ip) (sym p))
          (ap (λ x. priority_for x.source) (sym p)))

winner-Held :
    (h : Bytes) (best : Entry) (es : List Entry) (w : Option Entry)
    → All (Yields h best) es
    → Held best w
    → Held best (winner h w es)
unfolding winner
winner-Held h best [] w a o = o
winner-Held h best (e ∷ es) w (y, a) o = winner-Held h best es _ a (round-Held h best e w y o)

winner-best :
    (h : Bytes) (best : Entry) (es : List Entry) (w : Option Entry)
    → canonical best.hostname ≡ h
    → All (Yields h best) es
    → Open best w
    → In best es
    → Held best (winner h w es)
unfolding winner
winner-best h best [] w c a o m = absurd m
winner-best h best (e ∷ es) w c (y, a) o (inl p) =
    winner-Held h best es _ a (enter-Held h best e w c o p)
winner-best h best (e ∷ es) w c (y, a) o (inr m) =
    winner-best h best es _ c a (round-Open h best e w y o) m

Held-entry :
    (best : Entry) (o : Option Entry)
    → Held best o
    → (r : Entry) × (o ≡ some r)
      × (r.ip ≡ best.ip)
      × (priority_for r.source ≡ priority_for best.source)
Held-entry best none o = absurd o
Held-entry best (some r) (p, q) = (r, refl, p, q)

-- If every entry for a hostname has the address and the priority of `best`, or another address
-- and a lower priority, and `best` is one of the entries, then the result has one entry for the
-- hostname, with the address and the priority of `best`, wherever `best` stands in the input.
pub merge-precedence :
    (es : List Entry) (best : Entry)
    → In best es
    → All (Yields (canonical best.hostname) best) es
    → (r : Entry) × In r (merge es).entries
      × (r.hostname ≡ canonical best.hostname)
      × (r.ip ≡ best.ip)
      × (priority_for r.source ≡ priority_for best.source)
merge-precedence es best m a =
    let h = canonical best.hostname in
    let (r, won, p, q) =
      Held-entry best (winner h none es) (winner-best h best es none refl a tt m) in
    let (found, name) = (merge_iff es h r).1 won in (r, found, name, p, q)

-- Where a hostname comes from docker and then from the manual source with one address `a`, the
-- manual entry is skipped and its precedence with it: a runtime entry with another address `b`
-- overrides it, although manual routes take precedence over runtime routes.
pub merge-manual_overridden :
    (host : Bytes) (a b : Addr)
    → a ≢ b
    → (merge (
        record { hostname = host; ip = a; source = docker }
        ∷ record { hostname = host; ip = a; source = manual }
        ∷ record { hostname = host; ip = b; source = runtime }
        ∷ [])).entries
      ≡ record { hostname = canonical host; ip = b; source = runtime } ∷ []
unfolding merge
merge-manual_overridden host a b h =
    ground (arith, text_eq_refl (canonical host), addr_eq_iff a a, addr_eq_iff a b)
