-- ===== src/Dns/Records.antt =====
-- What `Set` stores, and when it refuses.
use dnsvard.Base.{
  true, false, Option, none, some, List, [], ◌∷◌, ◌≡◌, ◌≢◌, ◌↔◌, ◌⊎◌, inl, inr, refl, sym, ap, ◌∙◌,
  subst, arith, if◌then◌else◌, Bytes, text_eq, text_eq_iff, has_suffix, Dict, lookup, insert,
  lookup-insert, In, All, Bool-cases, Option-cases,
}
use dnsvard.Netip.{Addr, addr_eq_iff}
use dnsvard.Dns.Table.{
  Record, Table, canonical_fqdn, SetError, Next, next, refused, add_record, build_records,
  set_records, lookup_name,
}

abbrev host_of : Record → Bytes
host_of r = canonical_fqdn r.hostname

-- Every record lies in the zone, and two records of one hostname have one address.
pub record IsAcceptable (zone : Bytes) (rs : List Record) : Type 0 where
  pub inside : All (λ r. has_suffix (host_of r) zone ≡ true) rs
  pub agree : (q r : Record) → In q rs → In r rs → host_of q ≡ host_of r → q.ip ≡ r.ip

-- The records agree with a map that they are added to.
abbrev Agrees : Dict Addr → Record → Type 0
Agrees m r = (ip : Addr) → lookup (host_of r) m ≡ some ip → ip ≡ r.ip

-- What a round of `Set` has done where it goes on.
record Added (zone h : Bytes) (ip : Addr) (m m' : Dict Addr) : Type 0 where
  inside : has_suffix h zone ≡ true
  agrees : (old : Addr) → lookup h m ≡ some old → old ≡ ip
  written : m' ≡ insert h ip m

add_record-Added :
    (zone h : Bytes) (ip : Addr) (m m' : Dict Addr)
    → add_record zone h ip (lookup h m) m ≡ next m'
    → Added zone h ip m m'
unfolding add_record
add_record-Added zone h ip m m' e = elim (Option-cases (lookup h m)) [
  | inl n ↦ record {
    inside = ground arith;
    agrees = λ old f. absurd (cc (n, f));
    written = ground arith;
  }
  | inr (x, f) ↦ record {
    inside = ground arith;
    agrees = λ old g. ground (arith, addr_eq_iff x ip);
    written = ground arith;
  }
]

Added-add_record :
    (zone h : Bytes) (ip : Addr) (m : Dict Addr)
    → has_suffix h zone ≡ true
    → ((old : Addr) → lookup h m ≡ some old → old ≡ ip)
    → add_record zone h ip (lookup h m) m ≡ next (insert h ip m)
unfolding add_record
Added-add_record zone h ip m inside agrees = elim (Option-cases (lookup h m)) [
  | inl n ↦ ground arith
  | inr (x, f) ↦ ground (arith, agrees x f, addr_eq_iff x ip)
]

Next-cases : (n : Next) → ((m : Dict Addr) × (n ≡ next m)) ⊎ ((e : SetError) × (n ≡ refused e))
Next-cases (next m) = inl (m, refl)
Next-cases (refused e) = inr (e, refl)

-- The map behind all rounds: a hostname has the address of its last record, or the one before.
pub stored : List Record → Bytes → Option Addr → Option Addr
stored [] h o = o
stored (r ∷ rs) h o = stored rs h (if text_eq (host_of r) h then some r.ip else o)

lookup-build_records :
    (zone : Bytes) (rs : List Record) (m m' : Dict Addr) (h : Bytes)
    → build_records zone rs m ≡ next m'
    → lookup h m' ≡ stored rs h (lookup h m)
unfolding build_records stored
lookup-build_records zone [] m m' h e = ground arith
lookup-build_records zone (r ∷ rs) m m' h e =
    elim (Next-cases (add_record zone (host_of r) r.ip (lookup (host_of r) m) m)) [
      | inl (m1, f) ↦
          let a = add_record-Added zone (host_of r) r.ip m m1 f in
          lookup-build_records zone rs m1 m' h (rw (f, build_records) at e)
          ∙ ap (stored rs h) (ap (lookup h) a.written ∙ lookup-insert (host_of r) h r.ip m)
      | inr (x, f) ↦ absurd (ground arith)
    ]

AllAgree : Dict Addr → List Record → Type 0
AllAgree m rs = (q : Record) → In q rs → Agrees m q

-- An entry agrees with the map before a record was added, if it agrees with the map behind.
Agrees-before :
    (r q : Record) (m : Dict Addr)
    → Agrees m r
    → Agrees (insert (host_of r) r.ip m) q
    → Agrees m q × (host_of q ≡ host_of r → q.ip ≡ r.ip)
Agrees-before r q m old new = (
  (λ ip f. elim (Bool-cases (text_eq (host_of r) (host_of q))) [
    | inl same ↦
        let e = (text_eq_iff (host_of r) (host_of q)).0 same in
        old ip (ap (λ h. lookup h m) e ∙ f)
        ∙ new r.ip (lookup-insert (host_of r) (host_of q) r.ip m ∙ rw same)
    | inr other ↦ new ip (lookup-insert (host_of r) (host_of q) r.ip m ∙ rw other f)
  ]),
  (λ e. sym (
      new r.ip (
        lookup-insert (host_of r) (host_of q) r.ip m
        ∙ rw ((text_eq_iff (host_of r) (host_of q)).1 (sym e))))),
)

Agrees-after :
    (r q : Record) (m : Dict Addr)
    → Agrees m q
    → (host_of q ≡ host_of r → q.ip ≡ r.ip)
    → Agrees (insert (host_of r) r.ip m) q
Agrees-after r q m old same ip f = elim (Bool-cases (text_eq (host_of r) (host_of q))) [
  | inl e ↦
      let here : some r.ip ≡ some ip =
        rw e at (sym (lookup-insert (host_of r) (host_of q) r.ip m) ∙ f) in
      let p : r.ip ≡ ip = cc in sym p ∙ sym (same (sym ((text_eq_iff (host_of r) (host_of q)).0 e)))
  | inr e ↦ old ip (rw e at (sym (lookup-insert (host_of r) (host_of q) r.ip m) ∙ f))
]

build_sound :
    (zone : Bytes) (rs : List Record) (m m' : Dict Addr)
    → build_records zone rs m ≡ next m'
    → IsAcceptable zone rs × AllAgree m rs
unfolding build_records AllAgree
build_sound zone [] m m' e = (record { inside = tt; agree = λ q r i. absurd i }, λ q i. absurd i)
build_sound zone (r ∷ rs) m m' e =
    elim (Next-cases (add_record zone (host_of r) r.ip (lookup (host_of r) m) m)) [
      | inl (m1, f) ↦
          let a = add_record-Added zone (host_of r) r.ip m m1 f in
          let e' : build_records zone rs (insert (host_of r) r.ip m) ≡ next m' =
            subst (λ n. build_records zone rs n ≡ next m') a.written (rw (f, build_records) at e) in
          let (ok, all) = build_sound zone rs (insert (host_of r) r.ip m) m' e' in
          joined a.inside a.agrees ok all
      | inr (x, f) ↦ absurd (ground arith)
    ]
  where
    joined :
        has_suffix (host_of r) zone ≡ true
        → Agrees m r
        → IsAcceptable zone rs
        → AllAgree (insert (host_of r) r.ip m) rs
        → IsAcceptable zone (r ∷ rs) × ((q : Record) → In q (r ∷ rs) → Agrees m q)
    joined inside agrees ok all = (
      record { inside = (inside, ok.inside); agree = pairs },
      (λ q i. elim i [
        | inl same ↦ subst (Agrees m) (sym same) agrees
        | inr j ↦ (Agrees-before r q m agrees (all q j)).0
      ]),
    )
      where
        pairs : (q s : Record) → In q (r ∷ rs) → In s (r ∷ rs) → host_of q ≡ host_of s → q.ip ≡ s.ip
        pairs q s (inl p) (inl t) h = ap (λ x. x.ip) (p ∙ sym t)
        pairs q s (inl p) (inr j) h =
            ap (λ x. x.ip) p ∙ sym ((Agrees-before r s m agrees (all s j)).1 (sym h ∙ ap host_of p))
        pairs q s (inr i) (inl t) h =
            (Agrees-before r q m agrees (all q i)).1 (h ∙ ap host_of t) ∙ ap (λ x. x.ip) (sym t)
        pairs q s (inr i) (inr j) h = ok.agree q s i j h

build_complete :
    (zone : Bytes) (rs : List Record) (m : Dict Addr)
    → IsAcceptable zone rs
    → AllAgree m rs
    → (m' : Dict Addr) × (build_records zone rs m ≡ next m')
unfolding build_records AllAgree
build_complete zone [] m ok all = (m, refl)
build_complete zone (r ∷ rs) m ok all =
    let f = Added-add_record zone (host_of r) r.ip m ok.inside.0 (all r (inl refl)) in
    let rest : IsAcceptable zone rs = record {
      inside = ok.inside.1;
      agree = λ q s i j. ok.agree q s (inr i) (inr j);
    } in
    let (m', e) =
      build_complete zone rs (insert (host_of r) r.ip m) rest
        (λ q i. Agrees-after r q m (all q (inr i)) (ok.agree q r (inr i) (inl refl))) in
    (m', rw (f, build_records) e)

set_sound :
    (rs : List Record) (t : Table)
    → (set_records rs t).1 ≡ none
    → (m : Dict Addr) × (build_records t.zone rs [] ≡ next m)
      × ((set_records rs t).0 ≡ record t { records = m })
unfolding set_records
set_sound rs t h = elim (Next-cases (build_records t.zone rs [])) [
  | inl (m, e) ↦ (m, e, ground arith)
  | inr (x, e) ↦ absurd (ground arith)
]

set_complete : (rs : List Record) (t : Table) → IsAcceptable t.zone rs → (set_records rs t).1 ≡ none
unfolding set_records lookup AllAgree
set_complete rs t ok =
    let (m, e) = build_complete t.zone rs [] ok (λ q i ip f. absurd (cc)) in rw (e, set_records)

-- `Set` accepts records exactly when the canonical forms of all hostnames end with the text of the
-- table's zone, be it aligned to their labels or not, and no two of one hostname have different
-- addresses; where it refuses them, the table stays as it was.
pub set_records_iff :
    (rs : List Record) (t : Table)
    → (((set_records rs t).1 ≡ none) ↔ IsAcceptable t.zone rs)
      × ((set_records rs t).1 ≢ none → (set_records rs t).0 ≡ t)
unfolding set_records
set_records_iff rs t = (
  ((λ h. let (m, e, _) = set_sound rs t h in (build_sound t.zone rs [] m e).0), set_complete rs t),
  (λ h. ground arith),
)

stored-cases :
    (rs : List Record) (h : Bytes) (o : Option Addr) (ip : Addr)
    → stored rs h o ≡ some ip
    → (o ≡ some ip) ⊎ ((r : Record) × In r rs × (host_of r ≡ h) × (r.ip ≡ ip))
unfolding stored
stored-cases [] h o ip e = inl e
stored-cases (r ∷ rs) h o ip e = elim (Bool-cases (text_eq (host_of r) h)) [
  | inl same ↦ elim (stored-cases rs h (some r.ip) ip (rw (same, stored) at e)) [
    | inl p ↦ inr (r, inl refl, (text_eq_iff (host_of r) h).0 same, cc)
    | inr (q, i, p, f) ↦ inr (q, inr i, p, f)
  ]
  | inr other ↦ elim (stored-cases rs h o ip (rw (other, stored) at e)) [
    | inl p ↦ inl p
    | inr (q, i, p, f) ↦ inr (q, inr i, p, f)
  ]
]

stored-some :
    (rs : List Record) (h : Bytes) (o : Option Addr) (r : Record)
    → (o ≢ none) ⊎ (In r rs × (host_of r ≡ h))
    → (ip : Addr) × (stored rs h o ≡ some ip)
unfolding stored
stored-some [] h o r (inl ne) = elim (Option-cases o) [
  | inl e ↦ absurd (ne e)
  | inr (ip, e) ↦ (ip, e)
]
stored-some [] h o r (inr (i, e)) = absurd i
stored-some (q ∷ rs) h o r c = elim (Bool-cases (text_eq (host_of q) h)) [
  | inl same ↦ rw same (stored-some rs h (some q.ip) r (inl (λ z. cc)))
  | inr other ↦ rw other (stored-some rs h o r (later other c))
]
  where
    later :
        text_eq (host_of q) h ≡ false
        → (o ≢ none) ⊎ (In r (q ∷ rs) × (host_of r ≡ h))
        → (o ≢ none) ⊎ (In r rs × (host_of r ≡ h))
    later other (inl ne) = inl ne
    later other (inr (inl p, e)) =
        absurd (cc (other, (text_eq_iff (host_of q) h).1 (ap host_of (sym p) ∙ e)))
    later other (inr (inr i, e)) = inr (i, e)

-- Where `Set` accepts the records, a name is answered by an address exactly when one of them has
-- the name, up to its canonical form, and that address.
pub lookup_name-set_records :
    (rs : List Record) (t : Table) (name : Bytes) (ip : Addr)
    → (set_records rs t).1 ≡ none
    → (lookup_name (set_records rs t).0 name ≡ some ip)
      ↔ ((r : Record) × In r rs × (canonical_fqdn r.hostname ≡ canonical_fqdn name) × (r.ip ≡ ip))
unfolding lookup_name lookup
lookup_name-set_records rs t name ip h =
    let (m, e, same) = set_sound rs t h in
    let ok = (build_sound t.zone rs [] m e).0 in
    let h' = canonical_fqdn name in
    let found : lookup_name (set_records rs t).0 name ≡ stored rs h' none =
      ap (λ u. lookup_name u name) same ∙ lookup-build_records t.zone rs [] m h' e in
    (
      (λ p. from_stored h' (stored-cases rs h' none ip (sym found ∙ p))),
      (λ (r, i, p, q).
          let (ip', f) = stored-some rs h' none r (inr (i, p)) in
          let (q', j, p', q'') = from_stored h' (stored-cases rs h' none ip' f) in
          let one : ip' ≡ ip = sym q'' ∙ ok.agree q' r j i (p' ∙ sym p) ∙ q in
          found ∙ f ∙ ap some one),
    )
  where
    from_stored :
        {x : Addr} (k : Bytes)
        → (none ≡ some x) ⊎ ((r : Record) × In r rs × (host_of r ≡ k) × (r.ip ≡ x))
        → (r : Record) × In r rs × (host_of r ≡ k) × (r.ip ≡ x)
    from_stored k (inl z) = absurd (cc)
    from_stored k (inr w) = w
