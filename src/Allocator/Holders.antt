-- ===== src/Allocator/Holders.antt =====
-- Who holds an address: what every sequence of operations keeps, and where two workspaces meet.
use dnsvard.Base.{
  ℕ, ◌≤◌, Bool, true, false, none, some, [], ◌∷◌, ◌≡◌, ◌≢◌, ◌⊎◌, inl, inr, sym, ap, ◌∙◌, subst,
  arith, ltb, if◌then◌else◌, Bool-cases, Option-cases, Bytes, text_eq_iff, Dict, lookup, insert,
  lookup-insert, lookup-In,
}
use dnsvard.Netip.Dotted.{addr_text}
use dnsvard.Allocator.{
  Assignment, Allocator, done, host_capacity, search_from, save, fresh_assignment, allocate_fresh,
  known_ip, allocate, release,
}
use dnsvard.Allocator.Range.{IsPrefix}
use dnsvard.Allocator.Rounds.{InPool, Free, found-InPool}
use dnsvard.Allocator.Allocate.{leaves_free→Lets, available-In}

-- Two workspaces whose addresses are not released have different addresses.
abbrev pub LiveDistinct : Dict Assignment → Type 0
LiveDistinct m =
    (j k : Bytes) (x y : Assignment)
    → lookup j m ≡ some x
    → lookup k m ≡ some y
    → x.released_at ≡ none
    → y.released_at ≡ none
    → x.ip ≡ y.ip
    → j ≡ k

-- Every stored text is that of an address of the pool.
abbrev pub FromPool : Allocator → Dict Assignment → Type 0
FromPool a m =
    (k : Bytes) (x : Assignment)
    → lookup k m ≡ some x
    → (ip : ℕ) × InPool a ip × (x.ip ≡ addr_text ip)

pub record IsSound (a : Allocator) : Type 0 where
  pub proper : IsPrefix a.network a.bits
  pub live : LiveDistinct a.assignments
  pub pool : FromPool a a.assignments

-- Reading a map behind a write: the new value, or an old one under another key.
lookup-insert-cases :
    (k j : Bytes) (v w : Assignment) (m : Dict Assignment)
    → lookup j (insert k v m) ≡ some w
    → ((k ≡ j) × (v ≡ w)) ⊎ (lookup j m ≡ some w)
lookup-insert-cases k j v w m h = ground (arith, lookup-insert k j v m, text_eq_iff k j)

insert-LiveDistinct :
    (id : Bytes) (v : Assignment) (m : Dict Assignment)
    → LiveDistinct m
    → (v.released_at ≡ none
        → (k : Bytes) (y : Assignment) → lookup k m ≡ some y
        → y.ip ≡ v.ip
        → y.released_at ≢ none)
    → LiveDistinct (insert id v m)
insert-LiveDistinct id v m live apart j k x y hx hy lx ly e =
    meet (lookup-insert-cases id j v x m hx) (lookup-insert-cases id k v y m hy)
  where
    meet :
        ((id ≡ j) × (v ≡ x)) ⊎ (lookup j m ≡ some x)
        → ((id ≡ k) × (v ≡ y)) ⊎ (lookup k m ≡ some y)
        → j ≡ k
    meet (inl (p, q)) (inl (r, s)) = sym p ∙ r
    meet (inl (p, q)) (inr old) =
        absurd (apart (ap (λ z. z.released_at) q ∙ lx) k y old (sym e ∙ ap (λ z. z.ip) (sym q)) ly)
    meet (inr old) (inl (r, s)) =
        absurd (apart (ap (λ z. z.released_at) s ∙ ly) j x old (e ∙ ap (λ z. z.ip) (sym s)) lx)
    meet (inr old) (inr old') = live j k x y old old' lx ly e

-- The state behind a fresh allocation, whether or not the file could be written.
pub fresh_states :
    (hash : Bytes → ℕ) (written : Bool) (now : ℕ) (id : Bytes) (a : Allocator)
    → ((allocate_fresh hash written now id a).state ≡ a)
      ⊎ ((ip : ℕ) × (4 ≤ host_capacity a.bits)
          × (search_from a now (hash id) (host_capacity a.bits) (host_capacity a.bits) 0 ≡ some ip)
          × (let m = insert id (fresh_assignment id ip now) a.assignments in
              ((allocate_fresh hash written now id a).state
                ≡ record a { assignments = m; disk = if written then m else a.disk })))
unfolding allocate_fresh save
fresh_states hash written now id a =
    elim (Option-cases
      (search_from a now (hash id) (host_capacity a.bits) (host_capacity a.bits) 0)) [
        | inl e ↦ inl (ground arith)
        | inr (ip, e) ↦ elim (Bool-cases (ltb (host_capacity a.bits) 4)) [
          | inl small ↦ inl (ground arith)
          | inr big ↦ inr (ip, ground arith, e, saved ip e big written)
        ]
      ]
  where
    saved :
        (ip : ℕ)
        → search_from a now (hash id) (host_capacity a.bits) (host_capacity a.bits) 0 ≡ some ip
        → ltb (host_capacity a.bits) 4 ≡ false
        → (w : Bool)
        → (let m = insert id (fresh_assignment id ip now) a.assignments in
            ((allocate_fresh hash w now id a).state
              ≡ record a { assignments = m; disk = if w then m else a.disk }))
    saved ip e big true = ground arith
    saved ip e big false = ground arith

fresh-LiveDistinct :
    (id : Bytes) (ip now : ℕ) (a : Allocator)
    → LiveDistinct a.assignments
    → Free a now ip
    → LiveDistinct (insert id (fresh_assignment id ip now) a.assignments)
unfolding fresh_assignment
fresh-LiveDistinct id ip now a live free =
    insert-LiveDistinct id (fresh_assignment id ip now) a.assignments live λ _ k y found same held.
      let let_go =
        leaves_free→Lets now a.cooldown (addr_text ip) y
          (available-In now a.cooldown (addr_text ip) a.assignments k y free
            (lookup-In k y a.assignments found))
          same in
      cc (let_go.1, held)

fresh-FromPool :
    (id : Bytes) (ip now : ℕ) (a : Allocator)
    → FromPool a a.assignments
    → InPool a ip
    → FromPool a (insert id (fresh_assignment id ip now) a.assignments)
unfolding fresh_assignment
fresh-FromPool id ip now a pool new k x h =
    elim (lookup-insert-cases id k (fresh_assignment id ip now) x a.assignments h) [
      | inl (p, q) ↦ (ip, new, ap (λ z. z.ip) (sym q))
      | inr old ↦ pool k x old
    ]

-- Another map over the same prefix.
with_maps :
    (a : Allocator) (m d : Dict Assignment)
    → IsSound a
    → LiveDistinct m
    → FromPool a m
    → IsSound (record a { assignments = m; disk = d })
with_maps a m d ok live pool = record {
  proper = ok.proper;
  live = live;
  pool = λ k x h.
      let (ip, new, text) = pool k x h in
      (ip, record { host = new.host; low = new.low; high = new.high; place = new.place }, text);
}

allocate_fresh-IsSound :
    (hash : Bytes → ℕ) (written : Bool) (now : ℕ) (id : Bytes) (a : Allocator)
    → IsSound a
    → IsSound (allocate_fresh hash written now id a).state
allocate_fresh-IsSound hash written now id a ok = elim (fresh_states hash written now id a) [
  | inl same ↦ subst IsSound (sym same) ok
  | inr (ip, big, found, same) ↦
      let (new, free) = found-InPool a now (hash id) ip ok.proper big found in
      let m = insert id (fresh_assignment id ip now) a.assignments in
      subst IsSound (sym same) (
        with_maps a m (if written then m else a.disk) ok
          (fresh-LiveDistinct id ip now a ok.live free) (fresh-FromPool id ip now a ok.pool new))
]

pub allocate-IsSound :
    (hash : Bytes → ℕ) (written : Bool) (now : ℕ) (id : Bytes) (a : Allocator)
    → IsSound a
    → IsSound (allocate hash written now id a).state
unfolding allocate
allocate-IsSound hash written now [] a ok = ok
allocate-IsSound hash written now (c ∷ s) a ok = elim (Option-cases (known_ip (c ∷ s) a)) [
  | inl e ↦ rw (e, allocate) (allocate_fresh-IsSound hash written now (c ∷ s) a ok)
  | inr (ip, e) ↦ rw (e, allocate) ok
]

abbrev let_go : Assignment → ℕ → Assignment
let_go asg now = record asg { released_at = some now }

release-LiveDistinct :
    (id : Bytes) (now : ℕ) (asg : Assignment) (m : Dict Assignment)
    → LiveDistinct m
    → LiveDistinct (insert id (let_go asg now) m)
release-LiveDistinct id now asg m live =
    insert-LiveDistinct id (let_go asg now) m live λ never. absurd (cc)

release-FromPool :
    (id : Bytes) (now : ℕ) (asg : Assignment) (a : Allocator)
    → lookup id a.assignments ≡ some asg
    → FromPool a a.assignments
    → FromPool a (insert id (let_go asg now) a.assignments)
release-FromPool id now asg a there pool k x h =
    elim (lookup-insert-cases id k (let_go asg now) x a.assignments h) [
      | inl (p, q) ↦
          let (ip, new, text) = pool id asg there in (ip, new, ap (λ z. z.ip) (sym q) ∙ text)
      | inr old ↦ pool k x old
    ]

pub release-IsSound :
    (written : Bool) (now : ℕ) (id : Bytes) (a : Allocator)
    → IsSound a
    → IsSound (release written now id a).state
unfolding release save
release-IsSound written now id a ok = elim (Option-cases (lookup id a.assignments)) [
  | inl e ↦ rw (e, release) ok
  | inr (asg, e) ↦
      let m = insert id (let_go asg now) a.assignments in
      rw (e, release)
        (both asg (release-LiveDistinct id now asg a.assignments ok.live)
          (release-FromPool id now asg a e ok.pool) written)
]
  where
    both :
        (asg : Assignment)
        → LiveDistinct (insert id (let_go asg now) a.assignments)
        → FromPool a (insert id (let_go asg now) a.assignments)
        → (w : Bool)
        → IsSound
            (save w
              (record a { assignments = insert id (let_go asg now) a.assignments })
              done).state
    both asg live pool true = with_maps a _ (insert id (let_go asg now) a.assignments) ok live pool
    both asg live pool false = with_maps a _ a.disk ok live pool
