-- ===== src/Allocator/Allocate.antt =====
-- `Allocate` and `Release`, and what every sequence of them keeps.
use dnsvard.Base.{
  ℕ, ◌+◌, ◌≤◌, Bool, true, false, none, some, [], ◌∷◌, ◌≡◌, ◌≢◌, ◌⊎◌, inl, inr, refl, sym, ap, ◌∙◌,
  arith, Option-cases, Bytes, text_eq_iff, Dict, lookup, insert, In, lookup-In,
}
use dnsvard.Netip.Dotted.{addr_text}
use dnsvard.Allocator.{
  Assignment, Allocator, assigned, failed, none_free, host_capacity, is_ip_available, leaves_free,
  search_from, save, fresh_assignment, allocate_fresh, known_ip, allocate,
}
use dnsvard.Allocator.Range.{IsPrefix}
use dnsvard.Allocator.Rounds.{InPool, Free, found-InPool, nothing-Free}

-- An address that may be taken is held by no workspace, and was released long enough ago.
pub available-In :
    (now cooldown : ℕ) (ip : Bytes) (m : Dict Assignment) (id : Bytes) (asg : Assignment)
    → is_ip_available now cooldown ip m ≡ true
    → In (id, asg) m
    → leaves_free now cooldown ip asg ≡ true
unfolding is_ip_available
available-In now cooldown ip [] id asg h i = absurd i
available-In now cooldown ip ((k, x) ∷ m) id asg h (inl e) =
    let same : asg ≡ x = ap (λ (p : Bytes × Assignment). p.1) e in ground arith
available-In now cooldown ip ((k, x) ∷ m) id asg h (inr i) =
    available-In now cooldown ip m id asg (ground arith) i

-- What `leaves_free` says.
abbrev pub Lets : ℕ → ℕ → Bytes → Assignment → Type 0
Lets now cooldown ip asg = asg.ip ≡ ip → (r : ℕ) × (asg.released_at ≡ some r) × (r + cooldown ≤ now)

pub leaves_free→Lets :
    (now cooldown : ℕ) (ip : Bytes) (asg : Assignment)
    → leaves_free now cooldown ip asg ≡ true
    → Lets now cooldown ip asg
unfolding leaves_free
leaves_free→Lets now cooldown ip asg h e = elim (Option-cases asg.released_at) [
  | inl n ↦ absurd (ground (arith, text_eq_iff asg.ip ip))
  | inr (r, p) ↦ (r, p, ground (arith, text_eq_iff asg.ip ip))
]

-- What an address that is handed out anew to `id` is, and the state behind it.
pub record IsFresh (a : Allocator) (now : ℕ) (id : Bytes) (ip : ℕ) (b : Allocator) : Type 0 where
  pub pool : InPool a ip
  pub others :
      (k : Bytes) (asg : Assignment)
      → lookup k a.assignments ≡ some asg
      → Lets now a.cooldown (addr_text ip) asg
  pub stored : b.assignments ≡ insert id (fresh_assignment id ip now) a.assignments

abbrev fresh_state : Bytes → ℕ → ℕ → Allocator → Allocator
fresh_state id ip now a = record a {
  assignments = insert id (fresh_assignment id ip now) a.assignments;
}

-- A successful fresh allocation found the address by its loop.
searched :
    (hash : Bytes → ℕ) (written : Bool) (now : ℕ) (id : Bytes) (a : Allocator) (ip : ℕ)
    → (allocate_fresh hash written now id a).outcome ≡ assigned ip
    → (4 ≤ host_capacity a.bits)
      × (search_from a now (hash id) (host_capacity a.bits) (host_capacity a.bits) 0 ≡ some ip)
      × ((allocate_fresh hash written now id a).state.assignments
          ≡ insert id (fresh_assignment id ip now) a.assignments)
unfolding allocate_fresh save
searched hash true now id a ip h = ground arith
searched hash false now id a ip h = absurd (ground arith)

pub allocate-fresh :
    (hash : Bytes → ℕ) (written : Bool) (now : ℕ) (id : Bytes) (a : Allocator)
    → id ≢ []
    → known_ip id a ≡ none
    → allocate hash written now id a ≡ allocate_fresh hash written now id a
unfolding allocate
allocate-fresh hash written now [] a ne h = absurd (ne refl)
allocate-fresh hash written now (c ∷ s) a ne h = rw (h, allocate)

pub allocate-known :
    (hash : Bytes → ℕ) (written : Bool) (now : ℕ) (id : Bytes) (a : Allocator) (ip : ℕ)
    → id ≢ []
    → known_ip id a ≡ some ip
    → allocate hash written now id a ≡ record { state = a; outcome = assigned ip }
unfolding allocate
allocate-known hash written now [] a ip ne h = absurd (ne refl)
allocate-known hash written now (c ∷ s) a ip ne h = rw (h, allocate)

-- A workspace without an address gets one of the pool that no other workspace holds: whoever had
-- it before released it, and the cooldown has passed since. The address is stored as the
-- workspace's own, not released.
pub allocate-IsFresh :
    (hash : Bytes → ℕ) (written : Bool) (now : ℕ) (id : Bytes) (a : Allocator) (ip : ℕ)
    → IsPrefix a.network a.bits
    → id ≢ []
    → known_ip id a ≡ none
    → (allocate hash written now id a).outcome ≡ assigned ip
    → IsFresh a now id ip (allocate hash written now id a).state
allocate-IsFresh hash written now id a ip p ne none_known h =
    let same = allocate-fresh hash written now id a ne none_known in
    let (big, found, stored) =
      searched hash written now id a ip (ap (λ r. r.outcome) (sym same) ∙ h) in
    let (pool, free) = found-InPool a now (hash id) ip p big found in
    record {
      pool = pool;
      others = λ k asg e. leaves_free→Lets now a.cooldown (addr_text ip) asg (
          available-In now a.cooldown (addr_text ip) a.assignments k asg free
            (lookup-In k asg a.assignments e));
      stored = ap (λ r. r.state.assignments) same ∙ stored;
    }

fresh_outcome :
    (hash : Bytes → ℕ) (now : ℕ) (id : Bytes) (a : Allocator)
    → 4 ≤ host_capacity a.bits
    → ((ip : ℕ) × (search_from a now (hash id) (host_capacity a.bits) (host_capacity a.bits) 0
          ≡ some ip)
        × ((allocate_fresh hash true now id a).outcome ≡ assigned ip))
      ⊎ ((search_from a now (hash id) (host_capacity a.bits) (host_capacity a.bits) 0 ≡ none)
          × ((allocate_fresh hash true now id a).outcome ≡ failed none_free))
unfolding allocate_fresh save
fresh_outcome hash now id a big =
    elim (Option-cases
      (search_from a now (hash id) (host_capacity a.bits) (host_capacity a.bits) 0)) [
        | inl e ↦ inr (e, ground arith)
        | inr (ip, e) ↦ inl (ip, e, ground arith)
      ]

-- In a prefix with four addresses or more the loop misses nothing: where the file can be written,
-- a workspace without an address gets one as soon as one address of the pool is free.
pub allocate_finds :
    (hash : Bytes → ℕ) (now : ℕ) (id : Bytes) (a : Allocator) (ip : ℕ)
    → IsPrefix a.network a.bits
    → 4 ≤ host_capacity a.bits
    → id ≢ []
    → known_ip id a ≡ none
    → InPool a ip
    → Free a now ip
    → (x : ℕ) × ((allocate hash true now id a).outcome ≡ assigned x)
allocate_finds hash now id a ip p big ne none_known pool free =
    elim (fresh_outcome hash now id a big) [
      | inl (x, found, out) ↦
          (x, ap (λ r. r.outcome) (allocate-fresh hash true now id a ne none_known) ∙ out)
      | inr (nothing, out) ↦ absurd (nothing-Free a now (hash id) ip p big nothing pool free)
    ]
