-- ===== src/Allocator/Rounds.antt =====
-- What the loop of `Allocate` finds, and when it finds nothing.
use dnsvard.Base.{
  ℕ, zero, suc, ◌+◌, ◌≤◌, ◌<◌, Bool, true, none, some, ◌≡◌, ◌⊎◌, inl, inr, sym, ◌∙◌, subst, arith,
  if◌then◌else◌, Option-cases,
}
use dnsvard.Netip.Dotted.{addr_text}
use dnsvard.Allocator.{Allocator, host_capacity, probe_host, is_ip_available, probe, search_from}
use dnsvard.Allocator.Range.{
  IsPrefix, host_to_addr_inside, capacity-le, probe_host_bounds, probe_host_reaches,
}

-- The address is one that may be handed out: a host of the prefix, but not one of its first two.
pub record InPool (a : Allocator) (ip : ℕ) : Type 0 where
  pub host : ℕ
  pub low : 2 ≤ host
  pub high : host < host_capacity a.bits
  pub place : ip ≡ a.network + host

abbrev pub Free : Allocator → ℕ → ℕ → Type 0
Free a now ip = is_ip_available now a.cooldown (addr_text ip) a.assignments ≡ true

search_from_sound :
    (a : Allocator) (now base m left i ip : ℕ)
    → search_from a now base m left i ≡ some ip
    → (j : ℕ) × (probe a now base m j ≡ some ip)
unfolding search_from
search_from_sound a now base m zero i ip h = absurd (ground arith)
search_from_sound a now base m (suc left) i ip h = elim (Option-cases (probe a now base m i)) [
  | inl e ↦ search_from_sound a now base m left (i + 1) ip (rw (e, search_from) at h)
  | inr (x, e) ↦ (i, e ∙ (rw (e, search_from) at h))
]

search_from_complete :
    (a : Allocator) (now base m left i j : ℕ)
    → search_from a now base m left i ≡ none
    → i ≤ j
    → j < i + left
    → probe a now base m j ≡ none
unfolding search_from
search_from_complete a now base m zero i j h lo hi = absurd (omega arith)
search_from_complete a now base m (suc left) i j h lo hi =
    elim (Option-cases (probe a now base m i)) [
      | inl e ↦ elim (first_or_later) [
        | inl here ↦ subst (λ k. probe a now base m k ≡ none) here e
        | inr later ↦
            search_from_complete a now base m left (i + 1) j (rw (e, search_from) at h) later
              (omega arith)
      ]
      | inr (x, e) ↦ absurd (ground arith)
    ]
  where
    first_or_later : (i ≡ j) ⊎ (i + 1 ≤ j)
    first_or_later = ground arith

-- In a prefix that is large enough a round looks at its own host of the pool.
probe_lem :
    (a : Allocator) (now base i : ℕ)
    → IsPrefix a.network a.bits
    → 4 ≤ host_capacity a.bits
    → probe a now base (host_capacity a.bits) i ≡ (
        let ip = a.network + probe_host base (host_capacity a.bits) i in
        if is_ip_available now a.cooldown (addr_text ip) a.assignments then some ip else none)
unfolding probe
probe_lem a now base i p big =
    let bounds = probe_host_bounds base a.bits i big in
    let inside =
      host_to_addr_inside a.network a.bits (probe_host base (host_capacity a.bits) i) p
        (omega (arith, bounds.1, capacity-le a.bits)) in
    rw (inside.0, probe)

chosen :
    (free : Bool) (x ip : ℕ) → (if free then some x else none) ≡ some ip → (x ≡ ip) × (free ≡ true)
chosen free x ip h = ground arith

chosen_free : (free : Bool) (x : ℕ) → free ≡ true → (if free then some x else none) ≡ some x
chosen_free free x h = rw h

pub found-InPool :
    (a : Allocator) (now base ip : ℕ)
    → IsPrefix a.network a.bits
    → 4 ≤ host_capacity a.bits
    → search_from a now base (host_capacity a.bits) (host_capacity a.bits) 0 ≡ some ip
    → InPool a ip × Free a now ip
found-InPool a now base ip p big h =
    let m = host_capacity a.bits in
    let (j, e) = search_from_sound a now base m m 0 ip h in
    let bounds = probe_host_bounds base a.bits j big in
    let x = a.network + probe_host base m j in
    let (same, free) =
      chosen (is_ip_available now a.cooldown (addr_text x) a.assignments) x ip
        (sym (probe_lem a now base j p big) ∙ e) in
    (
      record { host = probe_host base m j; low = bounds.0; high = bounds.1; place = sym same },
      subst (Free a now) same free,
    )

pub nothing-Free :
    (a : Allocator) (now base ip : ℕ)
    → IsPrefix a.network a.bits
    → 4 ≤ host_capacity a.bits
    → search_from a now base (host_capacity a.bits) (host_capacity a.bits) 0 ≡ none
    → InPool a ip
    → ¬ Free a now ip
nothing-Free a now base ip p big h pool free =
    let m = host_capacity a.bits in
    let (i, lt, e) = probe_host_reaches base a.bits pool.host p.short big pool.low pool.high in
    let looked = search_from_complete a now base m m 0 i h (omega arith) (omega arith) in
    let here : a.network + probe_host base m i ≡ ip = omega (arith, e, pool.place) in
    let free_here = subst (Free a now) (sym here) free in
    let found =
      probe_lem a now base i p big ∙ chosen_free _ (a.network + probe_host base m i) free_here in
    cc (found, looked)
