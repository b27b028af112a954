-- ===== src/Allocator/Pool.antt =====
-- What `Allocate` keeps, and where the address that it returns lies.
use dnsvard.Base.{
  ℕ, ◌<◌, ◌^◌, Bool, some, [], ◌∷◌, ◌≡◌, inl, inr, refl, sym, ap, ◌∙◌, subst, arith, Option-cases,
  Bytes, lookup, some-inj,
}
use dnsvard.Netip.Dotted.{parse_addr, parse_addr-addr_text}
use dnsvard.Allocator.{Allocator, assigned, known_ip, allocate}
use dnsvard.Allocator.Range.{IsPrefix, host_to_addr_inside, capacity-le}
use dnsvard.Allocator.Rounds.{InPool}
use dnsvard.Allocator.Allocate.{allocate-IsFresh}
use dnsvard.Allocator.Holders.{IsSound, fresh_states}

InPool-lt : (a : Allocator) (ip : ℕ) → IsPrefix a.network a.bits → InPool a ip → ip < 2 ^ 32
InPool-lt a ip p i =
    let inside =
      host_to_addr_inside a.network a.bits i.host p (omega (arith, i.high, capacity-le a.bits)) in
    omega (arith, inside.1, i.place)

-- The address that a workspace has already is one of the pool.
known-InPool :
    (id : Bytes) (a : Allocator) (ip : ℕ) → IsSound a → known_ip id a ≡ some ip → InPool a ip
unfolding known_ip
known-InPool id a ip ok h = elim (Option-cases (lookup id a.assignments)) [
  | inl e ↦ absurd (cc (rw (e, known_ip) at h))
  | inr (asg, e) ↦
      let h' : parse_addr asg.ip ≡ some ip = rw (e, known_ip) at h in
      let (x, i, text) = ok.pool id asg e in
      let same : x ≡ ip = some-inj (
        sym (parse_addr-addr_text x (InPool-lt a x ok.proper i)) ∙ ap parse_addr (sym text) ∙ h') in
      subst (InPool a) same i
]

-- An address that is returned is one of the pool.
pub allocate-InPool :
    (hash : Bytes → ℕ) (written : Bool) (now : ℕ) (id : Bytes) (a : Allocator) (ip : ℕ)
    → IsSound a
    → (allocate hash written now id a).outcome ≡ assigned ip
    → InPool a ip
unfolding allocate
allocate-InPool hash written now [] a ip ok h = absurd (cc h)
allocate-InPool hash written now (c ∷ s) a ip ok h = elim (Option-cases (known_ip (c ∷ s) a)) [
  | inl e ↦ (allocate-IsFresh hash written now (c ∷ s) a ip ok.proper (λ z. cc) e h).pool
  | inr (x, e) ↦
      let same : x ≡ ip = cc (rw (e, allocate) at h) in
      subst (InPool a) same (known-InPool (c ∷ s) a x ok e)
]

pub allocate-prefix :
    (hash : Bytes → ℕ) (written : Bool) (now : ℕ) (id : Bytes) (a : Allocator)
    → ((allocate hash written now id a).state.network ≡ a.network)
      × ((allocate hash written now id a).state.bits ≡ a.bits)
unfolding allocate
allocate-prefix hash written now [] a = (refl, refl)
allocate-prefix hash written now (c ∷ s) a = elim (Option-cases (known_ip (c ∷ s) a)) [
  | inr (ip, e) ↦ rw (e, allocate) (refl, refl)
  | inl e ↦
      rw (e, allocate)
        (elim (fresh_states hash written now (c ∷ s) a) [
          | inl same ↦ (ap (λ b. b.network) same, ap (λ b. b.bits) same)
          | inr (ip, _, _, same) ↦ (ap (λ b. b.network) same, ap (λ b. b.bits) same)
        ])
]
