-- ===== src/Allocator/Range.antt =====
-- The addresses that the rounds of `Allocate` look at.
use native.Mathlib.Nat.{
  pow-suc, mod-mod_of_dvd, dvd-mul_right, mul-add-mod_self_right, mod-eq_of_lt, mod-lt, zero-add,
  suc-add, mul-le-mul_right, div-mul-le_self, div-add-mod', mul-div_cancel, pow-le-pow_right,
}
use native.Mathlib.Decide.{dec_lt}
use Prim.Native.Nat.{◌∣◌}
use dnsvard.Base.{
  ℕ, zero, suc, ◌+◌, ◌-◌, ◌*◌, ◌/◌, ◌%◌, ◌^◌, ◌≤◌, ◌<◌, true, some, ◌≡◌, ◌⊎◌, inl, inr, refl, sym,
  ap, ◌∙◌, subst, arith, leb, ◌==◌, if◌then◌else◌, ==_iff,
}
use dnsvard.Allocator.{host_capacity, prefix_contains, host_to_addr, probe_host, masked}

pow_split : (k n : ℕ) → 2 ^ (k + n) ≡ 2 ^ k * 2 ^ n
pow_split zero n = rw zero-add (omega arith)
pow_split (suc k) n = rw (suc-add k n, pow-suc, pow-suc, pow_split k n) (omega arith)

-- A prefix that `New` accepts, after masking: the host bits are clear.
pub record IsPrefix (network bits : ℕ) : Type 0 where
  pub short : bits ≤ 32
  pub fits : network < 2 ^ 32
  pub block : ℕ
  pub aligned : network ≡ block * 2 ^ (32 - bits)

div_block : (q s h : ℕ) → h < s → (q * s + h) / s ≡ q
div_block q s h lt = grind arith

div-mul_block : (q s : ℕ) → 0 < s → q * s / s ≡ q
div-mul_block q s h = mul-div_cancel q h

block_lt : (q s t : ℕ) → q * s < s * t → q < t
block_lt q s t lt = elim (dec_lt q t) [
  | yes p ↦ p
  | no n ↦ absurd (omega (arith, mul-le-mul_right s (le_of_not n)))
]
  where
    le_of_not : ¬ (q < t) → t ≤ q
    le_of_not n = omega arith

block_end : (q s t h : ℕ) → q * s < s * t → h < s → q * s + h < s * t
block_end q s t h lt k = omega (arith, mul-le-mul_right s (block_lt q s t lt))

size_split : (bits : ℕ) → bits ≤ 32 → 2 ^ 32 ≡ 2 ^ (32 - bits) * 2 ^ bits
size_split bits h = ap (λ n. 2 ^ n) sum ∙ pow_split (32 - bits) bits
  where
    sum : 32 ≡ 32 - bits + bits
    sum = omega arith

-- A host number inside the prefix gives an address of the prefix: nothing wraps around.
pub host_to_addr_inside :
    (network bits host : ℕ)
    → IsPrefix network bits
    → host < 2 ^ (32 - bits)
    → (host_to_addr network bits host ≡ some (network + host))
      × (network + host < 2 ^ 32)
      × (prefix_contains network bits (network + host) ≡ true)
unfolding host_to_addr prefix_contains
host_to_addr_inside network bits host p lt =
    let s = 2 ^ (32 - bits) in
    let whole = size_split bits p.short in
    let room : p.block * s < s * 2 ^ bits = omega (arith, whole, p.fits, p.aligned) in
    let inside : network + host < 2 ^ 32 =
      omega (arith, whole, block_end p.block s (2 ^ bits) host room lt, p.aligned) in
    let there : (network + host) / s ≡ p.block =
      ap (λ n. (n + host) / s) p.aligned ∙ div_block p.block s host lt in
    let base : network / s ≡ p.block =
      ap (λ n. n / s) p.aligned ∙ div-mul_block p.block s (omega arith) in
    let same : (((network + host) / s) == (network / s)) ≡ true =
      (==_iff _ _).1 (there ∙ sym base) in
    (rw (mod-eq_of_lt inside, same), inside, same)

-- The masked prefix that `New` stores.
pub masked-IsPrefix : (addr bits : ℕ) → bits ≤ 32 → addr < 2 ^ 32 → IsPrefix (masked addr bits) bits
unfolding masked
masked-IsPrefix addr bits h k = record {
  short = h;
  fits = omega (arith, div-mul-le_self addr (2 ^ (32 - bits)));
  block = addr / 2 ^ (32 - bits);
  aligned = refl;
}

pub capacity-le : (bits : ℕ) → host_capacity bits ≤ 2 ^ (32 - bits)
unfolding host_capacity
capacity-le bits = bounded (32 - bits)
  where
    bounded : (s : ℕ) → (if s == 0 then 0 else if leb 31 s then 2 ^ 30 else 2 ^ s) ≤ 2 ^ s
    bounded s =
        let fact : 30 ≤ s → 2 ^ 30 ≤ 2 ^ s = λ h. pow-le-pow_right (omega arith) h in ground arith

capacity-cases :
    (bits : ℕ)
    → 4 ≤ host_capacity bits
    → (host_capacity bits ≡ 2 ^ 30) ⊎ (host_capacity bits ≡ 2 ^ (32 - bits))
unfolding host_capacity
capacity-cases bits h = ground arith

-- So that wrapping at 2³² does not disturb the remainder.
capacity_dvd : (bits : ℕ) → bits ≤ 32 → 4 ≤ host_capacity bits → host_capacity bits ∣ 2 ^ 32
capacity_dvd bits short h = elim (capacity-cases bits h) [
  | inl e ↦ subst (λ n. n ∣ 2 ^ 32) (sym e) (dvd-mul_right (2 ^ 30) 4)
  | inr e ↦
      subst (λ n. n ∣ 2 ^ 32) (sym e)
        (subst (λ n. 2 ^ (32 - bits) ∣ n) (sym (size_split bits short))
          (dvd-mul_right (2 ^ (32 - bits)) (2 ^ bits)))
]

-- Every host number that is looked at lies in the prefix, past its first two addresses.
pub probe_host_bounds :
    (base bits i : ℕ)
    → 4 ≤ host_capacity bits
    → (2 ≤ probe_host base (host_capacity bits) i)
      × (probe_host base (host_capacity bits) i < host_capacity bits)
unfolding probe_host
probe_host_bounds base bits i h =
    ground (arith, mod-lt ((base + i) % 2 ^ 32) {m = host_capacity bits})

-- A number that fits behind a multiple of `m` has that remainder.
mod_of_block : (q m h n : ℕ) → h < m → n ≡ q * m + h → n % m ≡ h
mod_of_block q m h n lt e = ap (λ k. k % m) e ∙ mul-add-mod_self_right q m h ∙ mod-eq_of_lt lt

-- The round in which the remainder `h` comes up.
reaching_round : (base m h : ℕ) → 0 < m → h < m → (i : ℕ) × (i < m) × ((base + i) % m ≡ h)
reaching_round base m h pos lt =
    let r = base % m in
    let r_lt : r < m = mod-lt base pos in
    let whole : base / m * m + r ≡ base = div-add-mod' base m in
    elim (dec_lt h r) [
      | yes behind ↦ (
        h + m - r,
        omega arith,
        mod_of_block (base / m + 1) m h (base + (h + m - r)) lt (omega arith),
      )
      | no ahead ↦
          (h - r, omega arith, mod_of_block (base / m) m h (base + (h - r)) lt (omega arith))
    ]

probe_host_at : (base m i h : ℕ) → m ∣ 2 ^ 32 → 2 ≤ h → (base + i) % m ≡ h → probe_host base m i ≡ h
unfolding probe_host
probe_host_at base m i h dvd low e =
    let same : (base + i) % 2 ^ 32 % m ≡ h = mod-mod_of_dvd m (base + i) dvd ∙ e in
    rw same (ground arith)

-- The rounds reach every host number but the first two.
pub probe_host_reaches :
    (base bits h : ℕ)
    → bits ≤ 32
    → 4 ≤ host_capacity bits
    → 2 ≤ h
    → h < host_capacity bits
    → (i : ℕ) × (i < host_capacity bits) × (probe_host base (host_capacity bits) i ≡ h)
probe_host_reaches base bits h short big low high =
    let m = host_capacity bits in
    let (i, lt, e) = reaching_round base m h (omega arith) high in
    (i, lt, probe_host_at base m i h (capacity_dvd bits short big) low e)
