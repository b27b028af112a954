-- ===== src/Base/Numbers.antt =====
-- Signed integers, Go's `strconv` on decimal texts, and sets of numbers.
use Prim.Native.Nat.{ℕ, zero, suc, ◌+◌, ◌-◌, ◌*◌, ◌/◌, ◌%◌, ◌^◌, ◌<◌}
use mathlib.Core.Path.{◌≡◌}
use mathlib.Core.Logic.{◌≢◌, ◌↔◌, ◌⊎◌, inl, inr}
use mathlib.Core.Bool.{Bool, true, false, ◌&&◌}
use mathlib.Core.Option.{Option, none, some}
use mathlib.Core.List.{List, [], ◌∷◌}
use native.Mathlib.Omega.{arith}
use dnsvard.Base.Tests.{◌==◌, ltb, leb, if◌then◌else◌, Bool-cases}
use dnsvard.Base.Lists.{All, In}
use dnsvard.Base.Text.{Bytes}

-- `pos n` is n, and `negsuc n` is -(n + 1).
pub data ℤ : Type 0 where
  pos negsuc : ℕ → ℤ

-- The decimal digits of a number in front of a text, in so many rounds at most.
unfoldable pub digits : ℕ → ℕ → Bytes → Bytes
digits zero n acc = acc
digits (suc left) n acc = elim (ltb n 10) [
  | true ↦ (48 + n) ∷ acc
  | false ↦ digits left (n / 10) ((48 + n % 10) ∷ acc)
]

-- `strconv.Itoa` of a number that is not negative: an int of 64 bits has 19 digits at most.
unfoldable pub decimal : ℕ → Bytes
unfolding digits
decimal n = digits 19 n []

-- The number that a text of digits stands for, behind those that were read.
unfoldable pub read_digits : ℕ → Bytes → Option ℕ
read_digits acc [] = some acc
read_digits acc (c ∷ s) =
    let rest = read_digits (acc * 10 + (c - 48)) s in if leb 48 c && leb c 57 then rest else none

-- One digit or more.
unfoldable pub read_number : Bytes → Option ℕ
unfolding read_digits
read_number [] = none
read_number (c ∷ s) = read_digits 0 (c ∷ s)

-- The number with its sign, if 64 bits hold it.
unfoldable pub in_range : Bool → ℕ → Option ℤ
in_range true zero = some (pos 0)
in_range true (suc n) = if ltb n (2 ^ 63) then some (negsuc n) else none
in_range false n = if ltb n (2 ^ 63) then some (pos n) else none

unfoldable pub signed : Bool → Option ℕ → Option ℤ
unfolding in_range
signed minus none = none
signed minus (some n) = in_range minus n

-- `strconv.Atoi`
unfoldable pub atoi : Bytes → Option ℤ
unfolding signed read_number
atoi [] = none
atoi (c ∷ s) =
    if c == b'-'
    then signed true (read_number s)
    else if c == b'+'
    then signed false (read_number s)
    else signed false (read_number (c ∷ s))

-- `v > 0 && v <= 65535`
unfoldable pub is_port : ℤ → Bool
is_port (pos n) = ltb 0 n && leb n 65535
is_port (negsuc n) = false

unfoldable pub has_number : List ℕ → ℕ → Bool
has_number [] n = false
has_number (m ∷ ms) n = if m == n then true else has_number ms n

pub has_number_iff : (ms : List ℕ) (n : ℕ) → (has_number ms n ≡ true) ↔ In n ms
unfolding has_number
has_number_iff [] n = ((λ e. absurd (cc)), (λ i. absurd i))
has_number_iff (m ∷ ms) n = ground (arith, has_number_iff ms n)

unfoldable pub insert_number : ℕ → List ℕ → List ℕ
insert_number n [] = n ∷ []
insert_number n (m ∷ ms) = let rest = insert_number n ms in if ltb m n then m ∷ rest else n ∷ m ∷ ms

-- `sort.Ints`
unfoldable pub sort_numbers : List ℕ → List ℕ
unfolding insert_number
sort_numbers [] = []
sort_numbers (n ∷ ns) = insert_number n (sort_numbers ns)

-- Each number is smaller than all that follow.
abbrev pub Ascends : List ℕ → Type 0
Ascends [] = Unit
Ascends (n ∷ ns) = All (λ m. n < m) ns × Ascends ns

-- No number stands twice.
abbrev pub Differ : List ℕ → Type 0
Differ [] = Unit
Differ (n ∷ ns) = All (λ m. m ≢ n) ns × Differ ns

All-insert_number :
    (P : ℕ → Type 0) (n : ℕ) (ns : List ℕ) → P n → All P ns → All P (insert_number n ns)
unfolding insert_number
All-insert_number P n [] p h = (p, tt)
All-insert_number P n (m ∷ ms) p (q, h) = ground (arith, All-insert_number P n ms p h)

All-sort_numbers : (P : ℕ → Type 0) (ns : List ℕ) → All P ns → All P (sort_numbers ns)
unfolding sort_numbers
All-sort_numbers P [] h = tt
All-sort_numbers P (n ∷ ns) (p, h) =
    All-insert_number P n (sort_numbers ns) p (All-sort_numbers P ns h)

All-lt : (n m : ℕ) (ms : List ℕ) → n < m → All (λ k. m < k) ms → All (λ k. n < k) ms
All-lt n m [] l h = tt
All-lt n m (k ∷ ms) l (p, h) = (omega arith, All-lt n m ms l h)

insert_number-Ascends :
    (n : ℕ) (ms : List ℕ) → All (λ m. m ≢ n) ms → Ascends ms → Ascends (insert_number n ms)
unfolding insert_number
insert_number-Ascends n [] d h = (tt, tt)
insert_number-Ascends n (m ∷ ms) (ne, d) (first, h) = elim (Bool-cases (ltb m n)) [
  | inl l ↦
      rw l
        (All-insert_number (λ k. m < k) n ms (ground arith) first, insert_number-Ascends n ms d h)
  | inr g ↦ let l : n < m = ground arith in rw g ((l, All-lt n m ms l first), (first, h))
]

pub sort_numbers-Ascends : (ns : List ℕ) → Differ ns → Ascends (sort_numbers ns)
unfolding sort_numbers
sort_numbers-Ascends [] d = tt
sort_numbers-Ascends (n ∷ ns) (fresh, d) =
    insert_number-Ascends n (sort_numbers ns) (All-sort_numbers (λ m. m ≢ n) ns fresh)
      (sort_numbers-Ascends ns d)

In-insert_number : (a n : ℕ) (ms : List ℕ) → In a (insert_number n ms) ↔ ((a ≡ n) ⊎ In a ms)
unfolding insert_number
In-insert_number a n [] = ((λ i. i), (λ i. i))
In-insert_number a n (m ∷ ms) =
    let (f, g) = In-insert_number a n ms in
    elim (Bool-cases (ltb m n)) [
      | inr e ↦ rw e ((λ i. i), (λ i. i))
      | inl e ↦ rw e (
        (λ i. elim i [
          | inl p ↦ inr (inl p)
          | inr h ↦ elim (f h) [ inl p ↦ inl p | inr k ↦ inr (inr k) ]
        ]),
        (λ i. elim i [
          | inl p ↦ inr (g (inl p))
          | inr h ↦ elim h [ inl p ↦ inl p | inr k ↦ inr (g (inr k)) ]
        ]),
      )
    ]

-- Sorting keeps exactly the numbers that there were.
pub In-sort_numbers : (a : ℕ) (ns : List ℕ) → In a (sort_numbers ns) ↔ In a ns
unfolding sort_numbers
In-sort_numbers a [] = ((λ i. i), (λ i. i))
In-sort_numbers a (n ∷ ns) =
    let (f, g) = In-sort_numbers a ns in
    let (u, v) = In-insert_number a n (sort_numbers ns) in
    (
      (λ i. elim (u i) [ inl p ↦ inl p | inr k ↦ inr (f k) ]),
      (λ i. elim i [ inl p ↦ v (inl p) | inr k ↦ v (inr (g k)) ]),
    )
