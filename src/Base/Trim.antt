-- ===== src/Base/Trim.antt =====
-- Laws of trimming and of case folding.
use Prim.Native.Nat.{ℕ, ◌+◌, ◌≤◌}
use mathlib.Core.Path.{◌≡◌, refl}
use mathlib.Core.Bool.{Bool, false}
use mathlib.Core.Logic.{inl, inr}
use mathlib.Core.List.{[], ◌∷◌}
use native.Mathlib.Omega.{arith}
use dnsvard.Base.Tests.{Bool-cases}
use dnsvard.Base.Lists.{All, length}
use dnsvard.Base.Text.{Bytes}
use dnsvard.Base.Strings.{
  lower, to_lower, is_space, is_dot, trim_left, trim_right, push_right, trim,
}

-- The first, or the last, byte fails the test.
abbrev pub NoHead : (ℕ → Bool) → Bytes → Type 0
NoHead p [] = Unit
NoHead p (c ∷ s) = p c ≡ false

abbrev pub NoLast : (ℕ → Bool) → Bytes → Type 0
NoLast p [] = Unit
NoLast p (c ∷ []) = p c ≡ false
NoLast p (c ∷ d ∷ s) = NoLast p (d ∷ s)

module _ (p : ℕ → Bool) where
  pub All-trim_left : (Q : ℕ → Type 0) (s : Bytes) → All Q s → All Q (trim_left p s)
  unfolding trim_left
  All-trim_left Q [] h = h
  All-trim_left Q (c ∷ s) h = ground (arith, All-trim_left Q s h.1)

  All-push_right : (Q : ℕ → Type 0) (c : ℕ) (s : Bytes) → Q c → All Q s → All Q (push_right p c s)
  All-push_right Q c [] q h = ground arith
  All-push_right Q c (d ∷ s) q h = (q, h)

  pub All-trim_right : (Q : ℕ → Type 0) (s : Bytes) → All Q s → All Q (trim_right p s)
  unfolding trim_right
  All-trim_right Q [] h = h
  All-trim_right Q (c ∷ s) (q, h) = All-push_right Q c _ q (All-trim_right Q s h)

  pub All-trim : (Q : ℕ → Type 0) (s : Bytes) → All Q s → All Q (trim p s)
  unfolding trim
  All-trim Q s h = All-trim_right Q _ (All-trim_left Q s h)

  trim_left-NoHead : (s : Bytes) → NoHead p (trim_left p s)
  unfolding trim_left
  trim_left-NoHead [] = tt
  trim_left-NoHead (c ∷ s) = elim (Bool-cases (p c)) [
    | inl e ↦ rw e (trim_left-NoHead s)
    | inr e ↦ rw e e
  ]

  push_right-NoLast : (c : ℕ) (s : Bytes) → NoLast p s → NoLast p (push_right p c s)
  push_right-NoLast c [] h = elim (Bool-cases (p c)) [ inl e ↦ rw e tt | inr e ↦ rw e e ]
  push_right-NoLast c (d ∷ s) h = h

  trim_right-NoLast : (s : Bytes) → NoLast p (trim_right p s)
  unfolding trim_right
  trim_right-NoLast [] = tt
  trim_right-NoLast (c ∷ s) = push_right-NoLast c (trim_right p s) (trim_right-NoLast s)

  push_right-NoHead : (c : ℕ) (s : Bytes) → p c ≡ false → NoHead p (push_right p c s)
  push_right-NoHead c [] h = rw h h
  push_right-NoHead c (d ∷ s) h = h

  trim_right-NoHead : (s : Bytes) → NoHead p s → NoHead p (trim_right p s)
  unfolding trim_right
  trim_right-NoHead [] h = h
  trim_right-NoHead (c ∷ s) h = push_right-NoHead c _ h

  pub trim-NoHead : (s : Bytes) → NoHead p (trim p s)
  unfolding trim
  trim-NoHead s = trim_right-NoHead _ (trim_left-NoHead s)

  pub trim-NoLast : (s : Bytes) → NoLast p (trim p s)
  unfolding trim
  trim-NoLast s = trim_right-NoLast (trim_left p s)

  trim_left_id : (s : Bytes) → NoHead p s → trim_left p s ≡ s
  unfolding trim_left
  trim_left_id [] h = refl
  trim_left_id (c ∷ s) h = rw h

  trim_right_id : (s : Bytes) → NoLast p s → trim_right p s ≡ s
  unfolding trim_right
  trim_right_id [] h = refl
  trim_right_id (c ∷ []) h = rw h
  trim_right_id (c ∷ d ∷ s) h = rw (trim_right_id (d ∷ s) h)

  -- Where there is nothing to trim, nothing is trimmed.
  pub trim_id : (s : Bytes) → NoHead p s → NoLast p s → trim p s ≡ s
  unfolding trim
  trim_id s h k = rw (trim_left_id s h) (trim_right_id s k)

  pub trim_idem : (s : Bytes) → trim p (trim p s) ≡ trim p s
  trim_idem s = trim_id (trim p s) (trim-NoHead s) (trim-NoLast s)

  pub All-NoHead : (s : Bytes) → All (λ c. p c ≡ false) s → NoHead p s
  All-NoHead [] h = tt
  All-NoHead (c ∷ s) h = h.0

  pub All-NoLast : (s : Bytes) → All (λ c. p c ≡ false) s → NoLast p s
  All-NoLast [] h = tt
  All-NoLast (c ∷ []) h = h.0
  All-NoLast (c ∷ d ∷ s) h = All-NoLast (d ∷ s) h.1

  pub trim_none : (s : Bytes) → All (λ c. p c ≡ false) s → trim p s ≡ s
  trim_none s h = trim_id s (All-NoHead s h) (All-NoLast s h)

  length-trim_left-le : (s : Bytes) → length (trim_left p s) ≤ length s
  unfolding trim_left
  length-trim_left-le [] = omega arith
  length-trim_left-le (c ∷ s) = ground (arith, length-trim_left-le s)

  length-push_right-le : (c : ℕ) (s : Bytes) → length (push_right p c s) ≤ length s + 1
  length-push_right-le c [] = ground arith
  length-push_right-le c (d ∷ s) = omega arith

  length-trim_right-le : (s : Bytes) → length (trim_right p s) ≤ length s
  unfolding trim_right
  length-trim_right-le [] = omega arith
  length-trim_right-le (c ∷ s) =
      omega (arith, length-push_right-le c (trim_right p s), length-trim_right-le s)

  pub length-trim-le : (s : Bytes) → length (trim p s) ≤ length s
  unfolding trim
  length-trim-le s = omega (arith, length-trim_right-le (trim_left p s), length-trim_left-le s)

pub lower_idem : (c : ℕ) → lower (lower c) ≡ lower c
unfolding lower
lower_idem c = ground arith

pub is_space-lower : (c : ℕ) → is_space (lower c) ≡ is_space c
unfolding lower is_space
is_space-lower c = ground arith

pub is_dot-lower : (c : ℕ) → is_dot (lower c) ≡ is_dot c
unfolding lower is_dot
is_dot-lower c = ground arith

pub to_lower_idem : (s : Bytes) → to_lower (to_lower s) ≡ to_lower s
unfolding to_lower
to_lower_idem [] = refl
to_lower_idem (c ∷ s) = cc (lower_idem c, to_lower_idem s)

pub All-to_lower :
    (P Q : ℕ → Type 0) → ((c : ℕ) → P c → Q (lower c)) → (s : Bytes) → All P s → All Q (to_lower s)
unfolding to_lower
All-to_lower P Q f [] h = tt
All-to_lower P Q f (c ∷ s) (p, h) = (f c p, All-to_lower P Q f s h)

-- A test that does not see the case of a letter trims alike before and after folding.
module _ (p : ℕ → Bool) (blind : (c : ℕ) → p (lower c) ≡ p c) where
  trim_left-to_lower : (s : Bytes) → trim_left p (to_lower s) ≡ to_lower (trim_left p s)
  unfolding trim_left to_lower
  trim_left-to_lower [] = refl
  trim_left-to_lower (c ∷ s) = ground (arith, blind c, trim_left-to_lower s)

  push_right-to_lower :
      (c : ℕ) (s : Bytes) → push_right p (lower c) (to_lower s) ≡ to_lower (push_right p c s)
  unfolding to_lower
  push_right-to_lower c [] = ground (arith, blind c)
  push_right-to_lower c (d ∷ s) = refl

  trim_right-to_lower : (s : Bytes) → trim_right p (to_lower s) ≡ to_lower (trim_right p s)
  unfolding trim_right to_lower
  trim_right-to_lower [] = refl
  trim_right-to_lower (c ∷ s) = rw (trim_right-to_lower s) (push_right-to_lower c (trim_right p s))

  pub trim-to_lower : (s : Bytes) → trim p (to_lower s) ≡ to_lower (trim p s)
  unfolding trim
  trim-to_lower s = rw (trim_left-to_lower s) (trim_right-to_lower (trim_left p s))
