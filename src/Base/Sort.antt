-- ===== src/Base/Sort.antt =====
-- Go's `sort.Slice` and `sort.Strings` on a string key, as an insertion sort.
use mathlib.Core.Path.{◌≡◌}
use mathlib.Core.Logic.{◌≢◌, ◌⊎◌, inl, inr}
use mathlib.Core.Bool.{true, false}
use mathlib.Core.List.{List, [], ◌∷◌}
use native.Mathlib.Omega.{arith}
use dnsvard.Base.Tests.{if◌then◌else◌, Bool-cases}
use dnsvard.Base.Lists.{All, All-imp, In}
use dnsvard.Base.Text.{Bytes, text_lt, text_lt_trans, text_lt_total}

module _ {A : Type 0} (key : A → Bytes) where
  unfoldable pub insert_by : A → List A → List A
  insert_by x [] = x ∷ []
  insert_by x (y ∷ ys) = if text_lt (key y) (key x) then y ∷ insert_by x ys else x ∷ y ∷ ys

  unfoldable pub sort_by : List A → List A
  unfolding insert_by text_lt
  sort_by [] = []
  sort_by (x ∷ xs) = insert_by x (sort_by xs)

  abbrev pub Precedes : A → A → Type 0
  Precedes x y = text_lt (key x) (key y) ≡ true

  -- Each key is smaller than all that follow.
  abbrev pub IsAscending : List A → Type 0
  IsAscending [] = Unit
  IsAscending (x ∷ xs) = All (Precedes x) xs × IsAscending xs

  -- No two entries have the same key.
  abbrev pub Distinct : List A → Type 0
  Distinct [] = Unit
  Distinct (x ∷ xs) = All (λ y. key y ≢ key x) xs × Distinct xs

  pub All-insert_by :
      (P : A → Type 0) (x : A) (ys : List A) → P x → All P ys → All P (insert_by x ys)
  unfolding insert_by
  All-insert_by P x [] p h = (p, tt)
  All-insert_by P x (y ∷ ys) p (q, h) = ground (arith, All-insert_by P x ys p h)

  pub All-sort_by : (P : A → Type 0) (xs : List A) → All P xs → All P (sort_by xs)
  unfolding sort_by
  All-sort_by P [] h = tt
  All-sort_by P (x ∷ xs) (p, h) = All-insert_by P x (sort_by xs) p (All-sort_by P xs h)

  insert_by-IsAscending :
      (x : A) (ys : List A)
      → All (λ y. key y ≢ key x) ys
      → IsAscending ys
      → IsAscending (insert_by x ys)
  unfolding insert_by
  insert_by-IsAscending x [] d h = (tt, tt)
  insert_by-IsAscending x (y ∷ ys) (ne, d) (first, h) =
      elim (Bool-cases (text_lt (key y) (key x))) [
        | inl lt ↦ rw lt (All-insert_by (Precedes y) x ys lt first, insert_by-IsAscending x ys d h)
        | inr ge ↦ rw ge (
            let lt = smaller ge (Bool-cases (text_lt (key x) (key y))) in
            (
              (lt, All-imp (λ z before. text_lt_trans (key x) (key y) (key z) lt before) ys first),
              (first, h),
            ))
      ]
    where
      smaller :
          text_lt (key y) (key x) ≡ false
          → (text_lt (key x) (key y) ≡ true) ⊎ (text_lt (key x) (key y) ≡ false)
          → text_lt (key x) (key y) ≡ true
      smaller ge (inl lt) = lt
      smaller ge (inr e) = absurd (ne (text_lt_total (key y) (key x) ge e))

  pub sort_by-IsAscending : (xs : List A) → Distinct xs → IsAscending (sort_by xs)
  unfolding sort_by
  sort_by-IsAscending [] d = tt
  sort_by-IsAscending (x ∷ xs) (fresh, d) =
      insert_by-IsAscending x (sort_by xs) (All-sort_by (λ y. key y ≢ key x) xs fresh)
        (sort_by-IsAscending xs d)

  In-insert_by : (a x : A) (ys : List A) → In a (insert_by x ys) → In a (x ∷ ys)
  unfolding insert_by
  In-insert_by a x [] m = m
  In-insert_by a x (y ∷ ys) m = ground (arith, In-insert_by a x ys)

  In-insert_by_of : (a x : A) (ys : List A) → In a (x ∷ ys) → In a (insert_by x ys)
  unfolding insert_by
  In-insert_by_of a x [] m = m
  In-insert_by_of a x (y ∷ ys) m = ground (arith, In-insert_by_of a x ys)

  -- Sorting keeps exactly the entries that there were.
  pub In-sort_by_back : (a : A) (xs : List A) → In a (sort_by xs) → In a xs
  unfolding sort_by
  In-sort_by_back a [] m = m
  In-sort_by_back a (x ∷ xs) m = elim (In-insert_by a x (sort_by xs) m) [
    | inl e ↦ inl e
    | inr n ↦ inr (In-sort_by_back a xs n)
  ]

  pub In-sort_by : (a : A) (xs : List A) → In a xs → In a (sort_by xs)
  unfolding sort_by
  In-sort_by a [] m = m
  In-sort_by a (x ∷ xs) (inl e) = In-insert_by_of a x (sort_by xs) (inl e)
  In-sort_by a (x ∷ xs) (inr m) = In-insert_by_of a x (sort_by xs) (inr (In-sort_by a xs m))
