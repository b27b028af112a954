-- ===== src/Base/Maps.antt =====
-- Go maps keyed by strings, as association lists. A write replaces the entry where it stands.
use mathlib.Core.Path.{◌≡◌, refl, ap}
use mathlib.Core.Logic.{◌≢◌, inl, inr}
use mathlib.Core.Option.{Option, none, some}
use mathlib.Core.List.{List, [], ◌∷◌}
use native.Mathlib.Omega.{arith}
use dnsvard.Base.Tests.{if◌then◌else◌}
use dnsvard.Base.Lists.{All, In}
use dnsvard.Base.Text.{Bytes, text_eq, text_eq_iff, text_eq_refl}

abbrev pub Dict : Type 0 → Type 0
Dict V = List (Bytes × V)

module _ {V : Type 0} where
  unfoldable pub lookup : Bytes → Dict V → Option V
  lookup k [] = none
  lookup k ((j, v) ∷ m) = if text_eq j k then some v else lookup k m

  unfoldable pub insert : Bytes → V → Dict V → Dict V
  insert k v [] = (k, v) ∷ []
  insert k v ((j, w) ∷ m) = if text_eq j k then (k, v) ∷ m else (j, w) ∷ insert k v m

  -- Go's `delete(m, k)`.
  unfoldable pub erase : Bytes → Dict V → Dict V
  erase k [] = []
  erase k ((j, w) ∷ m) = let rest = erase k m in if text_eq j k then rest else (j, w) ∷ rest

  abbrev pub keys : Dict V → List Bytes
  keys [] = []
  keys ((j, v) ∷ m) = j ∷ keys m

  -- No key stands twice.
  abbrev pub NodupKeys : Dict V → Type 0
  NodupKeys [] = Unit
  NodupKeys ((j, v) ∷ m) = All (λ k. k ≢ j) (keys m) × NodupKeys m

  pub lookup-insert :
      (k j : Bytes) (v : V) (m : Dict V)
      → lookup j (insert k v m) ≡ (if text_eq k j then some v else lookup j m)
  unfolding lookup insert
  lookup-insert k j v [] = refl
  lookup-insert k j v ((i, w) ∷ m) =
      ground (arith, text_eq_iff k j, text_eq_iff i k, text_eq_iff i j, lookup-insert k j v m)

  pub lookup-erase :
      (k j : Bytes) (m : Dict V) → lookup j (erase k m) ≡ (if text_eq k j then none else lookup j m)
  unfolding lookup erase
  lookup-erase k j [] = ground arith
  lookup-erase k j ((i, w) ∷ m) =
      ground (arith, text_eq_iff k j, text_eq_iff i k, text_eq_iff i j, lookup-erase k j m)

  pub lookup-insert_self : (k : Bytes) (v : V) (m : Dict V) → lookup k (insert k v m) ≡ some v
  lookup-insert_self k v m = rw (lookup-insert, text_eq_refl k)

  -- What is looked up stands among the entries.
  pub lookup-In : (k : Bytes) (v : V) (m : Dict V) → lookup k m ≡ some v → In (k, v) m
  unfolding lookup
  lookup-In k v [] h = ground arith
  lookup-In k v ((j, w) ∷ m) h = ground (arith, text_eq_iff j k, lookup-In k v m)

  pub keys-insert :
      (P : Bytes → Type 0) (k : Bytes) (v : V) (m : Dict V)
      → P k
      → All P (keys m)
      → All P (keys (insert k v m))
  unfolding insert
  keys-insert P k v [] p h = (p, tt)
  keys-insert P k v ((j, w) ∷ m) p h = ground (arith, keys-insert P k v m)

  pub insert-NodupKeys : (k : Bytes) (v : V) (m : Dict V) → NodupKeys m → NodupKeys (insert k v m)
  unfolding insert
  insert-NodupKeys k v [] u = (tt, tt)
  insert-NodupKeys k v ((j, w) ∷ m) (fresh, u) = ground (
    arith,
    text_eq_iff j k,
    insert-NodupKeys k v m u,
    λ (ne : k ≢ j). keys-insert (λ i. i ≢ j) k v m ne fresh,
  )

  pub keys-erase :
      (P : Bytes → Type 0) (k : Bytes) (m : Dict V) → All P (keys m) → All P (keys (erase k m))
  unfolding erase
  keys-erase P k [] h = tt
  keys-erase P k ((j, w) ∷ m) h = ground (arith, keys-erase P k m)

  pub erase-NodupKeys : (k : Bytes) (m : Dict V) → NodupKeys m → NodupKeys (erase k m)
  unfolding erase
  erase-NodupKeys k [] u = tt
  erase-NodupKeys k ((j, w) ∷ m) (fresh, u) =
      ground (arith, erase-NodupKeys k m u, keys-erase (λ i. i ≢ j) k m fresh)

  -- With distinct keys each entry is found under its key.
  pub lookup_of_In :
      (k : Bytes) (v : V) (m : Dict V) → NodupKeys m → In (k, v) m → lookup k m ≡ some v
  unfolding lookup
  lookup_of_In k v [] u m = absurd m
  lookup_of_In k v ((j, w) ∷ m) (fresh, u) (inl e) = ground (arith, text_eq_iff j k)
  lookup_of_In k v ((j, w) ∷ m) (fresh, u) (inr h) =
      ground (arith, text_eq_iff j k, fresh_ne m fresh h, lookup_of_In k v m u h)
    where
      fresh_ne : (n : Dict V) → All (λ i. i ≢ j) (keys n) → In (k, v) n → k ≢ j
      fresh_ne [] f h = absurd h
      fresh_ne ((i, x) ∷ n) (ne, f) (inl e) = ground arith
      fresh_ne ((i, x) ∷ n) (ne, f) (inr h) = fresh_ne n f h

  abbrev pub values : Dict V → List V
  values [] = []
  values ((j, v) ∷ m) = v ∷ values m

  -- A statement about all entries, kept by a write and read at a key.
  pub All-insert :
      (P : Bytes × V → Type 0) (k : Bytes) (v : V) (m : Dict V)
      → P (k, v)
      → All P m
      → All P (insert k v m)
  unfolding insert
  All-insert P k v [] p h = (p, tt)
  All-insert P k v ((j, w) ∷ m) p (q, h) = ground (arith, All-insert P k v m p h)

  pub All-erase : (P : Bytes × V → Type 0) (k : Bytes) (m : Dict V) → All P m → All P (erase k m)
  unfolding erase
  All-erase P k [] h = tt
  All-erase P k ((j, w) ∷ m) (q, h) = ground (arith, All-erase P k m h)

  pub All_of_In : (P : Bytes × V → Type 0) (e : Bytes × V) (m : Dict V) → All P m → In e m → P e
  All_of_In P e [] h m = absurd m
  All_of_In P e (d ∷ m) (p, h) (inl q) = rw q p
  All_of_In P e (d ∷ m) (p, h) (inr n) = All_of_In P e m h n

  pub All_of_lookup :
      (P : Bytes × V → Type 0) (k : Bytes) (v : V) (m : Dict V)
      → All P m
      → lookup k m ≡ some v
      → P (k, v)
  All_of_lookup P k v m h e = All_of_In P (k, v) m h (lookup-In k v m e)

  pub In-values : (k : Bytes) (v : V) (m : Dict V) → In (k, v) m → In v (values m)
  In-values k v [] h = absurd h
  In-values k v ((j, w) ∷ m) (inl e) = inl (ground arith)
  In-values k v ((j, w) ∷ m) (inr h) = inr (In-values k v m h)

  pub key_of_value : (v : V) (m : Dict V) → In v (values m) → (k : Bytes) × In (k, v) m
  key_of_value v [] h = absurd h
  key_of_value v ((j, w) ∷ m) (inl e) = (j, inl (ap (λ x. (j, x)) e))
  key_of_value v ((j, w) ∷ m) (inr h) = let (k, n) = key_of_value v m h in (k, inr n)
