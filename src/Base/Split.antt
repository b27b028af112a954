-- ===== src/Base/Split.antt =====
-- Splitting and joining at one byte.
use Prim.Native.Nat.{ℕ}
use mathlib.Core.Path.{◌≡◌, refl, ◌∙◌, ap}
use mathlib.Core.Logic.{◌≢◌}
use mathlib.Core.List.{List, [], ◌∷◌, ◌++◌, append_assoc, append-nil}
use native.Mathlib.Omega.{arith}
use dnsvard.Base.Lists.{All, All-append}
use dnsvard.Base.Text.{Bytes}
use dnsvard.Base.Strings.{split, split_from, join}

abbrev pub Lacks : ℕ → Bytes → Type 0
Lacks b = All (λ c. c ≢ b)

module _ (b : ℕ) where
  -- A part without the separator is read into the current part.
  pub split_from-append :
      (p rest cur : Bytes) → Lacks b p → split_from b cur (p ++ rest) ≡ split_from b (cur ++ p) rest
  unfolding split_from
  split_from-append [] rest cur h = rw append-nil
  split_from-append (c ∷ p) rest cur (ne, h) =
      ground (arith, split_from-append p rest (cur ++ c ∷ []) h, append_assoc cur (c ∷ []) p)

  split_from-part : (p cur : Bytes) → Lacks b p → split_from b cur p ≡ (cur ++ p) ∷ []
  unfolding split_from
  split_from-part [] cur h = rw append-nil
  split_from-part (c ∷ p) cur (ne, h) =
      ground (arith, split_from-part p (cur ++ c ∷ []) h, append_assoc cur (c ∷ []) p)

  pub split_from-sep : (rest cur : Bytes) → split_from b cur (b ∷ rest) ≡ cur ∷ split_from b [] rest
  unfolding split_from
  split_from-sep rest cur = ground arith

  split_from-join :
      (p : Bytes) (ps : List Bytes)
      → All (Lacks b) (p ∷ ps)
      → split_from b [] (join (p ∷ ps) (b ∷ [])) ≡ p ∷ ps
  unfolding join
  split_from-join p [] (h, _) = split_from-part p [] h
  split_from-join p (q ∷ ps) (h, hs) =
      split_from-append p (b ∷ join (q ∷ ps) (b ∷ [])) [] h
      ∙ split_from-sep (join (q ∷ ps) (b ∷ [])) p
      ∙ ap (λ l. p ∷ l) (split_from-join q ps hs)

-- Splitting a join gives the parts back, if there is a part and none holds the separator.
pub split-join :
    (b : ℕ) (ps : List Bytes) → ps ≢ [] → All (Lacks b) ps → split (join ps (b ∷ [])) b ≡ ps
unfolding split
split-join b [] ne h = absurd (ne refl)
split-join b (p ∷ ps) ne h = split_from-join b p ps h

-- What holds of the bytes of the parts and of the separator holds of the bytes of the join.
pub All-join :
    (P : ℕ → Type 0) (sep : Bytes) (ps : List Bytes)
    → All P sep
    → All (All P) ps
    → All P (join ps sep)
unfolding join
All-join P sep [] s h = tt
All-join P sep (p ∷ []) s (h, _) = h
All-join P sep (p ∷ q ∷ ps) s (h, hs) =
    All-append P p _ h (All-append P sep _ s (All-join P sep (q ∷ ps) s hs))
