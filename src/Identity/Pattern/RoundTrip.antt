-- ===== src/Identity/Pattern/RoundTrip.antt =====
-- A pattern is read back from its text.
use dnsvard.Base.{
  List, [], ◌∷◌, ◌≡◌, ◌≢◌, inl, inr, refl, ap, ◌∙◌, arith, Bytes, codes, All, All-imp, In, join,
  Lacks, split-join, All-join, is_space, trim_none, trim_space, to_lower, split,
}
use dnsvard.Identity.Label.{is_label_char}
use dnsvard.Identity.Label.Shape.{LabelChar, to_lower_label, not_space}
use dnsvard.Identity.Pattern.{parse_host_pattern, parse_parts, or_default, ok}
use dnsvard.Identity.Pattern.Grammar.{IsPattern, tokens_allowed, parsed_tokens, parse_parts_iff}

abbrev Plain : Bytes → Type 0
Plain t = All LabelChar t × Lacks b'-' t

token-Plain : (t : Bytes) → In t tokens_allowed → Plain t
unfolding is_label_char
token-Plain t (inl e) = rw e (ground arith)
token-Plain t (inr (inl e)) = rw e (ground arith)
token-Plain t (inr (inr (inl e))) = rw e (ground arith)
token-Plain t (inr (inr (inr (inl e)))) = rw e (ground arith)
token-Plain t (inr (inr (inr (inr m)))) = absurd m

tokens-LabelChar : (ts : List Bytes) → All (λ t. In t tokens_allowed) ts → All (All LabelChar) ts
tokens-LabelChar ts = All-imp (λ t m. (token-Plain t m).0) ts

tokens-Lacks : (ts : List Bytes) → All (λ t. In t tokens_allowed) ts → All (Lacks b'-') ts
tokens-Lacks ts = All-imp (λ t m. (token-Plain t m).1) ts

dash-LabelChar : All LabelChar (codes "-")
unfolding is_label_char
dash-LabelChar = ground arith

-- `strings.ToLower(strings.TrimSpace(raw))` leaves such a text alone.
folded : (s : Bytes) → All LabelChar s → to_lower (trim_space s) ≡ s
unfolding trim_space
folded s h = ap to_lower (trim_none is_space s (All-imp not_space s h)) ∙ to_lower_label s h

or_default_id : (s : Bytes) → s ≢ [] → or_default s ≡ s
unfolding or_default
or_default_id [] ne = absurd (ne refl)
or_default_id (c ∷ s) ne = refl

join-ne-nil : (t u : Bytes) (ts : List Bytes) → join (t ∷ u ∷ ts) (codes "-") ≢ []
unfolding join
join-ne-nil [] u ts = λ e. cc
join-ne-nil (c ∷ t) u ts = λ e. cc

pattern_text-ne-nil : (ts : List Bytes) → IsPattern ts → join ts (codes "-") ≢ []
unfolding join
pattern_text-ne-nil [] p = absurd p.workspace
pattern_text-ne-nil (t ∷ []) p = λ q. elim p.workspace [ inl e ↦ cc (e, q) | inr m ↦ absurd m ]
pattern_text-ne-nil (t ∷ u ∷ ts) p = join-ne-nil t u ts

pattern-ne-nil : (ts : List Bytes) → IsPattern ts → ts ≢ []
pattern-ne-nil [] p = absurd p.workspace
pattern-ne-nil (t ∷ ts) p = λ e. cc

parts-join :
    (ts : List Bytes)
    → IsPattern ts
    → split (or_default (to_lower (trim_space (join ts (codes "-"))))) b'-' ≡ ts
parts-join ts p =
    rw
      (
        folded (join ts (codes "-"))
            (All-join LabelChar (codes "-") ts dash-LabelChar (tokens-LabelChar ts p.allowed)),
        or_default_id (join ts (codes "-")) (pattern_text-ne-nil ts p),
      )
      (split-join b'-' ts (pattern-ne-nil ts p) (tokens-Lacks ts p.allowed))

-- Different tokens with `workspace` among them and `tld` at the end, joined by dashes, are parsed
-- to those tokens.
pub parse_host_pattern-join :
    (ts : List Bytes)
    → IsPattern ts
    → parse_host_pattern (join ts (codes "-")) ≡ ok (parsed_tokens ts)
unfolding parse_host_pattern
parse_host_pattern-join ts p =
    ap parse_parts (parts-join ts p) ∙ (parse_parts_iff ts (parsed_tokens ts)).1 (p, refl)
