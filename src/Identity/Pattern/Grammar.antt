-- ===== src/Identity/Pattern/Grammar.antt =====
-- Which patterns `ParseHostPattern` accepts, and what it returns.
use dnsvard.Base.{
  true, false, List, [], ◌∷◌, ltb, if◌then◌else◌, ◌||◌, ◌≡◌, ◌≢◌, ◌↔◌, ◌⊎◌, inl, inr, refl, sym, ap,
  ◌∙◌, subst, arith, Bytes, text_eq, text_eq_iff, length, All, In, Distinct,
}
use dnsvard.Identity.Pattern.{
  service_token, workspace_token, project_token, tld_token, is_allowed, PatternError, no_workspace,
  no_tld, tld_not_last, HostPattern, ok, err, has_token, Scan, Scanned, note_part, done, failed,
  scan_parts, last_part, conclude, parse_parts, raw_parts, parse_host_pattern,
}

abbrev pub tokens_allowed : List Bytes
tokens_allowed = service_token ∷ workspace_token ∷ project_token ∷ tld_token ∷ []

-- Two or more different tokens, the last one `tld`, and `workspace` among them.
pub record IsPattern (ts : List Bytes) : Type 0 where
  pub allowed : All (λ t. In t tokens_allowed) ts
  pub distinct : Distinct (λ t. t) ts
  pub workspace : In workspace_token ts
  pub last : last_part ts ≡ tld_token

is_allowed→In : (t : Bytes) → is_allowed t ≡ true → In t tokens_allowed
unfolding is_allowed
is_allowed→In t h = ground (
  arith,
  text_eq_iff t service_token,
  text_eq_iff t workspace_token,
  text_eq_iff t project_token,
  text_eq_iff t tld_token,
)

In→is_allowed : (t : Bytes) → In t tokens_allowed → is_allowed t ≡ true
unfolding is_allowed
In→is_allowed t (inl e) = rw e
In→is_allowed t (inr (inl e)) = rw e
In→is_allowed t (inr (inr (inl e))) = rw e
In→is_allowed t (inr (inr (inr (inl e)))) = rw e
In→is_allowed t (inr (inr (inr (inr m)))) = absurd m

pub has_token→In : (ts : List Bytes) (t : Bytes) → has_token ts t ≡ true → In t ts
unfolding has_token
has_token→In [] t h = cc
has_token→In (s ∷ ts) t h = ground (arith, text_eq_iff s t, has_token→In ts t)

pub In→has_token : (ts : List Bytes) (t : Bytes) → In t ts → has_token ts t ≡ true
unfolding has_token
In→has_token [] t m = absurd m
In→has_token (s ∷ ts) t (inl e) = ground (arith, text_eq_iff s t)
In→has_token (s ∷ ts) t (inr m) = ground (arith, In→has_token ts t m)

-- The parts are tokens, all different, and none was seen before.
record IsFresh (seen ts : List Bytes) : Type 0 where
  allowed : All (λ t. In t tokens_allowed) ts
  distinct : Distinct (λ t. t) ts
  unseen : All (λ t. has_token seen t ≡ false) ts

unseen-cons :
    (s : Bytes) (seen ts : List Bytes)
    → All (λ t. has_token (s ∷ seen) t ≡ false) ts
    → All (λ t. t ≢ s) ts × All (λ t. has_token seen t ≡ false) ts
unfolding has_token
unseen-cons s seen [] h = (tt, tt)
unseen-cons s seen (t ∷ ts) (p, h) =
    let (a, b) = unseen-cons s seen ts h in
    let ne : t ≢ s = λ e. ground (arith, text_eq_iff s t) in
    let old : has_token seen t ≡ false = ground arith in ((ne, a), (old, b))

cons-unseen :
    (s : Bytes) (seen ts : List Bytes)
    → All (λ t. t ≢ s) ts
    → All (λ t. has_token seen t ≡ false) ts
    → All (λ t. has_token (s ∷ seen) t ≡ false) ts
unfolding has_token
cons-unseen s seen [] a b = tt
cons-unseen s seen (t ∷ ts) (ne, a) (p, b) =
    (ground (arith, text_eq_iff s t), cons-unseen s seen ts a b)

note_parts : List Bytes → Scan → Scan
note_parts [] st = st
note_parts (t ∷ ts) st = note_parts ts (note_part t st)

seen-note_part : (t : Bytes) (st : Scan) → (note_part t st).seen ≡ t ∷ st.seen
unfolding note_part
seen-note_part t st = ground arith

scan_sound :
    (ts : List Bytes) (st st' : Scan)
    → scan_parts ts st ≡ done st'
    → IsFresh st.seen ts × (st' ≡ note_parts ts st)
unfolding scan_parts note_parts
scan_sound [] st st' h = (record { allowed = tt; distinct = tt; unseen = tt }, ground arith)
scan_sound (t ∷ ts) st st' h =
    let yes_allowed : is_allowed t ≡ true = ground arith in
    let old : has_token st.seen t ≡ false = ground arith in
    let tail : scan_parts ts (note_part t st) ≡ done st' = ground arith in
    let (f, e) = scan_sound ts (note_part t st) st' tail in
    let (a, b) = unseen-cons t st.seen ts (rw seen-note_part at f.unseen) in
    (
      record {
        allowed = (is_allowed→In t yes_allowed, f.allowed);
        distinct = (a, f.distinct);
        unseen = (old, b);
      },
      e,
    )

scan_complete :
    (ts : List Bytes) (st : Scan) → IsFresh st.seen ts → scan_parts ts st ≡ done (note_parts ts st)
unfolding scan_parts note_parts
scan_complete [] st f = refl
scan_complete (t ∷ ts) st f =
    let rest : IsFresh (note_part t st).seen ts = record {
      allowed = f.allowed.1;
      distinct = f.distinct.1;
      unseen = rw seen-note_part (cons-unseen t st.seen ts f.distinct.0 f.unseen.1);
    } in
    rw (In→is_allowed t f.allowed.0, f.unseen.0) (scan_complete ts (note_part t st) rest)

workspace-note_parts :
    (ts : List Bytes) (st : Scan)
    → (note_parts ts st).has_workspace ≡ (st.has_workspace || has_token ts workspace_token)
unfolding note_parts note_part has_token
workspace-note_parts [] st = ground arith
workspace-note_parts (t ∷ ts) st = ground (
  arith,
  workspace-note_parts ts (note_part t st),
  text_eq_iff t workspace_token,
  text_eq_iff t tld_token,
  text_eq_iff t service_token,
)

tld-note_parts :
    (ts : List Bytes) (st : Scan)
    → (note_parts ts st).has_tld ≡ (st.has_tld || has_token ts tld_token)
unfolding note_parts note_part has_token
tld-note_parts [] st = ground arith
tld-note_parts (t ∷ ts) st = ground (
  arith,
  tld-note_parts ts (note_part t st),
  text_eq_iff t workspace_token,
  text_eq_iff t tld_token,
  text_eq_iff t service_token,
)

service-note_parts :
    (ts : List Bytes) (st : Scan)
    → (note_parts ts st).has_service ≡ (st.has_service || has_token ts service_token)
unfolding note_parts note_part has_token
service-note_parts [] st = ground arith
service-note_parts (t ∷ ts) st = ground (
  arith,
  service-note_parts ts (note_part t st),
  text_eq_iff t workspace_token,
  text_eq_iff t tld_token,
  text_eq_iff t service_token,
)

abbrev pub parsed_tokens : List Bytes → HostPattern
parsed_tokens ts = record { tokens = ts; has_service = has_token ts service_token }

abbrev start : Scan
start = record { seen = []; has_workspace = false; has_tld = false; has_service = false }

conclude-start :
    (ts : List Bytes)
    → conclude ts (note_parts ts start) ≡ (
        if has_token ts workspace_token
        then if has_token ts tld_token
          then if text_eq (last_part ts) tld_token then ok (parsed_tokens ts) else err tld_not_last
          else err no_tld
        else err no_workspace)
unfolding conclude
conclude-start ts =
    ground
      (arith, workspace-note_parts ts start, tld-note_parts ts start, service-note_parts ts start)

In-last_part : (ts : List Bytes) → last_part ts ≢ [] → In (last_part ts) ts
unfolding last_part
In-last_part [] ne = absurd (ne refl)
In-last_part (t ∷ []) ne = inl refl
In-last_part (t ∷ u ∷ ts) ne = inr (In-last_part (u ∷ ts) ne)

two_parts :
    (ts : List Bytes) → In workspace_token ts → last_part ts ≡ tld_token → ltb (length ts) 2 ≡ false
unfolding last_part
two_parts [] m e = absurd m
two_parts (t ∷ []) (inl p) e = cc
two_parts (t ∷ []) (inr m) e = absurd m
two_parts (t ∷ u ∷ ts) m e = ground arith

parse_parts_complete : (ts : List Bytes) → IsPattern ts → parse_parts ts ≡ ok (parsed_tokens ts)
unfolding parse_parts has_token
parse_parts_complete ts p =
    let fresh : IsFresh [] ts = record {
      allowed = p.allowed;
      distinct = p.distinct;
      unseen = all_unseen ts;
    } in
    let tld : last_part ts ≢ [] = λ e. cc (p.last, e) in
    let has_tld : has_token ts tld_token ≡ true =
      In→has_token ts tld_token (subst (λ x. In x ts) p.last (In-last_part ts tld)) in
    rw (
      two_parts ts p.workspace p.last,
      scan_complete ts start fresh,
      conclude-start ts,
      In→has_token ts workspace_token p.workspace,
      has_tld,
      p.last,
    )
  where
    all_unseen : (us : List Bytes) → All (λ t. has_token [] t ≡ false) us
    all_unseen [] = tt
    all_unseen (u ∷ us) = (refl, all_unseen us)

Scanned-cases :
    (r : Scanned) → ((st : Scan) × (r ≡ done st)) ⊎ ((e : PatternError) × (r ≡ failed e))
Scanned-cases (done st) = inl (st, refl)
Scanned-cases (failed e) = inr (e, refl)

scanned :
    (ts : List Bytes) (p : HostPattern)
    → parse_parts ts ≡ ok p
    → (st : Scan) × (scan_parts ts start ≡ done st) × (conclude ts st ≡ ok p)
unfolding parse_parts
scanned ts p h = elim (Scanned-cases (scan_parts ts start)) [
  | inl (st, e) ↦ (st, e, ground arith)
  | inr (x, e) ↦ absurd (ground arith)
]

concluded :
    (ts : List Bytes) (p : HostPattern)
    → conclude ts (note_parts ts start) ≡ ok p
    → (has_token ts workspace_token ≡ true)
      × (text_eq (last_part ts) tld_token ≡ true)
      × (p ≡ parsed_tokens ts)
concluded ts p h = ground (arith, conclude-start ts)

parse_parts_sound :
    (ts : List Bytes) (p : HostPattern)
    → parse_parts ts ≡ ok p
    → IsPattern ts × (p ≡ parsed_tokens ts)
parse_parts_sound ts p h =
    let (st, s, c) = scanned ts p h in
    let (fresh, e) = scan_sound ts start st s in
    let (w, l, q) = concluded ts p (subst (λ x. conclude ts x ≡ ok p) e c) in
    (
      record {
        allowed = fresh.allowed;
        distinct = fresh.distinct;
        workspace = has_token→In ts workspace_token w;
        last = (text_eq_iff (last_part ts) tld_token).0 l;
      },
      q,
    )

-- The parts of a pattern are accepted exactly when they are two or more different tokens with
-- `workspace` among them and `tld` at the end; the result holds them in their order, and says
-- whether `service` is among them.
pub parse_parts_iff :
    (ts : List Bytes) (p : HostPattern)
    → (parse_parts ts ≡ ok p) ↔ (IsPattern ts × (p ≡ parsed_tokens ts))
parse_parts_iff ts p =
    (parse_parts_sound ts p, λ (ok_pattern, e). parse_parts_complete ts ok_pattern ∙ ap ok (sym e))

pub parse_host_pattern_lem : (raw : Bytes) → parse_parts (raw_parts raw) ≡ parse_host_pattern raw
unfolding parse_host_pattern
parse_host_pattern_lem raw = refl
