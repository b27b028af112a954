-- ===== src/Dns/Canonical.antt =====
-- The canonical name of a host.
use dnsvard.Base.{
  ℕ, false, [], ◌∷◌, ◌++◌, ◌≡◌, refl, sym, ap, ◌∙◌, Bytes, codes, lower, to_lower, trim, trim_left,
  trim_right, trim_space, lower_idem, is_dot, is_space, All, All-append, All-trim, All-to_lower,
  NoHead, NoLast, trim_none, trim-NoHead, trim-NoLast, trim-to_lower, is_space-lower, to_lower_idem,
}
use dnsvard.Routes.{canonical, with_dot}
use dnsvard.Dns.Table.{dotted, canonical_fqdn}

dotted-with_dot : (s : Bytes) → dotted s ≡ with_dot s
unfolding dotted with_dot
dotted-with_dot [] = refl
dotted-with_dot (c ∷ s) = refl

-- The DNS table and the merge of routes give every text the same canonical name, although they
-- fold its case and trim it in different orders.
pub canonical_fqdn-canonical : (name : Bytes) → canonical_fqdn name ≡ canonical name
unfolding canonical_fqdn canonical trim_space
canonical_fqdn-canonical name =
    ap (λ s. dotted (trim is_dot s)) (sym (trim-to_lower is_space is_space-lower name))
    ∙ dotted-with_dot (trim is_dot (trim is_space (to_lower name)))

-- Letter case makes no difference to a canonical name.
pub canonical_fqdn-to_lower : (name : Bytes) → canonical_fqdn (to_lower name) ≡ canonical_fqdn name
unfolding canonical_fqdn trim_space
canonical_fqdn-to_lower name =
    ap (λ s. dotted (trim is_dot (to_lower s))) (trim-to_lower is_space is_space-lower name)
    ∙ ap (λ s. dotted (trim is_dot s)) (to_lower_idem (trim is_space name))

abbrev pub NoSpace : Bytes → Type 0
NoSpace = All (λ c. is_space c ≡ false)

lower-NoSpace : (c : ℕ) → is_space c ≡ false → is_space (lower c) ≡ false
lower-NoSpace c h = is_space-lower c ∙ h

dot-NoSpace : NoSpace (codes ".")
unfolding is_space
dot-NoSpace = (refl, tt)

-- The dot that `dotted` adds is trimmed away again.
push_dot : (s : Bytes) → NoLast is_dot s → trim_right is_dot (s ++ codes ".") ≡ s
unfolding trim_right is_dot
push_dot [] h = refl
push_dot (c ∷ []) h = rw h
push_dot (c ∷ d ∷ s) h = rw (push_dot (d ∷ s) h)

trim-dotted : (s : Bytes) → NoHead is_dot s → NoLast is_dot s → trim is_dot (dotted s) ≡ s
unfolding trim dotted trim_left is_dot
trim-dotted [] h k = refl
trim-dotted (c ∷ s) h k = rw h (push_dot (c ∷ s) k)

core-NoSpace : (name : Bytes) → NoSpace name → NoSpace (trim is_dot (to_lower name))
core-NoSpace name h =
    All-trim is_dot (λ c. is_space c ≡ false) (to_lower name)
      (All-to_lower (λ c. is_space c ≡ false) (λ c. is_space c ≡ false) lower-NoSpace name h)

dotted-NoSpace : (s : Bytes) → NoSpace s → NoSpace (dotted s)
unfolding dotted
dotted-NoSpace [] h = dot-NoSpace
dotted-NoSpace (c ∷ s) h = All-append (λ c. is_space c ≡ false) (c ∷ s) (codes ".") h dot-NoSpace

abbrev IsLower : Bytes → Type 0
IsLower = All (λ c. lower c ≡ c)

to_lower_id : (s : Bytes) → IsLower s → to_lower s ≡ s
unfolding to_lower
to_lower_id [] h = refl
to_lower_id (c ∷ s) (p, h) = cc (p, to_lower_id s h)

every : (s : Bytes) → All (λ c. Unit {0}) s
every [] = tt
every (c ∷ s) = (tt, every s)

core-IsLower : (name : Bytes) → IsLower (trim is_dot (to_lower name))
core-IsLower name =
    All-trim is_dot (λ c. lower c ≡ c) (to_lower name)
      (All-to_lower (λ c. Unit) (λ c. lower c ≡ c) (λ c _. lower_idem c) name (every name))

dot-IsLower : IsLower (codes ".")
unfolding lower
dot-IsLower = (refl, tt)

dotted-IsLower : (s : Bytes) → IsLower s → IsLower (dotted s)
unfolding dotted
dotted-IsLower [] h = dot-IsLower
dotted-IsLower (c ∷ s) h = All-append (λ c. lower c ≡ c) (c ∷ s) (codes ".") h dot-IsLower

canonical_dotted :
    (s : Bytes)
    → NoSpace s
    → IsLower s
    → NoHead is_dot s
    → NoLast is_dot s
    → canonical_fqdn (dotted s) ≡ dotted s
unfolding canonical_fqdn trim_space
canonical_dotted s space low head last =
    ap (λ x. dotted (trim is_dot (to_lower x)))
      (trim_none is_space (dotted s) (dotted-NoSpace s space))
    ∙ ap (λ x. dotted (trim is_dot x)) (to_lower_id (dotted s) (dotted-IsLower s low))
    ∙ ap dotted (trim-dotted s head last)

canonical_trimmed :
    (name : Bytes) → NoSpace name → canonical_fqdn name ≡ dotted (trim is_dot (to_lower name))
unfolding canonical_fqdn trim_space
canonical_trimmed name h = ap (λ x. dotted (trim is_dot (to_lower x))) (trim_none is_space name h)

-- Of a name without white space the canonical name is its own canonical name.
pub canonical_fqdn_idem :
    (name : Bytes) → NoSpace name → canonical_fqdn (canonical_fqdn name) ≡ canonical_fqdn name
canonical_fqdn_idem name h =
    let s = trim is_dot (to_lower name) in
    let e = canonical_trimmed name h in
    ap canonical_fqdn e
    ∙ canonical_dotted s (core-NoSpace name h) (core-IsLower name)
        (trim-NoHead is_dot (to_lower name)) (trim-NoLast is_dot (to_lower name))
    ∙ sym e
