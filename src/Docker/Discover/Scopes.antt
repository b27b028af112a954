-- ===== src/Docker/Discover/Scopes.antt =====
-- The scopes of default services: a project and a workspace, and the key that joins them.
use dnsvard.Base.{
  ℕ, true, List, [], ◌∷◌, ◌++◌, ◌≡◌, ◌≢◌, ◌↔◌, refl, sym, ap, arith, Bytes, to_lower, trim_space,
  All, Lacks,
}
use dnsvard.Docker.{ServiceRoute}
use dnsvard.Docker.Discover.{scope_key}

abbrev pub key_of : ServiceRoute → Bytes
key_of r = scope_key r.project r.workspace

-- No two default services have one key.
abbrev pub HasSoleDefaults : List ServiceRoute → Type 0
HasSoleDefaults [] = Unit
HasSoleDefaults (r ∷ rs) =
    (r.default_http ≡ true → All (λ q. q.default_http ≡ true → key_of q ≢ key_of r) rs)
    × HasSoleDefaults rs

-- What a project or a workspace counts as.
abbrev pub plain : Bytes → Bytes
plain v = to_lower (trim_space v)

abbrev pub HasSameScope : ServiceRoute → ServiceRoute → Type 0
HasSameScope q r = (plain q.project ≡ plain r.project) × (plain q.workspace ≡ plain r.workspace)

-- No two default services have one project and workspace.
abbrev pub HasOneDefaultEach : List ServiceRoute → Type 0
HasOneDefaultEach [] = Unit
HasOneDefaultEach (r ∷ rs) =
    (r.default_http ≡ true → All (λ q. q.default_http ≡ true → ¬ HasSameScope q r) rs)
    × HasOneDefaultEach rs

-- The byte that joins the two in a key is not in the project.
abbrev pub IsUnbarred : ServiceRoute → Type 0
IsUnbarred r = Lacks b'|' (plain r.project)

-- The first element, or a default, and the others.
abbrev head_of : ℕ → Bytes → ℕ
head_of b [] = b
head_of b (c ∷ v) = c

abbrev tail_of : Bytes → Bytes
tail_of [] = []
tail_of (c ∷ v) = v

-- Texts before and behind the first separator are those that were joined.
joined-inj :
    (b : ℕ) (p q v w : Bytes)
    → Lacks b p
    → Lacks b q
    → p ++ (b ∷ v) ≡ q ++ (b ∷ w)
    → (p ≡ q) × (v ≡ w)
joined-inj b [] [] v w hp hq e = (refl, ap tail_of e)
joined-inj b [] (d ∷ q) v w hp (ne, hq) e = absurd (ne (sym (ap (head_of b) e)))
joined-inj b (c ∷ p) [] v w (ne, hp) hq e = absurd (ne (ap (head_of b) e))
joined-inj b (c ∷ p) (d ∷ q) v w (nc, hp) (nd, hq) e =
    let (f, g) = joined-inj b p q v w hp hq (ap tail_of e) in (ground (arith, ap (head_of b) e), g)

key_of_iff :
    (q r : ServiceRoute) → IsUnbarred q → IsUnbarred r → (key_of q ≡ key_of r) ↔ HasSameScope q r
unfolding scope_key
key_of_iff q r hq hr = (
  joined-inj b'|' (plain q.project) (plain r.project) (plain q.workspace) (plain r.workspace) hq hr,
  (λ (e, f). cc (e, f)),
)

pub one_default_each_iff :
    (rs : List ServiceRoute) → All IsUnbarred rs → HasSoleDefaults rs ↔ HasOneDefaultEach rs
one_default_each_iff [] h = ((λ _. tt), (λ _. tt))
one_default_each_iff (r ∷ rs) (hr, h) =
    let (f, g) = one_default_each_iff rs h in
    ((λ (a, b). ((λ d. to rs h (a d)), f b)), (λ (a, b). ((λ d. from rs h (a d)), g b)))
  where
    to :
        (qs : List ServiceRoute)
        → All IsUnbarred qs
        → All (λ q. q.default_http ≡ true → key_of q ≢ key_of r) qs
        → All (λ q. q.default_http ≡ true → ¬ HasSameScope q r) qs
    to [] u a = tt
    to (q ∷ qs) (hq, u) (n, a) = ((λ d same. n d ((key_of_iff q r hq hr).1 same)), to qs u a)

    from :
        (qs : List ServiceRoute)
        → All IsUnbarred qs
        → All (λ q. q.default_http ≡ true → ¬ HasSameScope q r) qs
        → All (λ q. q.default_http ≡ true → key_of q ≢ key_of r) qs
    from [] u a = tt
    from (q ∷ qs) (hq, u) (n, a) = ((λ d same. n d ((key_of_iff q r hq hr).0 same)), from qs u a)
