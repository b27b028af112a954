-- ===== src/Identity/Host/Preferred.antt =====
-- Which workspace is a project's default one, and when there is none.
use dnsvard.Base.{
  false, ◌||◌, List, [], ◌∷◌, ◌++◌, if◌then◌else◌, ◌≡◌, ◌≢◌, ◌↔◌, inl, inr, refl, sym, ◌∙◌, arith,
  Bytes, codes, text_eq, text_eq_iff, In, Bool-cases,
}
use dnsvard.Identity.Label.{normalize_label}
use dnsvard.Identity.Pattern.{has_token}
use dnsvard.Identity.Pattern.Grammar.{has_token→In, In→has_token}
use dnsvard.Identity.Host.{
  value, panic, normalize_all, first_of_list, preferred, resolve_default_workspace,
}

-- The labels of the workspaces that have one, in their order.
unfoldable pub labels : List Bytes → List Bytes
labels [] = []
labels (ws ∷ rest) =
    let more = labels rest in
    if text_eq (normalize_label ws) [] then more else normalize_label ws ∷ more

has_token-append :
    (xs ys : List Bytes) (t : Bytes) → has_token (xs ++ ys) t ≡ (has_token xs t || has_token ys t)
unfolding has_token
has_token-append [] ys t = ground arith
has_token-append (x ∷ xs) ys t = ground (arith, has_token-append xs ys t)

-- Leaving out what is there already changes no membership.
has_token-normalize_all :
    (ws out : List Bytes) (t : Bytes)
    → has_token (normalize_all ws out) t ≡ (has_token out t || has_token (labels ws) t)
unfolding normalize_all labels has_token
has_token-normalize_all [] out t = ground arith
has_token-normalize_all (w ∷ ws) out t = ground (
  arith,
  has_token-normalize_all ws out t,
  has_token-normalize_all ws (out ++ normalize_label w ∷ []) t,
  has_token-append out (normalize_label w ∷ []) t,
  text_eq_iff (normalize_label w) t,
)

-- The front of `out` stays the front.
first-normalize_all_cons :
    (ws : List Bytes) (o : Bytes) (out : List Bytes)
    → first_of_list (normalize_all ws (o ∷ out)) ≡ value o
unfolding normalize_all first_of_list
first-normalize_all_cons [] o out = refl
first-normalize_all_cons (w ∷ ws) o out = ground (
  arith,
  first-normalize_all_cons ws o out,
  first-normalize_all_cons ws o (out ++ normalize_label w ∷ []),
)

first-normalize_all :
    (ws : List Bytes) → first_of_list (normalize_all ws []) ≡ first_of_list (labels ws)
unfolding normalize_all first_of_list labels has_token
first-normalize_all [] = refl
first-normalize_all (w ∷ ws) =
    ground (arith, first-normalize_all ws, first-normalize_all_cons ws (normalize_label w) [])

preferred-normalize_all :
    (ws : List Bytes) → preferred (normalize_all ws []) ≡ preferred (labels ws)
unfolding preferred has_token
preferred-normalize_all ws = ground (
  arith,
  first-normalize_all ws,
  has_token-normalize_all ws [] (codes "master"),
  has_token-normalize_all ws [] (codes "main"),
)

resolve_lem : (ws : List Bytes) → ws ≢ [] → resolve_default_workspace ws ≡ preferred (labels ws)
unfolding resolve_default_workspace
resolve_lem [] ne = absurd (ne refl)
resolve_lem (w ∷ ws) ne = preferred-normalize_all (w ∷ ws)

-- Of one or more workspaces the default is `master` if one of their labels is `master`; otherwise
-- `main` if one is `main`; otherwise the first that has a label.
pub resolve_default_workspace_order :
    (ws : List Bytes)
    → ws ≢ []
    → (In (codes "master") (labels ws) → resolve_default_workspace ws ≡ value (codes "master"))
      × (¬ In (codes "master") (labels ws)
          → In (codes "main") (labels ws)
          → resolve_default_workspace ws ≡ value (codes "main"))
      × (¬ In (codes "master") (labels ws)
          → ¬ In (codes "main") (labels ws)
          → resolve_default_workspace ws ≡ first_of_list (labels ws))
unfolding preferred
resolve_default_workspace_order ws ne = (
  (λ m. resolve_lem ws ne ∙ rw (In→has_token (labels ws) (codes "master") m)),
  (λ n m.
      resolve_lem ws ne
      ∙ rw (absent (labels ws) (codes "master") n, In→has_token (labels ws) (codes "main") m)),
  (λ n k.
      resolve_lem ws ne
      ∙ rw (absent (labels ws) (codes "master") n, absent (labels ws) (codes "main") k)),
)
  where
    absent : (ts : List Bytes) (t : Bytes) → ¬ In t ts → has_token ts t ≡ false
    absent ts t n = elim (Bool-cases (has_token ts t)) [
      | inl e ↦ absurd (n (has_token→In ts t e))
      | inr e ↦ e
    ]

preferred_panic : (ts : List Bytes) → preferred ts ≡ panic → ts ≡ []
unfolding preferred
preferred_panic [] e = refl
preferred_panic (t ∷ ts) e = ground arith

panic_preferred : (ts : List Bytes) → ts ≡ [] → preferred ts ≡ panic
unfolding preferred has_token
panic_preferred ts e = rw e

-- The function panics exactly when it is given workspaces and none of them has a label.
pub resolve_default_workspace_panics :
    (ws : List Bytes) → (resolve_default_workspace ws ≡ panic) ↔ ((ws ≢ []) × (labels ws ≡ []))
unfolding resolve_default_workspace
resolve_default_workspace_panics [] = ((λ e. cc), (λ (ne, e). absurd (ne refl)))
resolve_default_workspace_panics (w ∷ ws) = (
  (λ e.
      ((λ z. cc), preferred_panic (labels (w ∷ ws)) (sym (preferred-normalize_all (w ∷ ws)) ∙ e))),
  (λ (ne, e). preferred-normalize_all (w ∷ ws) ∙ panic_preferred (labels (w ∷ ws)) e),
)
