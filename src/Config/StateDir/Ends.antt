-- ===== src/Config/StateDir/Ends.antt =====
-- The walk from a path up to what exists of it ends.
use dnsvard.Base.{
  ℕ, zero, suc, ◌+◌, ◌<◌, Bool, true, false, Option, none, some, List, [], ◌∷◌, ◌++◌, ◌≡◌, ◌≢◌, ◌⊎◌,
  inl, inr, refl, sym, ap, ◌∙◌, subst, arith, if◌then◌else◌, Bytes, text_eq, text_eq_iff, length,
  length-append, All, trim_space, is_abs, components, clean, render_path, path_base, path_dir,
  IsComponent, components-render_path, path_dir-render_path, path_dir_root, components-All,
  clean-rooted, clean-render_path,
}
use dnsvard.Config.{
  Stat, not_exist, stat_error, entry, path_unknown, path_without_parent, out_of_fuel, Checked,
  refused,
}
use dnsvard.Config.StateDir.{
  resolved_with, is_none_of, resolve_entry, resolve_loop, rounds, resolve_clean, resolve_path,
}

pub last_cases :
    (cs : List Bytes) → (cs ≡ []) ⊎ ((init : List Bytes) × (l : Bytes) × (cs ≡ init ++ l ∷ []))
last_cases [] = inl refl
last_cases (c ∷ cs) = elim (last_cases cs) [
  | inl e ↦ inr ([], c, ap (λ l. c ∷ l) e)
  | inr (init, l, e) ↦ inr (c ∷ init, l, ap (λ k. c ∷ k) e)
]

pub front_All :
    (cs : List Bytes) (l : Bytes)
    → All IsComponent (cs ++ l ∷ [])
    → All IsComponent cs × IsComponent l
front_All [] l (k, h) = (tt, k)
front_All (c ∷ cs) l (k, h) = let (a, b) = front_All cs l h in ((k, a), b)

module _ (lstat : Bytes → Stat) (eval_symlinks : Bytes → Option Bytes) where
  abbrev Resolved : Checked Bytes → Type 0
  Resolved c = c ≢ refused out_of_fuel

  if_Resolved :
      (b : Bool) (x y : Checked Bytes)
      → (b ≡ true → Resolved x)
      → (b ≡ false → Resolved y)
      → Resolved (if b then x else y)
  if_Resolved true x y h k = h refl
  if_Resolved false x y h k = k refl

  resolved_with-Resolved :
      (missing : List Bytes) (o : Option Bytes) → Resolved (resolved_with missing o)
  unfolding resolved_with
  resolved_with-Resolved missing none e = cc
  resolved_with-Resolved missing (some r) e = cc

  resolve_entry-Resolved :
      (current : Bytes) (missing : List Bytes) (is_link is_dir : Bool)
      → Resolved (resolve_entry lstat eval_symlinks current missing is_link is_dir)
  unfolding resolve_entry
  resolve_entry-Resolved current missing is_link is_dir =
      let found = resolved_with-Resolved missing (eval_symlinks current) in
      if_Resolved is_link _ _ (λ _ e. cc)
        (λ _.
          if_Resolved (is_none_of missing) _ _
            (λ _. if_Resolved is_dir _ _ (λ _. found) (λ _ e. cc)) (λ _. found))

  resolve_loop-Resolved :
      (left : ℕ) (cs missing : List Bytes)
      → All IsComponent cs
      → length cs < left
      → Resolved (resolve_loop lstat eval_symlinks left (render_path true cs) missing)
  unfolding resolve_loop
  resolve_loop-Resolved zero cs missing h lt = absurd (omega (arith, lt))
  resolve_loop-Resolved (suc left) cs missing h lt =
      step (resolve_loop-Resolved left) (lstat (render_path true cs)) (last_cases cs)
    where
      step :
          ((ks ms : List Bytes)
            → All IsComponent ks
            → length ks < left
            → Resolved (resolve_loop lstat eval_symlinks left (render_path true ks) ms))
          → (s : Stat) → (cs ≡ []) ⊎ ((init : List Bytes) × (l : Bytes) × (cs ≡ init ++ l ∷ []))
          → Resolved (elim s [
            | entry is_link is_dir ↦
                resolve_entry lstat eval_symlinks (render_path true cs) missing is_link is_dir
            | stat_error ↦ refused path_unknown
            | not_exist ↦
                if text_eq (path_dir (render_path true cs)) (render_path true cs)
                then refused path_without_parent
                else resolve_loop lstat eval_symlinks left
                    (path_dir (render_path true cs))
                    (missing ++ path_base (render_path true cs) ∷ [])
          ])
      step up_from (entry is_link is_dir) d =
          resolve_entry-Resolved (render_path true cs) missing is_link is_dir
      step up_from stat_error d = λ z. cc
      step up_from not_exist (inl e) =
          let same : path_dir (render_path true cs) ≡ render_path true cs =
            subst (λ k. path_dir (render_path true k) ≡ render_path true k) (sym e) path_dir_root in
          if_Resolved (text_eq (path_dir (render_path true cs)) (render_path true cs)) _ _
            (λ _ z. cc)
            (λ n.
              absurd (
                cc
                  (n, (text_eq_iff (path_dir (render_path true cs)) (render_path true cs)).1 same)))
      step up_from not_exist (inr (init, l, e)) =
          let (k, kl) = front_All init l (subst (All IsComponent) e h) in
          let up : path_dir (render_path true cs) ≡ render_path true init =
            ap (λ c. path_dir (render_path true c)) e ∙ path_dir-render_path init l k kl in
          let size : length cs ≡ length init + 1 = ap length e ∙ length-append init (l ∷ []) in
          if_Resolved (text_eq (path_dir (render_path true cs)) (render_path true cs)) _ _
            (λ _ z. cc)
            (λ _.
              subst
                (λ p. Resolved (
                  resolve_loop lstat eval_symlinks left p
                    (missing ++ path_base (render_path true cs) ∷ [])))
                (sym up)
                (up_from init (missing ++ path_base (render_path true cs) ∷ []) k
                  (omega (arith, lt, size))))

  walk :
      (q : Bytes)
      → is_abs (clean q) ≡ true
      → Resolved
          (resolve_loop lstat eval_symlinks (suc (length (components (clean q)))) (clean q) [])
  walk q e =
      let cs = components q in
      let good = components-All q (clean-rooted q e) in
      let shape = clean-render_path q e in
      let same : components (clean q) ≡ cs = ap components shape ∙ components-render_path cs good in
      subst
        (λ p.
          Resolved (resolve_loop lstat eval_symlinks (suc (length (components (clean q)))) p []))
        (sym shape)
        (resolve_loop-Resolved (suc (length (components (clean q)))) cs [] good
          (omega (arith, ap length same)))

  -- The walk never runs out of rounds: there is one for each component of the path and one for
  -- the root, and each leads to the directory above, or ends.
  pub resolve_path_ends :
      (path : Bytes) → resolve_path lstat eval_symlinks path ≢ refused out_of_fuel
  unfolding resolve_path resolve_clean rounds
  resolve_path_ends path =
      let p = clean (trim_space path) in
      if_Resolved (text_eq p []) _ _ (λ _ e. cc)
        (λ _. if_Resolved (is_abs p) _ _ (λ e. walk (trim_space path) e) (λ _ z. cc))
