-- ===== src/Config/Files/Ends.antt =====
-- The loop of `localConfigPathsForMerge` ends at the root: more rounds find nothing more.
use dnsvard.Base.{
  ℕ, zero, suc, ◌+◌, ◌<◌, Bool, true, Option, List, [], ◌∷◌, ◌++◌, ◌≡◌, ◌⊎◌, inl, inr, sym, ap, ◌∙◌,
  subst, arith, if◌then◌else◌, Bytes, text_eq, text_eq_iff, length, length-append, All, render_path,
  path_dir, path_join, IsComponent, path_dir-render_path, path_dir_root,
}
use dnsvard.Config.StateDir.Ends.{last_cases, front_All}
use dnsvard.Config.Files.{is_stop, find_files}

module _ (is_plain : Bytes → Bool) (name : Bytes) (stop : Option Bytes) where
  -- With a round for each component and one for the root, any two numbers of rounds agree.
  pub find_files_enough :
      (m n : ℕ) (cs : List Bytes)
      → All IsComponent cs
      → length cs < m
      → length cs < n
      → find_files is_plain name stop m (render_path true cs)
        ≡ find_files is_plain name stop n (render_path true cs)
  unfolding find_files
  find_files_enough zero n cs h lt k = absurd (omega (arith, lt))
  find_files_enough (suc m) zero cs h lt k = absurd (omega (arith, k))
  find_files_enough (suc m) (suc n) cs h lt k =
      let d = render_path true cs in
      ap
        (λ more.
          if is_plain (path_join d name)
          then path_join d name ∷ (if is_stop stop d then [] else more)
          else (if is_stop stop d then [] else more))
        (above (find_files_enough m n) (last_cases cs))
    where
      above :
          ((ks : List Bytes)
            → All IsComponent ks
            → length ks < m
            → length ks < n
            → find_files is_plain name stop m (render_path true ks)
              ≡ find_files is_plain name stop n (render_path true ks))
          → (cs ≡ []) ⊎ ((init : List Bytes) × (l : Bytes) × (cs ≡ init ++ l ∷ []))
          → (if text_eq (path_dir (render_path true cs)) (render_path true cs)
              then []
              else find_files is_plain name stop m (path_dir (render_path true cs)))
            ≡ (if text_eq (path_dir (render_path true cs)) (render_path true cs)
                then []
                else find_files is_plain name stop n (path_dir (render_path true cs)))
      above up (inl e) =
          let same : path_dir (render_path true cs) ≡ render_path true cs =
            subst (λ k. path_dir (render_path true k) ≡ render_path true k) (sym e) path_dir_root in
          let t = (text_eq_iff (path_dir (render_path true cs)) (render_path true cs)).1 same in
          ap
            (λ (b : Bool).
              if b then [] else find_files is_plain name stop m (path_dir (render_path true cs)))
            t
          ∙ sym (
              ap
                (λ (b : Bool).
                  if b
                  then []
                  else find_files is_plain name stop n (path_dir (render_path true cs)))
                t)
      above up (inr (init, l, e)) =
          let (a, b) = front_All init l (subst (All IsComponent) e h) in
          let dir : path_dir (render_path true cs) ≡ render_path true init =
            ap (λ c. path_dir (render_path true c)) e ∙ path_dir-render_path init l a b in
          let size : length cs ≡ length init + 1 = ap length e ∙ length-append init (l ∷ []) in
          ap (λ x. if text_eq (path_dir (render_path true cs)) (render_path true cs) then [] else x)
            (ap (find_files is_plain name stop m) dir
              ∙ up init a (omega (arith, lt, size)) (omega (arith, k, size))
              ∙ sym (ap (find_files is_plain name stop n) dir))
