-- ===== src/Reconcile/File.antt =====
-- What a write of the state leaves in the files.
use dnsvard.Base.{
  ℕ, Option, none, some, [], ◌∷◌, ◌++◌, ◌≡◌, ◌≢◌, ◌⊎◌, inl, inr, refl, sym, ap, ◌∙◌, Bytes, codes,
  text_eq, text_eq_iff, lookup, insert, erase, lookup-insert, lookup-erase, lookup-insert_self,
  take, Bool-cases,
}
use mathlib.Core.Option
use dnsvard.Reconcile.{
  ReconcileState, Files, Codec, WriteStep, make_dir, encode_state, open_tmp, write_tmp, sync_tmp,
  close_tmp, rename_tmp, open_dir, sync_dir, Faults, Written, reconcile_state_path, tmp_path,
  rename, stamped, call, publish, fill_tmp, write_file, write_encoded, write_reconcile_state,
}

abbrev tail_of : Bytes → Bytes
tail_of [] = []
tail_of (c ∷ v) = v

longer-ne : (p : Bytes) (c : ℕ) (w : Bytes) → p ++ (c ∷ w) ≢ p
longer-ne [] c w e = cc e
longer-ne (d ∷ p) c w e = longer-ne p c w (ap tail_of e)

tmp_path-ne : (path : Bytes) → tmp_path path ≢ path
unfolding tmp_path
tmp_path-ne path = longer-ne path b'.' (codes "tmp")

insert-other :
    (k p : Bytes) (b : Bytes) (files : Files) → k ≢ p → lookup p (insert k b files) ≡ lookup p files
insert-other k p b files ne = elim (Bool-cases (text_eq k p)) [
  | inl e ↦ absurd (ne ((text_eq_iff k p).0 e))
  | inr e ↦ lookup-insert k p b files ∙ rw e
]

erase-other : (k p : Bytes) (files : Files) → k ≢ p → lookup p (erase k files) ≡ lookup p files
erase-other k p files ne = elim (Bool-cases (text_eq k p)) [
  | inl e ↦ absurd (ne ((text_eq_iff k p).0 e))
  | inr e ↦ lookup-erase k p files ∙ rw e
]

-- Only the file at the path and the temporary one can differ.
abbrev pub SameElsewhere : Bytes → Files → Files → Type 0
SameElsewhere path before after =
    (p : Bytes) → path ≢ p → tmp_path path ≢ p → lookup p after ≡ lookup p before

-- The file at the path is as it was behind a failure, or holds what was to be written; a write
-- that succeeds is the latter and leaves no temporary file. No other file is touched.
pub record IsAtomic (path : Bytes) (b : Option Bytes) (before : Files) (w : Written) : Type 0 where
  pub whole : (lookup path w.0 ≡ lookup path before) ⊎ ((b ≢ none) × (lookup path w.0 ≡ b))
  pub done : w.1 ≡ none → (b ≢ none) × (lookup path w.0 ≡ b) × (lookup (tmp_path path) w.0 ≡ none)
  pub elsewhere : SameElsewhere path before w.0

-- Only the temporary file differs.
abbrev IsPending : Bytes → Files → Files → Type 0
IsPending path before files = (p : Bytes) → tmp_path path ≢ p → lookup p files ≡ lookup p before

insert-IsPending :
    (path b : Bytes) (before files : Files)
    → IsPending path before files
    → IsPending path before (insert (tmp_path path) b files)
insert-IsPending path b before files h p ne = insert-other (tmp_path path) p b files ne ∙ h p ne

failed-IsAtomic :
    (path : Bytes) (b : Option Bytes) (before files : Files) (step : WriteStep)
    → IsPending path before files
    → IsAtomic path b before (files, some step)
failed-IsAtomic path b before files step h = record {
  whole = inl (h path (tmp_path-ne path));
  done = λ e. absurd (cc e);
  elsewhere = λ p _ ne. h p ne;
}

-- The rename puts the new state in the place of the old one.
moved-IsAtomic :
    (path b : Bytes) (before files : Files) (o : Option WriteStep)
    → IsPending path before files
    → lookup (tmp_path path) files ≡ some b
    → IsAtomic path (some b) before (rename (tmp_path path) path files, o)
unfolding rename
moved-IsAtomic path b before files o h e =
    let tmp = tmp_path path in
    let is : rename tmp path files ≡ insert path b (erase tmp files) = rw (e, rename) in
    let new : lookup path (rename tmp path files) ≡ some b =
      ap (lookup path) is ∙ lookup-insert_self path b (erase tmp files) in
    record {
      whole = inr ((λ z. cc z), new);
      done = λ _. (
        (λ z. cc z),
        new,
        ap (lookup tmp) is
            ∙ insert-other path tmp b (erase tmp files) (λ z. tmp_path-ne path (sym z))
            ∙ erased tmp files,
      );
      elsewhere = λ p at ne.
          ap (lookup p) is
          ∙ insert-other path p b (erase tmp files) at
          ∙ erase-other tmp p files ne
          ∙ h p ne;
    }
  where
    erased : (k : Bytes) (m : Files) → lookup k (erase k m) ≡ none
    erased k m = lookup-erase k k m ∙ rw ((text_eq_iff k k).1 refl)

module _ (faults : Faults) (path : Bytes) (before : Files) where
  call-IsAtomic :
      (b : Option Bytes) (step : WriteStep) (next : Written) (files : Files)
      → IsAtomic path b before (files, some step)
      → IsAtomic path b before next
      → IsAtomic path b before (call faults step next files)
  unfolding call
  call-IsAtomic b step next files f n = elim (Bool-cases (faults.fails step)) [
    | inl e ↦ rw (e, call) f
    | inr e ↦ rw (e, call) n
  ]

  publish-IsAtomic :
      (b : Bytes) (files : Files)
      → IsPending path before files
      → lookup (tmp_path path) files ≡ some b
      → IsAtomic path (some b) before (publish faults path files)
  unfolding publish
  publish-IsAtomic b files h e =
      let moved = rename (tmp_path path) path files in
      call-IsAtomic (some b) rename_tmp _ files
        (failed-IsAtomic path (some b) before files rename_tmp h)
        (call-IsAtomic (some b) open_dir _ moved
          (moved-IsAtomic path b before files (some open_dir) h e)
          (call-IsAtomic (some b) sync_dir _ moved
            (moved-IsAtomic path b before files (some sync_dir) h e)
            (moved-IsAtomic path b before files none h e)))

  fill_tmp-IsAtomic :
      (b : Bytes) (files : Files)
      → IsPending path before files
      → IsAtomic path (some b) before (fill_tmp faults path b files)
  unfolding fill_tmp
  fill_tmp-IsAtomic b files h =
      let full = insert (tmp_path path) b files in
      let pending = insert-IsPending path b before files h in
      elim (Bool-cases (faults.fails write_tmp)) [
        | inl e ↦
            rw (e, fill_tmp)
              (failed-IsAtomic path (some b) before _ write_tmp
                (insert-IsPending path (take faults.written b) before files h))
        | inr e ↦
            rw (e, fill_tmp)
              (call-IsAtomic (some b) sync_tmp _ full
                (failed-IsAtomic path (some b) before full sync_tmp pending)
                (call-IsAtomic (some b) close_tmp _ full
                  (failed-IsAtomic path (some b) before full close_tmp pending)
                  (publish-IsAtomic b full pending (lookup-insert_self (tmp_path path) b files))))
      ]

  write_file-IsAtomic :
      (b : Bytes) → IsAtomic path (some b) before (write_file faults path b before)
  unfolding write_file
  write_file-IsAtomic b =
      call-IsAtomic (some b) open_tmp _ before
        (failed-IsAtomic path (some b) before before open_tmp (λ p ne. refl))
        (fill_tmp-IsAtomic b (insert (tmp_path path) [] before)
          (insert-IsPending path [] before before (λ p ne. refl)))

-- The text that is to be written: the state with its version and time, and a line feed.
abbrev pub new_content : Codec → ℕ → ReconcileState → Option Bytes
new_content codec now s = Option.map (λ b. b ++ codes "\n") (codec.encode (stamped now s))

-- Whichever calls fail, the file of the reconcile state is as it was or holds the whole new state,
-- with the current version and the time of the update; where the write succeeds it is the latter,
-- and the temporary file is gone; and no file but these two is touched.
pub write_reconcile_state-IsAtomic :
    (faults : Faults) (codec : Codec) (now : ℕ) (state_dir : Bytes) (s : ReconcileState)
    (files : Files)
    → IsAtomic
        (reconcile_state_path state_dir)
        (new_content codec now s)
        files
        (write_reconcile_state faults codec now state_dir s files)
unfolding write_reconcile_state write_encoded
write_reconcile_state-IsAtomic faults codec now state_dir s files =
    let path = reconcile_state_path state_dir in
    let same : IsPending path files files = λ p ne. refl in
    call-IsAtomic faults path files (new_content codec now s) make_dir _ files
      (failed-IsAtomic path (new_content codec now s) files files make_dir same)
      (encoded (codec.encode (stamped now s)))
  where
    encoded :
        (o : Option Bytes)
        → IsAtomic
            (reconcile_state_path state_dir)
            (Option.map (λ b. b ++ codes "\n") o)
            files
            (write_encoded faults (reconcile_state_path state_dir) o files)
    encoded none =
        failed-IsAtomic (reconcile_state_path state_dir) none files files encode_state
          (λ p ne. refl)
    encoded (some b) =
        write_file-IsAtomic faults (reconcile_state_path state_dir) files (b ++ codes "\n")
