-- ===== src/Reconcile/Restored.antt =====
-- What is read behind a write of the state.
use dnsvard.Base.{ℕ, Option, none, some, ◌++◌, ◌≡◌, ◌≢◌, refl, ap, ◌∙◌, Bytes, codes}
use mathlib.Core.Option
use dnsvard.Reconcile.{
  ReconcileState, Files, Codec, Faults, stamped, write_reconcile_state, read_ok, check_version,
  read_file, read_reconcile_state,
}
use dnsvard.Reconcile.File.{write_reconcile_state-IsAtomic}

-- What the codec promises of a state: its text, with a line feed behind it, is decoded to it.
abbrev pub IsRestored : Codec → ReconcileState → Type 0
IsRestored codec s = (b : Bytes) → codec.encode s ≡ some b → codec.decode (b ++ codes "\n") ≡ some s

stamped-read :
    (now : ℕ) (s : ReconcileState) → check_version (stamped now s) ≡ read_ok (stamped now s)
unfolding check_version stamped
stamped-read now s = refl

new_content-read :
    (codec : Codec) (now : ℕ) (s : ReconcileState) (o : Option Bytes)
    → ((b : Bytes) → o ≡ some b → codec.decode (b ++ codes "\n") ≡ some (stamped now s))
    → Option.map (λ b. b ++ codes "\n") o ≢ none
    → read_file codec (Option.map (λ b. b ++ codes "\n") o) ≡ read_ok (stamped now s)
unfolding read_file
new_content-read codec now s none h ne = absurd (ne refl)
new_content-read codec now s (some b) h ne = rw (h b refl, read_file) (stamped-read now s)

-- A state that was written is read back, with the current version and the time of the update,
-- where the codec restores it.
pub read_reconcile_state-write_reconcile_state :
    (faults : Faults) (codec : Codec) (now : ℕ) (state_dir : Bytes) (s : ReconcileState)
    (files : Files)
    → IsRestored codec (stamped now s)
    → (write_reconcile_state faults codec now state_dir s files).1 ≡ none
    → read_reconcile_state codec state_dir
        (write_reconcile_state faults codec now state_dir s files).0
      ≡ read_ok (stamped now s)
unfolding read_reconcile_state
read_reconcile_state-write_reconcile_state faults codec now state_dir s files h e =
    let (some_b, at, _) =
      (write_reconcile_state-IsAtomic faults codec now state_dir s files).done e in
    ap (read_file codec) at ∙ new_content-read codec now s (codec.encode (stamped now s)) h some_b
