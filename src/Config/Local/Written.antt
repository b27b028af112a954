-- ===== src/Config/Local/Written.antt =====
-- What a successful change of a local file leaves.
use dnsvard.Base.{
  Option, none, some, [], ◌∷◌, ◌≡◌, ◌≢◌, inl, inr, refl, sym, ap, ◌∙◌, Bool-cases, Option-cases,
  Bytes, codes, text_eq, text_eq_iff, Dict, lookup, insert, lookup-insert, lookup-insert_self,
}
use dnsvard.Config.{FileRead, content}
use dnsvard.Config.Local.{
  Value, text, Disk, Changed, changed, is_current, read_map, write_map, set_value, plain_pattern,
  set_local_host_pattern,
}

-- The file reads as the map with the value under the key, and as before under all other keys.
pub record IsWritten (disk : Disk) (path key v : Bytes) (before after : FileRead) : Type 0 where
  pub old : Dict Value
  pub new : Dict Value
  pub had : read_map disk path before ≡ some old
  pub has : read_map disk path after ≡ some new
  pub value : lookup key new ≡ some (text v)
  pub others : (k : Bytes) → k ≢ key → lookup k new ≡ lookup k old

-- The two maps hold the same values under the same keys, in whatever order.
abbrev pub HasSameEntries : Dict Value → Dict Value → Type 0
HasSameEntries m n = (k : Bytes) → lookup k n ≡ lookup k m

-- What the codec promises: what it writes is not empty, and reads as a map with the same entries.
abbrev pub IsCodec : Disk → Type 0
IsCodec disk =
    (m : Dict Value) (b : Bytes)
    → disk.encode m ≡ some b
    → (b ≢ []) × ((n : Dict Value) × (disk.decode b ≡ some n) × HasSameEntries m n)

changed_of :
    {f after : FileRead} {c : Changed}
    → ◌≡◌ {A = FileRead × Changed} (f, c) (after, changed)
    → c ≡ changed
changed_of e = ap (λ (p : FileRead × Changed). p.1) e

file_of :
    {f after : FileRead} {c : Changed}
    → ◌≡◌ {A = FileRead × Changed} (f, c) (after, changed)
    → f ≡ after
file_of e = ap (λ (p : FileRead × Changed). p.0) e

write_map_changed :
    (disk : Disk) (file after : FileRead) (o : Option Bytes)
    → write_map disk file o ≡ (after, changed)
    → (b : Bytes) × (o ≡ some b) × (after ≡ content b)
unfolding write_map
write_map_changed disk file after none h = absurd (cc (changed_of h))
write_map_changed disk file after (some b) h = elim (Bool-cases disk.made_dir) [
  | inr e ↦ absurd (cc (changed_of (rw (e, write_map) at h)))
  | inl e ↦ elim (Option-cases disk.write_fails) [
    | inl n ↦ (b, refl, sym (file_of (rw (e, n, write_map) at h)))
    | inr (l, n) ↦ absurd (cc (changed_of (rw (e, n, write_map) at h)))
  ]
]

read_content :
    (disk : Disk) (path b : Bytes) (m : Dict Value)
    → b ≢ []
    → disk.decode b ≡ some m
    → read_map disk path (content b) ≡ some m
unfolding read_map
read_content disk path [] m ne h = absurd (ne refl)
read_content disk path (c ∷ b) m ne h = h

insert_others :
    (key k : Bytes) (x : Value) (m : Dict Value) → k ≢ key → lookup k (insert key x m) ≡ lookup k m
insert_others key k x m ne = elim (Bool-cases (text_eq key k)) [
  | inl e ↦ absurd (ne (sym ((text_eq_iff key k).0 e)))
  | inr e ↦ lookup-insert key k x m ∙ rw e refl
]

set_value_changed :
    (disk : Disk) (key : Bytes) (form : Bytes → Bytes) (v path : Bytes) (before after : FileRead)
    → IsCodec disk
    → set_value disk key form v path before ≡ (after, changed)
    → IsWritten disk path key v before after
unfolding set_value
set_value_changed disk key form v path before after codec h =
    elim (Option-cases (read_map disk path before)) [
      | inl e ↦ absurd (cc (changed_of (rw (e, set_value) at h)))
      | inr (old, e) ↦ elim (Bool-cases (is_current form v (lookup key old))) [
        | inl c ↦ absurd (cc (changed_of (rw (e, c, set_value) at h)))
        | inr c ↦
            let (b, enc, done) =
              write_map_changed disk before after (disk.encode (insert key (text v) old))
                (rw (e, c, set_value) at h) in
            let (ne, (new, dec, same)) = codec (insert key (text v) old) b enc in
            record {
              old = old;
              new = new;
              had = e;
              has = ap (read_map disk path) done ∙ read_content disk path b _ ne dec;
              value = same key ∙ lookup-insert_self key (text v) old;
              others = λ k n. same k ∙ insert_others key k (text v) old n;
            }
      ]
    ]

-- Where the host pattern of a local file is changed, the file then reads as the map that it had,
-- with the pattern in lower case and trimmed under its key, and every other key as it was.
pub set_local_host_pattern-IsWritten :
    (disk : Disk) (path pattern : Bytes) (before after : FileRead)
    → IsCodec disk
    → set_local_host_pattern disk path pattern before ≡ (after, changed)
    → IsWritten disk path (codes "host_pattern") (plain_pattern pattern) before after
unfolding set_local_host_pattern
set_local_host_pattern-IsWritten disk path pattern before after codec h =
    elim (Bool-cases (text_eq (plain_pattern pattern) [])) [
      | inl e ↦ absurd (cc (changed_of (rw (e, set_local_host_pattern) at h)))
      | inr e ↦
          set_value_changed disk (codes "host_pattern") plain_pattern (plain_pattern pattern) path
            before after codec (rw (e, set_local_host_pattern) at h)
    ]
