-- ===== src/Reconcile.antt =====
-- internal/daemon/reconcile_state.go: the file in which the daemon leaves what its last round did.
-- The files are a map from paths to what they hold. The JSON codec, the clock and the calls that
-- fail are arguments. Times are nanoseconds since some epoch, and the zero time is `none`; counters
-- are natural numbers.
mod Tests
pub mod File
pub mod Restored
use dnsvard.Base.{
  ℕ, Bool, true, false, Option, none, some, List, [], ◌∷◌, ◌++◌, ◌≡◌, ltb, ◌==◌, if◌then◌else◌,
  Bytes, codes, Dict, lookup, insert, erase, take, path_join,
}

abbrev pub reconcile_state_version : ℕ
reconcile_state_version = 1

pub record SelfHealActionState : Type 0 where
  pub component : Bytes
  pub detector : Bytes
  pub trigger : Bytes
  pub action : Bytes
  pub failure_count : ℕ
  pub last_failure_at : Option ℕ
  pub last_failure_detail : Bytes
  pub blocked_until : Option ℕ

-- A version that is not positive is 0.
pub record ReconcileState : Type 0 where
  pub version : ℕ
  pub pid : ℕ
  pub config_domain : Bytes
  pub config_host_pattern : Bytes
  pub workspace_domains : Dict Bytes
  pub updated_at : Option ℕ
  pub sequence : ℕ
  pub interval_seconds : ℕ
  pub cause : Bytes
  pub result : Bytes
  pub last_success_at : Option ℕ
  pub last_error : Bytes
  pub dns_added : ℕ
  pub dns_removed : ℕ
  pub http_added : ℕ
  pub http_removed : ℕ
  pub tcp_added : ℕ
  pub tcp_removed : ℕ
  pub warnings : ℕ
  pub duration_ms : ℕ
  pub tracked_configs : ℕ
  pub watched_dirs : ℕ
  pub docker_watch_running : Bool
  pub docker_watch_restart_count : ℕ
  pub docker_watch_last_start_at : Option ℕ
  pub docker_watch_last_event_at : Option ℕ
  pub docker_watch_last_error : Bytes
  pub self_heal_trigger : Bytes
  pub self_heal_action : Bytes
  pub self_heal_detail : Bytes
  pub self_heal_detector : Bytes
  pub self_heal_component : Bytes
  pub self_heal_action_id : Bytes
  pub self_heal_failed : Bool
  pub self_heal_failure_count : ℕ
  pub self_heal_actions : Dict SelfHealActionState

-- The files of the system: what each path holds.
abbrev pub Files : Type 0
Files = Dict Bytes

-- `json.MarshalIndent` and `json.Unmarshal`
pub record Codec : Type 0 where
  pub encode : ReconcileState → Option Bytes
  pub decode : Bytes → Option ReconcileState

-- The calls of `WriteReconcileState` that can fail, in their order.
pub data WriteStep : Type 0 where
  make_dir encode_state open_tmp write_tmp sync_tmp close_tmp rename_tmp open_dir sync_dir :
      WriteStep

-- Which of the calls fail, and how many bytes a failed write of the temporary file leaves in it. A
-- failure of the last call with EINVAL is none.
pub record Faults : Type 0 where
  pub fails : WriteStep → Bool
  pub written : ℕ

-- The files behind a call, and the call that failed, if one did.
abbrev pub Written : Type 0
Written = Files × Option WriteStep

-- `ReconcileStatePath`
unfoldable pub reconcile_state_path : Bytes → Bytes
unfolding path_join
reconcile_state_path state_dir = path_join state_dir (codes "reconcile-state.json")

-- `tmpPath`
unfoldable pub tmp_path : Bytes → Bytes
tmp_path path = path ++ codes ".tmp"

-- `os.Rename`
unfoldable pub rename : Bytes → Bytes → Files → Files
unfolding lookup insert erase
rename from to files = elim (lookup from files) [
  | none ↦ files
  | some b ↦ insert to b (erase from files)
]

-- `state.Version` and `state.UpdatedAt`, as they are written.
unfoldable pub stamped : ℕ → ReconcileState → ReconcileState
stamped now s = record s {
  version = reconcile_state_version;
  updated_at = elim s.updated_at [ none ↦ some now | some t ↦ some t ];
}

module _ (faults : Faults) where
  -- A call that leaves the files as they are, and what follows it.
  unfoldable pub call : WriteStep → Written → Files → Written
  call step next files = if faults.fails step then (files, some step) else next

  -- From `os.Rename` on.
  unfoldable pub publish : Bytes → Files → Written
  unfolding call rename tmp_path
  publish path files =
      let moved = rename (tmp_path path) path files in
      call rename_tmp (call open_dir (call sync_dir (moved, none) moved) moved) files

  -- From `f.Write` on, where the temporary file is open and empty.
  unfoldable pub fill_tmp : Bytes → Bytes → Files → Written
  unfolding call publish tmp_path insert
  fill_tmp path b files =
      let full = insert (tmp_path path) b files in
      if faults.fails write_tmp
      then (insert (tmp_path path) (take faults.written b) files, some write_tmp)
      else call sync_tmp (call close_tmp (publish path full) full) full

  -- `O_CREATE|O_TRUNC`
  unfoldable pub write_file : Bytes → Bytes → Files → Written
  unfolding call fill_tmp tmp_path insert
  write_file path b files = call open_tmp (fill_tmp path b (insert (tmp_path path) [] files)) files

  unfoldable pub write_encoded : Bytes → Option Bytes → Files → Written
  unfolding write_file
  write_encoded path none files = (files, some encode_state)
  write_encoded path (some b) files = write_file path (b ++ codes "\n") files

  -- `WriteReconcileState`
  unfoldable pub write_reconcile_state :
      Codec → ℕ → (state_dir : Bytes) → ReconcileState → Files → Written
  unfolding call write_encoded stamped reconcile_state_path
  write_reconcile_state codec now state_dir s files =
      call make_dir
        (write_encoded (reconcile_state_path state_dir) (codec.encode (stamped now s)) files) files

pub data ReadResult : Type 0 where
  read_ok : ReconcileState → ReadResult
  not_found parse_failed : ReadResult
  invalid_version unsupported_version : ℕ → ReadResult

-- The tests of the version that was read.
unfoldable pub check_version : ReconcileState → ReadResult
check_version s =
    if s.version == 0
    then invalid_version s.version
    else if ltb reconcile_state_version s.version
    then unsupported_version s.version
    else read_ok s

unfoldable pub read_file : Codec → Option Bytes → ReadResult
unfolding check_version
read_file codec none = not_found
read_file codec (some b) = elim (codec.decode b) [ none ↦ parse_failed | some s ↦ check_version s ]

-- `ReadReconcileState`
unfoldable pub read_reconcile_state : Codec → (state_dir : Bytes) → Files → ReadResult
unfolding read_file reconcile_state_path lookup
read_reconcile_state codec state_dir files =
    read_file codec (lookup (reconcile_state_path state_dir) files)
