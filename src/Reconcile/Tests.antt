-- ===== src/Reconcile/Tests.antt =====
-- Runs of writes of the state, and the theorems at concrete inputs.
use dnsvard.Base.{
  true, false, none, some, some-inj, [], ◌∷◌, ◌++◌, ◌≡◌, refl, subst, Bytes, codes, text_eq, lookup,
  insert, erase, path_join,
}
use dnsvard.Reconcile.{
  ReconcileState, Codec, Files, Faults, write_tmp, stamped, reconcile_state_path, tmp_path, rename,
  call, publish, fill_tmp, write_file, write_encoded, write_reconcile_state, read_ok,
  read_reconcile_state,
}
use dnsvard.Reconcile.File.{IsAtomic, new_content, write_reconcile_state-IsAtomic}
use dnsvard.Reconcile.Restored.{IsRestored, read_reconcile_state-write_reconcile_state}

abbrev state : ReconcileState
state = record {
  version = 0;
  pid = 0;
  config_domain = [];
  config_host_pattern = [];
  workspace_domains = [];
  updated_at = none;
  sequence = 0;
  interval_seconds = 0;
  cause = [];
  result = [];
  last_success_at = none;
  last_error = [];
  dns_added = 0;
  dns_removed = 0;
  http_added = 0;
  http_removed = 0;
  tcp_added = 0;
  tcp_removed = 0;
  warnings = 0;
  duration_ms = 0;
  tracked_configs = 0;
  watched_dirs = 0;
  docker_watch_running = false;
  docker_watch_restart_count = 0;
  docker_watch_last_start_at = none;
  docker_watch_last_event_at = none;
  docker_watch_last_error = [];
  self_heal_trigger = [];
  self_heal_action = [];
  self_heal_detail = [];
  self_heal_detector = [];
  self_heal_component = [];
  self_heal_action_id = [];
  self_heal_failed = false;
  self_heal_failure_count = 0;
  self_heal_actions = [];
}

abbrev fifth : ReconcileState
fifth = record state { pid = 900; sequence = 5 }

-- A codec of the process and the sequence, for states that have nothing else.
abbrev two_numbers : Codec
two_numbers = record {
  encode = λ s. some (s.pid ∷ s.sequence ∷ []);
  decode = λ b. elim b [
    | p ∷ q ∷ rest ↦ some (record (stamped 7 state) { pid = p; sequence = q })
    | _ ↦ none
  ];
}

fifth-IsRestored : IsRestored two_numbers (stamped 7 fifth)
unfolding stamped
fifth-IsRestored b e =
    subst (λ t. two_numbers.decode (t ++ codes "\n") ≡ some (stamped 7 fifth)) (some-inj e) refl

abbrev dir : Bytes
dir = codes "/home/u/dnsvard"

abbrev before_write : Files
before_write =
    (codes "/home/u/dnsvard/reconcile-state.json", codes "old")
    ∷ (codes "/home/u/dnsvard/leases.json", codes "{}")
    ∷ []

-- The write of the temporary file breaks off behind a byte.
abbrev torn : Faults
torn = record { fails = λ step. elim step [ write_tmp ↦ true | _ ↦ false ]; written = 1 }

abbrev no_faults : Faults
no_faults = record { fails = λ step. false; written = 0 }

torn_write : write_reconcile_state torn two_numbers 7 dir fifth before_write ≡ (
  before_write ++ (codes "/home/u/dnsvard/reconcile-state.json.tmp", 900 ∷ []) ∷ [],
  some write_tmp,
)
unfolding write_reconcile_state call write_encoded write_file fill_tmp publish rename tmp_path
    reconcile_state_path stamped path_join insert lookup erase text_eq
torn_write = refl

write_reconcile_state-IsAtomic_example :
    IsAtomic
      (reconcile_state_path dir)
      (new_content two_numbers 7 fifth)
      before_write
      (write_reconcile_state torn two_numbers 7 dir fifth before_write)
write_reconcile_state-IsAtomic_example =
    write_reconcile_state-IsAtomic torn two_numbers 7 dir fifth before_write

whole_write : (write_reconcile_state no_faults two_numbers 7 dir fifth before_write).1 ≡ none
unfolding write_reconcile_state call write_encoded write_file fill_tmp publish rename tmp_path
    reconcile_state_path stamped path_join insert lookup erase text_eq
whole_write = refl

read_reconcile_state-write_reconcile_state_example :
    read_reconcile_state two_numbers dir
      (write_reconcile_state no_faults two_numbers 7 dir fifth before_write).0
    ≡ read_ok (stamped 7 fifth)
read_reconcile_state-write_reconcile_state_example =
    read_reconcile_state-write_reconcile_state no_faults two_numbers 7 dir fifth before_write
      fifth-IsRestored whole_write
