-- ===== src/Docker/Discover.antt =====
-- internal/docker/provider.go: `Discover` and its checks across services.
pub mod Scopes
pub mod Defaults
use dnsvard.Base.{
  ℕ, ◌+◌, Bool, true, false, Option, none, some, List, [], ◌∷◌, ◌++◌, if◌then◌else◌, ◌==◌, leb,
  Bytes, codes, text_eq, to_lower, trim_space, split, Dict, lookup, insert,
}
use dnsvard.Docker.{
  Answer, answered, command_failed, DiscoverError, docker_error, empty_inspect, ServiceRoute,
  DiagError, several_defaults, no_backend_port, Diagnostics, DockerInspect,
}
use dnsvard.Docker.Inspect.{Parsed, parse_inspect}

unfoldable pub scope_key : Bytes → Bytes → Bytes
unfolding to_lower trim_space
scope_key project workspace =
    to_lower (trim_space project) ++ (codes "|" ++ to_lower (trim_space workspace))

unfoldable pub counted : Bytes → Dict ℕ → ℕ
unfolding lookup
counted key counts = elim (lookup key counts) [ none ↦ 0 | some n ↦ n ]

-- The loop of `validateDefaultHTTP`, with `defaultsByWorkspace`. Both errors are one constructor:
-- their texts differ where project and workspace are blank.
unfoldable pub defaults_from : List ServiceRoute → Dict ℕ → Option DiagError
unfolding scope_key counted insert
defaults_from [] counts = none
defaults_from (r ∷ rs) counts =
    let key = scope_key r.project r.workspace in
    let skipped = defaults_from rs counts in
    let more = defaults_from rs (insert key (counted key counts + 1) counts) in
    if r.default_http
    then if leb (counted key counts + 1) 1
      then more
      else some (several_defaults r.project r.workspace)
    else skipped

unfoldable pub validate_default_http : List ServiceRoute → Option DiagError
unfolding defaults_from
validate_default_http rs = defaults_from rs []

unfoldable pub validate_http_ports : List ServiceRoute → Option DiagError
validate_http_ports [] = none
validate_http_ports (r ∷ rs) =
    let rest = validate_http_ports rs in
    if r.http_enabled
    then if r.http_port == 0 then some (no_backend_port r.service_name) else rest
    else rest

-- `diag.Errors = append(diag.Errors, err.Error())`, where there is an error.
unfoldable pub note_error : Option DiagError → Diagnostics → Diagnostics
note_error none d = d
note_error (some e) d = record d { errors = d.errors ++ e ∷ [] }

pub data Discovered : Type 0 where
  discovered : List ServiceRoute → Diagnostics → Discovered
  discover_failed : DiscoverError → Discovered

abbrev pub no_diagnostics : Diagnostics
no_diagnostics = record { warnings = []; errors = [] }

unfoldable pub add_route : Option ServiceRoute → List ServiceRoute → List ServiceRoute
add_route none rs = rs
add_route (some r) rs = rs ++ r ∷ []

-- The loop of `containerIDs` over the lines.
unfoldable pub id_lines : List Bytes → List Bytes
unfolding trim_space text_eq
id_lines [] = []
id_lines (l ∷ ls) =
    let rest = id_lines ls in if text_eq (trim_space l) [] then rest else trim_space l ∷ rest

-- `containerIDs`, from what `docker ps` prints.
unfoldable pub container_ids : Answer Bytes → Answer (List Bytes)
unfolding id_lines trim_space split
container_ids (command_failed e) = command_failed e
container_ids (answered out) = answered (id_lines (split (trim_space out) b'\n'))

module _ (is_ip : Bytes → Bool) (dials : Bytes → ℕ → Bool) where
  -- The loop over the containers.
  unfoldable pub parse_all :
      List DockerInspect → List ServiceRoute → Diagnostics → List ServiceRoute × Diagnostics
  unfolding parse_inspect add_route
  parse_all [] rs d = (rs, d)
  parse_all (c ∷ cs) rs d =
      let p = parse_inspect is_ip dials c in
      parse_all cs (add_route p.route rs)
        (record { warnings = d.warnings ++ p.diag.warnings; errors = d.errors ++ p.diag.errors })

  unfoldable pub check_all : List DockerInspect → Discovered
  unfolding parse_all note_error validate_default_http validate_http_ports
  check_all cs =
      let (rs, d) = parse_all cs [] no_diagnostics in
      discovered rs (note_error (validate_http_ports rs) (note_error (validate_default_http rs) d))

  -- `inspectContainers`, from the list that docker answers.
  unfoldable pub inspected : Answer (List DockerInspect) → Discovered
  unfolding check_all
  inspected (command_failed e) = discover_failed (docker_error e)
  inspected (answered []) = discover_failed empty_inspect
  inspected (answered (c ∷ cs)) = check_all (c ∷ cs)

  -- `Discover` behind `containerIDs`, from the ids and docker's answer for them.
  unfoldable pub discover_listed :
      Answer (List Bytes) → (List Bytes → Answer (List DockerInspect)) → Discovered
  unfolding inspected
  discover_listed (command_failed e) inspect = discover_failed (docker_error e)
  discover_listed (answered []) inspect = discovered [] no_diagnostics
  discover_listed (answered (i ∷ ids)) inspect = inspected (inspect (i ∷ ids))

  -- `Discover`, from what `docker ps` prints and what `docker inspect` answers.
  unfoldable pub discover :
      (ps : Answer Bytes) (inspect : List Bytes → Answer (List DockerInspect)) → Discovered
  unfolding discover_listed container_ids
  discover ps inspect = discover_listed (container_ids ps) inspect
