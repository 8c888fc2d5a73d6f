-- ===== src/Agent/App.antt =====
-- One application on one node: its state, and the operations of
-- controllers/bpfman-agent/{cl,ns}_application_program.go on it, which differ between the scopes only
-- in the kinds of program. A scope is an instance of `Scope`.
pub mod Programs
pub mod Loading
pub mod Initialized
use bpfman_operator.Shared.{
  Bool, true, false, not, ◌&&◌, ◌||◌, ℕ, zero, suc, String, Option, none, some, List, [], ◌∷◌, ◌++◌,
  ◌==◌, string_eq, contains, delete, if◌then◌else◌, map,
}
use bpfman_operator.Api.Links.{ProgramLinkStatus, prog_attach_pending, prog_attach_success}
use bpfman_operator.Api.Conditions.{AppLoadStatus, Condition}
use bpfman_operator.Agent.Bpfman.{
  Error, duplicate_function, already_initialized, programs_added, programs_removed,
  prog_state_not_found, rpc_failed, Result, ok, err, LoadInfo, LoadRequest, LoadResponseInfo,
  BytecodeLocation, BpfmanClient, get_bpf_program_id,
}

-- `BpfApplicationProgram` and `ClBpfApplicationProgram`: `P` is the union of the kinds' parts.
pub record Program (P : Type 0) : Type 0 where
  pub name : String
  pub info : P

-- `BpfApplicationProgramState` and `ClBpfApplicationProgramState`: `I` is the union of the kinds'
-- parts, which hold the links.
pub record ProgramState (I : Type 0) : Type 0 where
  pub name : String
  pub program_id : Option ℕ
  pub program_link_status : ProgramLinkStatus
  pub info : I

-- `BpfApplicationStateStatus`.
pub record AppStateStatus (I : Type 0) : Type 0 where
  pub update_count : ℕ
  pub app_load_status : AppLoadStatus
  pub programs : List (ProgramState I)
  pub conditions : List Condition

-- What the code reads of `metav1.ObjectMeta` and the spec of an application.
pub record App (P : Type 0) : Type 0 where
  pub namespace : String
  pub name : String
  pub deleted : Bool
  pub global_data : List (String × List ℕ)
  pub programs : List (Program P)

-- What the switches on a program's type choose: whether a state is of the program's type (and, for
-- fentry and fexit, of its function), the initial state, the state without links, the part of the
-- LoadRequest, and reconcileProgram. `none` is a panic.
pub record Scope (S : Type 0) : Type 1 where
  pub P : Type 0
  pub I : Type 0
  pub same_kind : P → I → Bool
  pub init_info : P → I
  pub delete_links : I → I
  pub program_load_info : String → P → LoadInfo
  pub reconcile_program :
      (client : BpfmanClient)
      → P
      → I
      → Option ℕ
      → S
      → client.Daemon
      → Option (I × ProgramLinkStatus × Option Error × S × client.Daemon)

module _ {S : Type 0} (scope : Scope S) where
  open scope use {P, I}

  abbrev next : Option ℕ → Option ℕ
  next none = none
  next (some i) = some (suc i)

  abbrev pub is_state_of : Program P → ProgramState I → Bool
  is_state_of prog s = scope.same_kind prog.info s.info && s.name == prog.name

  -- getProgState: the position of the first state of the program, behind the returned pointer.
  unfoldable pub get_prog_state : Program P → List (ProgramState I) → Option ℕ
  get_prog_state prog [] = none
  get_prog_state prog (s ∷ states) =
      let rest = get_prog_state prog states in if is_state_of prog s then some 0 else next rest

  abbrev pub init_state : Program P → ProgramState I
  init_state prog = record {
    name = prog.name;
    program_id = none;
    program_link_status = prog_attach_pending;
    info = scope.init_info prog.info;
  }

  -- The loop of initializeNodeProgramList, and what it leaves in the status on an error.
  unfoldable pub initialize_from :
      List (Program P) → List (ProgramState I) → List (ProgramState I) × Option Error
  unfolding get_prog_state
  initialize_from [] states = (states, none)
  initialize_from (prog ∷ progs) states = elim (get_prog_state prog states) [
    | some i ↦ (states, some (duplicate_function prog.name))
    | none ↦ initialize_from progs (states ++ init_state prog ∷ [])
  ]

  -- initializeNodeProgramList
  unfoldable pub initialize_node_program_list :
      List (Program P) → List (ProgramState I) → List (ProgramState I) × Option Error
  unfolding initialize_from
  initialize_node_program_list progs [] = initialize_from progs []
  initialize_node_program_list progs (s ∷ states) = (s ∷ states, some already_initialized)

  -- The keys of the map of validateProgramList: the states' names, each once.
  unfoldable pub state_names : List (ProgramState I) → List String
  state_names [] = []
  state_names (s ∷ states) =
      let rest = state_names states in if contains s.name rest then rest else s.name ∷ rest

  -- The second loop of validateProgramList: the names that were added, and the map's keys after it.
  unfoldable pub check_added : List (Program P) → List String → List String × List String
  check_added [] names = ([], names)
  check_added (prog ∷ progs) names =
      let (added, left) = check_added progs names in
      let (added', left') = check_added progs (delete prog.name names) in
      if contains prog.name names then (added', left') else (prog.name ∷ added, left)

  abbrev validated : List String × List String → Option Error
  validated (a ∷ added, left) = some (programs_added (a ∷ added))
  validated ([], n ∷ left) = some (programs_removed (n ∷ left))
  validated ([], []) = none

  -- validateProgramList
  unfoldable pub validate_program_list : List (Program P) → List (ProgramState I) → Option Error
  unfolding check_added state_names
  validate_program_list progs states = validated (check_added progs (state_names states))

  -- deleteLinks, and the other assignments of unload to one program.
  abbrev pub unloaded : ProgramState I → ProgramState I
  unloaded s = record s {
    program_id = none;
    info = scope.delete_links s.info;
    program_link_status = prog_attach_success;
  }

  module _ (client : BpfmanClient) where
    open client use {Daemon}

    abbrev both : Bool → Bool × Daemon → Bool × Daemon
    both b (rest, d) = (b && rest, d)

    abbrev is_some : Option (List ℕ) → Bool
    is_some none = false
    is_some (some links) = true

    abbrev is_program_loaded : ProgramState I → Daemon → Bool × Daemon
    is_program_loaded s d = elim s.program_id [
      | none ↦ (false, d)
      | some id ↦ let (response, d') = client.get id d in (is_some response, d')
    ]

    -- isLoaded
    unfoldable pub is_loaded : List (ProgramState I) → Daemon → Bool × Daemon
    is_loaded [] d = (true, d)
    is_loaded (s ∷ states) d =
        let (here, d') = is_program_loaded s d in both here (is_loaded states d')

    abbrev unload_program : ProgramState I → Daemon → ProgramState I × Daemon
    unload_program s d = elim s.program_id [
      | none ↦ (record s { program_link_status = prog_attach_success }, d)
      | some id ↦ let (done, d') = client.unload id d in (unloaded s, d')
    ]

    abbrev add_first :
        ProgramState I → List (ProgramState I) × Daemon → List (ProgramState I) × Daemon
    add_first s (states, d) = (s ∷ states, d)

    -- unload: an error of the call is only logged.
    unfoldable pub unload : List (ProgramState I) → Daemon → List (ProgramState I) × Daemon
    unload [] d = ([], d)
    unload (s ∷ states) d = let (s', d') = unload_program s d in add_first s' (unload states d')

    abbrev add_info : LoadInfo → Result (List LoadInfo) → Result (List LoadInfo)
    add_info info (err e) = err e
    add_info info (ok infos) = ok (info ∷ infos)

    -- The loop of getLoadRequest.
    unfoldable pub load_infos : List (Program P) → List (ProgramState I) → Result (List LoadInfo)
    unfolding get_prog_state
    load_infos [] states = ok []
    load_infos (prog ∷ progs) states =
        let rest = load_infos progs states in
        elim (get_prog_state prog states) [
          | none ↦ err (prog_state_not_found prog.name)
          | some i ↦ add_info (scope.program_load_info prog.name prog.info) rest
        ]

    abbrev request : String → App P → BytecodeLocation → Result (List LoadInfo) → Result LoadRequest
    request uid app bytecode (err e) = err e
    request uid app bytecode (ok infos) = ok (record {
      bytecode = bytecode;
      metadata = ("bpfman.io/uuid", uid) ∷ ("bpfman.io/ProgramName", app.name) ∷ [];
      global_data = app.global_data;
      info = infos;
    })

    -- getLoadRequest. `bytecode` is what GetBytecode returns.
    unfoldable pub get_load_request :
        String → App P → Result BytecodeLocation → List (ProgramState I) → Result LoadRequest
    unfolding load_infos
    get_load_request uid app (err e) states = err e
    get_load_request uid app (ok bytecode) states =
        request uid app bytecode (load_infos app.programs states)

    abbrev pub set_program_id : ℕ → ProgramState I → ProgramState I
    set_program_id id s = record s { program_id = some id }

    abbrev assigned :
        ProgramState I
        → List (ProgramState I)
        → Result ℕ
        → List (ProgramState I) × Option Error
        → List (ProgramState I) × Option Error
    assigned s states (err e) rest = (s ∷ states, some e)
    assigned s states (ok id) (states', error) = (set_program_id id s ∷ states', error)

    -- The loop of load: the ids up to the first program that the response lacks.
    unfoldable pub assign_ids :
        List LoadResponseInfo → List (ProgramState I) → List (ProgramState I) × Option Error
    unfolding get_bpf_program_id
    assign_ids response [] = ([], none)
    assign_ids response (s ∷ states) =
        assigned s states (get_bpf_program_id s.name response) (assign_ids response states)

    abbrev loaded :
        List (ProgramState I)
        → Option (List LoadResponseInfo) × Daemon
        → List (ProgramState I) × Option Error × Daemon
    loaded states (none, d) = (states, some rpc_failed, d)
    loaded states (some response, d) =
        let (states', error) = assign_ids response states in (states', error, d)

    abbrev sent :
        List (ProgramState I)
        → Result LoadRequest
        → Daemon
        → List (ProgramState I) × Option Error × Daemon
    sent states (err e) d = (states, some e, d)
    sent states (ok req) d = loaded states (client.load req d)

    -- load
    unfoldable pub load :
        String
        → App P
        → Result BytecodeLocation
        → List (ProgramState I)
        → Daemon
        → List (ProgramState I) × Option Error × Daemon
    unfolding get_load_request assign_ids
    load uid app bytecode states d = sent states (get_load_request uid app bytecode states) d
