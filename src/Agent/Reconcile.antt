-- ===== src/Agent/Reconcile.antt =====
-- What Reconcile does with one application that has a state on this node: reconcileLoad and
-- updateBpfAppStateCondition of controllers/bpfman-agent/common.go, checkProgramStatus and the loop over
-- the programs of {cl,ns}_application_program.go.
pub mod Load
pub mod Reporting
pub mod Frame
use bpfman_operator.Shared.{
  Bool, true, false, not, ◌&&◌, ◌||◌, ℕ, zero, suc, String, Option, none, some, List, [], ◌∷◌, ◌==◌,
  string_eq, if◌then◌else◌,
}
use bpfman_operator.Api.Links.{prog_attach_success, program_link_status_eq, ProgramLinkStatus}
use bpfman_operator.Api.Conditions.{
  AppLoadStatus, app_load_success, app_load_error, app_un_load_success, not_selected,
  prog_list_changed_error, app_load_status_eq, BpfApplicationStateConditionType,
  bpf_app_state_cond_success, bpf_app_state_cond_error,
  bpf_app_state_cond_program_list_changed_error, bpf_app_state_cond_unload_error,
  bpf_app_state_cond_unloaded, Condition, state_cond_string, state_condition,
}
use bpfman_operator.Agent.Bpfman.{Error, Result, ok, err, BytecodeLocation, BpfmanClient}
use bpfman_operator.Agent.App.{
  App, Program, ProgramState, AppStateStatus, Scope, get_prog_state, validate_program_list,
  is_loaded, load, unload,
}

-- updateBpfAppStateCondition: the conditions, and whether they changed. `set_status_condition` is
-- `meta.SetStatusCondition`.
unfoldable pub update_bpf_app_state_condition :
    (List Condition → Condition → List Condition)
    → BpfApplicationStateConditionType
    → List Condition
    → List Condition × Bool
unfolding state_condition
update_bpf_app_state_condition set_status_condition cond [] =
    (set_status_condition [] (state_condition cond), true)
update_bpf_app_state_condition set_status_condition cond (c ∷ []) =
    if c.type == state_cond_string cond
    then (c ∷ [], false)
    else (set_status_condition [] (state_condition cond), true)
update_bpf_app_state_condition set_status_condition cond (c ∷ c' ∷ cs) =
    (set_status_condition [] (state_condition cond), true)

module _ {S : Type 0} (scope : Scope S) where
  open scope use {P, I}

  -- The loop of checkProgramStatus.
  unfoldable pub program_statuses : List (ProgramState I) → BpfApplicationStateConditionType
  program_statuses [] = bpf_app_state_cond_success
  program_statuses (s ∷ states) =
      let rest = program_statuses states in
      if not (s.program_link_status == prog_attach_success) then bpf_app_state_cond_error else rest

  -- checkProgramStatus
  unfoldable pub check_program_status : AppStateStatus I → BpfApplicationStateConditionType
  unfolding program_statuses
  check_program_status status =
      if status.app_load_status == app_load_error
      then bpf_app_state_cond_unload_error
      else if status.app_load_status == app_un_load_success
      then bpf_app_state_cond_unloaded
      else program_statuses status.programs

  module _ (client : BpfmanClient) where
    open client use {Daemon}

    abbrev after_unload :
        AppLoadStatus
        → AppStateStatus I
        → List (ProgramState I) × Daemon
        → AppStateStatus I × Option Error × Daemon
    after_unload load_status status (programs, d) =
        (record status { programs = programs; app_load_status = load_status }, none, d)

    abbrev after_load :
        AppStateStatus I
        → List (ProgramState I) × Option Error × Daemon
        → AppStateStatus I × Option Error × Daemon
    after_load status (programs, none, d) =
        (record status { programs = programs; app_load_status = app_load_success }, none, d)
    after_load status (programs, some e, d) =
        (record status { programs = programs; app_load_status = app_load_error }, some e, d)

    abbrev load_unless :
        Bool × Daemon
        → String
        → App P
        → Result BytecodeLocation
        → AppStateStatus I
        → AppStateStatus I × Option Error × Daemon
    load_unless (true, d) uid app bytecode status =
        (record status { app_load_status = app_load_success }, none, d)
    load_unless (false, d) uid app bytecode status =
        after_load status (load scope client uid app bytecode status.programs d)

    abbrev load_valid :
        Option Error
        → String
        → App P
        → Result BytecodeLocation
        → AppStateStatus I
        → Daemon
        → AppStateStatus I × Option Error × Daemon
    load_valid (some e) uid app bytecode status d =
        (record status { app_load_status = prog_list_changed_error }, some e, d)
    load_valid none uid app bytecode status d =
        load_unless (is_loaded scope client status.programs d) uid app bytecode status

    abbrev load_or_unload :
        Bool
        → String
        → App P
        → Result BytecodeLocation
        → AppStateStatus I
        → Daemon
        → AppStateStatus I × Option Error × Daemon
    load_or_unload true uid app bytecode status d =
        after_unload app_un_load_success status (unload scope client status.programs d)
    load_or_unload false uid app bytecode status d =
        load_valid (validate_program_list scope app.programs status.programs) uid app bytecode
          status d

    -- reconcileLoad. `selected` is what isNodeSelected returns, `uid` the state's, and `bytecode` what
    -- GetBytecode returns.
    unfoldable pub reconcile_load :
        Result Bool
        → String
        → App P
        → Result BytecodeLocation
        → AppStateStatus I
        → Daemon
        → AppStateStatus I × Option Error × Daemon
    unfolding unload load is_loaded validate_program_list
    reconcile_load (err e) uid app bytecode status d = (status, some e, d)
    reconcile_load (ok false) uid app bytecode status d =
        after_unload not_selected status (unload scope client status.programs d)
    reconcile_load (ok true) uid app bytecode status d =
        load_or_unload app.deleted uid app bytecode status d

    abbrev put_first :
        ProgramState I
        → Option (List (ProgramState I) × S × Daemon)
        → Option (List (ProgramState I) × S × Daemon)
    put_first s none = none
    put_first s (some (states, agent, d)) = some (s ∷ states, agent, d)

    abbrev put_back :
        ProgramState I
        → List (ProgramState I)
        → Option (I × ProgramLinkStatus × Option Error × S × Daemon)
        → Option (List (ProgramState I) × S × Daemon)
    put_back s states none = none
    put_back s states (some (info, status, error, agent, d)) =
        some (record s { info = info; program_link_status = status } ∷ states, agent, d)

    -- reconcileProgram on the state at a position; its error is only logged.
    unfoldable pub reconcile_at :
        Program P
        → ℕ
        → List (ProgramState I)
        → S
        → Daemon
        → Option (List (ProgramState I) × S × Daemon)
    reconcile_at prog i [] agent d = some ([], agent, d)
    reconcile_at prog zero (s ∷ states) agent d =
        put_back s states (scope.reconcile_program client prog.info s.info s.program_id agent d)
    reconcile_at prog (suc i) (s ∷ states) agent d =
        put_first s (reconcile_at prog i states agent d)

    -- The loop over the programs of the application, which skips a program without a state. `none` is a
    -- panic.
    unfoldable pub reconcile_programs :
        List (Program P)
        → List (ProgramState I)
        → BpfApplicationStateConditionType
        → S
        → Daemon
        → Option (List (ProgramState I) × BpfApplicationStateConditionType × S × Daemon)
    unfolding reconcile_at get_prog_state
    reconcile_programs [] states cond agent d = some (states, cond, agent, d)
    reconcile_programs (prog ∷ progs) states cond agent d =
        elim (get_prog_state scope prog states) [
          | none ↦
              reconcile_programs progs states bpf_app_state_cond_program_list_changed_error agent d
          | some i ↦ elim (reconcile_at prog i states agent d) [
            | none ↦ none
            | some (states', agent', d') ↦ reconcile_programs progs states' cond agent' d'
          ]
        ]

    abbrev checked :
        AppStateStatus I → BpfApplicationStateConditionType → BpfApplicationStateConditionType
    checked status bpf_app_state_cond_success = check_program_status status
    checked status cond = cond

    abbrev after_programs :
        AppStateStatus I
        → Option (List (ProgramState I) × BpfApplicationStateConditionType × S × Daemon)
        → Option (AppStateStatus I × BpfApplicationStateConditionType × S × Daemon)
    after_programs status none = none
    after_programs status (some (programs, cond, agent, d)) =
        let status' = record status { programs = programs } in
        some (status', checked status' cond, agent, d)

    -- The part of Reconcile after reconcileLoad: the programs, unless the application is being deleted,
    -- and the condition to report.
    unfoldable pub reconcile_links :
        App P
        → AppStateStatus I
        → S
        → Daemon
        → Option (AppStateStatus I × BpfApplicationStateConditionType × S × Daemon)
    unfolding reconcile_programs check_program_status
    reconcile_links app status agent d =
        if app.deleted
        then some (status, check_program_status status, agent, d)
        else after_programs status
            (reconcile_programs app.programs status.programs bpf_app_state_cond_success agent d)
