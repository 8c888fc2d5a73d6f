-- ===== src/Examples/Applications.antt =====
-- A concrete BpfApplication on one node.
use bpfman_operator.Shared.{
  true, false, String, none, some, List, [], ◌∷◌, ◌≡◌, refl, contains, string_eq, map, ◌↔◌,
}
use bpfman_operator.Api.Links.{prog_attach_pending}
use bpfman_operator.Api.Conditions.{Condition, bpf_app_state_cond_error, app_load_not_loaded}
use bpfman_operator.Agent.Bpfman.{Result, ok, file, BytecodeLocation, LoadRequest, LoadResponseInfo}
use bpfman_operator.Agent.App.{
  App, Program, ProgramState, AppStateStatus, init_state, initialize_node_program_list,
  validate_program_list, load, get_load_request, Scope,
}
use bpfman_operator.Agent.App.Programs.{
  no_repeats, names_of, state_names_of, validate_program_list_iff,
}
use bpfman_operator.Agent.App.Initialized.{are_unclashing, initialize_node_program_list_iff}
use bpfman_operator.Agent.App.Loading.{load-AllHaveIds, AllHaveIds}
use bpfman_operator.Agent.Reconcile.{reconcile_load, update_bpf_app_state_condition}
use bpfman_operator.Agent.Reconcile.Load.{IsSettled, reconcile_load-IsSettled}
use bpfman_operator.Agent.Reconcile.Reporting.{reads, update_bpf_app_state_condition-reads}
use bpfman_operator.Agent.Kinds.{AgentState}
use bpfman_operator.Agent.Scopes.Namespace.{ns_scope, xdp_program, tc_program, xdp_state, tc_state}
use bpfman_operator.Examples.{daemon, node}

-- The scope of a BpfApplication on the node.
abbrev pub scope : Scope AgentState
scope = ns_scope node

-- An XDP and a TC program without entries.
unfoldable pub progs : List (Program scope.P)
unfolding ns_scope
progs =
    record { name = "count"; info = xdp_program [] }
    ∷ record { name = "drop"; info = tc_program [] }
    ∷ []

abbrev pub application : App scope.P
application = record {
  namespace = "default";
  name = "app";
  deleted = false;
  global_data = [];
  programs = progs;
}

abbrev bytecode : Result BytecodeLocation
bytecode = ok (file "/bytecode.o")

-- Their states, before and after they are loaded.
abbrev pub states : List (ProgramState scope.I)
states = map (init_state scope) progs

unfoldable loaded_states : List (ProgramState scope.I)
unfolding ns_scope progs
loaded_states =
    record {
      name = "count";
      program_id = some 1;
      program_link_status = prog_attach_pending;
      info = xdp_state [];
    }
    ∷ record {
      name = "drop";
      program_id = some 2;
      program_link_status = prog_attach_pending;
      info = tc_state [];
    }
    ∷ []

abbrev pub status : AppStateStatus scope.I
status = record {
  update_count = 0;
  app_load_status = app_load_not_loaded;
  programs = states;
  conditions = [];
}

initialize_node_program_list_iff_example :
    ((initialize_node_program_list scope progs []).1 ≡ none) ↔ (are_unclashing scope progs ≡ true)
initialize_node_program_list_iff_example = initialize_node_program_list_iff scope progs

validate_program_list_iff_example : (validate_program_list scope progs states ≡ none) ↔ (
    (no_repeats (names_of scope progs) ≡ true)
    × ((x : String) → contains x (names_of scope progs) ≡ contains x (state_names_of scope states)))
validate_program_list_iff_example = validate_program_list_iff scope progs states

load_test : (load scope daemon "uid" application bytecode states []).1 ≡ none
unfolding load progs ns_scope
load_test = refl

load-AllHaveIds_example :
    (req : LoadRequest) × (response : List LoadResponseInfo) × (get_load_request scope daemon "uid"
        application bytecode states
      ≡ ok req)
    × ((daemon.load req []).0 ≡ some response)
    × AllHaveIds scope daemon response states
        (load scope daemon "uid" application bytecode states []).0
load-AllHaveIds_example =
    load-AllHaveIds scope daemon "uid" application bytecode states [] load_test

reconcile_load_test :
    (reconcile_load scope daemon (ok true) "uid" application bytecode status []).1 ≡ none
unfolding reconcile_load progs ns_scope
reconcile_load_test = refl

reconcile_load-IsSettled_example :
    IsSettled scope daemon "uid" application bytecode true false status []
      (reconcile_load scope daemon (ok true) "uid" application bytecode status [])
reconcile_load-IsSettled_example =
    reconcile_load-IsSettled scope daemon "uid" application bytecode true status []
      reconcile_load_test

abbrev set_condition : List Condition → Condition → List Condition
set_condition cs c = c ∷ cs

update_bpf_app_state_condition-reads_example :
    reads set_condition bpf_app_state_cond_error
      (update_bpf_app_state_condition set_condition bpf_app_state_cond_error []).0
    ≡ (false, true, false)
unfolding update_bpf_app_state_condition
update_bpf_app_state_condition-reads_example =
    update_bpf_app_state_condition-reads set_condition (λ c. (c, refl, refl))
      bpf_app_state_cond_error [] refl
