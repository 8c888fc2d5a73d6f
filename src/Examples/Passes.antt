-- ===== src/Examples/Passes.antt =====
-- A cluster with one application, whose API server shows a write only after a pause.
use bpfman_operator.Shared.{
  true, ℕ, Option, none, some, List, [], ◌∷◌, Eq, nat_eq, string_eq, eq_of_discrete, discrete_of_eq,
  ◌≡◌, ◌≢◌, ◌<◌, ◌≤◌, ◌⊎◌, refl, arith, delete,
}
use bpfman_operator.Agent.Bpfman.{Result, ok, err, bytecode_error}
use bpfman_operator.Agent.App.{App, AppStateStatus}
use bpfman_operator.Agent.Reconcile.{reconcile_load}
use bpfman_operator.Agent.Kinds.{AgentState}
use bpfman_operator.Agent.Controller.{
  AppState, AgentApi, get_bpf_app_state, wait_for_bpf_app_state_status_update,
}
use bpfman_operator.Agent.Controller.Pass.{World, next_app, reconcile_app, reconcile_apps}
use bpfman_operator.Agent.Controller.Polls.{
  passes, wait_for_bpf_app_state_status_update-fresh, wait_for_bpf_app_state_status_update-found,
}
use bpfman_operator.Agent.Controller.Order.{reconcile_apps-blocked}
use bpfman_operator.Agent.Controller.OneWrite.{StopsAtOne, WritesNothing, reconcile_apps-IsOneWrite}
use bpfman_operator.Api.Control.{CtrlResult, done}
use bpfman_operator.Api.Conditions.{
  app_load_success, prog_list_changed_error, bpf_app_state_cond_error, app_load_error,
  state_condition, bpf_app_state_cond_success,
}
use bpfman_operator.Agent.Scopes.Namespace.{ns_scope, NsProgramInfoState}
use bpfman_operator.Examples.{daemon, idle}
use bpfman_operator.Examples.Applications.{scope, progs, application, status}

unfoldable pub status-discrete : Discrete (AppStateStatus NsProgramInfoState)
status-discrete = hlevel (discrete_of_eq nat_eq, discrete_of_eq string_eq)

instance unfoldable pub status_eq : Eq (AppStateStatus scope.I)
unfolding ns_scope status-discrete
status_eq = eq_of_discrete status-discrete

-- What the API server shows, and what it shows after the next pause.
abbrev pub States : Type 0
States = List (AppState scope.I)

abbrev pub server : AgentApi scope.P scope.I
server = record {
  Cluster = States × States;
  Node = Unit;
  get_node = λ name c. some tt;
  is_node_selected = λ app node. ok true;
  list_apps = λ c. some (application ∷ []);
  list_states = λ namespace owner host c. some c.0;
  create = λ s c. (true, (c.0, s ∷ []));
  update_status = λ s c. (true, (c.0, s ∷ []));
  update = λ s c. (true, (c.0, s ∷ []));
  pass = λ c. (c.1, c.1);
  get_bytecode = λ app c. err bytecode_error;
  unique_name = λ name. name;
  set_controller_reference = λ app s. ok s;
  remove_finalizer = λ finalizers finalizer. (true, delete finalizer finalizers);
  set_status_condition = λ conditions condition. condition ∷ [];
}

abbrev pub state : AppState scope.I
state = record {
  namespace = "default";
  name = "app";
  uid = "uid";
  finalizers = "agent" ∷ [];
  owner = "app";
  host = "node";
  status = status;
}

abbrev newer : AppState scope.I
newer = record state { status = record status { update_count = 1 } }

-- The write of the newer state is not visible yet.
abbrev cluster : States × States
cluster = (state ∷ [], newer ∷ [])

abbrev world : World (States × States) AgentState (List ℕ)
world = record { cluster = cluster; agent = idle; daemon = [] }

-- An application without programs that has settled.
abbrev settled_app : App scope.P
settled_app = record application { programs = [] }

unfoldable settled_state : AppState scope.I
unfolding state_condition
settled_state = record state {
  status = record {
    update_count = 4;
    app_load_status = app_load_success;
    programs = [];
    conditions = state_condition bpf_app_state_cond_success ∷ [];
  };
}

abbrev settled_world : World (States × States) AgentState (List ℕ)
settled_world = record { cluster = (settled_state ∷ [], []); agent = idle; daemon = [] }

abbrev wait : ℕ → States × States → Option (AppState scope.I) × (States × States)
wait count c =
    wait_for_bpf_app_state_status_update scope server "node" "agent" 3 application count c

wait_test : wait 1 cluster ≡ (some newer, (newer ∷ [], newer ∷ []))
unfolding wait_for_bpf_app_state_status_update
wait_test = refl

no_wait_test : (wait 2 cluster).0 ≡ none
unfolding wait_for_bpf_app_state_status_update
no_wait_test = refl

wait_for_bpf_app_state_status_update-fresh_example :
    (k : ℕ) × (k < 3)
    × ((newer ∷ [], newer ∷ []) ≡ passes scope server "node" "agent" 3 k cluster)
    × (get_bpf_app_state scope server "node" "agent" 3 application (newer ∷ [], newer ∷ [])
        ≡ ok (some newer))
    × (1 ≤ newer.status.update_count)
wait_for_bpf_app_state_status_update-fresh_example =
    wait_for_bpf_app_state_status_update-fresh scope server "node" "agent" 3 application 1 cluster
      newer (newer ∷ [], newer ∷ []) wait_test

visible_test :
    get_bpf_app_state scope server "node" "agent" 3 application
      (passes scope server "node" "agent" 3 1 cluster)
    ≡ ok (some newer)
unfolding get_bpf_app_state
visible_test = refl

wait_for_bpf_app_state_status_update-found_example : (wait 1 cluster).0 ≢ none
wait_for_bpf_app_state_status_update-found_example =
    wait_for_bpf_app_state_status_update-found scope server "node" "agent" 3 application 1 1 cluster
      newer (omega arith) visible_test (omega arith)

there_test : get_bpf_app_state scope server "node" "agent" 3 application cluster ≡ ok (some state)
unfolding get_bpf_app_state
there_test = refl

abbrev failed_status : AppStateStatus scope.I
failed_status = record status { app_load_status = app_load_error }

failed_test :
    reconcile_load scope daemon (ok true) "uid" application (err bytecode_error) status []
    ≡ (failed_status, some bytecode_error, [])
unfolding reconcile_load progs ns_scope
failed_test = refl

reconcile_apps-blocked_example :
    reconcile_apps scope server daemon
      (λ agent. agent)
      "node"
      "agent"
      3
      tt
      (application ∷ settled_app ∷ [])
      world
    ≡ reconcile_apps scope server daemon
        (λ agent. agent)
        "node"
        "agent"
        3
        tt
        (application ∷ [])
        world
reconcile_apps-blocked_example =
    reconcile_apps-blocked scope server daemon (λ agent. agent) "node" "agent" 3 tt application
      (settled_app ∷ []) world state failed_status bytecode_error [] there_test failed_test

settled_test :
    reconcile_app scope server daemon (λ agent. agent) "node" "agent" 3 tt settled_app settled_world
    ≡ some (next_app settled_world)
unfolding reconcile_app ns_scope settled_state status_eq
settled_test = refl

abbrev pass :
    List (App scope.P)
    → World (States × States) AgentState (List ℕ)
    → Option (Result CtrlResult × World (States × States) AgentState (List ℕ))
pass apps w = reconcile_apps scope server daemon (λ agent. agent) "node" "agent" 3 tt apps w

-- What a pass writes that finds more programs in an application than in its state.
unfoldable written_state : AppState scope.I
unfolding settled_state state_condition
written_state = record settled_state {
  status = record settled_state.status {
    update_count = 5;
    app_load_status = prog_list_changed_error;
    conditions = state_condition bpf_app_state_cond_error ∷ [];
  };
}

abbrev written_world : World (States × States) AgentState (List ℕ)
written_world = record settled_world { cluster = (written_state ∷ [], written_state ∷ []) }

pass_test :
    pass (settled_app ∷ application ∷ settled_app ∷ []) settled_world
    ≡ some (ok done, written_world)
unfolding reconcile_apps ns_scope progs settled_state written_state status_eq
pass_test = refl

reconcile_apps-IsOneWrite_example :
    StopsAtOne scope server daemon
      (λ agent. agent)
      "node"
      "agent"
      3
      tt
      (settled_app ∷ application ∷ settled_app ∷ [])
      settled_world
      (ok done)
      written_world
    ⊎ WritesNothing scope server daemon
        (λ agent. agent)
        "node"
        "agent"
        3
        settled_world
        (ok done)
        written_world
reconcile_apps-IsOneWrite_example =
    reconcile_apps-IsOneWrite scope server daemon (λ agent. agent) "node" "agent" 3 tt
      (settled_app ∷ application ∷ settled_app ∷ []) settled_world (ok done) written_world pass_test
