-- ===== src/Agent/Controller.antt =====
-- Reconcile of the agent, with the API server: controllers/bpfman-agent/ns_application_program.go and
-- cl_application_program.go, which differ in names only.
pub mod Pass
pub mod Polls
pub mod Order
pub mod Writes
pub mod OneWrite
use bpfman_operator.Shared.{
  Bool, true, false, not, ◌&&◌, ℕ, zero, suc, ◌+◌, String, Option, none, some, List, [], ◌∷◌, Eq,
  ◌==◌, if◌then◌else◌, leb,
}
use bpfman_operator.Api.Conditions.{
  Condition, app_load_not_loaded, BpfApplicationStateConditionType, bpf_app_state_cond_error,
  bpf_app_state_cond_pending,
}
use bpfman_operator.Api.Control.{CtrlResult, done, requeue_after}
use bpfman_operator.Api.Helpers.{is_bpf_app_state_condition_failure}
use bpfman_operator.Agent.Bpfman.{
  Error, Result, ok, err, kube_failed, more_than_one_state, update_timeout, BytecodeLocation,
  BpfmanClient,
}
use bpfman_operator.Agent.App.{
  App, ProgramState, AppStateStatus, Scope, initialize_node_program_list,
}
use bpfman_operator.Agent.Reconcile.{
  reconcile_load, reconcile_links, update_bpf_app_state_condition,
}

-- `BpfApplicationState` and `ClusterBpfApplicationState`.
pub record AppState (I : Type 0) : Type 0 where
  pub namespace : String
  pub name : String
  pub uid : String
  pub finalizers : List String
  pub owner : String
  pub host : String
  pub status : AppStateStatus I

-- The API server and what the agent calls of the client libraries. A read gives `none` for an error,
-- a write whether it succeeded. `pass` is what happens between two attempts of a poll.
pub record AgentApi (P I : Type 0) : Type 1 where
  pub Cluster : Type 0
  pub Node : Type 0
  pub get_node : (name : String) → Cluster → Option Node
  pub is_node_selected : App P → Node → Result Bool
  pub list_apps : Cluster → Option (List (App P))
  pub list_states : (namespace owner host : String) → Cluster → Option (List (AppState I))
  pub create : AppState I → Cluster → Bool × Cluster
  pub update_status : AppState I → Cluster → Bool × Cluster
  pub update : AppState I → Cluster → Bool × Cluster
  pub pass : Cluster → Cluster
  pub get_bytecode : App P → Cluster → Result BytecodeLocation
  pub unique_name : String → String
  pub set_controller_reference : App P → AppState I → Result (AppState I)
  pub remove_finalizer : List String → String → Bool × List String
  pub set_status_condition : List Condition → Condition → List Condition

module _ {S : Type 0} (scope : Scope S) (api : AgentApi scope.P scope.I)
    (node_name finalizer : String) (attempts : ℕ) ⦃same : Eq (AppStateStatus scope.I)⦄ where
  open scope use {P, I}
  open api use {Cluster}

  abbrev one_state : Option (List (AppState I)) → Result (Option (AppState I))
  one_state none = err kube_failed
  one_state (some []) = ok none
  one_state (some (s ∷ [])) = ok (some s)
  one_state (some (s ∷ s' ∷ states)) = err more_than_one_state

  -- getBpfAppState
  unfoldable pub get_bpf_app_state : App P → Cluster → Result (Option (AppState I))
  get_bpf_app_state app c = one_state (api.list_states app.namespace app.name node_name c)

  abbrev accepted : (AppState I → Bool) → Result (Option (AppState I)) → Option (AppState I)
  accepted accept (err e) = none
  accepted accept (ok none) = none
  accepted accept (ok (some s)) = if accept s then some s else none

  abbrev or_later :
      Option (AppState I) → Cluster → Option (AppState I) × Cluster → Option (AppState I) × Cluster
  or_later none c later = later
  or_later (some s) c later = (some s, c)

  -- The poll of waitForBpfAppStateSpecUpdate and waitForBpfAppStateStatusUpdate: so many attempts, the
  -- first at once; errors only cost an attempt.
  unfoldable pub poll : (AppState I → Bool) → App P → ℕ → Cluster → Option (AppState I) × Cluster
  unfolding get_bpf_app_state
  poll accept app zero c = (none, c)
  poll accept app (suc n) c =
      or_later (accepted accept (get_bpf_app_state app c)) c (poll accept app n (api.pass c))

  -- waitForBpfAppStateSpecUpdate
  unfoldable pub wait_for_bpf_app_state_spec_update :
      App P → Cluster → Option (AppState I) × Cluster
  unfolding poll
  wait_for_bpf_app_state_spec_update app c = poll (λ s. true) app attempts c

  -- waitForBpfAppStateStatusUpdate
  unfoldable pub wait_for_bpf_app_state_status_update :
      App P → ℕ → Cluster → Option (AppState I) × Cluster
  unfolding poll
  wait_for_bpf_app_state_status_update app count c =
      poll (λ (s : AppState I). leb count s.status.update_count) app attempts c

  abbrev bump : AppState I → AppState I
  bump s = record s { status = record s.status { update_count = s.status.update_count + 1 } }

  abbrev is_changed : Option (AppStateStatus I) → AppStateStatus I → Bool
  is_changed none status = true
  is_changed (some original) status = not (original == status)

  abbrev waited :
      AppState I → Option (AppState I) × Cluster → Bool × Option Error × AppState I × Cluster
  waited s (none, c) = (true, some update_timeout, s, c)
  waited s (some s', c) = (true, none, s', c)

  abbrev status_written :
      App P → AppState I → Bool × Cluster → Bool × Option Error × AppState I × Cluster
  status_written app s (false, c) = (true, some kube_failed, s, c)
  status_written app s (true, c) =
      waited s (wait_for_bpf_app_state_status_update app s.status.update_count c)

  abbrev write_if : Bool → App P → AppState I → Cluster → Bool × Option Error × AppState I × Cluster
  write_if true app s c = status_written app (bump s) (api.update_status (bump s) c)
  write_if false app s c = (false, none, s, c)

  -- updateBpfAppStateStatus: whether the status changed, the error, and the current state.
  unfoldable pub update_bpf_app_state_status :
      App P
      → Option (AppStateStatus I)
      → AppState I
      → Cluster
      → Bool × Option Error × AppState I × Cluster
  unfolding wait_for_bpf_app_state_status_update
  update_bpf_app_state_status app original s c = write_if (is_changed original s.status) app s c

  abbrev set_condition : BpfApplicationStateConditionType → AppStateStatus I → AppStateStatus I
  set_condition cond status = record status {
    conditions = (update_bpf_app_state_condition api.set_status_condition cond status.conditions).0;
  }

  abbrev requeue_on : Option Error → CtrlResult
  requeue_on none = done
  requeue_on (some e) = requeue_after 1

  abbrev reported_initial : Bool × Option Error × AppState I × Cluster → CtrlResult × Cluster
  reported_initial (changed, error, s, c) = (requeue_on error, c)

  -- initBpfAppStateStatus and the update after it.
  abbrev with_programs :
      App P → AppState I → List (ProgramState I) × Option Error → Cluster → CtrlResult × Cluster
  with_programs app s (programs, some e) c = (requeue_after 1, c)
  with_programs app s (programs, none) c = reported_initial (
      update_bpf_app_state_status app none
        (record s {
          status = set_condition bpf_app_state_cond_pending (record {
            update_count = 0;
            app_load_status = app_load_not_loaded;
            programs = programs;
            conditions = [];
          });
        })
        c)

  abbrev after_wait : App P → Option (AppState I) × Cluster → CtrlResult × Cluster
  after_wait app (none, c) = (requeue_after 1, c)
  after_wait app (some s, c) =
      with_programs app s (initialize_node_program_list scope app.programs []) c

  abbrev after_create : App P → Bool × Cluster → CtrlResult × Cluster
  after_create app (false, c) = (requeue_after 1, c)
  after_create app (true, c) = after_wait app (wait_for_bpf_app_state_spec_update app c)

  abbrev create_owned : App P → Result (AppState I) → Cluster → CtrlResult × Cluster
  create_owned app (err e) c = (requeue_after 1, c)
  create_owned app (ok s) c = after_create app (api.create s c)

  -- initBpfAppState, before the owner is set.
  abbrev new_state : App P → AppState I
  new_state app = record {
    namespace = app.namespace;
    name = api.unique_name app.name;
    uid = "";
    finalizers = finalizer ∷ [];
    owner = app.name;
    host = node_name;
    status = record {
      update_count = 0;
      app_load_status = app_load_not_loaded;
      programs = [];
      conditions = [];
    };
  }

  -- createBpfAppState
  unfoldable pub create_bpf_app_state : App P → Cluster → CtrlResult × Cluster
  unfolding update_bpf_app_state_status wait_for_bpf_app_state_spec_update
      initialize_node_program_list update_bpf_app_state_condition
  create_bpf_app_state app c = create_owned app (api.set_controller_reference app (new_state app)) c
