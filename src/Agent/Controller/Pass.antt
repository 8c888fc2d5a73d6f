-- ===== src/Agent/Controller/Pass.antt =====
-- Reconcile of the agent: one pass over the applications
-- (controllers/bpfman-agent/{ns,cl}_application_program.go, which differ in names only).
use bpfman_operator.Shared.{
  Bool, true, false, not, ◌&&◌, ℕ, String, Option, none, some, List, [], ◌∷◌, Eq, if◌then◌else◌,
}
use bpfman_operator.Api.Conditions.{BpfApplicationStateConditionType, bpf_app_state_cond_error}
use bpfman_operator.Api.Control.{CtrlResult, done, requeue_after}
use bpfman_operator.Api.Helpers.{is_bpf_app_state_condition_failure}
use bpfman_operator.Agent.Bpfman.{Error, Result, ok, err, kube_failed, BpfmanClient}
use bpfman_operator.Agent.App.{App, AppStateStatus, Scope}
use bpfman_operator.Agent.Reconcile.{
  reconcile_load, reconcile_links, update_bpf_app_state_condition,
}
use bpfman_operator.Agent.Controller.{
  AppState, AgentApi, get_bpf_app_state, update_bpf_app_state_status, create_bpf_app_state,
  set_condition,
}

-- What Reconcile works on.
pub record World (Cluster S Daemon : Type 0) : Type 0 where
  pub cluster : Cluster
  pub agent : S
  pub daemon : Daemon

-- The end of the loop's body: `continue`, or `return`.
pub data Step (W : Type 0) : Type 0 where
  next_app : W → Step W
  stop : Result CtrlResult → W → Step W

module _ {S : Type 0} (scope : Scope S) (api : AgentApi scope.P scope.I) (client : BpfmanClient)
    (reset : S → S) (node_name finalizer : String) (attempts : ℕ)
    ⦃same : Eq (AppStateStatus scope.I)⦄ where
  open scope use {P, I}
  open api use {Cluster, Node}

  abbrev pub State : Type 0
  State = World Cluster S client.Daemon

  -- Whether removeFinalizer took it off, upon which Reconcile returns: an error of the write is only
  -- logged.
  abbrev pub dropped : AppState I → State → Bool × List String → Step State
  dropped s w (true, finalizers) =
      stop (ok done)
        (record w { cluster = (api.update (record s { finalizers = finalizers }) w.cluster).1 })
  dropped s w (false, finalizers) = next_app w

  abbrev drop_finalizer : AppState I → State → Step State
  drop_finalizer s w = dropped s w (api.remove_finalizer s.finalizers finalizer)

  abbrev pub unchanged : Bool → AppState I → State → Step State
  unchanged true s w = drop_finalizer s w
  unchanged false s w = next_app w

  -- The end of the loop's body.
  abbrev pub after_report : App P → State → Bool × Option Error × AppState I × Cluster → Step State
  after_report app w (changed, some e, s, c) =
      stop (ok (requeue_after 1)) (record w { cluster = c })
  after_report app w (true, none, s, c) = stop (ok done) (record w { cluster = c })
  after_report app w (false, none, s, c) =
      unchanged (app.deleted && not (is_bpf_app_state_condition_failure s.status.conditions)) s
        (record w { cluster = c })

  -- The same after an error of reconcileLoad.
  abbrev pub after_failed_load : State → Bool × Option Error × AppState I × Cluster → Step State
  after_failed_load w (changed, some e, s, c) =
      stop (ok (requeue_after 1)) (record w { cluster = c })
  after_failed_load w (true, none, s, c) = stop (ok done) (record w { cluster = c })
  after_failed_load w (false, none, s, c) = next_app (record w { cluster = c })

  abbrev with_condition :
      AppState I → AppStateStatus I → BpfApplicationStateConditionType → AppState I
  with_condition s status cond = record s {
    status = set_condition scope api node_name finalizer attempts cond status;
  }

  abbrev pub after_links :
      App P
      → AppState I
      → State
      → Option (AppStateStatus I × BpfApplicationStateConditionType × S × client.Daemon)
      → Option (Step State)
  after_links app s w none = none
  after_links app s w (some (status, cond, agent, d)) = some (
      after_report app (record w { agent = agent; daemon = d })
        (update_bpf_app_state_status scope api node_name finalizer attempts app (some s.status)
          (with_condition s status cond) w.cluster))

  abbrev pub after_load :
      App P
      → AppState I
      → State
      → AppStateStatus I × Option Error × client.Daemon
      → Option (Step State)
  after_load app s w (status, some e, d) = some (
      after_failed_load (record w { daemon = d })
        (update_bpf_app_state_status scope api node_name finalizer attempts app none
          (with_condition s status bpf_app_state_cond_error) w.cluster))
  after_load app s w (status, none, d) =
      after_links app s (record w { daemon = d })
        (reconcile_links scope client app status w.agent d)

  -- The loop's body for an application that has a state on this node.
  unfoldable pub reconcile_existing : Node → App P → AppState I → State → Option (Step State)
  unfolding reconcile_load reconcile_links update_bpf_app_state_condition
      update_bpf_app_state_status is_bpf_app_state_condition_failure
  reconcile_existing node app s w = after_load app s w (
      reconcile_load scope client (api.is_node_selected app node) s.uid app
        (api.get_bytecode app w.cluster) s.status w.daemon)

  abbrev pub created : State → CtrlResult × Cluster → Step State
  created w (result, c) = stop (ok result) (record w { cluster = c })

  abbrev pub with_state : Node → App P → State → Result (Option (AppState I)) → Option (Step State)
  with_state node app w (err e) = some (stop (err e) w)
  with_state node app w (ok (some s)) = reconcile_existing node app s w
  with_state node app w (ok none) =
      if app.deleted
      then some (next_app w)
      else some
          (created w (create_bpf_app_state scope api node_name finalizer attempts app w.cluster))

  -- The loop's body. `none` is a panic.
  unfoldable pub reconcile_app : Node → App P → State → Option (Step State)
  unfolding reconcile_existing create_bpf_app_state get_bpf_app_state
  reconcile_app node app w =
      with_state node app w (get_bpf_app_state scope api node_name finalizer attempts app w.cluster)

  abbrev pub after_app :
      (State → Option (Result CtrlResult × State))
      → Option (Step State)
      → Option (Result CtrlResult × State)
  after_app rest none = none
  after_app rest (some (stop result w)) = some (result, w)
  after_app rest (some (next_app w)) = rest w

  -- The loop over the applications.
  unfoldable pub reconcile_apps : Node → List (App P) → State → Option (Result CtrlResult × State)
  unfolding reconcile_app
  reconcile_apps node [] w = some (ok done, w)
  reconcile_apps node (app ∷ apps) w =
      after_app (λ w'. reconcile_apps node apps w') (reconcile_app node app w)

  abbrev with_apps : Node → State → Option (List (App P)) → Option (Result CtrlResult × State)
  with_apps node w none = some (err kube_failed, w)
  with_apps node w (some apps) = reconcile_apps node apps w

  abbrev with_node : State → Option Node → Option (Result CtrlResult × State)
  with_node w none = some (err kube_failed, w)
  with_node w (some node) = with_apps node w (api.list_apps w.cluster)

  -- Reconcile
  unfoldable pub reconcile : State → Option (Result CtrlResult × State)
  unfolding reconcile_apps
  reconcile w = with_node (record w { agent = reset w.agent }) (api.get_node node_name w.cluster)
