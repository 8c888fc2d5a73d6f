-- ===== src/Agent/Controller/Order.antt =====
-- What one application does to those after it in a pass: Reconcile of
-- controllers/bpfman-agent/{ns,cl}_application_program.go.
use bpfman_operator.Shared.{
  Bool, true, false, ℕ, String, Option, none, some, List, [], ◌∷◌, Eq, ◌≡◌, refl, ap, sym, ◌∙◌,
}
use bpfman_operator.Api.Control.{CtrlResult}
use bpfman_operator.Agent.Bpfman.{Error, Result, ok, BpfmanClient}
use bpfman_operator.Agent.App.{App, AppStateStatus, Scope}
use bpfman_operator.Agent.Reconcile.{reconcile_load}
use bpfman_operator.Agent.Controller.{
  AppState, AgentApi, get_bpf_app_state, update_bpf_app_state_status, waited, status_written,
}
use bpfman_operator.Agent.Controller.Pass.{
  World, Step, stop, reconcile_existing, reconcile_app, reconcile_apps, after_failed_load,
  after_load, with_state, after_app,
}

module _ {S : Type 0} (scope : Scope S) (api : AgentApi scope.P scope.I) (client : BpfmanClient)
    (reset : S → S) (node_name finalizer : String) (attempts : ℕ)
    ⦃same : Eq (AppStateStatus scope.I)⦄ where
  open scope use {P, I}
  open api use {Cluster, Node}

  abbrev W : Type 0
  W = World Cluster S client.Daemon

  abbrev Stops : Step W → Type 0
  Stops step = (result : Result CtrlResult) × (w : W) × (step ≡ stop result w)

  waited-Stops :
      (s : AppState I) (w : W) (r : Option (AppState I) × Cluster)
      → Stops (
          after_failed_load scope api client reset node_name finalizer attempts w
            (waited scope api node_name finalizer attempts s r))
  waited-Stops s w (none, c) = (_, _, refl)
  waited-Stops s w (some s', c) = (_, _, refl)

  written-Stops :
      (app : App P) (s : AppState I) (w : W) (r : Bool × Cluster)
      → Stops (
          after_failed_load scope api client reset node_name finalizer attempts w
            (status_written scope api node_name finalizer attempts app s r))
  written-Stops app s w (false, c) = (_, _, refl)
  written-Stops app s w (true, c) = waited-Stops s w _

  -- An error of reconcileLoad ends the body with a return: a status with no original is always written.
  failed-Stops :
      (app : App P) (s : AppState I) (w : W) (c : Cluster)
      → Stops (
          after_failed_load scope api client reset node_name finalizer attempts w
            (update_bpf_app_state_status scope api node_name finalizer attempts app none s c))
  unfolding update_bpf_app_state_status
  failed-Stops app s w c = written-Stops app _ w _

  stops-apps :
      (node : Node) (app : App P) (apps : List (App P)) (w w' : W) (result : Result CtrlResult)
      → reconcile_app scope api client reset node_name finalizer attempts node app w
        ≡ some (stop result w')
      → reconcile_apps scope api client reset node_name finalizer attempts node (app ∷ apps) w
        ≡ some (result, w')
  unfolding reconcile_apps
  stops-apps node app apps w w' result h =
      ap (after_app scope api client reset node_name finalizer attempts _) h

  -- If an application has a state on this node and reconcileLoad fails for it, the applications after it in
  -- the list are not looked at: the pass with them is the pass without them.
  pub reconcile_apps-blocked :
      (node : Node) (app : App P) (apps : List (App P)) (w : W) (s : AppState I)
      (status : AppStateStatus I) (e : Error) (d : client.Daemon)
      → get_bpf_app_state scope api node_name finalizer attempts app w.cluster ≡ ok (some s)
      → reconcile_load scope client
          (api.is_node_selected app node)
          s.uid
          app
          (api.get_bytecode app w.cluster)
          s.status
          w.daemon
        ≡ (status, some e, d)
      → reconcile_apps scope api client reset node_name finalizer attempts node (app ∷ apps) w
        ≡ reconcile_apps scope api client reset node_name finalizer attempts node (app ∷ []) w
  unfolding reconcile_app reconcile_existing
  reconcile_apps-blocked node app apps w s status e d there failed =
      let (result, w', stopped) = failed-Stops app _ (record w { daemon = d }) w.cluster in
      let body =
        ap (with_state scope api client reset node_name finalizer attempts node app w) there
        ∙ ap (after_load scope api client reset node_name finalizer attempts app s w) failed
        ∙ ap some stopped in
      stops-apps node app apps w w' result body ∙ sym (stops-apps node app [] w w' result body)
