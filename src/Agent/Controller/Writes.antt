-- ===== src/Agent/Controller/Writes.antt =====
-- What a pass has written when it goes on: the loop's body of Reconcile of
-- controllers/bpfman-agent/{ns,cl}_application_program.go.
use bpfman_operator.Shared.{
  Bool, true, false, ℕ, String, Option, none, some, List, Eq, if◌then◌else◌, ◌≡◌, refl, subst,
}
use bpfman_operator.Api.Conditions.{BpfApplicationStateConditionType}
use bpfman_operator.Agent.Bpfman.{Error, Result, ok, err, BpfmanClient}
use bpfman_operator.Agent.App.{App, AppStateStatus, Scope}
use bpfman_operator.Agent.Controller.{
  AppState, AgentApi, get_bpf_app_state, update_bpf_app_state_status, waited, status_written,
  write_if, bump,
}
use bpfman_operator.Agent.Controller.Pass.{
  World, Step, next_app, stop, reconcile_existing, reconcile_app, after_report, after_failed_load,
  after_links, after_load, with_state, dropped, unchanged,
}

module _ {S : Type 0} (scope : Scope S) (api : AgentApi scope.P scope.I) (client : BpfmanClient)
    (reset : S → S) (node_name finalizer : String) (attempts : ℕ)
    ⦃same : Eq (AppStateStatus scope.I)⦄ where
  open scope use {P, I}
  open api use {Cluster, Node}

  abbrev W : Type 0
  W = World Cluster S client.Daemon

  -- Going on leaves the cluster.
  abbrev Keeps : Cluster → Step W → Type 0
  Keeps c (next_app w) = w.cluster ≡ c
  Keeps c (stop result w) = Unit

  abbrev KeepsIfAny : Cluster → Option (Step W) → Type 0
  KeepsIfAny c none = Unit
  KeepsIfAny c (some step) = Keeps c step

  waited-Keeps :
      (app : App P) (s : AppState I) (w : W) (c₀ : Cluster) (r : Option (AppState I) × Cluster)
      → Keeps c₀ (
          after_report scope api client reset node_name finalizer attempts app w
            (waited scope api node_name finalizer attempts s r))
  waited-Keeps app s w c₀ (none, c) = tt
  waited-Keeps app s w c₀ (some s', c) = tt

  written-Keeps :
      (app : App P) (s : AppState I) (w : W) (c₀ : Cluster) (r : Bool × Cluster)
      → Keeps c₀ (
          after_report scope api client reset node_name finalizer attempts app w
            (status_written scope api node_name finalizer attempts app s r))
  written-Keeps app s w c₀ (false, c) = tt
  written-Keeps app s w c₀ (true, c) = waited-Keeps app s w c₀ _

  dropped-Keeps :
      (s : AppState I) (w : W) (r : Bool × List String)
      → Keeps w.cluster (dropped scope api client reset node_name finalizer attempts s w r)
  dropped-Keeps s w (true, finalizers) = tt
  dropped-Keeps s w (false, finalizers) = refl

  unchanged-Keeps :
      (b : Bool) (s : AppState I) (w : W)
      → Keeps w.cluster (unchanged scope api client reset node_name finalizer attempts b s w)
  unchanged-Keeps true s w = dropped-Keeps s w (api.remove_finalizer s.finalizers finalizer)
  unchanged-Keeps false s w = refl

  write_if-Keeps :
      (b : Bool) (app : App P) (s : AppState I) (w : W) (c : Cluster)
      → Keeps c (
          after_report scope api client reset node_name finalizer attempts app w
            (write_if scope api node_name finalizer attempts b app s c))
  write_if-Keeps true app s w c =
      let s' = bump scope api node_name finalizer attempts s in
      written-Keeps app s' w c (api.update_status s' c)
  write_if-Keeps false app s w c = unchanged-Keeps _ s (record w { cluster = c })

  reported-Keeps :
      (app : App P) (original : Option (AppStateStatus I)) (s : AppState I) (w : W) (c : Cluster)
      → Keeps c (
          after_report scope api client reset node_name finalizer attempts app w
            (update_bpf_app_state_status scope api node_name finalizer attempts app original s c))
  unfolding update_bpf_app_state_status
  reported-Keeps app original s w c = write_if-Keeps _ app s w c

  failed_waited-Keeps :
      (s : AppState I) (w : W) (c₀ : Cluster) (r : Option (AppState I) × Cluster)
      → Keeps c₀ (
          after_failed_load scope api client reset node_name finalizer attempts w
            (waited scope api node_name finalizer attempts s r))
  failed_waited-Keeps s w c₀ (none, c) = tt
  failed_waited-Keeps s w c₀ (some s', c) = tt

  failed-Keeps :
      (app : App P) (s : AppState I) (w : W) (c₀ : Cluster) (r : Bool × Cluster)
      → Keeps c₀ (
          after_failed_load scope api client reset node_name finalizer attempts w
            (status_written scope api node_name finalizer attempts app s r))
  failed-Keeps app s w c₀ (false, c) = tt
  failed-Keeps app s w c₀ (true, c) = failed_waited-Keeps s w c₀ _

  links-Keeps :
      (app : App P) (s : AppState I) (w : W)
      (r : Option (AppStateStatus I × BpfApplicationStateConditionType × S × client.Daemon))
      → KeepsIfAny w.cluster
          (after_links scope api client reset node_name finalizer attempts app s w r)
  links-Keeps app s w none = tt
  links-Keeps app s w (some (status, cond, agent, d)) =
      reported-Keeps app _ _ (record w { agent = agent; daemon = d }) w.cluster

  load-Keeps :
      (app : App P) (s : AppState I) (w : W) (r : AppStateStatus I × Option Error × client.Daemon)
      → KeepsIfAny w.cluster
          (after_load scope api client reset node_name finalizer attempts app s w r)
  unfolding update_bpf_app_state_status
  load-Keeps app s w (status, some e, d) = failed-Keeps app _ (record w { daemon = d }) w.cluster _
  load-Keeps app s w (status, none, d) = links-Keeps app s (record w { daemon = d }) _

  option_if-Keeps :
      (b : Bool) (c : Cluster) (x y : Option (Step W))
      → KeepsIfAny c x
      → KeepsIfAny c y
      → KeepsIfAny c (if b then x else y)
  option_if-Keeps true c x y kx ky = kx
  option_if-Keeps false c x y kx ky = ky

  state-Keeps :
      (node : Node) (app : App P) (w : W) (r : Result (Option (AppState I)))
      → KeepsIfAny w.cluster
          (with_state scope api client reset node_name finalizer attempts node app w r)
  unfolding reconcile_existing
  state-Keeps node app w (err e) = tt
  state-Keeps node app w (ok (some s)) = load-Keeps app s w _
  state-Keeps node app w (ok none) = option_if-Keeps app.deleted w.cluster _ _ refl tt

  -- If the loop's body goes on to the next application, it has written nothing to the API server: after
  -- any write the pass returns.
  pub reconcile_app-next_app :
      (node : Node) (app : App P) (w w' : W)
      → reconcile_app scope api client reset node_name finalizer attempts node app w
        ≡ some (next_app w')
      → w'.cluster ≡ w.cluster
  unfolding reconcile_app
  reconcile_app-next_app node app w w' h =
      subst (λ o. KeepsIfAny w.cluster o) h
        (state-Keeps node app w
          (get_bpf_app_state scope api node_name finalizer attempts app w.cluster))
