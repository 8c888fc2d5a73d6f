-- ===== src/Agent/Controller/OneWrite.antt =====
-- What one pass writes: Reconcile of controllers/bpfman-agent/{ns,cl}_application_program.go.
use bpfman_operator.Shared.{
  ℕ, String, Option, none, some, List, [], ◌∷◌, ◌++◌, Eq, ◌≡◌, refl, ap, sym, ◌∙◌, ◌⊎◌, inl, inr,
}
use bpfman_operator.Api.Control.{CtrlResult, done}
use bpfman_operator.Agent.Bpfman.{Result, ok, BpfmanClient}
use bpfman_operator.Agent.App.{App, AppStateStatus, Scope}
use bpfman_operator.Agent.Controller.{AgentApi}
use bpfman_operator.Agent.Controller.Pass.{
  World, Step, next_app, stop, reconcile_app, reconcile_apps, after_app,
}
use bpfman_operator.Agent.Controller.Writes.{reconcile_app-next_app}

module _ {S : Type 0} (scope : Scope S) (api : AgentApi scope.P scope.I) (client : BpfmanClient)
    (reset : S → S) (node_name finalizer : String) (attempts : ℕ)
    ⦃same : Eq (AppStateStatus scope.I)⦄ where
  open scope use {P, I}
  open api use {Cluster, Node}

  abbrev W : Type 0
  W = World Cluster S client.Daemon

  -- The pass stops at one application, and until then the cluster is as it was.
  abbrev pub StopsAtOne : Node → List (App P) → W → Result CtrlResult → W → Type 0
  StopsAtOne node apps w result w' =
      (before : List (App P)) × (app : App P) × (after : List (App P)) × (w₁ : W) × (apps
        ≡ before ++ app ∷ after)
      × (w₁.cluster ≡ w.cluster)
      × (reconcile_app scope api client reset node_name finalizer attempts node app w₁
          ≡ some (stop result w'))

  -- The pass looks at every application, and the cluster is as it was.
  abbrev pub WritesNothing : W → Result CtrlResult → W → Type 0
  WritesNothing w result w' = (result ≡ ok done) × (w'.cluster ≡ w.cluster)

  abbrev IsOneWrite : Node → List (App P) → W → Result CtrlResult → W → Type 0
  IsOneWrite node apps w result w' = StopsAtOne node apps w result w' ⊎ WritesNothing w result w'

  abbrev as_stop : Option (Result CtrlResult × W) → Option (Step W)
  as_stop none = none
  as_stop (some (result, w)) = some (stop result w)

  abbrev result_of : Option (Result CtrlResult × W) → Result CtrlResult
  result_of none = ok done
  result_of (some (result, w)) = result

  abbrev cluster_of : Cluster → Option (Result CtrlResult × W) → Cluster
  cluster_of c none = c
  cluster_of c (some (result, w)) = w.cluster

  later-IsOneWrite :
      (node : Node) (app : App P) (apps : List (App P)) (w w₁ : W) (result : Result CtrlResult)
      (w' : W)
      → w₁.cluster ≡ w.cluster
      → IsOneWrite node apps w₁ result w'
      → IsOneWrite node (app ∷ apps) w result w'
  later-IsOneWrite node app apps w w₁ result w' kept
        (inl (before, app', after, w₂, split, kept', stopped)) =
      inl (app ∷ before, app', after, w₂, ap (λ l. app ∷ l) split, kept' ∙ kept, stopped)
  later-IsOneWrite node app apps w w₁ result w' kept (inr (ended, kept')) =
      inr (ended, kept' ∙ kept)

  step-IsOneWrite :
      (node : Node) (app : App P) (apps : List (App P)) (w : W) (result : Result CtrlResult)
      (w' : W) (step : Option (Step W))
      → ((w₁ : W)
          → reconcile_apps scope api client reset node_name finalizer attempts node apps w₁
            ≡ some (result, w')
          → IsOneWrite node apps w₁ result w')
      → reconcile_app scope api client reset node_name finalizer attempts node app w ≡ step
      → after_app scope api client reset node_name finalizer attempts
          (λ w₁. reconcile_apps scope api client reset node_name finalizer attempts node apps w₁)
          step
        ≡ some (result, w')
      → IsOneWrite node (app ∷ apps) w result w'
  step-IsOneWrite node app apps w result w' none rest e h = cc
  step-IsOneWrite node app apps w result w' (some (stop r w₀)) rest e h =
      inl ([], app, apps, w, refl, refl, e ∙ ap as_stop h)
  step-IsOneWrite node app apps w result w' (some (next_app w₁)) rest e h =
      later-IsOneWrite node app apps w w₁ result w'
        (reconcile_app-next_app scope api client reset node_name finalizer attempts node app w w₁ e)
        (rest w₁ h)

  -- A pass that does not panic either stops at one of the applications, which is reconciled on the
  -- cluster as the pass found it and whatever writes there are come from it, or it looks at all of
  -- them, ends without an error and leaves the cluster as it was.
  pub reconcile_apps-IsOneWrite :
      (node : Node) (apps : List (App P)) (w : W) (result : Result CtrlResult) (w' : W)
      → reconcile_apps scope api client reset node_name finalizer attempts node apps w
        ≡ some (result, w')
      → StopsAtOne node apps w result w' ⊎ WritesNothing w result w'
  unfolding reconcile_apps
  reconcile_apps-IsOneWrite node [] w result w' h =
      inr (sym (ap result_of h), sym (ap (cluster_of w.cluster) h))
  reconcile_apps-IsOneWrite node (app ∷ apps) w result w' h =
      step-IsOneWrite node app apps w result w'
        (reconcile_app scope api client reset node_name finalizer attempts node app w)
        (λ w₁ k. reconcile_apps-IsOneWrite node apps w₁ result w' k) refl h
