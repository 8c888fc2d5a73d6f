-- ===== src/Operator/Application.antt =====
-- The condition of a BpfApplication from the states of its nodes: controllers/bpfman-operator/common.go
-- and {cl,ns}_application_programs.go. The API server and the client libraries are parameters.
pub mod Reported
pub mod Deletion
pub mod Quiescent
pub mod Requests
pub mod Filtered
use Prim.Native.String.{◌++◌ as append}
use bpfman_operator.Shared.{
  Bool, true, false, not, ℕ, String, Option, none, some, List, [], ◌∷◌, ◌==◌, string_eq,
  if◌then◌else◌, any, all,
}
use bpfman_operator.Api.Conditions.{
  Condition, BpfApplicationConditionType, app_cond_string, app_condition, bpf_app_cond_pending,
  bpf_app_cond_success, bpf_app_cond_error, bpf_app_cond_delete_error,
}
use bpfman_operator.Api.Control.{CtrlResult, done, requeue_after}
use bpfman_operator.Api.Helpers.{
  is_bpf_app_state_condition_failure, is_bpf_app_state_condition_pending,
}

-- What `client.Object` and the status give of an application; `deleted` is a deletion timestamp.
pub record App : Type 0 where
  pub namespace : String
  pub name : String
  pub finalizers : List String
  pub deleted : Bool
  pub conditions : List Condition

-- `host` is the label internal.K8sHostLabel, "" where it is missing.
pub record AppState : Type 0 where
  pub name : String
  pub host : String
  pub finalizers : List String
  pub conditions : List Condition

-- The API server; a read gives `none` for an error. A write returns whether it succeeded.
pub record KubeApi : Type 1 where
  pub Cluster : Type 0
  pub list_states : (name namespace : String) → Cluster → Option (List AppState)
  pub list_nodes : Cluster → Option (List String)
  pub get_app : (namespace name : String) → Cluster → Option App
  pub update : App → Cluster → Bool × Cluster
  pub update_status : App → Cluster → Bool × Cluster

-- controllerutil and `meta.SetStatusCondition`.
pub record ClientLib : Type 0 where
  pub contains_finalizer : List String → String → Bool
  pub add_finalizer : List String → String → List String
  pub remove_finalizer : List String → String → Bool × List String
  pub set_status_condition : List Condition → Condition → List Condition

-- `fmt.Sprintf` with `%v` for a list of names.
abbrev join_names : List String → String
join_names [] = ""
join_names (n ∷ []) = n
join_names (n ∷ m ∷ names) = append n (append " " (join_names (m ∷ names)))

abbrev pub message_with_names : String → List String → String
message_with_names text names = append text (append "[" (append (join_names names) "]"))

abbrev pub operator_finalizer : String
operator_finalizer = "bpfman.io.operator/finalizer"

-- The loop over the nodes: the first without a BpfApplicationState ends it.
unfoldable pub all_nodes_have_state : List String → List AppState → Bool
all_nodes_have_state [] states = true
all_nodes_have_state (node ∷ nodes) states =
    let rest = all_nodes_have_state nodes states in
    if any (λ (s : AppState). node == s.host) states then rest else false

-- The three lists that the second loop collects.
unfoldable pub final_applied : ClientLib → String → List AppState → List String
final_applied lib finalizer [] = []
final_applied lib finalizer (s ∷ states) =
    let rest = final_applied lib finalizer states in
    if lib.contains_finalizer s.finalizers finalizer then s.name ∷ rest else rest

unfoldable pub failed_bpf_applications : List AppState → List String
unfolding is_bpf_app_state_condition_failure
failed_bpf_applications [] = []
failed_bpf_applications (s ∷ states) =
    let rest = failed_bpf_applications states in
    if is_bpf_app_state_condition_failure s.conditions then s.name ∷ rest else rest

unfoldable pub pending_bpf_applications : List AppState → List String
unfolding is_bpf_app_state_condition_failure is_bpf_app_state_condition_pending
pending_bpf_applications [] = []
pending_bpf_applications (s ∷ states) =
    let rest = pending_bpf_applications states in
    if is_bpf_app_state_condition_failure s.conditions
    then rest
    else if is_bpf_app_state_condition_pending s.conditions
    then s.name ∷ rest
    else rest

module _ (kube : KubeApi) (lib : ClientLib) where
  open kube use {Cluster}

  -- `r.Update` or `r.Status().Update`, and the requeue on its error.
  abbrev written : Bool × Cluster → CtrlResult × Cluster
  written (true, c) = (done, c)
  written (false, c) = (requeue_after 5, c)

  -- addFinalizer
  unfoldable pub add_finalizer : App → String → Cluster → CtrlResult × Cluster
  add_finalizer app finalizer c =
      written
        (kube.update (record app { finalizers = lib.add_finalizer app.finalizers finalizer }) c)

  -- removeFinalizer
  unfoldable pub remove_finalizer : App → String → Cluster → CtrlResult × Cluster
  remove_finalizer app finalizer c =
      let (changed, finalizers) = lib.remove_finalizer app.finalizers finalizer in
      elim changed [
        | true ↦ written (kube.update (record app { finalizers = finalizers }) c)
        | false ↦ (done, c)
      ]

  abbrev set_condition : App → Condition → Cluster → CtrlResult × Cluster
  set_condition app condition c =
      written
        (kube.update_status (record app { conditions = lib.set_status_condition [] condition }) c)

  -- updateCondition. The condition is added to the empty list in every case.
  unfoldable pub update_condition :
      App → List Condition → BpfApplicationConditionType → String → Cluster → CtrlResult × Cluster
  unfolding app_condition
  update_condition app [] cond message c = set_condition app (app_condition cond message) c
  update_condition app (old ∷ []) cond message c =
      if old.type == app_cond_string cond
      then (done, c)
      else set_condition app (app_condition cond message) c
  update_condition app (old ∷ old' ∷ olds) cond message c =
      set_condition app (app_condition cond message) c

  -- updateStatus
  unfoldable pub update_status :
      (namespace name : String)
      → BpfApplicationConditionType
      → String
      → Cluster
      → CtrlResult × Cluster
  unfolding update_condition
  update_status namespace name cond message c = elim (kube.get_app namespace name c) [
    | none ↦ (requeue_after 5, c)
    | some app ↦ update_condition app app.conditions cond message c
  ]

  abbrev deleting : App → List String → Cluster → CtrlResult × Cluster
  deleting app [] c = remove_finalizer app operator_finalizer c
  deleting app (applied ∷ applieds) c =
      update_status app.namespace app.name bpf_app_cond_delete_error
        (message_with_names "Program Deletion failed on the following BpfApplicationState objects: "
          (applied ∷ applieds))
        c

  abbrev reporting : App → (failed pending : List String) → Cluster → CtrlResult × Cluster
  reporting app (f ∷ failed) pending c =
      update_status app.namespace app.name bpf_app_cond_error
        (message_with_names
          "BpfApplication Reconciliation failed on the following BpfApplicationState objects: "
          (f ∷ failed))
        c
  reporting app [] (p ∷ pending) c =
      update_status app.namespace app.name bpf_app_cond_pending
        (message_with_names
          "BpfApplication Reconciliation is pending on the following BpfApplicationState objects: "
          (p ∷ pending))
        c
  reporting app [] [] c = update_status app.namespace app.name bpf_app_cond_success "" c

  abbrev pub with_lists :
      String → App → List AppState → List String → Cluster → CtrlResult × Cluster
  with_lists state_finalizer app states nodes c =
      if app.deleted
      then deleting app (final_applied lib state_finalizer states) c
      else if all_nodes_have_state nodes states
      then reporting app (failed_bpf_applications states) (pending_bpf_applications states) c
      else update_status app.namespace app.name bpf_app_cond_pending "" c

  -- reconcileBpfApplication. `state_finalizer` is `rec.getFinalizer()`, the agent's.
  unfoldable pub reconcile_bpf_application : String → App → Cluster → CtrlResult × Cluster
  unfolding add_finalizer
  reconcile_bpf_application state_finalizer app c =
      if not (lib.contains_finalizer app.finalizers operator_finalizer)
      then add_finalizer app operator_finalizer c
      else elim (kube.list_states app.name app.namespace c) [
        | none ↦ (done, c)
        | some states ↦ elim (kube.list_nodes c) [
          | none ↦ (requeue_after 5, c)
          | some nodes ↦ with_lists state_finalizer app states nodes c
        ]
      ]
