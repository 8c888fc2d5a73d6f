-- ===== src/Operator/Application/Requests.antt =====
-- Which events make the operator reconcile an application, and how it looks the application up:
-- common_{namespace,cluster}.go and Reconcile of {ns,cl}_application_programs.go of
-- controllers/bpfman-operator.
use bpfman_operator.Shared.{
  Bool, false, not, ◌||◌, String, Option, none, some, ◌==◌, nat_eq, string_eq, list_eq, Eq, bool_eq,
  eq_of_discrete, discrete_of_eq,
}
use bpfman_operator.Api.Conditions.{Condition}
use bpfman_operator.Api.Control.{CtrlResult, done}
use bpfman_operator.Operator.Objects.{Got, found, not_found, failed}
use bpfman_operator.Operator.Application.{
  App, AppState, KubeApi, ClientLib, reconcile_bpf_application,
}

pub condition-discrete : Discrete Condition
condition-discrete = hlevel (discrete_of_eq nat_eq, discrete_of_eq string_eq)

instance abbrev pub condition_eq : Eq Condition
condition_eq = eq_of_discrete condition-discrete

-- The events of the states: `update` has the old and the new object.
pub data Event : Type 0 where
  generic_event create_event delete_event : AppState → Event
  update_event : (object_old object_new : AppState) → Event

-- statusChangedPredicateNamespace and statusChangedPredicateCluster, which differ in the agent's
-- finalizer.
unfoldable pub status_changed_predicate : ClientLib → String → Event → Bool
status_changed_predicate lib finalizer (generic_event s) = false
status_changed_predicate lib finalizer (create_event s) = false
status_changed_predicate lib finalizer (delete_event s) = false
status_changed_predicate lib finalizer (update_event object_old object_new) =
    not (object_old.conditions == object_new.conditions)
    || not (
        lib.contains_finalizer object_old.finalizers finalizer
        == lib.contains_finalizer object_new.finalizers finalizer)

module _ (kube : KubeApi) (lib : ClientLib) where
  open kube use {Cluster}

  -- The reads of Reconcile: an application, and the owner of a state, by namespace and name.
  pub record Reads : Type 0 where
    pub get_application : (namespace name : String) → Cluster → Got App
    pub get_state_owner : (namespace name : String) → Cluster → Got (Option String)

  module _ (reads : Reads) (owner_namespace : String → String) (state_finalizer : String) where
    abbrev pub reconcile_found : Got App → Cluster → Option CtrlResult × Cluster
    reconcile_found (found app) c =
        let (result, c') = reconcile_bpf_application kube lib state_finalizer app c in
        (some result, c')
    reconcile_found not_found c = (some done, c)
    reconcile_found failed c = (some done, c)

    abbrev pub reconcile_owner :
        (namespace : String) → Got (Option String) → Cluster → Option CtrlResult × Cluster
    reconcile_owner namespace (found (some owner)) c =
        reconcile_found (reads.get_application (owner_namespace namespace) owner c) c
    reconcile_owner namespace (found none) c = (none, c)
    reconcile_owner namespace not_found c = (some done, c)
    reconcile_owner namespace failed c = (some done, c)

    abbrev pub reconcile_request :
        (namespace name : String) → Got App → Cluster → Option CtrlResult × Cluster
    reconcile_request namespace name (found app) c = reconcile_found (found app) c
    reconcile_request namespace name not_found c =
        reconcile_owner namespace (reads.get_state_owner namespace name c) c
    reconcile_request namespace name failed c = (some done, c)

    -- Reconcile; the result is `none` where it returns an error. The owner is looked up in the request's
    -- namespace, or in none for a cluster-scoped application.
    unfoldable pub reconcile : (namespace name : String) → Cluster → Option CtrlResult × Cluster
    unfolding reconcile_bpf_application
    reconcile namespace name c =
        reconcile_request namespace name (reads.get_application namespace name c) c
