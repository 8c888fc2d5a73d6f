-- ===== src/Examples/Operator.antt =====
-- A concrete application seen by the operator.
use bpfman_operator.Shared.{
  not, ◌&&◌, ◌==◌, sym, ap, arith, beq_refl, list_eq, Bool, true, false, String, some, List, [],
  ◌∷◌, ◌++◌, ◌≡◌, refl, delete, contains, string_eq,
}
use bpfman_operator.Api.Conditions.{Condition, bpf_app_cond_success}
use bpfman_operator.Api.Control.{done}
use bpfman_operator.Operator.Application.{
  App, AppState, KubeApi, ClientLib, operator_finalizer, reconcile_bpf_application, update_status,
  with_lists,
}
use bpfman_operator.Operator.Application.Requests.{condition_eq, status_changed_predicate}
use bpfman_operator.Operator.Application.Filtered.{status_changed_predicate-with_lists}
use bpfman_operator.Operator.Application.Reported.{overall, reconcile_bpf_application-overall}
use bpfman_operator.Operator.Application.Deletion.{
  IsFinalizerLib, AreReleased, answered, HoldsOrRetries, reconcile_bpf_application-released,
  reconcile_bpf_application-held,
}

abbrev app : Bool → List Condition → App
app deleted conditions = record {
  namespace = "default";
  name = "app";
  finalizers = operator_finalizer ∷ [];
  deleted = deleted;
  conditions = conditions;
}

abbrev state : List String → AppState
state finalizers = record {
  name = "app-1";
  host = "node-1";
  finalizers = finalizers;
  conditions =
      record {
        type = "Success";
        status = "True";
        reason = "Success";
        message = "";
        last_transition_time = 0;
      }
      ∷ [];
}

-- A server that stores the conditions of the one application; the states have the given finalizers.
abbrev server : Bool → List String → KubeApi
server deleted finalizers = record {
  Cluster = List Condition;
  list_states = λ name namespace c. some (state finalizers ∷ []);
  list_nodes = λ c. some ("node-1" ∷ []);
  get_app =
      λ namespace name c. some (record (app deleted c) { namespace = namespace; name = name });
  update = λ a c. (true, c);
  update_status = λ a c. (true, a.conditions);
}

abbrev lib : ClientLib
lib = record {
  contains_finalizer = λ finalizers finalizer. contains finalizer finalizers;
  add_finalizer = λ finalizers finalizer. finalizer ∷ finalizers;
  remove_finalizer =
      λ finalizers finalizer. (contains finalizer finalizers, delete finalizer finalizers);
  set_status_condition = λ conditions condition. condition ∷ conditions;
}

abbrev agent_finalizer : String
agent_finalizer = "bpfman.io.nsbpfapplicationcontroller/finalizer"

reconcile_bpf_application-overall_example :
    (message : String) × (reconcile_bpf_application
        (server false [])
        lib
        agent_finalizer
        (app false [])
        []
      ≡ update_status
          (server false [])
          lib
          "default"
          "app"
          (overall ("node-1" ∷ []) (state [] ∷ []))
          message
          [])
reconcile_bpf_application-overall_example =
    reconcile_bpf_application-overall (server false []) lib agent_finalizer (app false []) []
      (state [] ∷ []) ("node-1" ∷ []) refl refl refl refl

contains-delete :
    (finalizers : List String) (finalizer other : String)
    → contains other (delete finalizer finalizers)
      ≡ (contains other finalizers && not (other == finalizer))
contains-delete [] finalizer other = refl
contains-delete (f ∷ finalizers) finalizer other = ground (
  arith,
  contains-delete finalizers finalizer other,
  string_eq.beq_iff f finalizer,
  string_eq.beq_iff f other,
  string_eq.beq_iff other finalizer,
)

lib-IsFinalizerLib : IsFinalizerLib lib
lib-IsFinalizerLib = record { removed = λ finalizers finalizer has. has; left = contains-delete }

reconcile_bpf_application-released_example :
    (finalizers : List String) × AreReleased
      (server true [])
      lib
      agent_finalizer
      (operator_finalizer ∷ [])
      finalizers
    × (reconcile_bpf_application (server true []) lib agent_finalizer (app true []) []
        ≡ answered (server true []) lib agent_finalizer (true, []))
reconcile_bpf_application-released_example =
    reconcile_bpf_application-released (server true []) lib agent_finalizer lib-IsFinalizerLib
      (app true []) [] (state [] ∷ []) ("node-1" ∷ []) refl refl refl refl refl

reconcile_bpf_application-held_example :
    HoldsOrRetries (server true (agent_finalizer ∷ [])) lib agent_finalizer "default" "app" [] (
      reconcile_bpf_application
        (server true (agent_finalizer ∷ []))
        lib
        agent_finalizer
        (app true [])
        [])
reconcile_bpf_application-held_example =
    reconcile_bpf_application-held (server true (agent_finalizer ∷ [])) lib agent_finalizer
      (λ c. (c, refl, refl))
      (record {
        read_back = λ namespace name a old c c' read same h. (
          _,
          refl,
          sym (ap (λ r. r.1) h),
          (let e : operator_finalizer ∷ [] ≡ old.finalizers = cc in e),
        );
      })
      (app true []) (app true []) [] (state (agent_finalizer ∷ []) ∷ []) ("node-1" ∷ []) refl refl
      refl refl refl refl refl

abbrev success : Condition
success = record {
  type = "Success";
  status = "True";
  reason = "Success";
  message = "BPF application configuration successfully applied on all nodes";
  last_transition_time = 0;
}

update_status_test :
    update_status (server false []) lib "default" "app" bpf_app_cond_success "" []
    ≡ (done, success ∷ [])
unfolding update_status
update_status_test = refl

-- A state whose labels differ, but not its condition or its finalizers.
status_changed_predicate-with_lists_example :
    with_lists
      (server false [])
      lib
      agent_finalizer
      (app false [])
      ([] ++ state ("other" ∷ []) ∷ [])
      ("node-1" ∷ [])
      []
    ≡ with_lists
        (server false [])
        lib
        agent_finalizer
        (app false [])
        ([] ++ state [] ∷ [])
        ("node-1" ∷ [])
        []
unfolding status_changed_predicate
status_changed_predicate-with_lists_example =
    status_changed_predicate-with_lists (state ("other" ∷ [])) (state []) refl [] []
      (server false []) lib agent_finalizer (app false []) ("node-1" ∷ []) [] refl
      (ground (arith, beq_refl {A = List Condition} (state []).conditions))
