-- ===== src/Operator/Application/Filtered.antt =====
-- What the operator's event filter may leave out.
use bpfman_operator.Shared.{
  Bool, false, ◌||◌, String, List, [], ◌∷◌, ◌++◌, ◌==◌, string_eq, any, if◌then◌else◌, ◌≡◌, ap, ap₂,
  refl, arith, Eq, list_eq, bool_eq,
}
use bpfman_operator.Api.Conditions.{Condition, bpf_app_cond_pending}
use bpfman_operator.Api.Helpers.{
  is_bpf_app_state_condition_failure, is_bpf_app_state_condition_pending,
}
use bpfman_operator.Operator.Application.{
  App, AppState, KubeApi, ClientLib, all_nodes_have_state, final_applied, failed_bpf_applications,
  pending_bpf_applications, with_lists, deleting, reporting, update_status,
}
use bpfman_operator.Operator.Application.Requests.{
  condition_eq, update_event, status_changed_predicate,
}

abbrev condition_lists : Eq (List Condition)
condition_lists = list_eq

module _ (old new : AppState) where
  -- A function of the states that is the same with `old` and `new` in front is the same with them anywhere.
  replaced {ℓ} :
      {B : Type ℓ} (f : List AppState → B)
      → ((s : AppState) (xs ys : List AppState) → f xs ≡ f ys → f (s ∷ xs) ≡ f (s ∷ ys))
      → ((xs : List AppState) → f (old ∷ xs) ≡ f (new ∷ xs))
      → (front back : List AppState) → f (front ++ old ∷ back) ≡ f (front ++ new ∷ back)
  replaced f step base [] back = base back
  replaced f step base (s ∷ front) back =
      step s (front ++ old ∷ back) (front ++ new ∷ back) (replaced f step base front back)

  module _ (name : old.name ≡ new.name) (front back : List AppState) where
    final_applied_same :
        (lib : ClientLib) (finalizer : String)
        → lib.contains_finalizer old.finalizers finalizer
          ≡ lib.contains_finalizer new.finalizers finalizer
        → final_applied lib finalizer (front ++ old ∷ back)
          ≡ final_applied lib finalizer (front ++ new ∷ back)
    unfolding final_applied
    final_applied_same lib finalizer held =
        replaced (final_applied lib finalizer)
          (λ s xs ys same.
            ap
              (λ (rest : List String).
                if lib.contains_finalizer s.finalizers finalizer then s.name ∷ rest else rest)
              same)
          (λ xs.
            let rest = final_applied lib finalizer xs in
            ap₂ (λ (b : Bool) (n : String). if b then n ∷ rest else rest) held name)
          front back

    failed_bpf_applications_same :
        old.conditions ≡ new.conditions
        → failed_bpf_applications (front ++ old ∷ back)
          ≡ failed_bpf_applications (front ++ new ∷ back)
    unfolding failed_bpf_applications
    failed_bpf_applications_same conditions =
        replaced failed_bpf_applications
          (λ s xs ys same.
            ap
              (λ (rest : List String).
                if is_bpf_app_state_condition_failure s.conditions then s.name ∷ rest else rest)
              same)
          (λ xs.
            let rest = failed_bpf_applications xs in
            ap₂
              (λ (cs : List Condition) (n : String).
                if is_bpf_app_state_condition_failure cs then n ∷ rest else rest)
              conditions name)
          front back

    pending_bpf_applications_same :
        old.conditions ≡ new.conditions
        → pending_bpf_applications (front ++ old ∷ back)
          ≡ pending_bpf_applications (front ++ new ∷ back)
    unfolding pending_bpf_applications
    pending_bpf_applications_same conditions =
        replaced pending_bpf_applications
          (λ s xs ys same.
            ap
              (λ (rest : List String).
                if is_bpf_app_state_condition_failure s.conditions
                then rest
                else if is_bpf_app_state_condition_pending s.conditions
                then s.name ∷ rest
                else rest)
              same)
          (λ xs.
            let rest = pending_bpf_applications xs in
            ap₂
              (λ (cs : List Condition) (n : String).
                if is_bpf_app_state_condition_failure cs
                then rest
                else if is_bpf_app_state_condition_pending cs
                then n ∷ rest
                else rest)
              conditions name)
          front back

    all_nodes_have_state_same :
        (nodes : List String)
        → old.host ≡ new.host
        → all_nodes_have_state nodes (front ++ old ∷ back)
          ≡ all_nodes_have_state nodes (front ++ new ∷ back)
    unfolding all_nodes_have_state
    all_nodes_have_state_same [] host = refl
    all_nodes_have_state_same (node ∷ nodes) host =
        let here =
          replaced (any (λ (s : AppState). node == s.host))
            (λ s xs ys same. ap (λ b. node == s.host || b) same)
            (λ xs. ap (λ h. node == h || any (λ (s : AppState). node == s.host) xs) host) front
            back in
        ap₂ (λ (b rest : Bool). if b then rest else false) here
          (all_nodes_have_state_same nodes host)

    module _ (kube : KubeApi) (lib : ClientLib) (finalizer : String) where
      -- An update of a state that the predicate filters out, in which the state keeps its name and its
      -- node, would not change what the operator does for the application: it writes the same and
      -- returns the same, whatever the other states, the nodes and the cluster.
      pub status_changed_predicate-with_lists :
          (app : App) (nodes : List String) (c : kube.Cluster)
          → old.host ≡ new.host
          → status_changed_predicate lib finalizer (update_event old new) ≡ false
          → with_lists kube lib finalizer app (front ++ old ∷ back) nodes c
            ≡ with_lists kube lib finalizer app (front ++ new ∷ back) nodes c
      unfolding status_changed_predicate
      status_changed_predicate-with_lists app nodes c host filtered =
          let same_conditions = condition_lists.beq_iff old.conditions new.conditions in
          let same_held =
            bool_eq.beq_iff (lib.contains_finalizer old.finalizers finalizer)
              (lib.contains_finalizer new.finalizers finalizer) in
          let conditions : old.conditions ≡ new.conditions =
            same_conditions.0 (ground (arith, filtered)) in
          let held = same_held.0 (ground (arith, filtered)) in
          let e1 = final_applied_same lib finalizer held in
          let e2 = all_nodes_have_state_same nodes host in
          let e3 = failed_bpf_applications_same conditions in
          let e4 = pending_bpf_applications_same conditions in
          λ i.
            if app.deleted
            then deleting kube lib app (e1 i) c
            else if e2 i
            then reporting kube lib app (e3 i) (e4 i) c
            else update_status kube lib app.namespace app.name bpf_app_cond_pending "" c
