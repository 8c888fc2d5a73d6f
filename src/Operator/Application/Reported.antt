-- ===== src/Operator/Application/Reported.antt =====
-- The condition that reconcileBpfApplication reports is the worst of the nodes'.
use bpfman_operator.Shared.{
  true, false, String, some, List, [], ◌∷◌, ◌==◌, string_eq, if◌then◌else◌, any, all, ◌≡◌, refl,
  inl, inr, Bool-cases, arith, sym, ap, ◌∙◌,
}
use bpfman_operator.Api.Conditions.{
  BpfApplicationConditionType, bpf_app_cond_pending, bpf_app_cond_success, bpf_app_cond_error,
}
use bpfman_operator.Api.Helpers.{
  is_bpf_app_state_condition_failure, is_bpf_app_state_condition_pending,
}
use bpfman_operator.Operator.Application.{
  App, AppState, KubeApi, ClientLib, operator_finalizer, all_nodes_have_state,
  failed_bpf_applications, pending_bpf_applications, reconcile_bpf_application, update_status,
  reporting, with_lists,
}

-- The condition of one node's state.
abbrev pub state_severity : AppState → BpfApplicationConditionType
state_severity s =
    if is_bpf_app_state_condition_failure s.conditions
    then bpf_app_cond_error
    else if is_bpf_app_state_condition_pending s.conditions
    then bpf_app_cond_pending
    else bpf_app_cond_success

-- An error is worse than pending, which is worse than success.
abbrev pub worse :
    BpfApplicationConditionType → BpfApplicationConditionType → BpfApplicationConditionType
worse bpf_app_cond_success b = b
worse bpf_app_cond_pending bpf_app_cond_success = bpf_app_cond_pending
worse bpf_app_cond_pending b = b
worse a b = a

abbrev pub worst : List AppState → BpfApplicationConditionType
worst [] = bpf_app_cond_success
worst (s ∷ states) = worse (state_severity s) (worst states)

-- Pending while a node has no state, and the worst of the states from then on.
abbrev pub overall : List String → List AppState → BpfApplicationConditionType
overall nodes states =
    if all (λ n. any (λ (s : AppState). n == s.host) states) nodes
    then worst states
    else bpf_app_cond_pending

-- By which of the collected lists are empty.
abbrev by_lists : List String → List String → BpfApplicationConditionType
by_lists (f ∷ failed) pending = bpf_app_cond_error
by_lists [] (p ∷ pending) = bpf_app_cond_pending
by_lists [] [] = bpf_app_cond_success

by_lists-worst :
    (states : List AppState)
    → by_lists (failed_bpf_applications states) (pending_bpf_applications states) ≡ worst states
unfolding failed_bpf_applications pending_bpf_applications is_bpf_app_state_condition_failure
    is_bpf_app_state_condition_pending
by_lists-worst [] = refl
by_lists-worst (s ∷ states) = let ih = by_lists-worst states in ground (arith, ih)

all_nodes_have_state-eq :
    (nodes : List String) (states : List AppState)
    → all_nodes_have_state nodes states
      ≡ all (λ n. any (λ (s : AppState). n == s.host) states) nodes
unfolding all_nodes_have_state
all_nodes_have_state-eq [] states = refl
all_nodes_have_state-eq (n ∷ nodes) states = ground (arith, all_nodes_have_state-eq nodes states)

overall-covered :
    (nodes : List String) (states : List AppState)
    → all_nodes_have_state nodes states ≡ true
    → overall nodes states ≡ worst states
overall-covered nodes states h = rw (sym (all_nodes_have_state-eq nodes states), h)

overall-pending :
    (nodes : List String) (states : List AppState)
    → all_nodes_have_state nodes states ≡ false
    → overall nodes states ≡ bpf_app_cond_pending
overall-pending nodes states h = rw (sym (all_nodes_have_state-eq nodes states), h)

module _ (kube : KubeApi) (lib : ClientLib) (state_finalizer : String) where
  reporting-by_lists :
      (app : App) (failed pending : List String) (c : kube.Cluster)
      → (message : String) × (reporting kube lib app failed pending c
          ≡ update_status kube lib app.namespace app.name (by_lists failed pending) message c)
  reporting-by_lists app (f ∷ failed) pending c = (_, refl)
  reporting-by_lists app [] (p ∷ pending) c = (_, refl)
  reporting-by_lists app [] [] c = (_, refl)

  with_lists-covered :
      (app : App) (states : List AppState) (nodes : List String) (c : kube.Cluster)
      → app.deleted ≡ false
      → all_nodes_have_state nodes states ≡ true
      → with_lists kube lib state_finalizer app states nodes c
        ≡ reporting kube lib app
            (failed_bpf_applications states)
            (pending_bpf_applications states)
            c
  with_lists-covered app states nodes c hd h = simp (hd, h)

  with_lists-pending :
      (app : App) (states : List AppState) (nodes : List String) (c : kube.Cluster)
      → app.deleted ≡ false
      → all_nodes_have_state nodes states ≡ false
      → with_lists kube lib state_finalizer app states nodes c
        ≡ update_status kube lib app.namespace app.name bpf_app_cond_pending "" c
  with_lists-pending app states nodes c hd h = simp (hd, h)

  with_lists-overall :
      (app : App) (states : List AppState) (nodes : List String) (c : kube.Cluster)
      → app.deleted ≡ false
      → (message : String) × (with_lists kube lib state_finalizer app states nodes c
          ≡ update_status kube lib app.namespace app.name (overall nodes states) message c)
  with_lists-overall app states nodes c hd =
      let (m, reported) =
        reporting-by_lists app (failed_bpf_applications states) (pending_bpf_applications states)
          c in
      elim (Bool-cases (all_nodes_have_state nodes states)) [
        | inl h ↦ (
          m,
          with_lists-covered app states nodes c hd h
              ∙ reported
              ∙ ap (λ k. update_status kube lib app.namespace app.name k m c)
                  (by_lists-worst states ∙ sym (overall-covered nodes states h)),
        )
        | inr h ↦ (
          "",
          with_lists-pending app states nodes c hd h
              ∙ ap (λ k. update_status kube lib app.namespace app.name k "" c)
                  (sym (overall-pending nodes states h)),
        )
      ]

  -- A live application with the operator's finalizer, once its states and the nodes are read, gets
  -- the overall condition of its nodes, whatever the message.
  pub reconcile_bpf_application-overall :
      (app : App) (c : kube.Cluster) (states : List AppState) (nodes : List String)
      → lib.contains_finalizer app.finalizers operator_finalizer ≡ true
      → app.deleted ≡ false
      → kube.list_states app.name app.namespace c ≡ some states
      → kube.list_nodes c ≡ some nodes
      → (message : String) × (reconcile_bpf_application kube lib state_finalizer app c
          ≡ update_status kube lib app.namespace app.name (overall nodes states) message c)
  unfolding reconcile_bpf_application
  reconcile_bpf_application-overall app c states nodes hf hd hs hn =
      let (m, reported) = with_lists-overall app states nodes c hd in (m, rw (hf, hs, hn, reported))
