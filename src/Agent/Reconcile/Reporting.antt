-- ===== src/Agent/Reconcile/Reporting.antt =====
-- The condition that updateBpfAppStateCondition leaves, as pkg/helpers reads it and as the next
-- reconcile finds it.
use bpfman_operator.Shared.{Bool, true, false, List, [], ◌∷◌, string_eq, ◌≡◌, refl, arith, ap, ◌∙◌}
use bpfman_operator.Api.Conditions.{
  Condition, BpfApplicationStateConditionType, state_condition, bpf_app_state_cond_pending,
  bpf_app_state_cond_success, bpf_app_state_cond_error,
  bpf_app_state_cond_program_list_changed_error, bpf_app_state_cond_unload_error,
  bpf_app_state_cond_unloaded,
}
use bpfman_operator.Api.Helpers.{
  is_bpf_app_state_condition_failure, is_bpf_app_state_condition_pending,
}
use bpfman_operator.Agent.Reconcile.{update_bpf_app_state_condition}

-- `meta.SetStatusCondition` adds a condition to the empty list.
abbrev pub AddsToEmpty : (List Condition → Condition → List Condition) → Type 0
AddsToEmpty set_status_condition =
    (condition : Condition)
    → (c : Condition) × (set_status_condition [] condition ≡ c ∷ []) × (c.type ≡ condition.type)

-- What is reported as a failure, and what as pending.
abbrev pub is_failure : BpfApplicationStateConditionType → Bool
is_failure bpf_app_state_cond_error = true
is_failure bpf_app_state_cond_unload_error = true
is_failure cond = false

abbrev pub is_pending : BpfApplicationStateConditionType → Bool
is_pending bpf_app_state_cond_pending = true
is_pending cond = false

abbrev pub is_list_changed : BpfApplicationStateConditionType → Bool
is_list_changed bpf_app_state_cond_program_list_changed_error = true
is_list_changed cond = false

module _ (set_status_condition : List Condition → Condition → List Condition) where
  -- What is read of conditions: whether another report of `cond` changes them, failure, pending.
  abbrev pub reads : BpfApplicationStateConditionType → List Condition → Bool × Bool × Bool
  reads cond cs = (
    (update_bpf_app_state_condition set_status_condition cond cs).1,
    is_bpf_app_state_condition_failure cs,
    is_bpf_app_state_condition_pending cs,
  )

  reads-one :
      (cond : BpfApplicationStateConditionType) (c : Condition)
      → c.type ≡ (state_condition cond).type
      → reads cond (c ∷ []) ≡ (is_list_changed cond, is_failure cond, is_pending cond)
  unfolding update_bpf_app_state_condition is_bpf_app_state_condition_failure
      is_bpf_app_state_condition_pending state_condition
  reads-one bpf_app_state_cond_pending c h = rw (h)
  reads-one bpf_app_state_cond_success c h = rw (h)
  reads-one bpf_app_state_cond_error c h = rw (h)
  reads-one bpf_app_state_cond_program_list_changed_error c h = rw (h)
  reads-one bpf_app_state_cond_unload_error c h = rw (h)
  reads-one bpf_app_state_cond_unloaded c h = rw (h)

  changed-set :
      (cond : BpfApplicationStateConditionType) (cs : List Condition)
      → (update_bpf_app_state_condition set_status_condition cond cs).1 ≡ true
      → (update_bpf_app_state_condition set_status_condition cond cs).0
        ≡ set_status_condition [] (state_condition cond)
  unfolding update_bpf_app_state_condition
  changed-set cond [] h = refl
  changed-set cond (c ∷ []) h = ground (arith, h)
  changed-set cond (c ∷ c' ∷ cs) h = refl

  -- After a report that changed the conditions, to report the same again changes nothing, the helpers
  -- read a failure exactly for Error and UnloadError, and they read pending exactly for Pending. A
  -- report of ProgramListChangedError is the exception: it is read as no failure, and to report it
  -- again changes the conditions again.
  pub update_bpf_app_state_condition-reads :
      AddsToEmpty set_status_condition
      → (cond : BpfApplicationStateConditionType) (cs : List Condition)
      → (update_bpf_app_state_condition set_status_condition cond cs).1 ≡ true
      → reads cond (update_bpf_app_state_condition set_status_condition cond cs).0
        ≡ (is_list_changed cond, is_failure cond, is_pending cond)
  update_bpf_app_state_condition-reads adds cond cs h =
      let (c, hc, ht) = adds (state_condition cond) in
      ap (reads cond) (changed-set cond cs h ∙ hc) ∙ reads-one cond c ht
