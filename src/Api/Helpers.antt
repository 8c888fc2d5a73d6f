-- ===== src/Api/Helpers.antt =====
-- Reading the condition of a BpfApplicationState: pkg/helpers/helpers.go.
use bpfman_operator.Shared.{Bool, true, ◌||◌, List, [], ◌∷◌, ◌==◌, string_eq}
use bpfman_operator.Api.Conditions.{
  Condition, state_cond_string, app_cond_string, bpf_app_state_cond_error,
  bpf_app_state_cond_program_list_changed_error, bpf_app_state_cond_unload_error,
  bpf_app_cond_pending,
}

-- IsBpfAppStateConditionFailure
unfoldable pub is_bpf_app_state_condition_failure : List Condition → Bool
is_bpf_app_state_condition_failure [] = true
is_bpf_app_state_condition_failure (c ∷ cs) =
    c.type == state_cond_string bpf_app_state_cond_error
    || c.type == state_cond_string bpf_app_state_cond_program_list_changed_error
    || c.type == state_cond_string bpf_app_state_cond_unload_error

-- IsBpfAppStateConditionPending
unfoldable pub is_bpf_app_state_condition_pending : List Condition → Bool
is_bpf_app_state_condition_pending [] = true
is_bpf_app_state_condition_pending (c ∷ cs) = c.type == app_cond_string bpf_app_cond_pending
