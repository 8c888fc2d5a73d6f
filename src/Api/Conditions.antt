-- ===== src/Api/Conditions.antt =====
-- Load statuses and conditions: apis/v1alpha1/shared_types.go.
use bpfman_operator.Shared.{
  Bool, true, ℕ, String, Eq, ◌==◌, ◌≡◌, ◌↔◌, arith, nat_eq, string_eq, if◌then◌else◌,
}

pub data AppLoadStatus : Type 0 where
  app_load_not_loaded app_load_success app_load_error app_un_load_success app_unload_error
        not_selected prog_list_changed_error :
      AppLoadStatus

-- `==`, through the position in the enumeration.
abbrev pub app_load_status_index : AppLoadStatus → ℕ
app_load_status_index app_load_not_loaded = 0
app_load_status_index app_load_success = 1
app_load_status_index app_load_error = 2
app_load_status_index app_un_load_success = 3
app_load_status_index app_unload_error = 4
app_load_status_index not_selected = 5
app_load_status_index prog_list_changed_error = 6

abbrev pub app_load_status_beq : AppLoadStatus → AppLoadStatus → Bool
app_load_status_beq a b = app_load_status_index a == app_load_status_index b

pub app_load_status_beq_iff : (a b : AppLoadStatus) → (app_load_status_beq a b ≡ true) ↔ (a ≡ b)
app_load_status_beq_iff a b = ground arith

instance abbrev pub app_load_status_eq : Eq AppLoadStatus
app_load_status_eq = record { beq = app_load_status_beq; beq_iff = app_load_status_beq_iff }

pub data BpfApplicationStateConditionType : Type 0 where
  bpf_app_state_cond_pending bpf_app_state_cond_success bpf_app_state_cond_error
        bpf_app_state_cond_program_list_changed_error bpf_app_state_cond_unload_error
        bpf_app_state_cond_unloaded :
      BpfApplicationStateConditionType

-- `string(b)`: the constant's text.
abbrev pub state_cond_string : BpfApplicationStateConditionType → String
state_cond_string bpf_app_state_cond_pending = "Pending"
state_cond_string bpf_app_state_cond_success = "Success"
state_cond_string bpf_app_state_cond_error = "Error"
state_cond_string bpf_app_state_cond_program_list_changed_error = "ProgramListChangedError"
state_cond_string bpf_app_state_cond_unload_error = "UnloadError"
state_cond_string bpf_app_state_cond_unloaded = "Unloaded"

pub data BpfApplicationConditionType : Type 0 where
  bpf_app_cond_pending bpf_app_cond_success bpf_app_cond_error bpf_app_cond_delete_error :
      BpfApplicationConditionType

abbrev pub app_cond_string : BpfApplicationConditionType → String
app_cond_string bpf_app_cond_pending = "Pending"
app_cond_string bpf_app_cond_success = "Success"
app_cond_string bpf_app_cond_error = "Error"
app_cond_string bpf_app_cond_delete_error = "DeleteError"

-- `metav1.Condition`, less the fields that the program leaves alone. `status` is
-- `metav1.ConditionStatus`, a text; the time is a number of seconds.
pub record Condition : Type 0 where
  pub type : String
  pub status : String
  pub reason : String
  pub message : String
  pub last_transition_time : ℕ

abbrev pub empty_condition : Condition
empty_condition = record {
  type = "";
  status = "";
  reason = "";
  message = "";
  last_transition_time = 0;
}

abbrev true_condition : String → String → String → Condition
true_condition type reason message = record {
  type = type;
  status = "True";
  reason = reason;
  message = message;
  last_transition_time = 0;
}

-- `Condition()`. The switch has no case for ProgramListChangedError, so that it gives the zero value.
unfoldable pub state_condition : BpfApplicationStateConditionType → Condition
state_condition bpf_app_state_cond_pending = true_condition "Pending" "Pending" "Not yet complete"
state_condition bpf_app_state_cond_success =
    true_condition "Success" "Success"
      "The BPF application has been successfully loaded and attached"
state_condition bpf_app_state_cond_error = true_condition "Error" "Error" "An error has occurred"
state_condition bpf_app_state_cond_unload_error =
    true_condition "UnloadError" "Unload Error" "Unload failed for one or more programs"
state_condition bpf_app_state_cond_unloaded =
    true_condition "Unloaded" "Unloaded" "The application has been successfully unloaded"
state_condition bpf_app_state_cond_program_list_changed_error = empty_condition

-- `if len(message) == 0 { message = … }`
abbrev message_or : String → String → String
message_or message default = if message == "" then default else message

-- `Condition(message)`
unfoldable pub app_condition : BpfApplicationConditionType → String → Condition
app_condition bpf_app_cond_pending message =
    true_condition "Pending" "Pending"
      (message_or message "Waiting for Bpf Application Object to be reconciled on all nodes")
app_condition bpf_app_cond_error message =
    true_condition "Error" "Error" (message_or message "An error has occurred on one or more nodes")
app_condition bpf_app_cond_success message =
    true_condition "Success" "Success"
      (message_or message "BPF application configuration successfully applied on all nodes")
app_condition bpf_app_cond_delete_error message =
    true_condition "DeleteError" "DeleteError"
      (message_or message "Deletion failed on one or more nodes")
