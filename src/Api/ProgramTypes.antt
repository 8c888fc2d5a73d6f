-- ===== src/Api/ProgramTypes.antt =====
-- The kernel's program types by number and by name: internal/constants.go, and the smaller tables of
-- pkg/helpers/helpers.go.
pub mod Names
use bpfman_operator.Shared.{
  Bool, ℕ, ℤ, pos, String, Option, none, some, List, [], ◌∷◌, ◌==◌, nat_eq, int_eq, string_eq,
  get_elem?, if◌then◌else◌,
}

abbrev pub kprobe_type : ℕ
kprobe_type = 2

abbrev pub tc_type : ℕ
tc_type = 3

abbrev pub tracepoint_type : ℕ
tracepoint_type = 5

abbrev pub xdp_type : ℕ
xdp_type = 6

abbrev pub tracing_type : ℕ
tracing_type = 26

-- The names in the order of the enumeration, less AllPrograms at its end.
abbrev pub type_names : List String
type_names =
    "unspec" ∷ "socket_filter" ∷ "kprobe" ∷ "tc" ∷ "sched_act" ∷ "tracepoint" ∷ "xdp" ∷ "perf_event"
    ∷ "cgroup_skb" ∷ "cgroup_sock" ∷ "lwt_in" ∷ "lwt_out" ∷ "lwt_xmit" ∷ "sock_ops" ∷ "sk_skb"
    ∷ "cgroup_device" ∷ "sk_msg" ∷ "raw_tracepoint" ∷ "cgroup_sock_addr" ∷ "lwt_seg6local"
    ∷ "lirc_mode2" ∷ "sk_reuseport" ∷ "flow_dissector" ∷ "cgroup_sysctl" ∷ "raw_tracepoint_writable"
    ∷ "cgroup_sockopt" ∷ "tracing" ∷ "struct_ops" ∷ "ext" ∷ "lsm" ∷ "sk_lookup" ∷ "syscall" ∷ []

abbrev name_or_invalid : Option String → String
name_or_invalid none = "INVALID_PROG_TYPE"
name_or_invalid (some name) = name

-- String, of a type that is not negative.
unfoldable pub program_type_string : ℕ → String
program_type_string p = name_or_invalid (get_elem? type_names p)

-- FromString; `none` is its error.
unfoldable pub program_type_from_string : String → Option ℕ
program_type_from_string p =
    if p == "tc"
    then some tc_type
    else if p == "xdp"
    then some xdp_type
    else if p == "tracepoint"
    then some tracepoint_type
    else if p == "kprobe"
    then some kprobe_type
    else if p == "uprobe"
    then some kprobe_type
    else if p == "fentry"
    then some tracing_type
    else if p == "fexit"
    then some tracing_type
    else none

-- String of pkg/helpers.
unfoldable pub helper_type_string : ℕ → String
helper_type_string p =
    if p == kprobe_type
    then "kprobe"
    else if p == tc_type
    then "tc"
    else if p == xdp_type
    then "xdp"
    else if p == tracepoint_type
    then "tracepoint"
    else if p == tracing_type
    then "tracing"
    else ""

-- FromString of pkg/helpers.
unfoldable pub helper_type_from_string : String → Option ℕ
helper_type_from_string p =
    if p == "kprobe"
    then some kprobe_type
    else if p == "tc"
    then some tc_type
    else if p == "xdp"
    then some xdp_type
    else if p == "tracepoint"
    then some tracepoint_type
    else if p == "tracing"
    then some tracing_type
    else none

-- String of a TcProgramDirection.
abbrev pub tc_program_direction_string : ℤ → String
tc_program_direction_string t =
    if t == pos 1 then "ingress" else if t == pos 2 then "egress" else ""

-- ReconcileResult, and String of the three results.
pub data ReconcileResult : Type 0 where
  unchanged : ReconcileResult
  updated : ReconcileResult
  requeue : ReconcileResult

abbrev pub reconcile_result_string : ReconcileResult → String
reconcile_result_string unchanged = "Unchanged"
reconcile_result_string updated = "Updated"
reconcile_result_string requeue = "Requeue"
