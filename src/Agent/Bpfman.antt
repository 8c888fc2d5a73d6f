-- ===== src/Agent/Bpfman.antt =====
-- The bpfman daemon as the agent calls it (controllers/bpfman-agent/internal/bpfman_core.go). The
-- gRPC client is not part of the repository: it is a parameter, `BpfmanClient`.
use bpfman_operator.Shared.{
  Bool, ℕ, ℤ, String, Option, List, [], ◌∷◌, ◌==◌, string_eq, if◌then◌else◌, ◌⊎◌, inl, inr, ◌≡◌,
  refl,
}

-- What went wrong, by the place that reports it. Wrapping by `fmt.Errorf` keeps the cause.
pub data Error : Type 0 where
  rpc_failed : Error
  kube_failed : Error
  not_found : Error
  bytecode_error : Error
  program_not_found : (name : String) → Error
  prog_state_not_found : (name : String) → Error
  unsupported_program_type : Error
  no_interfaces_selected : Error
  primary_interface_error : Error
  container_error : Error
  netns_id_error : (path : String) → Error
  selector_error : Error
  programs_added : (names : List String) → Error
  programs_removed : (names : List String) → Error
  duplicate_function : (name : String) → Error
  already_initialized : Error
  more_than_one_state : Error
  update_timeout : Error
  owner_reference_error : Error

-- A value, or what went wrong.
pub data Result (A : Type 0) : Type 0 where
  err : (what : Error) → Result A
  ok : (value : A) → Result A

pub Result-cases :
    {A : Type 0} (r : Result A) → ((e : Error) × (r ≡ err e)) ⊎ ((a : A) × (r ≡ ok a))
Result-cases (err e) = inl (e, refl)
Result-cases (ok a) = inr (a, refl)

pub data BpfmanProgramType : Type 0 where
  xdp tc tracepoint kprobe uprobe fentry fexit tcx : BpfmanProgramType

pub record XdpAttachInfo : Type 0 where
  pub priority : ℤ
  pub iface : String
  pub proceed_on : List ℤ
  pub uuid : String
  pub netns : Option String

pub record TcAttachInfo : Type 0 where
  pub priority : ℤ
  pub iface : String
  pub direction : String
  pub proceed_on : List ℤ
  pub uuid : String
  pub netns : Option String

pub record TcxAttachInfo : Type 0 where
  pub priority : ℤ
  pub iface : String
  pub direction : String
  pub uuid : String
  pub netns : Option String

pub record UprobeAttachInfo : Type 0 where
  pub fn_name : String
  pub offset : ℕ
  pub target : String
  pub pid : Option ℤ
  pub container_pid : Option ℤ
  pub uuid : String

-- The cases of the request's `oneof`. The metadata of each is one entry, the link's UUID.
pub data AttachInfo : Type 0 where
  xdp_attach_info : XdpAttachInfo → AttachInfo
  tc_attach_info : TcAttachInfo → AttachInfo
  tcx_attach_info : TcxAttachInfo → AttachInfo
  uprobe_attach_info : UprobeAttachInfo → AttachInfo
  kprobe_attach_info : (fn_name : String) (offset : ℕ) (uuid : String) → AttachInfo
  tracepoint_attach_info : (tracepoint uuid : String) → AttachInfo
  fentry_attach_info : (uuid : String) → AttachInfo
  fexit_attach_info : (uuid : String) → AttachInfo

pub record AttachRequest : Type 0 where
  pub id : ℕ
  pub attach : AttachInfo

pub data BytecodeLocation : Type 0 where
  image : (url : String) (pull_policy : ℤ) (username password : String) → BytecodeLocation
  file : (path : String) → BytecodeLocation

-- `fn_name` is the program-specific part, which fentry and fexit programs have.
pub record LoadInfo : Type 0 where
  pub name : String
  pub program_type : BpfmanProgramType
  pub fn_name : Option String

pub record LoadRequest : Type 0 where
  pub bytecode : BytecodeLocation
  pub metadata : List (String × String)
  pub global_data : List (String × List ℕ)
  pub info : List LoadInfo

pub record LoadResponseInfo : Type 0 where
  pub name : String
  pub kernel_id : ℕ

-- A call returns its result, or `none` for an error, and the daemon's next state. `Unload` and
-- `Detach` return whether they succeeded; `Get` returns the links of a program.
pub record BpfmanClient : Type 1 where
  pub Daemon : Type 0
  pub load : LoadRequest → Daemon → Option (List LoadResponseInfo) × Daemon
  pub unload : ℕ → Daemon → Bool × Daemon
  pub attach : AttachRequest → Daemon → Option ℕ × Daemon
  pub detach : ℕ → Daemon → Bool × Daemon
  pub get : ℕ → Daemon → Option (List ℕ) × Daemon

-- GetBpfProgramId: the kernel id of the first program of that name.
unfoldable pub get_bpf_program_id : String → List LoadResponseInfo → Result ℕ
get_bpf_program_id name [] = err (program_not_found name)
get_bpf_program_id name (p ∷ ps) =
    let rest = get_bpf_program_id name ps in if p.name == name then ok p.kernel_id else rest
