-- ===== src/Agent/Kinds/Uprobe.antt =====
-- Uprobe and uretprobe programs: controllers/bpfman-agent/cl_uprobe_program.go and ns_uprobe_program.go.
use bpfman_operator.Shared.{
  Bool, true, ◌&&◌, ℤ, int_eq, uint64_of, String, Option, none, some, List, [], ◌∷◌, map, ◌==◌,
  string_eq, option_eq, ◌≡◌, beq_refl,
}
use bpfman_operator.Api.Links.{Link}
use bpfman_operator.Agent.Bpfman.{
  Result, ok, err, BpfmanProgramType, AttachInfo, uprobe_attach_info, LoadInfo,
}
use bpfman_operator.Agent.Containers.{LabelSelector, ContainerInfo}
use bpfman_operator.Agent.Update.{LinkSource}
use bpfman_operator.Agent.Update.Matching.{Matching}
use bpfman_operator.Agent.Kinds.{AgentEnv, AgentState}
use bpfman_operator.Agent.Kinds.Plain.{plain_source, plain_matching}

-- The fields of `ClUprobeAttachInfoState` beside the common ones.
pub record ClUprobeDetails : Type 0 where
  pub function : String
  pub offset : ℤ
  pub target : String
  pub pid : Option ℤ
  pub container_pid : Option ℤ

-- The fields of `UprobeAttachInfoState` beside the common ones.
pub record UprobeDetails : Type 0 where
  pub function : String
  pub offset : ℤ
  pub target : String
  pub pid : Option ℤ
  pub container_pid : ℤ

pub record ClContainerSelector : Type 0 where
  pub namespace : String
  pub pods : LabelSelector
  pub container_names : List String

pub record ContainerSelector : Type 0 where
  pub pods : LabelSelector
  pub container_names : List String

pub record ClUprobeAttachInfo : Type 0 where
  pub function : String
  pub offset : ℤ
  pub target : String
  pub pid : Option ℤ
  pub containers : Option ClContainerSelector

pub record UprobeAttachInfo : Type 0 where
  pub function : String
  pub offset : ℤ
  pub target : String
  pub pid : Option ℤ
  pub containers : ContainerSelector

-- The fields that findLink compares.
unfoldable pub cl_uprobe_same_fields : ClUprobeDetails → ClUprobeDetails → Bool
cl_uprobe_same_fields a b =
    a.function == b.function
    && (a.offset == b.offset
        && (a.target == b.target && (a.pid == b.pid && a.container_pid == b.container_pid)))

unfoldable pub ns_uprobe_same_fields : UprobeDetails → UprobeDetails → Bool
ns_uprobe_same_fields a b =
    a.function == b.function
    && (a.offset == b.offset
        && (a.target == b.target && (a.pid == b.pid && a.container_pid == b.container_pid)))

pub cl_uprobe_same_fields_refl : (d : ClUprobeDetails) → cl_uprobe_same_fields d d ≡ true
unfolding cl_uprobe_same_fields
cl_uprobe_same_fields_refl d = rw (
  beq_refl d.function,
  beq_refl d.offset,
  beq_refl d.target,
  beq_refl d.pid,
  beq_refl d.container_pid,
)

pub ns_uprobe_same_fields_refl : (d : UprobeDetails) → ns_uprobe_same_fields d d ≡ true
unfolding ns_uprobe_same_fields
ns_uprobe_same_fields_refl d = rw (
  beq_refl d.function,
  beq_refl d.offset,
  beq_refl d.target,
  beq_refl d.pid,
  beq_refl d.container_pid,
)

abbrev cl_uprobe_details : ClUprobeAttachInfo → Option ℤ → ClUprobeDetails
cl_uprobe_details info container_pid = record {
  function = info.function;
  offset = info.offset;
  target = info.target;
  pid = info.pid;
  container_pid = container_pid;
}

abbrev ns_uprobe_details : UprobeAttachInfo → ℤ → UprobeDetails
ns_uprobe_details info container_pid = record {
  function = info.function;
  offset = info.offset;
  target = info.target;
  pid = info.pid;
  container_pid = container_pid;
}

-- A link for each container, if the list is there.
abbrev per_container :
    {D : Type 0} → (ContainerInfo → D) → Result (Option (List ContainerInfo)) → Result (List D)
per_container f (err e) = err e
per_container f (ok none) = ok []
per_container f (ok (some containers)) = ok (map f containers)

module _ (env : AgentEnv) where
  abbrev cl_selected :
      ClUprobeAttachInfo → Option ClContainerSelector → Result (List ClUprobeDetails)
  cl_selected info none = ok (cl_uprobe_details info none ∷ [])
  cl_selected info (some s) =
      per_container (λ (c : ContainerInfo). cl_uprobe_details info (some c.pid))
        (env.get_containers s.namespace s.pods (some s.container_names))

  -- The links of an entry, in getExpectedLinks of the cluster-scoped reconciler: one per selected
  -- container, or else one without a container.
  unfoldable pub cl_uprobe_expected : ClUprobeAttachInfo → Result (List ClUprobeDetails)
  cl_uprobe_expected info = cl_selected info info.containers

  -- The same of the namespace-scoped reconciler: one per selected container.
  unfoldable pub ns_uprobe_expected : String → UprobeAttachInfo → Result (List UprobeDetails)
  ns_uprobe_expected namespace info =
      per_container (λ (c : ContainerInfo). ns_uprobe_details info c.pid)
        (env.get_containers namespace info.containers.pods (some info.containers.container_names))

  unfoldable pub cl_uprobe_source : LinkSource AgentState ClUprobeAttachInfo ClUprobeDetails
  unfolding cl_uprobe_same_fields cl_uprobe_expected
  cl_uprobe_source = plain_source cl_uprobe_same_fields env cl_uprobe_expected

  unfoldable pub ns_uprobe_source : String → LinkSource AgentState UprobeAttachInfo UprobeDetails
  unfolding ns_uprobe_same_fields ns_uprobe_expected
  ns_uprobe_source namespace = plain_source ns_uprobe_same_fields env (ns_uprobe_expected namespace)

  unfoldable pub cl_uprobe_matching : Matching cl_uprobe_source
  unfolding cl_uprobe_source plain_matching
  cl_uprobe_matching =
      plain_matching cl_uprobe_same_fields env cl_uprobe_expected cl_uprobe_same_fields_refl

  unfoldable pub ns_uprobe_matching : (namespace : String) → Matching (ns_uprobe_source namespace)
  unfolding ns_uprobe_source plain_matching
  ns_uprobe_matching namespace =
      plain_matching ns_uprobe_same_fields env (ns_uprobe_expected namespace)
        ns_uprobe_same_fields_refl

-- The request's `oneof` in getAttachRequest, cluster-scoped.
unfoldable pub cl_uprobe_attach_info : Link ClUprobeDetails → AttachInfo
cl_uprobe_attach_info l = uprobe_attach_info (record {
  fn_name = l.details.function;
  offset = uint64_of l.details.offset;
  target = l.details.target;
  pid = l.details.pid;
  container_pid = l.details.container_pid;
  uuid = l.uuid;
})

-- The request's `oneof` in getAttachRequest, namespace-scoped: always a container's pid.
unfoldable pub ns_uprobe_attach_info : Link UprobeDetails → AttachInfo
ns_uprobe_attach_info l = uprobe_attach_info (record {
  fn_name = l.details.function;
  offset = uint64_of l.details.offset;
  target = l.details.target;
  pid = l.details.pid;
  container_pid = some l.details.container_pid;
  uuid = l.uuid;
})

-- getProgramLoadInfo
unfoldable pub uprobe_load_info : String → LoadInfo
uprobe_load_info name = record {
  name = name;
  program_type = BpfmanProgramType.uprobe;
  fn_name = none;
}
