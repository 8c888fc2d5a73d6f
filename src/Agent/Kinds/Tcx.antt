-- ===== src/Agent/Kinds/Tcx.antt =====
-- TCX programs: controllers/bpfman-agent/cl_tcx_program.go and ns_tcx_program.go.
use bpfman_operator.Shared.{
  Bool, true, ◌&&◌, ℤ, int_eq, String, Option, none, some, List, map, ◌==◌, string_eq, list_eq, ◌≡◌,
  beq_refl,
}
use bpfman_operator.Api.Links.{Link}
use bpfman_operator.Agent.Bpfman.{
  Result, ok, err, BpfmanProgramType, AttachInfo, tcx_attach_info, LoadInfo,
}
use bpfman_operator.Agent.Interfaces.{InterfaceSelector}
use bpfman_operator.Agent.Containers.{LabelSelector}
use bpfman_operator.Agent.Update.{LinkSource}
use bpfman_operator.Agent.Update.Matching.{Matching}
use bpfman_operator.Agent.Kinds.{
  AgentEnv, AgentState, AttachPoint, ClNetworkNamespaceSelector, get_priority, netns_pointer,
  cl_attach_points, ns_attach_points,
}
use bpfman_operator.Agent.Kinds.Source.{netns_source, netns_matching}
use bpfman_operator.Agent.Kinds.Tc.{
  TcDirectionType, direction_beq, direction_beq_refl, direction_to_str,
}

-- The fields of `TcxAttachInfoState` and `ClTcxAttachInfoState` beside the common ones.
pub record TcxDetails : Type 0 where
  pub interface_name : String
  pub netns_path : String
  pub priority : ℤ
  pub direction : TcDirectionType

pub record ClTcxAttachInfo : Type 0 where
  pub interface_selector : InterfaceSelector
  pub network_namespaces : Option ClNetworkNamespaceSelector
  pub priority : Option ℤ
  pub direction : TcDirectionType

pub record TcxAttachInfo : Type 0 where
  pub interface_selector : InterfaceSelector
  pub network_namespaces : LabelSelector
  pub priority : Option ℤ
  pub direction : TcDirectionType

-- The fields that findLink compares beside the network namespace. A slice is compared by its elements.
unfoldable pub tcx_same_fields : TcxDetails → TcxDetails → Bool
tcx_same_fields a b =
    a.interface_name == b.interface_name
    && (direction_beq a.direction b.direction && a.priority == b.priority)

pub tcx_same_fields_refl : (d : TcxDetails) → tcx_same_fields d d ≡ true
unfolding tcx_same_fields
tcx_same_fields_refl d =
    rw (beq_refl d.interface_name, direction_beq_refl d.direction, beq_refl d.priority)

abbrev cl_tcx_details : ClTcxAttachInfo → AttachPoint → TcxDetails
cl_tcx_details info point = record {
  interface_name = point.0;
  netns_path = point.1;
  priority = get_priority info.priority;
  direction = info.direction;
}

abbrev ns_tcx_details : TcxAttachInfo → AttachPoint → TcxDetails
ns_tcx_details info point = record {
  interface_name = point.0;
  netns_path = point.1;
  priority = get_priority info.priority;
  direction = info.direction;
}

abbrev map_points : {A B : Type 0} → (A → B) → Result (List A) → Result (List B)
map_points f (err e) = err e
map_points f (ok points) = ok (map f points)

module _ (env : AgentEnv) where
  -- The attach points of an entry, in getExpectedLinks of the cluster-scoped reconciler.
  abbrev pub cl_tcx_expected : ClTcxAttachInfo → Result (List TcxDetails)
  cl_tcx_expected info =
      map_points (cl_tcx_details info)
        (cl_attach_points env info.interface_selector info.network_namespaces)

  -- The same of the namespace-scoped reconciler, in the namespace that it holds.
  abbrev pub ns_tcx_expected : String → TcxAttachInfo → Result (List TcxDetails)
  ns_tcx_expected namespace info =
      map_points (ns_tcx_details info)
        (ns_attach_points env namespace info.interface_selector info.network_namespaces)

  unfoldable pub cl_tcx_source : LinkSource AgentState ClTcxAttachInfo TcxDetails
  unfolding tcx_same_fields
  cl_tcx_source = netns_source env tcx_same_fields (λ d. d.netns_path) cl_tcx_expected

  unfoldable pub ns_tcx_source : String → LinkSource AgentState TcxAttachInfo TcxDetails
  unfolding tcx_same_fields
  ns_tcx_source namespace =
      netns_source env tcx_same_fields (λ d. d.netns_path) (ns_tcx_expected namespace)

  unfoldable pub cl_tcx_matching : Matching cl_tcx_source
  unfolding cl_tcx_source netns_matching
  cl_tcx_matching =
      netns_matching env tcx_same_fields (λ d. d.netns_path) cl_tcx_expected tcx_same_fields_refl

  unfoldable pub ns_tcx_matching : (namespace : String) → Matching (ns_tcx_source namespace)
  unfolding ns_tcx_source netns_matching
  ns_tcx_matching namespace =
      netns_matching env tcx_same_fields (λ d. d.netns_path) (ns_tcx_expected namespace)
        tcx_same_fields_refl

-- The request's `oneof` in getAttachRequest, cluster-scoped: no pointer for the host.
unfoldable pub cl_tcx_attach_info : Link TcxDetails → AttachInfo
cl_tcx_attach_info l = tcx_attach_info (record {
  priority = l.details.priority;
  iface = l.details.interface_name;
  direction = direction_to_str l.details.direction;
  uuid = l.uuid;
  netns = netns_pointer l.details.netns_path;
})

-- The request's `oneof` in getAttachRequest, namespace-scoped: always a pointer to the path.
unfoldable pub ns_tcx_attach_info : Link TcxDetails → AttachInfo
ns_tcx_attach_info l = tcx_attach_info (record {
  priority = l.details.priority;
  iface = l.details.interface_name;
  direction = direction_to_str l.details.direction;
  uuid = l.uuid;
  netns = some l.details.netns_path;
})

-- getProgramLoadInfo
unfoldable pub tcx_load_info : String → LoadInfo
tcx_load_info name = record { name = name; program_type = BpfmanProgramType.tcx; fn_name = none }
