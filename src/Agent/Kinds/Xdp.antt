-- ===== src/Agent/Kinds/Xdp.antt =====
-- XDP programs: controllers/bpfman-agent/cl_xdp_program.go and ns_xdp_program.go.
use bpfman_operator.Shared.{
  Bool, true, ◌&&◌, ℤ, pos, int_eq, String, Option, none, some, List, [], ◌∷◌, map, ◌==◌, string_eq,
  list_eq, option_eq, if◌then◌else◌, ◌≡◌, beq_refl,
}
use bpfman_operator.Api.Links.{Link}
use bpfman_operator.Agent.Bpfman.{
  Result, ok, err, BpfmanProgramType, AttachInfo, xdp_attach_info, LoadInfo,
}
use bpfman_operator.Agent.Interfaces.{InterfaceSelector}
use bpfman_operator.Agent.Containers.{LabelSelector}
use bpfman_operator.Agent.Update.{LinkSource}
use bpfman_operator.Agent.Update.Matching.{Matching}
use bpfman_operator.Agent.Kinds.{
  AgentEnv, AgentState, AttachPoint, ClNetworkNamespaceSelector, get_priority, netns_pointer,
  cl_attach_points, ns_attach_points,
}
use bpfman_operator.Agent.Kinds.Source.{netns_source, netns_matching}

-- The fields of `XdpAttachInfoState` and `ClXdpAttachInfoState` beside the common ones.
pub record XdpDetails : Type 0 where
  pub interface_name : String
  pub netns_path : String
  pub priority : ℤ
  pub proceed_on : Option (List String)

pub record ClXdpAttachInfo : Type 0 where
  pub interface_selector : InterfaceSelector
  pub network_namespaces : Option ClNetworkNamespaceSelector
  pub priority : Option ℤ
  pub proceed_on : Option (List String)

pub record XdpAttachInfo : Type 0 where
  pub interface_selector : InterfaceSelector
  pub network_namespaces : LabelSelector
  pub priority : Option ℤ
  pub proceed_on : Option (List String)

-- One value of xdpProceedOnToInt; an unknown text gives none.
abbrev xdp_proceed_on_value : String → Option ℤ
xdp_proceed_on_value p =
    if p == "Aborted"
    then some (pos 0)
    else if p == "Drop"
    then some (pos 1)
    else if p == "Pass"
    then some (pos 2)
    else if p == "TX"
    then some (pos 3)
    else if p == "ReDirect"
    then some (pos 4)
    else if p == "DispatcherReturn"
    then some (pos 31)
    else none

abbrev add_value : Option ℤ → List ℤ → List ℤ
add_value none out = out
add_value (some v) out = v ∷ out

-- The loop of xdpProceedOnToInt.
abbrev xdp_proceed_on_values : List String → List ℤ
xdp_proceed_on_values [] = []
xdp_proceed_on_values (p ∷ ps) = add_value (xdp_proceed_on_value p) (xdp_proceed_on_values ps)

-- xdpProceedOnToInt; `none` is a nil slice.
unfoldable pub xdp_proceed_on_to_int : Option (List String) → List ℤ
xdp_proceed_on_to_int none = []
xdp_proceed_on_to_int (some proceed_on) = xdp_proceed_on_values proceed_on

-- The fields that findLink compares beside the network namespace. DeepEqual tells a
-- nil slice from an empty one.
unfoldable pub xdp_same_fields : XdpDetails → XdpDetails → Bool
xdp_same_fields a b =
    a.interface_name == b.interface_name
    && (a.priority == b.priority && a.proceed_on == b.proceed_on)

pub xdp_same_fields_refl : (d : XdpDetails) → xdp_same_fields d d ≡ true
unfolding xdp_same_fields
xdp_same_fields_refl d = rw (beq_refl d.interface_name, beq_refl d.priority, beq_refl d.proceed_on)

abbrev pub cl_xdp_details : ClXdpAttachInfo → AttachPoint → XdpDetails
cl_xdp_details info point = record {
  interface_name = point.0;
  netns_path = point.1;
  priority = get_priority info.priority;
  proceed_on = info.proceed_on;
}

abbrev ns_xdp_details : XdpAttachInfo → AttachPoint → XdpDetails
ns_xdp_details info point = record {
  interface_name = point.0;
  netns_path = point.1;
  priority = get_priority info.priority;
  proceed_on = info.proceed_on;
}

abbrev pub map_points : {A B : Type 0} → (A → B) → Result (List A) → Result (List B)
map_points f (err e) = err e
map_points f (ok points) = ok (map f points)

module _ (env : AgentEnv) where
  -- The attach points of an entry, in getExpectedLinks of the cluster-scoped reconciler.
  abbrev pub cl_xdp_expected : ClXdpAttachInfo → Result (List XdpDetails)
  cl_xdp_expected info =
      map_points (cl_xdp_details info)
        (cl_attach_points env info.interface_selector info.network_namespaces)

  -- The same of the namespace-scoped reconciler, in the namespace that it holds.
  abbrev pub ns_xdp_expected : String → XdpAttachInfo → Result (List XdpDetails)
  ns_xdp_expected namespace info =
      map_points (ns_xdp_details info)
        (ns_attach_points env namespace info.interface_selector info.network_namespaces)

  unfoldable pub cl_xdp_source : LinkSource AgentState ClXdpAttachInfo XdpDetails
  unfolding xdp_same_fields
  cl_xdp_source = netns_source env xdp_same_fields (λ d. d.netns_path) cl_xdp_expected

  unfoldable pub ns_xdp_source : String → LinkSource AgentState XdpAttachInfo XdpDetails
  unfolding xdp_same_fields
  ns_xdp_source namespace =
      netns_source env xdp_same_fields (λ d. d.netns_path) (ns_xdp_expected namespace)

  unfoldable pub cl_xdp_matching : Matching cl_xdp_source
  unfolding cl_xdp_source netns_matching
  cl_xdp_matching =
      netns_matching env xdp_same_fields (λ d. d.netns_path) cl_xdp_expected xdp_same_fields_refl

  unfoldable pub ns_xdp_matching : (namespace : String) → Matching (ns_xdp_source namespace)
  unfolding ns_xdp_source netns_matching
  ns_xdp_matching namespace =
      netns_matching env xdp_same_fields (λ d. d.netns_path) (ns_xdp_expected namespace)
        xdp_same_fields_refl

-- The request's `oneof` in getAttachRequest, cluster-scoped: no pointer for the host.
unfoldable pub cl_xdp_attach_info : Link XdpDetails → AttachInfo
cl_xdp_attach_info l = xdp_attach_info (record {
  priority = l.details.priority;
  iface = l.details.interface_name;
  proceed_on = xdp_proceed_on_to_int l.details.proceed_on;
  uuid = l.uuid;
  netns = netns_pointer l.details.netns_path;
})

-- The request's `oneof` in getAttachRequest, namespace-scoped: always a pointer to the path.
unfoldable pub ns_xdp_attach_info : Link XdpDetails → AttachInfo
ns_xdp_attach_info l = xdp_attach_info (record {
  priority = l.details.priority;
  iface = l.details.interface_name;
  proceed_on = xdp_proceed_on_to_int l.details.proceed_on;
  uuid = l.uuid;
  netns = some l.details.netns_path;
})

-- getProgramLoadInfo
unfoldable pub xdp_load_info : String → LoadInfo
xdp_load_info name = record { name = name; program_type = BpfmanProgramType.xdp; fn_name = none }
