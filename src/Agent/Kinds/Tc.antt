-- ===== src/Agent/Kinds/Tc.antt =====
-- TC programs: controllers/bpfman-agent/cl_tc_program.go and ns_tc_program.go.
use bpfman_operator.Shared.{
  Bool, true, false, ◌&&◌, ℤ, pos, negsuc, int_eq, String, Option, none, some, List, [], ◌∷◌, map,
  ◌==◌, string_eq, list_eq, option_eq, if◌then◌else◌, ◌≡◌, refl, beq_refl,
}
use bpfman_operator.Api.Links.{Link}
use bpfman_operator.Agent.Bpfman.{
  Result, ok, err, BpfmanProgramType, AttachInfo, tc_attach_info, LoadInfo,
}
use bpfman_operator.Agent.Interfaces.{InterfaceSelector}
use bpfman_operator.Agent.Containers.{LabelSelector}
use bpfman_operator.Agent.Update.{LinkSource}
use bpfman_operator.Agent.Update.Matching.{Matching}
use bpfman_operator.Agent.Kinds.{
  AgentEnv, AgentState, AttachPoint, ClNetworkNamespaceSelector, get_priority, netns_pointer,
  cl_attach_points, ns_attach_points,
}
use bpfman_operator.Agent.Kinds.Source.{netns_source, netns_matching}

pub data TcDirectionType : Type 0 where
  tc_ingress tc_egress : TcDirectionType

abbrev pub direction_beq : TcDirectionType → TcDirectionType → Bool
direction_beq tc_ingress tc_ingress = true
direction_beq tc_egress tc_egress = true
direction_beq tc_ingress tc_egress = false
direction_beq tc_egress tc_ingress = false

pub direction_beq_refl : (d : TcDirectionType) → direction_beq d d ≡ true
direction_beq_refl tc_ingress = refl
direction_beq_refl tc_egress = refl

-- directionToStr
unfoldable pub direction_to_str : TcDirectionType → String
direction_to_str tc_ingress = "ingress"
direction_to_str tc_egress = "egress"

-- The fields of `TcAttachInfoState` and `ClTcAttachInfoState` beside the common ones.
pub record TcDetails : Type 0 where
  pub interface_name : String
  pub netns_path : String
  pub priority : ℤ
  pub direction : TcDirectionType
  pub proceed_on : Option (List String)

pub record ClTcAttachInfo : Type 0 where
  pub interface_selector : InterfaceSelector
  pub network_namespaces : Option ClNetworkNamespaceSelector
  pub priority : Option ℤ
  pub direction : TcDirectionType
  pub proceed_on : Option (List String)

pub record TcAttachInfo : Type 0 where
  pub interface_selector : InterfaceSelector
  pub network_namespaces : LabelSelector
  pub priority : Option ℤ
  pub direction : TcDirectionType
  pub proceed_on : Option (List String)

-- One value of tcProceedOnToInt; an unknown text gives none.
abbrev tc_proceed_on_value : String → Option ℤ
tc_proceed_on_value p =
    if p == "Unspec"
    then some (negsuc 0)
    else if p == "OK"
    then some (pos 0)
    else if p == "ReClassify"
    then some (pos 1)
    else if p == "Shot"
    then some (pos 2)
    else if p == "Pipe"
    then some (pos 3)
    else if p == "Stolen"
    then some (pos 4)
    else if p == "Queued"
    then some (pos 5)
    else if p == "Repeat"
    then some (pos 6)
    else if p == "ReDirect"
    then some (pos 7)
    else if p == "Trap"
    then some (pos 8)
    else if p == "DispatcherReturn"
    then some (pos 30)
    else none

abbrev add_value : Option ℤ → List ℤ → List ℤ
add_value none out = out
add_value (some v) out = v ∷ out

-- The loop of tcProceedOnToInt.
abbrev tc_proceed_on_values : List String → List ℤ
tc_proceed_on_values [] = []
tc_proceed_on_values (p ∷ ps) = add_value (tc_proceed_on_value p) (tc_proceed_on_values ps)

-- tcProceedOnToInt; `none` is a nil slice.
unfoldable pub tc_proceed_on_to_int : Option (List String) → List ℤ
tc_proceed_on_to_int none = []
tc_proceed_on_to_int (some proceed_on) = tc_proceed_on_values proceed_on

-- The fields that findLink compares beside the network namespace. DeepEqual tells a
-- nil slice from an empty one.
unfoldable pub tc_same_fields : TcDetails → TcDetails → Bool
tc_same_fields a b =
    a.interface_name == b.interface_name
    && (direction_beq a.direction b.direction
        && (a.priority == b.priority && a.proceed_on == b.proceed_on))

pub tc_same_fields_refl : (d : TcDetails) → tc_same_fields d d ≡ true
unfolding tc_same_fields
tc_same_fields_refl d = rw (
  beq_refl d.interface_name,
  direction_beq_refl d.direction,
  beq_refl d.priority,
  beq_refl d.proceed_on,
)

abbrev cl_tc_details : ClTcAttachInfo → AttachPoint → TcDetails
cl_tc_details info point = record {
  interface_name = point.0;
  netns_path = point.1;
  priority = get_priority info.priority;
  direction = info.direction;
  proceed_on = info.proceed_on;
}

abbrev ns_tc_details : TcAttachInfo → AttachPoint → TcDetails
ns_tc_details info point = record {
  interface_name = point.0;
  netns_path = point.1;
  priority = get_priority info.priority;
  direction = info.direction;
  proceed_on = info.proceed_on;
}

abbrev map_points : {A B : Type 0} → (A → B) → Result (List A) → Result (List B)
map_points f (err e) = err e
map_points f (ok points) = ok (map f points)

module _ (env : AgentEnv) where
  -- The attach points of an entry, in getExpectedLinks of the cluster-scoped reconciler.
  abbrev pub cl_tc_expected : ClTcAttachInfo → Result (List TcDetails)
  cl_tc_expected info =
      map_points (cl_tc_details info)
        (cl_attach_points env info.interface_selector info.network_namespaces)

  -- The same of the namespace-scoped reconciler, in the namespace that it holds.
  abbrev pub ns_tc_expected : String → TcAttachInfo → Result (List TcDetails)
  ns_tc_expected namespace info =
      map_points (ns_tc_details info)
        (ns_attach_points env namespace info.interface_selector info.network_namespaces)

  unfoldable pub cl_tc_source : LinkSource AgentState ClTcAttachInfo TcDetails
  unfolding tc_same_fields
  cl_tc_source = netns_source env tc_same_fields (λ d. d.netns_path) cl_tc_expected

  unfoldable pub ns_tc_source : String → LinkSource AgentState TcAttachInfo TcDetails
  unfolding tc_same_fields
  ns_tc_source namespace =
      netns_source env tc_same_fields (λ d. d.netns_path) (ns_tc_expected namespace)

  unfoldable pub cl_tc_matching : Matching cl_tc_source
  unfolding cl_tc_source netns_matching
  cl_tc_matching =
      netns_matching env tc_same_fields (λ d. d.netns_path) cl_tc_expected tc_same_fields_refl

  unfoldable pub ns_tc_matching : (namespace : String) → Matching (ns_tc_source namespace)
  unfolding ns_tc_source netns_matching
  ns_tc_matching namespace =
      netns_matching env tc_same_fields (λ d. d.netns_path) (ns_tc_expected namespace)
        tc_same_fields_refl

-- The request's `oneof` in getAttachRequest, cluster-scoped: no pointer for the host.
unfoldable pub cl_tc_attach_info : Link TcDetails → AttachInfo
cl_tc_attach_info l = tc_attach_info (record {
  priority = l.details.priority;
  iface = l.details.interface_name;
  direction = direction_to_str l.details.direction;
  proceed_on = tc_proceed_on_to_int l.details.proceed_on;
  uuid = l.uuid;
  netns = netns_pointer l.details.netns_path;
})

-- The request's `oneof` in getAttachRequest, namespace-scoped: always a pointer to the path.
unfoldable pub ns_tc_attach_info : Link TcDetails → AttachInfo
ns_tc_attach_info l = tc_attach_info (record {
  priority = l.details.priority;
  iface = l.details.interface_name;
  direction = direction_to_str l.details.direction;
  proceed_on = tc_proceed_on_to_int l.details.proceed_on;
  uuid = l.uuid;
  netns = some l.details.netns_path;
})

-- getProgramLoadInfo
unfoldable pub tc_load_info : String → LoadInfo
tc_load_info name = record { name = name; program_type = BpfmanProgramType.tc; fn_name = none }
