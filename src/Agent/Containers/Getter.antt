-- ===== src/Agent/Containers/Getter.antt =====
-- RealContainerGetter of controllers/bpfman-agent/containers.go: the pods of the node by the API server,
-- and their containers by the container runtime.
use Prim.Native.String.{◌++◌ as append}
use bpfman_operator.Shared.{
  String, Option, none, some, List, [], ◌∷◌, ◌++◌, ◌==◌, string_eq, map, if◌then◌else◌,
}
use bpfman_operator.Crictl.{ContainerPidInfo, Json}
use bpfman_operator.Crictl.Client.{Runtime}
use bpfman_operator.Crictl.Api.{get_container_pids_from_pod}
use bpfman_operator.Agent.Bpfman.{Result, ok, err, container_error}
use bpfman_operator.Agent.Containers.{ContainerInfo, LabelSelector}

-- The pods of the API server, and the text of a label selector.
pub record PodSource : Type 0 where
  pub format_label_selector : LabelSelector → String
  -- The names of the pods, by namespace, field selector and label selector.
  pub list :
      (namespace field_selector : String) → (label_selector : Option String) → Option (List String)

-- The node, the API server, and the container runtime as it answers for each pod.
pub record RealContainerGetter : Type 1 where
  pub node_name : String
  pub pods : PodSource
  pub json : Json
  pub socket : Option String
  pub connect : (pod_name : String) → (socket : String) → Option Runtime

abbrev pub name_slice : Option (List String) → List String
name_slice none = []
name_slice (some names) = names

abbrev pub container_info : ContainerPidInfo → ContainerInfo
container_info info = record {
  pod_name = info.pod_name;
  container_name = info.container_name;
  pid = info.pid;
}

abbrev pub container_infos : Option (List ContainerPidInfo) → Option (List ContainerInfo)
container_infos none = none
container_infos (some infos) = some (map container_info infos)

abbrev pub appended :
    Option (List ContainerInfo) → Option (List ContainerInfo) → Option (List ContainerInfo)
appended none rest = none
appended (some infos) none = none
appended (some infos) (some rest) = some (infos ++ rest)

abbrev pub as_result : Option (List ContainerInfo) → Result (Option (List ContainerInfo))
as_result none = err container_error
as_result (some infos) = ok (some infos)

module _ (c : RealContainerGetter) where
  abbrev pub pods_by : String → String → Option (List String)
  pods_by namespace selector =
      if selector == "<error>"
      then none
      else c.pods.list namespace (append "spec.nodeName=" c.node_name)
          (if selector == "<none>" then none else some selector)

  -- getPodsForNode: the names of the pods.
  unfoldable pub get_pods_for_node : String → LabelSelector → Option (List String)
  get_pods_for_node namespace selector = pods_by namespace (c.pods.format_label_selector selector)

  -- getContainerInfoFromPod
  unfoldable pub get_container_info_from_pod :
      String → Option (List String) → Option (List ContainerInfo)
  unfolding get_container_pids_from_pod
  get_container_info_from_pod pod_name names =
      container_infos (
        get_container_pids_from_pod c.json (c.connect pod_name) c.socket pod_name
          (name_slice names))

  -- getContainerInfo, which returns at the first error.
  unfoldable pub get_container_info :
      List String → Option (List String) → Option (List ContainerInfo)
  unfolding get_container_info_from_pod
  get_container_info [] names = some []
  get_container_info (pod ∷ pods) names =
      let rest = get_container_info pods names in
      appended (get_container_info_from_pod pod names) rest

  abbrev pub containers_of :
      Option (List String) → Option (List String) → Option (List ContainerInfo)
  containers_of none names = none
  containers_of (some pods) names = get_container_info pods names

  -- GetContainers
  unfoldable pub get_containers :
      String → LabelSelector → Option (List String) → Result (Option (List ContainerInfo))
  unfolding get_pods_for_node get_container_info
  get_containers namespace selector names =
      as_result (containers_of (get_pods_for_node namespace selector) names)
