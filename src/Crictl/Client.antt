-- ===== src/Crictl/Client.antt =====
-- The client of the container runtime: pkg/crictl/client.go. The runtime's gRPC service is a parameter.
use bpfman_operator.Shared.{
  Bool, not, ◌&&◌, ℤ, String, Option, none, some, List, [], ◌∷◌, ◌==◌, string_eq, keep, Dict, put,
}
use bpfman_operator.Crictl.{
  PodInfo, ContainerInfo, ContainerMetadata, ContainerPidInfo, string_value, Json, Info,
  process_info_field, process_container_info_from_pod,
}

pub record ContainerMount : Type 0 where
  pub container_path : String
  pub host_path : String
  pub readonly : Bool

pub record ContainerStatus : Type 0 where
  pub id : String
  pub metadata : ContainerMetadata
  pub state : String
  pub created_at : ℤ
  pub started_at : ℤ
  pub finished_at : ℤ
  pub exit_code : ℤ
  pub image : String
  pub image_ref : String
  pub reason : String
  pub message : String
  pub labels : Dict String
  pub annotations : Dict String
  pub mounts : List ContainerMount
  pub log_path : String

-- What the runtime answers during one request: the pods, the containers of a filter by pod, and a
-- container's status with the texts of its info; `none` for an error. Its messages have the fields that
-- the program copies one by one.
pub record Runtime : Type 0 where
  pub list_pod_sandbox : Option (List PodInfo)
  pub list_containers : (pod_sandbox_id : String) → Option (List ContainerInfo)
  pub container_status : (id : String) → Option (ContainerStatus × Dict String)

module _ (json : Json) (runtime : Runtime) where
  abbrev pub named_pods : String → Option (List PodInfo) → Option (List PodInfo)
  named_pods name_filter none = none
  named_pods name_filter (some items) =
      some (
        keep (λ pod. not (not (name_filter == "") && not (pod.metadata.name == name_filter))) items)

  -- listPods
  unfoldable pub list_pods : String → Option (List PodInfo)
  list_pods name_filter = named_pods name_filter runtime.list_pod_sandbox

  -- listContainers
  abbrev pub list_containers : String → Option (List ContainerInfo)
  list_containers pod_id = runtime.list_containers pod_id

  -- `infoMap`
  abbrev pub info_map : Dict String → Info json
  info_map [] = []
  info_map ((key, s) ∷ info) = (key, string_value s) ∷ info_map info

  abbrev pub inspected :
      Option (ContainerStatus × Dict String) → Option (ContainerStatus × Info json)
  inspected none = none
  inspected (some (status, info)) = some (status, process_info_field json (info_map info))

  -- inspectContainer
  unfoldable pub inspect_container : String → Option (ContainerStatus × Info json)
  inspect_container id = inspected (runtime.container_status id)

  abbrev pub inspect_next :
      (Dict (Info json) → Option (Dict (Info json)))
      → String
      → Dict (Info json)
      → Option (ContainerStatus × Info json)
      → Option (Dict (Info json))
  inspect_next rest id results none = none
  inspect_next rest id results (some (status, info)) = rest (put id info results)

  -- The loop of GetContainerInfoFromPod that inspects every container.
  unfoldable pub inspect_all : List ContainerInfo → Dict (Info json) → Option (Dict (Info json))
  unfolding inspect_container
  inspect_all [] results = some results
  inspect_all (c ∷ containers) results =
      inspect_next (λ results'. inspect_all containers results') c.id results
        (inspect_container c.id)

  abbrev pub info_from :
      String
      → List String
      → List PodInfo
      → List ContainerInfo
      → Option (Dict (Info json))
      → Option (List ContainerPidInfo)
  info_from pod_name names pods containers none = none
  info_from pod_name names pods containers (some results) =
      process_container_info_from_pod json pod_name names pods containers results

  abbrev pub info_of_containers :
      String
      → List String
      → List PodInfo
      → Option (List ContainerInfo)
      → Option (List ContainerPidInfo)
  info_of_containers pod_name names pods none = none
  info_of_containers pod_name names pods (some containers) =
      info_from pod_name names pods containers (inspect_all containers [])

  abbrev pub info_of_pods :
      String → List String → Option (List PodInfo) → Option (List ContainerPidInfo)
  info_of_pods pod_name names none = none
  info_of_pods pod_name names (some pods) =
      info_of_containers pod_name names pods (list_containers "")

  -- GetContainerInfoFromPod
  unfoldable pub get_container_info_from_pod : String → List String → Option (List ContainerPidInfo)
  unfolding list_pods inspect_all process_container_info_from_pod
  get_container_info_from_pod pod_name names = info_of_pods pod_name names (list_pods pod_name)
