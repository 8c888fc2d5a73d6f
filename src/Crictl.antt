-- ===== src/Crictl.antt =====
-- Process ids of containers, as the agent asks the container runtime for them: pkg/crictl/types.go and
-- container.go. The JSON library is a parameter.
pub mod Client
pub mod Api
pub mod Selection
pub mod Found
pub mod Pids
use bpfman_operator.Shared.{
  Bool, true, false, ℕ, ℤ, String, Option, none, some, List, [], ◌∷◌, ◌==◌, string_eq, contains,
  keep, if◌then◌else◌, Dict, look_up, put, int32_of, has_first, trim_char,
}

pub record PodMetadata : Type 0 where
  pub name : String
  pub uid : String
  pub namespace : String
  pub attempt : ℕ

pub record PodInfo : Type 0 where
  pub id : String
  pub metadata : PodMetadata
  pub state : String
  pub created_at : ℤ
  pub labels : Dict String

pub record ContainerMetadata : Type 0 where
  pub name : String
  pub attempt : ℕ

pub record ContainerInfo : Type 0 where
  pub id : String
  pub pod_id : String
  pub metadata : ContainerMetadata
  pub image : String
  pub image_ref : String
  pub state : String
  pub created_at : ℤ
  pub labels : Dict String

pub record ContainerPidInfo : Type 0 where
  pub pod_name : String
  pub container_name : String
  pub container_id : String
  pub pid : ℤ
  pub namespace : String

-- An `interface{}`, by its dynamic type.
pub data Value (Float Rest : Type 0) : Type 0 where
  int64_value : (n : ℤ) → Value Float Rest
  float64_value : (x : Float) → Value Float Rest
  int_value : (n : ℤ) → Value Float Rest
  int32_value : (n : ℤ) → Value Float Rest
  string_value : (s : String) → Value Float Rest
  other_value : (r : Rest) → Value Float Rest

-- encoding/json into a map, the conversion `int32(x)` of a float64, and a map as a value.
pub record Json : Type 1 where
  pub Float : Type 0
  pub Rest : Type 0
  pub unmarshal : String → Option (Dict (Value Float Rest))
  pub int32_of_float : Float → ℤ
  pub object : Dict (Value Float Rest) → Rest

-- findPodByNameWithNamespace
unfoldable pub find_pod_by_name_with_namespace : List PodInfo → String → Option PodInfo
find_pod_by_name_with_namespace [] pod_name = none
find_pod_by_name_with_namespace (pod ∷ pods) pod_name =
    let rest = find_pod_by_name_with_namespace pods pod_name in
    if pod.metadata.name == pod_name then some pod else rest

-- The loop of filterContainersByNames.
abbrev filtered : List ContainerInfo → List String → List ContainerInfo
filtered [] names = []
filtered (c ∷ containers) names =
    let rest = filtered containers names in
    if contains c.metadata.name names then c ∷ rest else rest

-- filterContainersByNames
unfoldable pub filter_containers_by_names : List ContainerInfo → List String → List ContainerInfo
filter_containers_by_names containers [] = containers
filter_containers_by_names containers (name ∷ names) = filtered containers (name ∷ names)

-- buildContainerPIDInfo
abbrev pub build_container_pid_info : String → String → ContainerInfo → ℤ → ContainerPidInfo
build_container_pid_info pod_name namespace c pid = record {
  pod_name = pod_name;
  container_name = c.metadata.name;
  container_id = c.id;
  pid = pid;
  namespace = namespace;
}

module _ (json : Json) where
  -- `map[string]interface{}`
  abbrev pub Info : Type 0
  Info = Dict (Value json.Float json.Rest)

  -- convertPIDValue
  unfoldable pub convert_pid_value : Value json.Float json.Rest → Option ℤ
  convert_pid_value (int64_value n) = some (int32_of n)
  convert_pid_value (float64_value x) = some (json.int32_of_float x)
  convert_pid_value (int_value n) = some (int32_of n)
  convert_pid_value (int32_value n) = some n
  convert_pid_value (string_value s) = none
  convert_pid_value (other_value r) = none

  abbrev pub pid_of : Option (Value json.Float json.Rest) → Option ℤ
  pid_of none = none
  pid_of (some v) = convert_pid_value v

  -- extractPIDFromInspectInfo
  unfoldable pub extract_pid_from_inspect_info : Info → Option ℤ
  extract_pid_from_inspect_info info = pid_of (look_up "pid" info)

  -- What the text that starts with a brace stands for: a map, if it is one.
  abbrev parsed : String → Option Info
  parsed s = if has_first b'{' s then json.unmarshal s else none

  abbrev processed_text : String → Option Info → Value json.Float json.Rest
  processed_text s none = string_value (trim_char b'"' s)
  processed_text s (some m) = other_value (json.object m)

  abbrev processed_value : Value json.Float json.Rest → Value json.Float json.Rest
  processed_value (int64_value n) = int64_value n
  processed_value (float64_value x) = float64_value x
  processed_value (int_value n) = int_value n
  processed_value (int32_value n) = int32_value n
  processed_value (string_value s) = processed_text s (parsed s)
  processed_value (other_value r) = other_value r

  -- The loop over the map.
  abbrev processed_values : Info → Info
  processed_values [] = []
  processed_values ((key, v) ∷ info) = (key, processed_value v) ∷ processed_values info

  abbrev parsed_info : Option (Value json.Float json.Rest) → Option Info
  parsed_info (some (string_value s)) = parsed s
  parsed_info _ = none

  abbrev processed : Info → Option Info → Info
  processed info (some m) = m
  processed info none = processed_values info

  -- processInfoField
  unfoldable pub process_info_field : Info → Info
  process_info_field info = processed info (parsed_info (look_up "info" info))

  abbrev pub inspected_pid : Option Info → Option ℤ
  inspected_pid none = none
  inspected_pid (some info) = extract_pid_from_inspect_info info

  abbrev pub before :
      Option ℤ
      → (ℤ → ContainerPidInfo)
      → Option (List ContainerPidInfo)
      → Option (List ContainerPidInfo)
  before none build rest = none
  before (some pid) build none = none
  before (some pid) build (some infos) = some (build pid ∷ infos)

  -- The loop over the filtered containers, which returns at the first error.
  unfoldable pub pid_infos :
      String → String → Dict Info → List ContainerInfo → Option (List ContainerPidInfo)
  pid_infos pod_name namespace results [] = some []
  pid_infos pod_name namespace results (c ∷ containers) =
      let rest = pid_infos pod_name namespace results containers in
      before (inspected_pid (look_up c.id results)) (build_container_pid_info pod_name namespace c)
        rest

  abbrev pub pid_infos_of :
      List String
      → List ContainerInfo
      → Dict Info
      → Option PodInfo
      → String
      → Option (List ContainerPidInfo)
  pid_infos_of names containers results none pod_name = none
  pid_infos_of names containers results (some pod) pod_name =
      pid_infos pod_name pod.metadata.namespace results
        (filter_containers_by_names (keep (λ c. c.pod_id == pod.id) containers) names)

  -- processContainerInfoFromPod
  unfoldable pub process_container_info_from_pod :
      String
      → List String
      → List PodInfo
      → List ContainerInfo
      → Dict Info
      → Option (List ContainerPidInfo)
  unfolding find_pod_by_name_with_namespace
  process_container_info_from_pod pod_name names pods containers results =
      pid_infos_of names containers results (find_pod_by_name_with_namespace pods pod_name) pod_name
