-- ===== src/Examples/Containers.antt =====
-- A container runtime with two pods of one name, and the agent's look-up of their containers.
use bpfman_operator.Shared.{
  int32_of, int32_of-IsInt32, int32_of_same, ◌⊎◌, subst, sym, ◌∙◌, ℤ, pos, negsuc, IsInt32, String,
  none, some, List, [], ◌∷◌, string_eq, All, keep, ◌≡◌, refl,
}
use bpfman_operator.Crictl.{
  PodInfo, ContainerInfo, ContainerPidInfo, Json, float64_value, int64_value, convert_pid_value,
  pid_infos, filter_containers_by_names, extract_pid_from_inspect_info, process_info_field,
  find_pod_by_name_with_namespace,
}
use bpfman_operator.Crictl.Client.{ContainerStatus, Runtime, get_container_info_from_pod}
use bpfman_operator.Crictl.Selection.{is_selected}
use bpfman_operator.Crictl.Found.{AreInfosOf, get_container_info_from_pod-IsExact}
use bpfman_operator.Crictl.Pids.{IsConversion, IsNoNumber, Keeps, convert_pid_value_bounds}
use bpfman_operator.Agent.Containers.{LabelSelector}
use bpfman_operator.Agent.Containers as agent
use bpfman_operator.Agent.Containers.Getter.{RealContainerGetter, get_pods_for_node, get_containers}
use bpfman_operator.Agent.Containers.Selected.{IsOfPods, get_containers-AreOfPods}

-- Every text is an object with a process id.
abbrev json : Json
json = record {
  Float = ℤ;
  Rest = String;
  unmarshal = λ text. some (("pid", float64_value (pos 42)) ∷ []);
  int32_of_float = int32_of;
  object = λ m. "object";
}

abbrev pod : String → String → PodInfo
pod id namespace = record {
  id = id;
  metadata = record { name = "web"; uid = id; namespace = namespace; attempt = 0 };
  state = "SANDBOX_READY";
  created_at = pos 0;
  labels = [];
}

abbrev container : String → String → ContainerInfo
container id pod_id = record {
  id = id;
  pod_id = pod_id;
  metadata = record { name = "main"; attempt = 0 };
  image = "web";
  image_ref = "web";
  state = "CONTAINER_RUNNING";
  created_at = pos 0;
  labels = [];
}

abbrev status : String → ContainerStatus
status id = record {
  id = id;
  metadata = record { name = "main"; attempt = 0 };
  state = "CONTAINER_RUNNING";
  created_at = pos 0;
  started_at = pos 0;
  finished_at = pos 0;
  exit_code = pos 0;
  image = "web";
  image_ref = "web";
  reason = "";
  message = "";
  labels = [];
  annotations = [];
  mounts = [];
  log_path = "";
}

abbrev runtime : Runtime
runtime = record {
  list_pod_sandbox = some (pod "p1" "blue" ∷ pod "p2" "green" ∷ []);
  list_containers = λ id. some (container "c2" "p2" ∷ container "c1" "p1" ∷ []);
  container_status = λ id. some (status id, ("info", "{}") ∷ []);
}

abbrev web_infos : List ContainerPidInfo
web_infos =
    record {
      pod_name = "web";
      container_name = "main";
      container_id = "c1";
      pid = pos 42;
      namespace = "blue";
    }
    ∷ []

get_container_info_from_pod-IsExact_example :
    (pods : List PodInfo) × (cs : List ContainerInfo) × (p : PodInfo) × (runtime.list_pod_sandbox
      ≡ some pods)
    × (runtime.list_containers "" ≡ some cs)
    × (find_pod_by_name_with_namespace pods "web" ≡ some p)
    × AreInfosOf json runtime p (keep (is_selected p ("main" ∷ [])) cs) web_infos
unfolding get_container_info_from_pod pid_infos filter_containers_by_names
    extract_pid_from_inspect_info process_info_field convert_pid_value
get_container_info_from_pod-IsExact_example =
    get_container_info_from_pod-IsExact json runtime "web" ("main" ∷ []) web_infos refl

json-IsConversion : IsConversion json (λ x. some x)
json-IsConversion = record {
  in_range = int32_of-IsInt32;
  exact = λ x n same small.
      (let x_n : x ≡ n = cc in int32_of_same x (subst IsInt32 (sym x_n) small) ∙ x_n);
}

convert_pid_value_bounds_example :
    (IsNoNumber json (λ x. some x) (float64_value (pos 4294967295))
      × (convert_pid_value json (float64_value (pos 4294967295)) ≡ none))
    ⊎ ((pid : ℤ) × (convert_pid_value json (float64_value (pos 4294967295)) ≡ some pid)
        × IsInt32 pid
        × Keeps json (λ x. some x) (some (pos 4294967295)) pid)
convert_pid_value_bounds_example =
    convert_pid_value_bounds json (λ x. some x) json-IsConversion (float64_value (pos 4294967295))
      tt

wrapped : convert_pid_value json (int64_value (pos 4294967295)) ≡ some (negsuc 0)
unfolding convert_pid_value
wrapped = refl

abbrev getter : RealContainerGetter
getter = record {
  node_name = "node1";
  pods = record {
    format_label_selector = λ selector. "<none>";
    list = λ namespace field label. some ("web" ∷ []);
  };
  json = json;
  socket = some "unix:///run/crio/crio.sock";
  connect = λ pod_name socket. some runtime;
}

-- The pod of the namespace green is asked for, and the container of the namespace blue is returned.
abbrev green_containers : List agent.ContainerInfo
green_containers = record { pod_name = "web"; container_name = "main"; pid = pos 42 } ∷ []

get_containers-AreOfPods_example :
    (pods : List String) × (get_pods_for_node getter "green"
        (record { match_labels = []; match_expressions = [] })
      ≡ some pods)
    × All (IsOfPods getter none pods) green_containers
unfolding get_containers get_container_info_from_pod pid_infos filter_containers_by_names
    extract_pid_from_inspect_info process_info_field convert_pid_value
get_containers-AreOfPods_example =
    get_containers-AreOfPods getter none "green"
      (record { match_labels = []; match_expressions = [] }) green_containers refl
