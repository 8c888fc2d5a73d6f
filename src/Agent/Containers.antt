-- ===== src/Agent/Containers.antt =====
-- Containers of selected pods: controllers/bpfman-agent/containers.go. The listing of pods and the
-- container runtime are behind `ContainerGetter`, as in the program.
pub mod OnePerPod
pub mod Getter
pub mod Selected
use Prim.Native.String.{◌++◌ as append}
use bpfman_operator.Shared.{
  Bool, true, false, not, ℤ, String, Option, none, some, List, [], ◌∷◌, ◌++◌, contains, string_eq,
  if◌then◌else◌,
}
use bpfman_operator.Agent.Bpfman.{Error, Result, ok, err}
use bpfman_operator.Agent.Text.{int32_string}

pub record ContainerInfo : Type 0 where
  pub pod_name : String
  pub container_name : String
  pub pid : ℤ

pub record LabelSelectorRequirement : Type 0 where
  pub key : String
  pub operator : String
  pub values : List String

-- `metav1.LabelSelector`, which the program only passes on.
pub record LabelSelector : Type 0 where
  pub match_labels : List (String × String)
  pub match_expressions : List LabelSelectorRequirement

-- GetContainers: a namespace, the pods, and the names of containers or nil; the list is behind a pointer.
abbrev pub ContainerGetter : Type 0
ContainerGetter =
    String → LabelSelector → Option (List String) → Result (Option (List ContainerInfo))

-- The loop of GetOneContainerPerPod; `unique_pods` holds the map's keys.
unfoldable pub one_per_pod : List String → List ContainerInfo → List ContainerInfo
one_per_pod unique_pods [] = []
one_per_pod unique_pods (c ∷ containers) =
    let skip = one_per_pod unique_pods containers in
    let take = c ∷ one_per_pod (c.pod_name ∷ unique_pods) containers in
    if not (contains c.pod_name unique_pods) then take else skip

-- GetOneContainerPerPod
unfoldable pub get_one_container_per_pod : List ContainerInfo → List ContainerInfo
unfolding one_per_pod
get_one_container_per_pod containers = one_per_pod [] containers

-- netnsPathFromPID
unfoldable pub netns_path_from_pid : ℤ → String
unfolding int32_string
netns_path_from_pid pid = append "/host/proc/" (append (int32_string pid) "/ns/net")
