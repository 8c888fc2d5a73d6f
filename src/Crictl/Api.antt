-- ===== src/Crictl/Api.antt =====
-- The entry point for process ids: pkg/crictl/api.go, and the choice of a socket of discovery.go.
use bpfman_operator.Shared.{
  Bool, not, String, Option, none, some, List, [], ◌∷◌, ◌==◌, string_eq, if◌then◌else◌,
}
use bpfman_operator.Crictl.{ContainerPidInfo, Json}
use bpfman_operator.Crictl.Client.{Runtime, get_container_info_from_pod}

abbrev pub default_endpoints : List String
default_endpoints =
    "unix:///run/containerd/containerd.sock" ∷ "unix:///run/crio/crio.sock"
    ∷ "unix:///var/run/cri-dockerd.sock" ∷ "unix:///var/run/containerd/containerd.sock"
    ∷ "unix:///var/run/crio/crio.sock" ∷ "unix:///var/run/dockershim.sock" ∷ []

-- The loop over the endpoints; `answers` is testConnection.
abbrev pub first_answering : (String → Bool) → List String → Option String
first_answering answers [] = none
first_answering answers (e ∷ endpoints) =
    let rest = first_answering answers endpoints in if answers e then some e else rest

-- findCRISocket; the first text is CONTAINER_RUNTIME_ENDPOINT.
unfoldable pub find_cri_socket : String → (String → Bool) → Option String
find_cri_socket endpoint answers =
    if not (endpoint == "") then some endpoint else first_answering answers default_endpoints

module _ (json : Json) (connect : String → Option Runtime) where
  -- NewClient; `connect` makes a connection and asks for the version.
  abbrev pub new_client : Option String → Option Runtime
  new_client none = none
  new_client (some socket) = connect socket

  abbrev pub pids_from : Option Runtime → String → List String → Option (List ContainerPidInfo)
  pids_from none pod_name names = none
  pids_from (some runtime) pod_name names = get_container_info_from_pod json runtime pod_name names

  -- GetContainerPIDsFromPod
  unfoldable pub get_container_pids_from_pod :
      Option String → String → List String → Option (List ContainerPidInfo)
  get_container_pids_from_pod socket pod_name names = pids_from (new_client socket) pod_name names
