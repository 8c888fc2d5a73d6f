-- ===== src/Agent/Kinds.antt =====
-- What the kinds of program share: the agent's surroundings and state, the expansion of an entry into
-- attach points, and the two halves of a LinkSource. The code stands in each of
-- controllers/bpfman-agent/{cl,ns}_*_program.go.
pub mod Source
pub mod Xdp
pub mod Tc
pub mod Tcx
pub mod Plain
pub mod Uprobe
pub mod Probes
pub mod Attached
pub mod Again
pub mod Points
pub mod Covered
use bpfman_operator.Shared.{
  Bool, true, false, ℕ, zero, suc, ℤ, pos, String, Option, none, some, List, [], ◌∷◌, ◌++◌, map,
  ◌==◌, string_eq, if◌then◌else◌,
}
use bpfman_operator.Api.Links.{Link, ap_attach_not_attached}
use bpfman_operator.Agent.Bpfman.{Error, Result, ok, err}
use bpfman_operator.Agent.NetNs.{NetNsCache, Stat}
use bpfman_operator.Agent.Interfaces.{
  InterfaceDiscovery, InterfaceSelector, RegexpLib, Interface, DiscoveredInterface,
  is_discovery_enabled, get_discovered_interfaces, get_interfaces,
}
use bpfman_operator.Agent.Containers.{
  ContainerInfo, LabelSelector, ContainerGetter, get_one_container_per_pod, netns_path_from_pid,
}

-- What the agent reads of the node: files, the source of UUIDs, containers and interfaces.
pub record AgentEnv : Type 1 where
  pub stat : Stat
  pub new_uuid : ℕ → String
  pub get_containers : ContainerGetter
  pub interfaces : List (Interface × Bool)
  pub primary_interface : Result String
  pub regexps : RegexpLib

-- What it keeps while it reconciles: the cache, and how many UUIDs it has drawn.
pub record AgentState : Type 0 where
  pub net_ns_cache : NetNsCache
  pub uuids : ℕ

pub record ClNetworkNamespaceSelector : Type 0 where
  pub namespace : String
  pub pods : LabelSelector

-- An interface and the path of the network namespace that it is in; "" is the host's.
abbrev pub AttachPoint : Type 0
AttachPoint = String × String

-- helpers.GetPriority
unfoldable pub get_priority : Option ℤ → ℤ
get_priority none = pos 1000
get_priority (some priority) = priority

-- The pointer to the path in an AttachRequest of a cluster-scoped program.
abbrev pub netns_pointer : String → Option String
netns_pointer path = if path == "" then none else some path

-- The nested loops over containers and interfaces.
unfoldable pub points_of_containers : List String → List ContainerInfo → List AttachPoint
points_of_containers interfaces [] = []
points_of_containers interfaces (c ∷ containers) =
    map (λ i. (i, netns_path_from_pid c.pid)) interfaces
    ++ points_of_containers interfaces containers

abbrev pub container_points :
    List String → Result (Option (List ContainerInfo)) → Result (List AttachPoint)
container_points interfaces (err e) = err e
container_points interfaces (ok none) = ok []
container_points interfaces (ok (some containers)) =
    ok (points_of_containers interfaces (get_one_container_per_pod containers))

module _ (env : AgentEnv) where
  abbrev pub discovered_points : Option InterfaceDiscovery → List AttachPoint
  discovered_points none = []
  discovered_points (some config) =
      map (λ (i : DiscoveredInterface). (i.interface_name, i.net_ns_path))
        (get_discovered_interfaces env.regexps config env.interfaces)

  abbrev pub selected_points :
      Option ClNetworkNamespaceSelector → Result (List String) → Result (List AttachPoint)
  selected_points namespaces (err e) = err e
  selected_points none (ok interfaces) = ok (map (λ i. (i, "")) interfaces)
  selected_points (some s) (ok interfaces) =
      container_points interfaces (env.get_containers s.namespace s.pods none)

  -- The expansion in getExpectedLinks of a cluster-scoped program: discovery, or else the selected
  -- interfaces in the pods of the network namespaces, or else on the host.
  unfoldable pub cl_attach_points :
      InterfaceSelector → Option ClNetworkNamespaceSelector → Result (List AttachPoint)
  unfolding points_of_containers
  cl_attach_points selector namespaces =
      if is_discovery_enabled selector.interfaces_discovery_config
      then ok (discovered_points selector.interfaces_discovery_config)
      else selected_points namespaces (get_interfaces env.primary_interface selector)

  abbrev pub pod_points : String → LabelSelector → Result (List String) → Result (List AttachPoint)
  pod_points namespace pods (err e) = err e
  pod_points namespace pods (ok interfaces) =
      container_points interfaces (env.get_containers namespace pods none)

  -- The expansion of a namespace-scoped program: always the pods of the given namespace.
  unfoldable pub ns_attach_points :
      String → InterfaceSelector → LabelSelector → Result (List AttachPoint)
  unfolding points_of_containers
  ns_attach_points namespace selector pods =
      pod_points namespace pods (get_interfaces env.primary_interface selector)

  abbrev pub new_link : {D : Type 0} → ℕ → D → Link D
  new_link n d = record {
    common = record {
      should_attach = true;
      uuid = env.new_uuid n;
      link_id = none;
      link_status = ap_attach_not_attached;
    };
    details = d;
  }

  -- A fresh link for each attach point, with the next UUIDs.
  unfoldable pub new_links : {D : Type 0} → ℕ → List D → List (Link D)
  new_links n [] = []
  new_links n (d ∷ ds) = new_link n d ∷ new_links (suc n) ds
