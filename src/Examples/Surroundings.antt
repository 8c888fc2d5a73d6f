-- ===== src/Examples/Surroundings.antt =====
-- Concrete containers, interfaces and paths.
use bpfman_operator.Shared.{
  Bool, true, pos, String, none, some, List, [], ◌∷◌, ◌≡◌, refl, any, contains,
}
use bpfman_operator.Agent.NetNs.{get_net_ns_id}
use bpfman_operator.Agent.NetNs.Consistent.{get_net_ns_id-cached}
use bpfman_operator.Agent.Interfaces.{
  InterfaceDiscovery, Interface, DiscoveredInterface, discovered_eq, get_discovered_interfaces,
}
use bpfman_operator.Agent.Interfaces.Discovery.{
  AreDistinct as AreDistinctInterfaces, is_wanted, discovered_exactly,
}
use bpfman_operator.Agent.Containers.{ContainerInfo, get_one_container_per_pod}
use bpfman_operator.Agent.Containers.OnePerPod.{
  HaveDistinctPods, first_of_pod, one_container_per_pod,
}
use bpfman_operator.Examples.{node}

abbrev containers : List ContainerInfo
containers =
    record { pod_name = "a"; container_name = "main"; pid = pos 7 }
    ∷ record { pod_name = "a"; container_name = "side"; pid = pos 8 }
    ∷ []

one_container_per_pod_example :
    ((pod : String)
      → first_of_pod pod (get_one_container_per_pod containers) ≡ first_of_pod pod containers)
    × HaveDistinctPods (get_one_container_per_pod containers)
one_container_per_pod_example = one_container_per_pod containers

get_net_ns_id-cached_example :
    get_net_ns_id (λ path. none) "" (get_net_ns_id node.stat "" []).1
    ≡ (some 42, (get_net_ns_id node.stat "" []).1)
unfolding get_net_ns_id
get_net_ns_id-cached_example = get_net_ns_id-cached node.stat (λ path. none) "" [] 42 refl

abbrev config : InterfaceDiscovery
config = record {
  interface_auto_discovery = some true;
  exclude_interfaces = "lo" ∷ [];
  allowed_interfaces = [];
}

abbrev found_interfaces : List (Interface × Bool)
found_interfaces =
    (record { name = "eth0"; ns_name = "" }, true)
    ∷ (record { name = "lo"; ns_name = "" }, true)
    ∷ (record { name = "eth0"; ns_name = "" }, true)
    ∷ []

discovered_exactly_example :
    ((key : DiscoveredInterface)
      → contains key (get_discovered_interfaces node.regexps config found_interfaces)
        ≡ any (is_wanted node.regexps config key) found_interfaces)
    × AreDistinctInterfaces (get_discovered_interfaces node.regexps config found_interfaces)
discovered_exactly_example = discovered_exactly node.regexps config found_interfaces
