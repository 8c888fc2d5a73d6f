-- ===== src/Examples/Kinds.antt =====
-- Concrete XDP, TC and uprobe programs.
use bpfman_operator.Shared.{inl, true, false, pos, none, some, [], ◌∷◌, ◌≡◌, refl}
use bpfman_operator.Api.Links.{Link, ap_attach_attached, prog_attach_success}
use bpfman_operator.Agent.NetNs.{find_link}
use bpfman_operator.Agent.Interfaces.{discovered_eq, get_interfaces, is_discovery_enabled}
use bpfman_operator.Agent.Containers.{netns_path_from_pid, get_one_container_per_pod}
use bpfman_operator.Agent.Links.{process_links}
use bpfman_operator.Agent.Update.{
  update_links, update_each, add_links, add_found, reconcile_program,
}
use bpfman_operator.Agent.Kinds.{
  AgentState, new_links, cl_attach_points, ns_attach_points, get_priority,
}
use bpfman_operator.Agent.Kinds.Source.{netns_source}
use bpfman_operator.Agent.Kinds.Plain.{plain_source}
use bpfman_operator.Agent.Kinds.Xdp.{ClXdpAttachInfo, XdpDetails, cl_xdp_source, cl_xdp_attach_info}
use bpfman_operator.Agent.Kinds.Tc.{
  TcAttachInfo, TcDetails, ns_tc_source, ns_tc_attach_info, tc_egress,
}
use bpfman_operator.Agent.Kinds.Uprobe.{
  ClUprobeAttachInfo, ClUprobeDetails, cl_uprobe_source, cl_uprobe_attach_info,
}
use bpfman_operator.Agent.Kinds.Covered.{IsCovered, cl_xdp_program-covers}
use bpfman_operator.Agent.Kinds.Again.{cl_xdp_program-again}
use bpfman_operator.Examples.Links.{daemon-IsKeeping}
use bpfman_operator.Examples.{daemon, node, idle, selector, no_labels, link}

abbrev xdp_entry : ClXdpAttachInfo
xdp_entry = record {
  interface_selector = selector;
  network_namespaces = none;
  priority = none;
  proceed_on = some ("Pass" ∷ []);
}

abbrev xdp_link : Link XdpDetails
xdp_link = link true (some 0) ap_attach_attached (record {
  interface_name = "eth0";
  netns_path = "";
  priority = pos 1000;
  proceed_on = some ("Pass" ∷ []);
})

abbrev seen_host : AgentState
seen_host = record { net_ns_cache = ("/host/proc/1/ns/net", 42) ∷ []; uuids = 1 }

xdp_test :
    reconcile_program
      (cl_xdp_source node)
      daemon
      cl_xdp_attach_info
      false
      (some 5)
      (xdp_entry ∷ [])
      []
      idle
      []
    ≡ some (xdp_link ∷ [], prog_attach_success, none, seen_host, 0 ∷ [])
unfolding reconcile_program update_each cl_xdp_source netns_source cl_attach_points
    is_discovery_enabled get_interfaces process_links add_links new_links add_found find_link
    get_priority
xdp_test = refl

cl_xdp_program-covers_example : IsCovered node xdp_entry "eth0" "" (xdp_link ∷ [])
cl_xdp_program-covers_example =
    cl_xdp_program-covers node daemon (some 5) (xdp_entry ∷ []) [] idle [] (xdp_link ∷ []) none
      seen_host (0 ∷ []) 0 xdp_entry "eth0" "" 42 tt tt xdp_test refl tt (inl (0, refl)) refl refl

cl_xdp_program-again_example :
    reconcile_program
      (cl_xdp_source node)
      daemon
      cl_xdp_attach_info
      false
      (some 5)
      (xdp_entry ∷ [])
      (xdp_link ∷ [])
      idle
      (1 ∷ 0 ∷ [])
    ≡ some (
      xdp_link ∷ [],
      prog_attach_success,
      none,
      (update_links (cl_xdp_source node) false (xdp_entry ∷ []) (xdp_link ∷ []) idle).2,
      1 ∷ 0 ∷ [],
    )
cl_xdp_program-again_example =
    cl_xdp_program-again node daemon daemon-IsKeeping 5 (xdp_entry ∷ []) [] (xdp_link ∷ []) idle
      seen_host idle [] (0 ∷ []) (1 ∷ 0 ∷ []) none tt tt tt xdp_test
      ((0, refl, (1 ∷ 0 ∷ [], refl, refl)), tt)

abbrev tc_entry : TcAttachInfo
tc_entry = record {
  interface_selector = selector;
  network_namespaces = no_labels;
  priority = some (pos 3);
  direction = tc_egress;
  proceed_on = some ("OK" ∷ []);
}

abbrev tc_link : Link TcDetails
tc_link = link true (some 0) ap_attach_attached (record {
  interface_name = "eth0";
  netns_path = "/host/proc/7/ns/net";
  priority = pos 3;
  direction = tc_egress;
  proceed_on = some ("OK" ∷ []);
})

abbrev seen_pod : AgentState
seen_pod = record { net_ns_cache = ("/host/proc/7/ns/net", 42) ∷ []; uuids = 1 }

tc_test :
    reconcile_program
      (ns_tc_source node "")
      daemon
      ns_tc_attach_info
      false
      (some 5)
      (tc_entry ∷ [])
      []
      idle
      []
    ≡ some (tc_link ∷ [], prog_attach_success, none, seen_pod, 0 ∷ [])
unfolding reconcile_program update_each ns_tc_source netns_source ns_attach_points
    get_one_container_per_pod netns_path_from_pid get_interfaces process_links add_links new_links
    add_found find_link get_priority
tc_test = refl

abbrev uprobe_entry : ClUprobeAttachInfo
uprobe_entry = record {
  function = "malloc";
  offset = pos 0;
  target = "libc";
  pid = none;
  containers =
      some (record { namespace = "default"; pods = no_labels; container_names = "main" ∷ [] });
}

abbrev uprobe_link : Link ClUprobeDetails
uprobe_link = link true (some 0) ap_attach_attached (record {
  function = "malloc";
  offset = pos 0;
  target = "libc";
  pid = none;
  container_pid = some (pos 7);
})

uprobe_test :
    reconcile_program
      (cl_uprobe_source node)
      daemon
      cl_uprobe_attach_info
      false
      (some 5)
      (uprobe_entry ∷ [])
      []
      idle
      []
    ≡ some (uprobe_link ∷ [], prog_attach_success, none, record idle { uuids = 1 }, 0 ∷ [])
unfolding reconcile_program update_each cl_uprobe_source plain_source process_links add_links
    new_links add_found
uprobe_test = refl
