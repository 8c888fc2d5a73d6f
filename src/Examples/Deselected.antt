-- ===== src/Examples/Deselected.antt =====
-- A pass on a node that an application no longer selects, where its program is loaded.
use bpfman_operator.Shared.{false, none, some, [], ◌∷◌, ◌≡◌, refl}
use bpfman_operator.Api.Links.{prog_attach_pending}
use bpfman_operator.Agent.Bpfman.{ok}
use bpfman_operator.Agent.App.{App}
use bpfman_operator.Agent.Controller.{AppState, AgentApi}
use bpfman_operator.Agent.Controller.Pass.{reconcile_apps}
use bpfman_operator.Agent.Update.{update_each, add_links, add_found}
use bpfman_operator.Agent.Kinds.Source.{netns_source}
use bpfman_operator.Agent.Kinds.{ns_attach_points, new_links}
use bpfman_operator.Agent.Interfaces.{get_interfaces}
use bpfman_operator.Agent.Links.{process_links}
use bpfman_operator.Agent.Containers.{get_one_container_per_pod}
use bpfman_operator.Agent.NetNs.{find_link}
use bpfman_operator.Agent.Scopes.Namespace.{ns_scope, xdp_program, xdp_state}
use bpfman_operator.Examples.{daemon, idle, selector, no_labels}
use bpfman_operator.Examples.Applications.{scope, application, status}
use bpfman_operator.Examples.Passes.{server, state, status_eq}

abbrev elsewhere : AgentApi scope.P scope.I
elsewhere = record server { is_node_selected = λ app node. ok false }

-- It attaches to an interface.
unfoldable attaching_app : App scope.P
unfolding ns_scope
attaching_app = record application {
  programs =
      record {
        name = "count";
        info = xdp_program (
            record {
              interface_selector = selector;
              network_namespaces = no_labels;
              priority = none;
              proceed_on = none;
            }
            ∷ []);
      }
      ∷ [];
}

unfoldable attached_state : AppState scope.I
unfolding ns_scope
attached_state = record state {
  status = record status {
    programs =
        record {
          name = "count";
          program_id = some 1;
          program_link_status = prog_attach_pending;
          info = xdp_state [];
        }
        ∷ [];
  };
}

-- The pass unloads the program, and then panics at the link to attach.
deselected_panic_test :
    reconcile_apps scope elsewhere daemon
      (λ agent. agent)
      "node"
      "agent"
      3
      tt
      (attaching_app ∷ [])
      (record { cluster = (attached_state ∷ [], []); agent = idle; daemon = [] })
    ≡ none
unfolding reconcile_apps ns_scope attaching_app attached_state update_each netns_source
    ns_attach_points get_interfaces process_links add_links new_links get_one_container_per_pod
    add_found find_link
deselected_panic_test = refl
