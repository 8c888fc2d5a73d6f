-- ===== src/Examples.antt =====
-- Concrete surroundings on which the theorems are tried: a daemon that loads, attaches and detaches as
-- it is asked to, a node with one container, and links.
pub mod Containers
pub mod Credentials
pub mod Listings
pub mod Startup
pub mod Links
pub mod Programs
pub mod Kinds
pub mod Surroundings
pub mod Applications
pub mod Operator
pub mod Configs
pub mod Namespaces
pub mod Passes
pub mod Deselected
use bpfman_operator.Shared.{
  Bool, true, false, ℕ, suc, pos, String, Option, none, some, List, [], ◌∷◌, length, delete, nat_eq,
}
use bpfman_operator.Api.Links.{Link, LinkStatus, ap_attach_attached, ap_attach_not_attached}
use bpfman_operator.Agent.Bpfman.{
  BpfmanClient, AttachInfo, fentry_attach_info, LoadInfo, LoadResponseInfo, Result, ok,
}
use bpfman_operator.Agent.Interfaces.{InterfaceSelector}
use bpfman_operator.Agent.Containers.{LabelSelector}
use bpfman_operator.Agent.Kinds.{AgentEnv, AgentState, ClNetworkNamespaceSelector}

-- The ids of the programs of a request: 1, 2, …
abbrev pub numbered : ℕ → List LoadInfo → List LoadResponseInfo
numbered n [] = []
numbered n (i ∷ infos) = record { name = i.name; kernel_id = n } ∷ numbered (suc n) infos

-- The daemon's state is the list of the attached links' ids.
abbrev pub daemon : BpfmanClient
daemon = record {
  Daemon = List ℕ;
  load = λ req links. (some (numbered 1 req.info), links);
  unload = λ id links. (true, links);
  attach = λ req links. (some (length links), length links ∷ links);
  detach = λ id links. (true, delete id links);
  get = λ id links. (some links, links);
}

abbrev pub node : AgentEnv
node = record {
  stat = λ path. some 42;
  new_uuid = λ n. "uuid";
  get_containers = λ namespace pods names.
      ok (some (record { pod_name = "pod"; container_name = "main"; pid = pos 7 } ∷ []));
  interfaces = [];
  primary_interface = ok "eth0";
  regexps = record {
    Regexp = String;
    compile = λ text. some text;
    match_string = λ text name. true;
  };
}

abbrev pub idle : AgentState
idle = record { net_ns_cache = []; uuids = 0 }

abbrev pub selector : InterfaceSelector
selector = record {
  interfaces_discovery_config = none;
  interfaces = "eth0" ∷ [];
  primary_node_interface = none;
}

abbrev pub no_labels : LabelSelector
no_labels = record { match_labels = []; match_expressions = [] }

abbrev pub link : {D : Type 0} → Bool → Option ℕ → LinkStatus → D → Link D
link wanted id status d = record {
  common = record { should_attach = wanted; uuid = "uuid"; link_id = id; link_status = status };
  details = d;
}

abbrev pub by_uuid : {D : Type 0} → Link D → AttachInfo
by_uuid l = fentry_attach_info l.uuid
