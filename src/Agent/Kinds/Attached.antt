-- ===== src/Agent/Kinds/Attached.antt =====
-- The promise of a Success for the kinds of program: their getExpectedLinks, findLink and
-- getAttachRequest under reconcileProgram (controllers/bpfman-agent/{cl,ns}_*_program.go).
use bpfman_operator.Shared.{false, ℕ, String, Option, some, List, ◌≡◌}
use bpfman_operator.Api.Links.{Link, prog_attach_success}
use bpfman_operator.Agent.Bpfman.{Error, BpfmanClient}
use bpfman_operator.Agent.Update.{reconcile_program}
use bpfman_operator.Agent.Update.Matching.{all_expected}
use bpfman_operator.Agent.Update.Wanted.{AreDistinct}
use bpfman_operator.Agent.Update.Attached.{AreAttached, reconcile_program-AreAttached}
use bpfman_operator.Agent.Kinds.{AgentEnv, AgentState}
use bpfman_operator.Agent.Kinds.Source.{IsGood}
use bpfman_operator.Agent.Kinds.Xdp.{
  ClXdpAttachInfo, XdpDetails, cl_xdp_source, cl_xdp_matching, cl_xdp_attach_info,
}
use bpfman_operator.Agent.Kinds.Tc.{
  TcAttachInfo, TcDetails, ns_tc_source, ns_tc_matching, ns_tc_attach_info,
}
use bpfman_operator.Agent.Kinds.Uprobe.{
  ClUprobeAttachInfo, ClUprobeDetails, cl_uprobe_source, cl_uprobe_matching, cl_uprobe_attach_info,
}

module _ (env : AgentEnv) (client : BpfmanClient) where
  -- A cluster-scoped XDP program whose reconciliation ends in Success has an attached link for every
  -- interface, in every network namespace, that its entries select on the node and that the node
  -- resolves, and no other link. The cache of namespaces agreed with the file system, and the links had
  -- distinct attach points before.
  pub cl_xdp_program-AreAttached :
      (program_id : Option ℕ) (infos : List ClXdpAttachInfo) (ls : List (Link XdpDetails))
      (s : AgentState) (d : client.Daemon) (ls' : List (Link XdpDetails)) (error : Option Error)
      (s' : AgentState) (d' : client.Daemon)
      → IsGood env s
      → AreDistinct (cl_xdp_matching env) ls
      → reconcile_program
          (cl_xdp_source env)
          client
          cl_xdp_attach_info
          false
          program_id
          infos
          ls
          s
          d
        ≡ some (ls', prog_attach_success, error, s', d')
      → AreAttached (cl_xdp_matching env) (all_expected (cl_xdp_matching env) infos) ls'
  unfolding cl_xdp_matching
  cl_xdp_program-AreAttached program_id infos ls s d ls' error s' d' g h e =
      reconcile_program-AreAttached (cl_xdp_matching env) client cl_xdp_attach_info program_id infos
        ls s d ls' error s' d' g h e

  -- A namespace-scoped TC program whose reconciliation ends in Success has an attached link for every
  -- interface and direction, in the network namespace of every selected pod, that its entries ask for
  -- and that the node resolves, and no other link. The cache of namespaces agreed with the file system,
  -- and the links had distinct attach points before.
  ns_tc_program-AreAttached :
      (namespace : String) (program_id : Option ℕ) (infos : List TcAttachInfo)
      (ls : List (Link TcDetails)) (s : AgentState) (d : client.Daemon)
      (ls' : List (Link TcDetails)) (error : Option Error) (s' : AgentState) (d' : client.Daemon)
      → IsGood env s
      → AreDistinct (ns_tc_matching env namespace) ls
      → reconcile_program
          (ns_tc_source env namespace)
          client
          ns_tc_attach_info
          false
          program_id
          infos
          ls
          s
          d
        ≡ some (ls', prog_attach_success, error, s', d')
      → AreAttached
          (ns_tc_matching env namespace)
          (all_expected (ns_tc_matching env namespace) infos)
          ls'
  unfolding ns_tc_matching
  ns_tc_program-AreAttached namespace program_id infos ls s d ls' error s' d' g h e =
      reconcile_program-AreAttached (ns_tc_matching env namespace) client ns_tc_attach_info
        program_id infos ls s d ls' error s' d' g h e

  -- A cluster-scoped uprobe or uretprobe program whose reconciliation ends in Success has an attached
  -- link for every function, in every selected container, that its entries ask for, and no other link.
  -- The links had distinct attach points before.
  cl_uprobe_program-AreAttached :
      (program_id : Option ℕ) (infos : List ClUprobeAttachInfo) (ls : List (Link ClUprobeDetails))
      (s : AgentState) (d : client.Daemon) (ls' : List (Link ClUprobeDetails))
      (error : Option Error) (s' : AgentState) (d' : client.Daemon)
      → AreDistinct (cl_uprobe_matching env) ls
      → reconcile_program
          (cl_uprobe_source env)
          client
          cl_uprobe_attach_info
          false
          program_id
          infos
          ls
          s
          d
        ≡ some (ls', prog_attach_success, error, s', d')
      → AreAttached (cl_uprobe_matching env) (all_expected (cl_uprobe_matching env) infos) ls'
  unfolding cl_uprobe_matching
  cl_uprobe_program-AreAttached program_id infos ls s d ls' error s' d' h e =
      reconcile_program-AreAttached (cl_uprobe_matching env) client cl_uprobe_attach_info program_id
        infos ls s d ls' error s' d' tt h e
