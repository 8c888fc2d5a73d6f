-- ===== src/Agent/Scopes/Namespace.antt =====
-- The kinds of program of a BpfApplication: the switches on the type in
-- controllers/bpfman-agent/ns_application_program.go. The namespace that the reconcilers hold is never
-- set there, so that they ask for containers with "".
use bpfman_operator.Shared.{Bool, true, false, ℕ, String, Option, none, some, List, [], string_eq}
use bpfman_operator.Api.Links.{Link, ProgramLinkStatus}
use bpfman_operator.Agent.Bpfman.{Error, LoadInfo, BpfmanClient}
use bpfman_operator.Agent.Update.{reconcile_program}
use bpfman_operator.Agent.Kinds.{AgentEnv, AgentState}
use bpfman_operator.Agent.App.{Scope}
use bpfman_operator.Agent.Kinds.Xdp.{
  XdpAttachInfo, XdpDetails, ns_xdp_source, ns_xdp_attach_info, xdp_load_info,
}
use bpfman_operator.Agent.Kinds.Tc.{
  TcAttachInfo, TcDetails, ns_tc_source, ns_tc_attach_info, tc_load_info,
}
use bpfman_operator.Agent.Kinds.Tcx.{
  TcxAttachInfo, TcxDetails, ns_tcx_source, ns_tcx_attach_info, tcx_load_info,
}
use bpfman_operator.Agent.Kinds.Uprobe.{
  UprobeAttachInfo, UprobeDetails, ns_uprobe_source, ns_uprobe_attach_info, uprobe_load_info,
}

-- `BpfApplicationProgram`, by its type: the entries of the kind's `links`.
pub data NsProgramInfo : Type 0 where
  xdp_program : (infos : List XdpAttachInfo) → NsProgramInfo
  tc_program : (infos : List TcAttachInfo) → NsProgramInfo
  tcx_program : (infos : List TcxAttachInfo) → NsProgramInfo
  uprobe_program : (infos : List UprobeAttachInfo) → NsProgramInfo
  uretprobe_program : (infos : List UprobeAttachInfo) → NsProgramInfo

-- `BpfApplicationProgramState`, by its type: the kind's links.
pub data NsProgramInfoState : Type 0 where
  xdp_state : (links : List (Link XdpDetails)) → NsProgramInfoState
  tc_state : (links : List (Link TcDetails)) → NsProgramInfoState
  tcx_state : (links : List (Link TcxDetails)) → NsProgramInfoState
  uprobe_state : (links : List (Link UprobeDetails)) → NsProgramInfoState
  uretprobe_state : (links : List (Link UprobeDetails)) → NsProgramInfoState

-- The comparison of getProgState, less the name.
unfoldable pub ns_same_kind : NsProgramInfo → NsProgramInfoState → Bool
ns_same_kind (xdp_program infos) (xdp_state links) = true
ns_same_kind (tc_program infos) (tc_state links) = true
ns_same_kind (tcx_program infos) (tcx_state links) = true
ns_same_kind (uprobe_program infos) (uprobe_state links) = true
ns_same_kind (uretprobe_program infos) (uretprobe_state links) = true
ns_same_kind prog state = false

-- The switch of initializeNodeProgramList.
unfoldable pub ns_init_info : NsProgramInfo → NsProgramInfoState
ns_init_info (xdp_program infos) = xdp_state []
ns_init_info (tc_program infos) = tc_state []
ns_init_info (tcx_program infos) = tcx_state []
ns_init_info (uprobe_program infos) = uprobe_state []
ns_init_info (uretprobe_program infos) = uretprobe_state []

-- deleteLinks
unfoldable pub ns_delete_links : NsProgramInfoState → NsProgramInfoState
ns_delete_links (xdp_state links) = xdp_state []
ns_delete_links (tc_state links) = tc_state []
ns_delete_links (tcx_state links) = tcx_state []
ns_delete_links (uprobe_state links) = uprobe_state []
ns_delete_links (uretprobe_state links) = uretprobe_state []

-- getProgramLoadInfo of the program's reconciler.
unfoldable pub ns_program_load_info : String → NsProgramInfo → LoadInfo
unfolding tc_load_info tcx_load_info uprobe_load_info xdp_load_info
ns_program_load_info name (xdp_program infos) = xdp_load_info name
ns_program_load_info name (tc_program infos) = tc_load_info name
ns_program_load_info name (tcx_program infos) = tcx_load_info name
ns_program_load_info name (uprobe_program infos) = uprobe_load_info name
ns_program_load_info name (uretprobe_program infos) = uprobe_load_info name

abbrev with_info :
    {L S D : Type 0}
    → (L → NsProgramInfoState)
    → Option (L × ProgramLinkStatus × Option Error × S × D)
    → Option (NsProgramInfoState × ProgramLinkStatus × Option Error × S × D)
with_info con none = none
with_info con (some (links, status, error, agent, d)) = some (con links, status, error, agent, d)

module _ (env : AgentEnv) where
  -- getProgramReconciler, and reconcileProgram of what it gives. A state of another kind than the
  -- program's is a nil pointer there. The application is not being deleted.
  unfoldable pub ns_reconcile_program :
      (client : BpfmanClient)
      → NsProgramInfo
      → NsProgramInfoState
      → Option ℕ
      → AgentState
      → client.Daemon
      → Option (NsProgramInfoState × ProgramLinkStatus × Option Error × AgentState × client.Daemon)
  unfolding reconcile_program ns_tc_source ns_tcx_source ns_uprobe_source ns_xdp_source
      ns_tc_attach_info ns_tcx_attach_info ns_uprobe_attach_info ns_xdp_attach_info
  ns_reconcile_program client (xdp_program infos) (xdp_state links) id agent d =
      with_info xdp_state (
        reconcile_program (ns_xdp_source env "") client ns_xdp_attach_info false id infos links
          agent d)
  ns_reconcile_program client (tc_program infos) (tc_state links) id agent d = with_info tc_state (
      reconcile_program (ns_tc_source env "") client ns_tc_attach_info false id infos links agent d)
  ns_reconcile_program client (tcx_program infos) (tcx_state links) id agent d =
      with_info tcx_state (
        reconcile_program (ns_tcx_source env "") client ns_tcx_attach_info false id infos links
          agent d)
  ns_reconcile_program client (uprobe_program infos) (uprobe_state links) id agent d =
      with_info uprobe_state (
        reconcile_program (ns_uprobe_source env "") client ns_uprobe_attach_info false id infos
          links agent d)
  ns_reconcile_program client (uretprobe_program infos) (uretprobe_state links) id agent d =
      with_info uretprobe_state (
        reconcile_program (ns_uprobe_source env "") client ns_uprobe_attach_info false id infos
          links agent d)
  ns_reconcile_program client prog state id agent d = none

  unfoldable pub ns_scope : Scope AgentState
  unfolding ns_same_kind ns_init_info ns_delete_links ns_program_load_info ns_reconcile_program
  ns_scope = record {
    P = NsProgramInfo;
    I = NsProgramInfoState;
    same_kind = ns_same_kind;
    init_info = ns_init_info;
    delete_links = ns_delete_links;
    program_load_info = ns_program_load_info;
    reconcile_program = ns_reconcile_program;
  }
