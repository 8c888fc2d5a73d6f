-- ===== src/Agent/Scopes/Cluster.antt =====
-- The kinds of program of a ClusterBpfApplication: the switches on the type in
-- controllers/bpfman-agent/cl_application_program.go.
use bpfman_operator.Shared.{
  Bool, true, false, ℕ, String, Option, none, some, List, [], ◌==◌, string_eq,
}
use bpfman_operator.Api.Links.{Link, ProgramLinkStatus}
use bpfman_operator.Agent.Bpfman.{Error, LoadInfo, BpfmanClient}
use bpfman_operator.Agent.Update.{reconcile_program}
use bpfman_operator.Agent.Kinds.{AgentEnv, AgentState}
use bpfman_operator.Agent.App.{Scope}
use bpfman_operator.Agent.Kinds.Xdp.{
  ClXdpAttachInfo, XdpDetails, cl_xdp_source, cl_xdp_attach_info, xdp_load_info,
}
use bpfman_operator.Agent.Kinds.Tc.{
  ClTcAttachInfo, TcDetails, cl_tc_source, cl_tc_attach_info, tc_load_info,
}
use bpfman_operator.Agent.Kinds.Tcx.{
  ClTcxAttachInfo, TcxDetails, cl_tcx_source, cl_tcx_attach_info, tcx_load_info,
}
use bpfman_operator.Agent.Kinds.Uprobe.{
  ClUprobeAttachInfo, ClUprobeDetails, cl_uprobe_source, cl_uprobe_attach_info, uprobe_load_info,
}
use bpfman_operator.Agent.Kinds.Probes.{
  KprobeDetails, KretprobeDetails, TracepointDetails, NoDetails, kprobe_source, kretprobe_source,
  tracepoint_source, fentry_source, kprobe_attach_request, kretprobe_attach_request,
  tracepoint_attach_request, fentry_attach_request, fexit_attach_request, kprobe_load_info,
  tracepoint_load_info, fentry_load_info, fexit_load_info,
}

-- `ClBpfApplicationProgram`, by its type: the entries of the kind's `links`. fentry and fexit have a function too.
pub data ClProgramInfo : Type 0 where
  xdp_program : (infos : List ClXdpAttachInfo) → ClProgramInfo
  tc_program : (infos : List ClTcAttachInfo) → ClProgramInfo
  tcx_program : (infos : List ClTcxAttachInfo) → ClProgramInfo
  uprobe_program : (infos : List ClUprobeAttachInfo) → ClProgramInfo
  uretprobe_program : (infos : List ClUprobeAttachInfo) → ClProgramInfo
  kprobe_program : (infos : List KprobeDetails) → ClProgramInfo
  kretprobe_program : (infos : List KretprobeDetails) → ClProgramInfo
  tracepoint_program : (infos : List TracepointDetails) → ClProgramInfo
  fentry_program : (function : String) (infos : List NoDetails) → ClProgramInfo
  fexit_program : (function : String) (infos : List NoDetails) → ClProgramInfo

-- `ClBpfApplicationProgramState`, by its type: the kind's links.
pub data ClProgramInfoState : Type 0 where
  xdp_state : (links : List (Link XdpDetails)) → ClProgramInfoState
  tc_state : (links : List (Link TcDetails)) → ClProgramInfoState
  tcx_state : (links : List (Link TcxDetails)) → ClProgramInfoState
  uprobe_state : (links : List (Link ClUprobeDetails)) → ClProgramInfoState
  uretprobe_state : (links : List (Link ClUprobeDetails)) → ClProgramInfoState
  kprobe_state : (links : List (Link KprobeDetails)) → ClProgramInfoState
  kretprobe_state : (links : List (Link KretprobeDetails)) → ClProgramInfoState
  tracepoint_state : (links : List (Link TracepointDetails)) → ClProgramInfoState
  fentry_state : (function : String) (links : List (Link NoDetails)) → ClProgramInfoState
  fexit_state : (function : String) (links : List (Link NoDetails)) → ClProgramInfoState

-- The comparison of getProgState, less the name.
unfoldable pub cl_same_kind : ClProgramInfo → ClProgramInfoState → Bool
cl_same_kind (xdp_program infos) (xdp_state links) = true
cl_same_kind (tc_program infos) (tc_state links) = true
cl_same_kind (tcx_program infos) (tcx_state links) = true
cl_same_kind (uprobe_program infos) (uprobe_state links) = true
cl_same_kind (uretprobe_program infos) (uretprobe_state links) = true
cl_same_kind (kprobe_program infos) (kprobe_state links) = true
cl_same_kind (kretprobe_program infos) (kretprobe_state links) = true
cl_same_kind (tracepoint_program infos) (tracepoint_state links) = true
cl_same_kind (fentry_program f infos) (fentry_state g links) = g == f
cl_same_kind (fexit_program f infos) (fexit_state g links) = g == f
cl_same_kind prog state = false

-- The switch of initializeNodeProgramList.
unfoldable pub cl_init_info : ClProgramInfo → ClProgramInfoState
cl_init_info (xdp_program infos) = xdp_state []
cl_init_info (tc_program infos) = tc_state []
cl_init_info (tcx_program infos) = tcx_state []
cl_init_info (uprobe_program infos) = uprobe_state []
cl_init_info (uretprobe_program infos) = uretprobe_state []
cl_init_info (kprobe_program infos) = kprobe_state []
cl_init_info (kretprobe_program infos) = kretprobe_state []
cl_init_info (tracepoint_program infos) = tracepoint_state []
cl_init_info (fentry_program f infos) = fentry_state f []
cl_init_info (fexit_program f infos) = fexit_state f []

-- deleteLinks
unfoldable pub cl_delete_links : ClProgramInfoState → ClProgramInfoState
cl_delete_links (xdp_state links) = xdp_state []
cl_delete_links (tc_state links) = tc_state []
cl_delete_links (tcx_state links) = tcx_state []
cl_delete_links (uprobe_state links) = uprobe_state []
cl_delete_links (uretprobe_state links) = uretprobe_state []
cl_delete_links (kprobe_state links) = kprobe_state []
cl_delete_links (kretprobe_state links) = kretprobe_state []
cl_delete_links (tracepoint_state links) = tracepoint_state []
cl_delete_links (fentry_state f links) = fentry_state f []
cl_delete_links (fexit_state f links) = fexit_state f []

-- getProgramLoadInfo of the program's reconciler.
unfoldable pub cl_program_load_info : String → ClProgramInfo → LoadInfo
unfolding fentry_load_info fexit_load_info kprobe_load_info tc_load_info tcx_load_info
    tracepoint_load_info uprobe_load_info xdp_load_info
cl_program_load_info name (xdp_program infos) = xdp_load_info name
cl_program_load_info name (tc_program infos) = tc_load_info name
cl_program_load_info name (tcx_program infos) = tcx_load_info name
cl_program_load_info name (uprobe_program infos) = uprobe_load_info name
cl_program_load_info name (uretprobe_program infos) = uprobe_load_info name
cl_program_load_info name (kprobe_program infos) = kprobe_load_info name
cl_program_load_info name (kretprobe_program infos) = kprobe_load_info name
cl_program_load_info name (tracepoint_program infos) = tracepoint_load_info name
cl_program_load_info name (fentry_program f infos) = fentry_load_info name f
cl_program_load_info name (fexit_program f infos) = fexit_load_info name f

abbrev with_info :
    {L S D : Type 0}
    → (L → ClProgramInfoState)
    → Option (L × ProgramLinkStatus × Option Error × S × D)
    → Option (ClProgramInfoState × ProgramLinkStatus × Option Error × S × D)
with_info con none = none
with_info con (some (links, status, error, agent, d)) = some (con links, status, error, agent, d)

module _ (env : AgentEnv) where
  -- getProgramReconciler, and reconcileProgram of what it gives. A state of another kind than the
  -- program's is a nil pointer there. The application is not being deleted.
  unfoldable pub cl_reconcile_program :
      (client : BpfmanClient)
      → ClProgramInfo
      → ClProgramInfoState
      → Option ℕ
      → AgentState
      → client.Daemon
      → Option (ClProgramInfoState × ProgramLinkStatus × Option Error × AgentState × client.Daemon)
  unfolding reconcile_program cl_tc_source cl_tcx_source cl_uprobe_source cl_xdp_source
      fentry_source kprobe_source kretprobe_source tracepoint_source cl_tc_attach_info
      cl_tcx_attach_info cl_uprobe_attach_info cl_xdp_attach_info fentry_attach_request
      fexit_attach_request kprobe_attach_request kretprobe_attach_request tracepoint_attach_request
  cl_reconcile_program client (xdp_program infos) (xdp_state links) id agent d =
      with_info xdp_state (
        reconcile_program (cl_xdp_source env) client cl_xdp_attach_info false id infos links agent
          d)
  cl_reconcile_program client (tc_program infos) (tc_state links) id agent d =
      with_info tc_state
        (reconcile_program (cl_tc_source env) client cl_tc_attach_info false id infos links agent d)
  cl_reconcile_program client (tcx_program infos) (tcx_state links) id agent d =
      with_info tcx_state (
        reconcile_program (cl_tcx_source env) client cl_tcx_attach_info false id infos links agent
          d)
  cl_reconcile_program client (uprobe_program infos) (uprobe_state links) id agent d =
      with_info uprobe_state (
        reconcile_program (cl_uprobe_source env) client cl_uprobe_attach_info false id infos links
          agent d)
  cl_reconcile_program client (uretprobe_program infos) (uretprobe_state links) id agent d =
      with_info uretprobe_state (
        reconcile_program (cl_uprobe_source env) client cl_uprobe_attach_info false id infos links
          agent d)
  cl_reconcile_program client (kprobe_program infos) (kprobe_state links) id agent d =
      with_info kprobe_state (
        reconcile_program (kprobe_source env) client kprobe_attach_request false id infos links
          agent d)
  cl_reconcile_program client (kretprobe_program infos) (kretprobe_state links) id agent d =
      with_info kretprobe_state (
        reconcile_program (kretprobe_source env) client kretprobe_attach_request false id infos
          links agent d)
  cl_reconcile_program client (tracepoint_program infos) (tracepoint_state links) id agent d =
      with_info tracepoint_state (
        reconcile_program (tracepoint_source env) client tracepoint_attach_request false id infos
          links agent d)
  cl_reconcile_program client (fentry_program f infos) (fentry_state g links) id agent d =
      with_info (fentry_state g) (
        reconcile_program (fentry_source env) client fentry_attach_request false id infos links
          agent d)
  cl_reconcile_program client (fexit_program f infos) (fexit_state g links) id agent d =
      with_info (fexit_state g) (
        reconcile_program (fentry_source env) client fexit_attach_request false id infos links agent
          d)
  cl_reconcile_program client prog state id agent d = none

  unfoldable pub cl_scope : Scope AgentState
  unfolding cl_same_kind cl_init_info cl_delete_links cl_program_load_info cl_reconcile_program
  cl_scope = record {
    P = ClProgramInfo;
    I = ClProgramInfoState;
    same_kind = cl_same_kind;
    init_info = cl_init_info;
    delete_links = cl_delete_links;
    program_load_info = cl_program_load_info;
    reconcile_program = cl_reconcile_program;
  }
