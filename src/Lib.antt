-- ===== src/Lib.antt =====
-- A model of the bpfman operator's own logic, and theorems about it.
--
-- The program runs eBPF programs on the nodes of a cluster. A user creates a ClusterBpfApplication or
-- a BpfApplication, which lists programs and, for each, entries that say where to attach it. On every
-- node an agent (controllers/bpfman-agent) reconciles: it keeps the application's state for the node
-- (a ...State object), has the bpfman daemon load the programs, expands the entries into attach points,
-- and attaches and detaches links until they are those asked for. The operator
-- (controllers/bpfman-operator) reads the states of all nodes and reports one condition on the
-- application, and holds it by a finalizer until every node has let go.
--
-- Which file models what:
--   Api.Links, Api.Conditions      apis/v1alpha1/shared_types.go: links, statuses, Condition()
--   Api.Control                    ctrl.Result of controller-runtime, as Reconcile returns it
--   Api.ProgramTypes               the tables of internal/constants.go and pkg/helpers/helpers.go
--   Api.Helpers                    pkg/helpers/helpers.go: IsBpfAppStateCondition{Failure,Pending}
--   Agent.Bpfman                   the daemon's gRPC client, a parameter, and GetBpfProgramId of
--                                  controllers/bpfman-agent/internal/bpfman_core.go
--   Agent.Links                    controllers/bpfman-agent/common.go (reconcileBpfLink), and
--                                  processLinks, removeLinks, updateProgramAttachStatus, isAttached of
--                                  the *_program.go files, which repeat them for each kind of program
--   Agent.Update                   updateLinks of the same files, and reconcileProgram of common.go
--   Agent.NetNs                    ReconcilerNetNsCache of common.go, and findLink of XDP, TC and TCX
--   Agent.Interfaces               the interface selection of common.go
--   Agent.Containers               controllers/bpfman-agent/containers.go
--   Agent.Credentials              controllers/bpfman-agent/internal/auth.go
--   Agent.Bytecode                 GetBytecode of controllers/bpfman-agent/internal/bpfman_core.go
--   Agent.Listings                 the listings of the daemon's programs in bpfman_core.go
--   Agent.PrimaryInterface         controllers/bpfman-agent/internal/iface.go
--   Agent.Discovery                interfaceDiscovery of cmd/bpfman-agent/main.go
--   Bpffs                          internal/bpffs/bpffs.go, and handleMountBPFFS of the same main.go
--   Crictl                         pkg/crictl: container.go, types.go, client.go, api.go, discovery.go
--   Agent.Text                     strings.Trim, the pattern ^/(.*)/$ and %d
--   Agent.Kinds                    {cl,ns}_{xdp,tc,tcx,uprobe}_program.go and
--                                  cl_{kprobe,kretprobe,tracepoint,fentry,fexit}_program.go
--   Agent.App                      {ns,cl}_application_program.go: the program list, load, unload
--   Agent.Reconcile                reconcileLoad and updateBpfAppStateCondition of common.go, the loop
--                                  over the programs and checkProgramStatus of the application files
--   Agent.Controller               Reconcile of the application files with the API server: the state
--                                  objects, their creation and update, the polls, the pass
--   Agent.Scopes                   the switches on a program's type of the application files
--   Operator.Application           controllers/bpfman-operator/common.go, common_{namespace,cluster}.go
--                                  and {ns,cl}_application_programs.go
--   Operator.Objects               the Kubernetes objects that the operator keeps for a Config
--   Operator.Config                controllers/bpfman-operator/config.go and
--                                  apis/v1alpha1/config_types.go
--   Operator.Startup               internal/k8s.go, and the default Config of
--                                  cmd/bpfman-operator/main.go
--   Examples                       concrete surroundings, tests and witnesses
-- Shared has the helpers. Below a component, each module is named for what it proves.
--
-- How state is modelled: an operation takes the state that it changes (the links, the daemon, the
-- cache of network namespaces, the cluster) and returns the next. The daemon, the API server, the file
-- system, the container runtime, the JSON, base64 and regexp libraries and the helpers of controller-runtime are
-- parameters: records of functions on a state of their own, of any behaviour unless a theorem says
-- otherwise. A nil-pointer panic of the agent is the result `none`. What differs between the kinds of
-- program is the record LinkSource, with the laws Matching that each kind meets; what differs between
-- the two scopes is the record Scope.
--
-- Every loop is structural recursion over a list, so that every operation returns. The two polls make
-- a number of attempts that is a parameter: as many as fit into updateTimeout, the first at once and
-- the others updateRetryInterval apart; when they are used up the poll fails, as it does at the
-- timeout. Counters do not overflow in what is modelled; uint64(offset) is written out with its wrap.
--
-- Where the agent's reconciliation uses GetBytecode, the container getter or the primary interface, it
-- takes them as arguments of any behaviour, as their own modules define them.
--
-- Not modelled: the labels on a state but for the owner and the node, and the node's
-- name in its status; and, as input and output or generated code, the commands, the clients
-- and the deep copies. A slice is its list of elements: a nil slice and an empty one are the same,
-- except for proceedOn, where findLink's reflect.DeepEqual tells them apart. The answer to a Get of
-- the daemon always has its Info. The recorder of logs is left out.
pub mod Shared
pub mod Api
pub mod Agent
pub mod Operator
pub mod Crictl
pub mod Bpffs
pub mod Examples
