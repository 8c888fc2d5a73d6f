-- ===== src/Examples/Configs.antt =====
-- A Config, the manifests and an API server that keeps one DaemonSet.
use bpfman_operator.Shared.{
  List, Bool, true, false, ◌&&◌, pos, String, Option, none, some, [], ◌∷◌, ◌==◌, string_eq,
  if◌then◌else◌, ◌≡◌, refl, sym, ap, arith, All, inl, inr, contains, delete, map, ◌∙◌, Bool-cases,
}
use bpfman_operator.Operator.Objects.{
  Kind, config_map, csi_driver, security_context_constraints, daemon_set, service, service_monitor,
  cluster_role_binding, cluster_role, role, role_binding, ObjectMeta, Object, Container,
  pod_spec_eq, owner_reference_eq,
}
use bpfman_operator.Operator.Config.{
  Config, Namespace, Got, found, not_found, failed, ConfigApi, ConfigLib, config_finalizer,
}
use bpfman_operator.Operator.Config.DaemonSets.{configure_bpfman_ds}
use bpfman_operator.Operator.Config.Pass.{Reconciler, reconcile, reconcile_standard_ds}
use bpfman_operator.Operator.Config.Writes.{Write, wrote, logged}
use bpfman_operator.Operator.Config.Overridden.{GetsByName}
use bpfman_operator.Operator.Config.Permitted.{IsPermitted, reconcile-ArePermitted}
use bpfman_operator.Operator.Config.Twice.{IsKeptAs, IsStoring}
use bpfman_operator.Operator.Config.DaemonSets.Policies.{AreFilled}
use bpfman_operator.Operator.Config.Again.{reconcile_standard_ds-again}

abbrev pub config : Config
config = record {
  name = "bpfman-config";
  finalizers = config_finalizer ∷ [];
  deleted = false;
  agent = record { health_probe_port = pos 8175; image = "agent:1"; log_level = "info" };
  configuration = "[database]";
  daemon = record { csi_registrar_image = ""; image = "daemon:1"; log_level = "debug" };
  namespace = "bpfman";
  overrides =
      record {
        api_version = "v1";
        kind = "ConfigMap";
        namespace = "bpfman";
        name = "bpfman-config";
        unmanaged = true;
      }
      ∷ [];
}

abbrev pub container : String → Container
container name = record {
  name = name;
  image = "";
  image_pull_policy = "";
  args = "--health-probe-bind-address=:1" ∷ [];
  volume_mounts = [];
  other = "";
}

abbrev pub no_meta : ObjectMeta
no_meta = record {
  name = "";
  namespace = "";
  labels = [];
  annotations = [];
  owner_references = [];
  resource_version = "";
}

abbrev pub manifest : Object daemon_set
manifest = record {
  metadata = no_meta;
  body = record {
    annotations = [];
    pod = record {
      automount_service_account_token = none;
      init_containers = container "mount-bpffs" ∷ [];
      containers = container "bpfman" ∷ container "bpfman-agent" ∷ [];
      volumes = [];
      other = "";
    };
    other = "";
  };
}

abbrev decode : (k : Kind) → String → Option (Object k)
decode daemon_set path = some manifest
decode csi_driver path = some (record { metadata = no_meta; body = "" })
decode k path = none

abbrev object_kinds : Kind → Option (String × String)
object_kinds config_map = some ("", "ConfigMap")
object_kinds daemon_set = some ("apps", "DaemonSet")
object_kinds k = none

abbrev lib : ConfigLib
lib = record {
  object_kinds = object_kinds;
  parse_group_version = λ version. some "";
  set_controller_reference = λ owner meta. some [];
  contains_finalizer = λ finalizers finalizer. contains finalizer finalizers;
  add_finalizer = λ finalizers finalizer. finalizer ∷ finalizers;
  remove_finalizer = λ finalizers finalizer. delete finalizer finalizers;
  decode = decode;
  image_pull_policy = "";
}

abbrev Cluster : Type 0
Cluster = Option (Object daemon_set)

abbrev named_as : String → String → Cluster → Got (Object daemon_set)
named_as namespace name none = not_found
named_as namespace name (some o) =
    if o.metadata.namespace == namespace && o.metadata.name == name then found o else not_found

abbrev get : (k : Kind) → String → String → Cluster → Got (Object k)
get daemon_set namespace name c = named_as namespace name c
get k namespace name c = not_found

abbrev with_default : Container → Container
with_default c =
    if c.image_pull_policy == "" then record c { image_pull_policy = "IfNotPresent" } else c

-- Every version is "2", and a policy that is not set becomes IfNotPresent.
abbrev stored : Object daemon_set → Object daemon_set
stored o = record {
  metadata = record o.metadata { resource_version = "2" };
  body = record o.body {
    pod = record o.body.pod {
      init_containers = map with_default o.body.pod.init_containers;
      containers = map with_default o.body.pod.containers;
    };
  };
}

abbrev keep : (k : Kind) → Object k → Cluster → Bool × Cluster
keep daemon_set o c = (true, some (stored o))
keep k o c = (false, c)

abbrev keep_or_accept : (k : Kind) → Object k → Cluster → Bool × Cluster
keep_or_accept daemon_set o c = (true, some (stored o))
keep_or_accept k o c = (true, c)

abbrev pub old_namespace : Namespace
old_namespace = record { name = "bpfman"; labels = ("team", "net") ∷ []; annotations = [] }

abbrev server : ConfigApi
server = record {
  Cluster = Cluster;
  get_config = λ name c. found config;
  update_config = λ updated c. (true, c);
  get = get;
  create = keep_or_accept;
  update = keep_or_accept;
  get_namespace = λ name c. found old_namespace;
  update_namespace = λ ns c. (true, c);
}

abbrev strict_server : ConfigApi
strict_server = record server { create = keep; update = keep }

abbrev reconciler : Reconciler
reconciler = record {
  bpfman_standard_ds = "daemonset.yaml";
  bpfman_metrics_proxy_ds = "metrics-proxy-daemonset.yaml";
  csi_driver_ds = "csidriverinfo.yaml";
  is_openshift = true;
  has_monitoring = false;
}

abbrev value_or : {k : Kind} → Object k → Got (Object k) → Object k
value_or o (found p) = p
value_or o not_found = o
value_or o failed = o

names :
    (m : ObjectMeta) (namespace name : String)
    → (m.namespace == namespace && m.name == name) ≡ true
    → (m.namespace ≡ namespace) × (m.name ≡ name)
names m namespace name h =
    ground (arith, string_eq.beq_iff m.namespace namespace, string_eq.beq_iff m.name name)

abbrev kind_of : Write → Option Kind
kind_of (wrote k meta) = some k
kind_of write = none

named_as-found :
    (namespace name : String) (c : Cluster) (o : Object daemon_set)
    → named_as namespace name c ≡ found o
    → (o.metadata.namespace ≡ namespace) × (o.metadata.name ≡ name)
named_as-found namespace name none o h = cc
named_as-found namespace name (some p) o h =
    elim (Bool-cases (p.metadata.namespace == namespace && p.metadata.name == name)) [
      | inl same ↦
          let found_found : found p ≡ found o = rw same at h in
          let same_object : p ≡ o = ap (value_or p) found_found in
          let (same_namespace, same_name) = names p.metadata namespace name same in
          (
            sym (ap (λ (x : Object daemon_set). x.metadata.namespace) same_object) ∙ same_namespace,
            sym (ap (λ (x : Object daemon_set). x.metadata.name) same_object) ∙ same_name,
          )
      | inr other ↦ (let not_found_found : not_found ≡ found o = rw other at h in cc)
    ]

server-GetsByName : GetsByName server
server-GetsByName daemon_set namespace name c o h = named_as-found namespace name c o h
server-GetsByName config_map namespace name c o h = cc
server-GetsByName csi_driver namespace name c o h = cc
server-GetsByName security_context_constraints namespace name c o h = cc
server-GetsByName service namespace name c o h = cc
server-GetsByName service_monitor namespace name c o h = cc
server-GetsByName cluster_role_binding namespace name c o h = cc
server-GetsByName cluster_role namespace name c o h = cc
server-GetsByName role namespace name c o h = cc
server-GetsByName role_binding namespace name c o h = cc

named_as-stored :
    (o : Object daemon_set)
    → named_as o.metadata.namespace o.metadata.name (some (stored o)) ≡ found (stored o)
named_as-stored o =
    let same_namespace = (string_eq.beq_iff o.metadata.namespace o.metadata.namespace).1 refl in
    let same_name = (string_eq.beq_iff o.metadata.name o.metadata.name).1 refl in
    rw (same_namespace, same_name) refl

AreFilled-default : (cs : List Container) → AreFilled cs (map with_default cs)
AreFilled-default [] = tt
AreFilled-default (c ∷ cs) = (("IfNotPresent", refl), AreFilled-default cs)

keep-IsKeptAs :
    (k : Kind) (o : Object k) (c c' : Cluster)
    → keep k o c ≡ (true, c')
    → IsKeptAs strict_server k o c'
keep-IsKeptAs daemon_set o c c' h = (
  stored o,
  (
    "2",
    refl,
    (
      refl,
      (refl, AreFilled-default o.body.pod.init_containers, AreFilled-default o.body.pod.containers),
    ),
  ),
  ap (named_as o.metadata.namespace o.metadata.name) (sym (ap (λ t. t.1) h)) ∙ named_as-stored o,
)
keep-IsKeptAs config_map o c c' h = (let no : false ≡ true = ap (λ t. t.0) h in cc)
keep-IsKeptAs csi_driver o c c' h = (let no : false ≡ true = ap (λ t. t.0) h in cc)
keep-IsKeptAs security_context_constraints o c c' h =
    (let no : false ≡ true = ap (λ t. t.0) h in cc)
keep-IsKeptAs service o c c' h = (let no : false ≡ true = ap (λ t. t.0) h in cc)
keep-IsKeptAs service_monitor o c c' h = (let no : false ≡ true = ap (λ t. t.0) h in cc)
keep-IsKeptAs cluster_role_binding o c c' h = (let no : false ≡ true = ap (λ t. t.0) h in cc)
keep-IsKeptAs cluster_role o c c' h = (let no : false ≡ true = ap (λ t. t.0) h in cc)
keep-IsKeptAs role o c c' h = (let no : false ≡ true = ap (λ t. t.0) h in cc)
keep-IsKeptAs role_binding o c c' h = (let no : false ≡ true = ap (λ t. t.0) h in cc)

strict_server-IsStoring : IsStoring strict_server
strict_server-IsStoring = record { get-create = keep-IsKeptAs; get-update = keep-IsKeptAs }

-- The config map has an override, and is not written.
log_test : map kind_of (reconcile reconciler lib (logged server) "bpfman-config" (none, [])).1.1 ≡ (
    none
    ∷ some cluster_role
    ∷ some cluster_role_binding
    ∷ some daemon_set
    ∷ some security_context_constraints
    ∷ some csi_driver
    ∷ [])
unfolding reconcile
log_test = refl

reconcile-ArePermitted_example :
    All
      (IsPermitted reconciler lib server (found config))
      (reconcile reconciler lib (logged server) "bpfman-config" (none, [])).1.1
reconcile-ArePermitted_example =
    reconcile-ArePermitted reconciler lib server server-GetsByName "bpfman-config" none

written : Object daemon_set
unfolding configure_bpfman_ds
written =
    configure_bpfman_ds "" config
      (record manifest { metadata = record no_meta { name = "bpfman-daemon" } })

written_test :
    reconcile_standard_ds reconciler lib strict_server config none ≡ (true, some (stored written))
unfolding reconcile_standard_ds written
written_test = refl

reconcile_standard_ds-again_example :
    reconcile_standard_ds reconciler lib strict_server config (some (stored written))
    ≡ (true, some (stored written))
reconcile_standard_ds-again_example =
    reconcile_standard_ds-again reconciler lib strict_server config strict_server-IsStoring none
      (some (stored written)) tt written_test
