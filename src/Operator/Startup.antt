-- ===== src/Operator/Startup.antt =====
-- What the operator does once, before its controllers run: IsOpenShift and HasMonitoringAPI of
-- internal/k8s.go, defaultConfig and ensureDefaultConfig of cmd/bpfman-operator/main.go. With them, the
-- predicates of internal/k8s.go.
pub mod Present
use bpfman_operator.Shared.{
  Bool, true, false, ◌||◌, ℤ, pos, String, Option, none, some, List, [], ◌∷◌, ◌==◌, string_eq,
  contains, if◌then◌else◌, Dict, look_up,
}
use bpfman_operator.Operator.Config.{Config, Got, found, not_found, failed, ConfigApi}
use bpfman_operator.Operator.Config.Pass.{Reconciler}

-- The loops over the names of the API groups, which are `none` where they cannot be read.
abbrev has_group : String → Option (List String) → Option Bool
has_group name none = none
has_group name (some groups) = some (contains name groups)

-- IsOpenShift; the server's version is read first, and only for the log.
unfoldable pub is_open_shift : Option String → Option (List String) → Option Bool
is_open_shift none groups = none
is_open_shift (some version) groups = has_group "route.openshift.io" groups

-- HasMonitoringAPI
unfoldable pub has_monitoring_api : Option (List String) → Option Bool
has_monitoring_api groups = has_group "monitoring.coreos.com" groups

abbrev with_monitoring : Bool → Option Bool → Option Reconciler
with_monitoring is_openshift none = none
with_monitoring is_openshift (some has_monitoring) = some (record {
  bpfman_standard_ds = "./config/bpfman-deployment/daemonset.yaml";
  bpfman_metrics_proxy_ds = "./config/bpfman-deployment/metrics-proxy-daemonset.yaml";
  csi_driver_ds = "./config/bpfman-deployment/csidriverinfo.yaml";
  is_openshift = is_openshift;
  has_monitoring = has_monitoring;
})

abbrev with_open_shift : Option Bool → Option Bool → Option Reconciler
with_open_shift none has_monitoring = none
with_open_shift (some is_openshift) has_monitoring = with_monitoring is_openshift has_monitoring

-- The reconciler of the Config that main makes, unless it exits.
unfoldable pub config_reconciler : Option String → Option (List String) → Option Reconciler
unfolding is_open_shift has_monitoring_api
config_reconciler version groups =
    with_open_shift (is_open_shift version groups) (has_monitoring_api groups)

abbrev pub config_name : String
config_name = "bpfman-config"

abbrev pub default_configuration : String
default_configuration =
    "[database]\nmax_retries = 30\nmillisec_delay = 10000\n[signing]\nallow_unsigned = true\nverify_enabled = true\n"

-- defaultConfig
unfoldable pub default_config : (bpfman_image bpfman_agent_image : String) → Config
default_config bpfman_image bpfman_agent_image = record {
  name = config_name;
  finalizers = [];
  deleted = false;
  agent = record { health_probe_port = pos 8175; image = bpfman_agent_image; log_level = "info" };
  configuration = default_configuration;
  daemon = record { csi_registrar_image = ""; image = bpfman_image; log_level = "info" };
  namespace = "bpfman";
  overrides = [];
}

module _ (api : ConfigApi) (create_config : Config → api.Cluster → Bool × api.Cluster) where
  open api use {Cluster}

  abbrev pub ensured : Got Config → Config → Cluster → Bool × Cluster
  ensured (found existing) config c = (true, c)
  ensured not_found config c = create_config config c
  ensured failed config c = (false, c)

  -- ensureDefaultConfig, with the client that it makes. Whether there was no error.
  unfoldable pub ensure_default_config :
      (bpfman_image bpfman_agent_image : String) → Cluster → Bool × Cluster
  unfolding default_config
  ensure_default_config bpfman_image bpfman_agent_image c =
      ensured (api.get_config config_name c) (default_config bpfman_image bpfman_agent_image) c

abbrev label_is : String → Option String → Bool
label_is value none = value == ""
label_is value (some label) = label == value

-- BpfNodePredicate, which treats all four kinds of event alike; the labels are those of the new object.
unfoldable pub bpf_node_predicate : (node_name : String) → Dict String → Bool
bpf_node_predicate node_name labels = label_is node_name (look_up "kubernetes.io/hostname" labels)

abbrev is_there : Option String → Bool
is_there none = false
is_there (some label) = true

-- DiscoveredBpfProgramPredicate, of the same form.
unfoldable pub discovered_bpf_program_predicate : Dict String → Bool
discovered_bpf_program_predicate labels = is_there (look_up "bpfman.io/discoveredProgram" labels)
