-- ===== src/Operator/Config/Resources.antt =====
-- The resources that are written in the code, and how each is compared with what exists:
-- controllers/bpfman-operator/config.go, reconcileCM to reconcilePrometheusRBAC.
use Prim.Native.String.{◌++◌ as append}
use bpfman_operator.Shared.{
  Bool, true, false, not, ◌||◌, String, none, some, List, [], ◌∷◌, ◌==◌, string_eq, list_eq,
  if◌then◌else◌, Dict, maps_equal,
}
use bpfman_operator.Operator.Objects.{
  config_map, csi_driver, security_context_constraints, service, service_monitor, ObjectMeta,
  Object, ServicePort, service_port_eq, TlsConfig, endpoint_eq, policy_rule_eq, Endpoint,
  constraints_eq,
}
use bpfman_operator.Operator.Config.{Config}

-- A new object's metadata.
abbrev pub meta : (name namespace : String) → Dict String → ObjectMeta
meta name namespace labels = record {
  name = name;
  namespace = namespace;
  labels = labels;
  annotations = [];
  owner_references = [];
  resource_version = "";
}

-- The labels that every metrics object has, after its own.
abbrev part_of : (component instance_name name : String) → Dict String
part_of component instance_name name =
    ("app.kubernetes.io/name", name)
    ∷ ("app.kubernetes.io/instance", instance_name)
    ∷ ("app.kubernetes.io/component", component)
    ∷ ("app.kubernetes.io/created-by", "bpfman-operator")
    ∷ ("app.kubernetes.io/part-of", "bpfman-operator")
    ∷ ("app.kubernetes.io/managed-by", "bpfman-operator")
    ∷ []

-- reconcileCM
unfoldable pub bpfman_config_map : Config → Object config_map
bpfman_config_map config = record {
  metadata = meta "bpfman-config" config.namespace [];
  body =
      ("bpfman.toml", config.configuration)
      ∷ ("bpfman.agent.log.level", config.agent.log_level)
      ∷ ("bpfman.log.level", config.daemon.log_level)
      ∷ [];
}

abbrev pub config_map_needs_update :
    Object config_map → Object config_map → Bool × Object config_map
config_map_needs_update existing desired = (not (maps_equal existing.body desired.body), desired)

abbrev pub csi_driver_needs_update :
    Object csi_driver → Object csi_driver → Bool × Object csi_driver
csi_driver_needs_update existing desired = (not (existing.body == desired.body), desired)

-- reconcileSCC
unfoldable pub bpfman_restricted_scc : Object security_context_constraints
bpfman_restricted_scc = record {
  metadata = meta "bpfman-restricted" "" [];
  body = record {
    allow_host_dir_volume_plugin = false;
    allow_host_ipc = false;
    allow_host_network = false;
    allow_host_pid = false;
    allow_host_ports = false;
    allow_privilege_escalation = some false;
    allow_privileged_container = false;
    required_drop_capabilities = "ALL" ∷ [];
    run_as_user = "MustRunAsNonRoot";
    se_linux_context = "RunAsAny";
    supplemental_groups = "MustRunAs";
    fs_group = "RunAsAny";
    volumes =
        "configMap" ∷ "csi" ∷ "downwardAPI" ∷ "emptyDir" ∷ "ephemeral" ∷ "persistentVolumeClaim"
        ∷ "projected" ∷ "secret" ∷ [];
  };
}

abbrev pub scc_needs_update :
    Object security_context_constraints
    → Object security_context_constraints
    → Bool × Object security_context_constraints
scc_needs_update existing desired = (not (existing.body == desired.body), desired)

abbrev metrics_port : List ServicePort
metrics_port =
    record { name = "https-metrics"; port = 8443; protocol = "TCP"; target_port = "https-metrics" }
    ∷ []

-- The Services of reconcileMetricsServices.
unfoldable pub agent_metrics_service : Config → Object service
agent_metrics_service config = record {
  metadata =
      meta "bpfman-agent-metrics-service" config.namespace
        (part_of "metrics" "agent-metrics-service" "agent-metrics-service");
  body = record {
    cluster_ip = "None";
    cluster_ips = [];
    ports = metrics_port;
    selector = ("name", "bpfman-metrics-proxy") ∷ [];
  };
}

unfoldable pub controller_metrics_service : Config → Object service
controller_metrics_service config = record {
  metadata = meta "bpfman-controller-manager-metrics-service" config.namespace (
      ("control-plane", "controller-manager")
      ∷ part_of "metrics" "controller-manager-metrics-service" "service");
  body = record {
    cluster_ip = "";
    cluster_ips = [];
    ports = metrics_port;
    selector = ("control-plane", "controller-manager") ∷ [];
  };
}

-- `needsUpdateFn` of reconcileMetricsServices, which keeps the addresses.
unfoldable pub service_needs_update : Object service → Object service → Bool × Object service
unfolding service_port_eq
service_needs_update existing desired = (
  not (maps_equal existing.metadata.labels desired.metadata.labels)
      || (not (existing.body.ports == desired.body.ports)
          || not (maps_equal existing.body.selector desired.body.selector)),
  record desired {
    body = record desired.body {
      cluster_ip = existing.body.cluster_ip;
      cluster_ips = existing.body.cluster_ips;
    };
  },
)

abbrev without_verification : TlsConfig
without_verification = record { ca_file = ""; server_name = none; insecure_skip_verify = some true }

-- serviceMonitorTLSConfig
unfoldable pub service_monitor_tls_config : Bool → (service_name namespace : String) → TlsConfig
service_monitor_tls_config is_openshift service_name namespace =
    if is_openshift
    then record {
      ca_file = "/etc/prometheus/configmaps/serving-certs-ca-bundle/service-ca.crt";
      server_name = some (append service_name (append "." (append namespace ".svc")));
      insecure_skip_verify = some false;
    }
    else without_verification

abbrev endpoint : String → TlsConfig → List Endpoint
endpoint path tls =
    record {
      path = path;
      port = "https-metrics";
      scheme = some "https";
      bearer_token_file = "/var/run/secrets/kubernetes.io/serviceaccount/token";
      tls_config = some tls;
    }
    ∷ []

-- The ServiceMonitors of reconcileServiceMonitors.
unfoldable pub agent_service_monitor : Bool → Config → Object service_monitor
unfolding service_monitor_tls_config
agent_service_monitor is_openshift config = record {
  metadata =
      meta "bpfman-agent-metrics-monitor" config.namespace
        (part_of "metrics" "agent-metrics-monitor" "agent-metrics-monitor");
  body = record {
    endpoints =
        endpoint "/agent-metrics"
          (service_monitor_tls_config is_openshift "bpfman-agent-metrics-service" config.namespace);
    match_labels =
        ("app.kubernetes.io/component", "metrics")
        ∷ ("app.kubernetes.io/instance", "agent-metrics-service")
        ∷ ("app.kubernetes.io/name", "agent-metrics-service")
        ∷ [];
  };
}

unfoldable pub controller_service_monitor : Config → Object service_monitor
controller_service_monitor config = record {
  metadata = meta "bpfman-controller-manager-metrics-monitor" config.namespace (
      ("control-plane", "controller-manager")
      ∷ part_of "metrics" "controller-manager-metrics-monitor" "servicemonitor");
  body = record {
    endpoints = endpoint "/metrics" without_verification;
    match_labels = ("control-plane", "controller-manager") ∷ [];
  };
}

abbrev pub service_monitor_needs_update :
    Object service_monitor → Object service_monitor → Bool × Object service_monitor
service_monitor_needs_update existing desired = (
  not (existing.body.endpoints == desired.body.endpoints)
      || not (maps_equal existing.body.match_labels desired.body.match_labels),
  desired,
)
