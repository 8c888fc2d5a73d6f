-- ===== src/Operator/Config/Pass.antt =====
-- Reconcile of the Config, and the steps of which it consists: controllers/bpfman-operator/config.go.
use bpfman_operator.Shared.{
  Bool, true, false, not, ◌&&◌, ◌||◌, String, Option, none, some, List, [], ◌∷◌, ◌==◌, string_eq,
  if◌then◌else◌, look_up, put,
}
use bpfman_operator.Operator.Objects.{
  config_map, csi_driver, security_context_constraints, daemon_set, service, service_monitor,
  cluster_role_binding, cluster_role, role, role_binding, Object,
}
use bpfman_operator.Operator.Config.{
  Config, Got, found, not_found, failed, ConfigApi, ConfigLib, config_finalizer, is_overridden,
  load, assure_resource, assure_loaded, and_then, handle_deletion, add_config_finalizer,
}
use bpfman_operator.Operator.Config.DaemonSets.{
  configure_bpfman_ds, configure_metrics_proxy_ds, daemon_set_needs_update,
}
use bpfman_operator.Operator.Config.Resources.{
  meta, bpfman_config_map, config_map_needs_update, csi_driver_needs_update, bpfman_restricted_scc,
  scc_needs_update, agent_metrics_service, controller_metrics_service, service_needs_update,
  agent_service_monitor, controller_service_monitor, service_monitor_needs_update,
}
use bpfman_operator.Operator.Config.Rbac.{
  privileged_binding, user_role, prometheus_role, prometheus_role_binding, metrics_reader_binding,
  cluster_role_binding_needs_update, role_binding_needs_update, cluster_role_needs_update,
  role_needs_update,
}
use bpfman_operator.Operator.Config.Namespaces.{value_or_empty, reconcile_namespace}

-- The fields of BpfmanConfigReconciler.
pub record Reconciler : Type 0 where
  pub bpfman_standard_ds : String
  pub bpfman_metrics_proxy_ds : String
  pub csi_driver_ds : String
  pub is_openshift : Bool
  pub has_monitoring : Bool

abbrev pub configured :
    (Object daemon_set → Object daemon_set)
    → Option (Object daemon_set)
    → Option (Object daemon_set)
configured configure none = none
configured configure (some ds) = some (configure ds)

abbrev pub serving_cert : String
serving_cert = "service.beta.openshift.io/serving-cert-secret-name"

module _ (r : Reconciler) (lib : ConfigLib) (api : ConfigApi) (config : Config) where
  open api use {Cluster}

  -- reconcileCM
  unfoldable pub reconcile_cm : Cluster → Bool × Cluster
  unfolding assure_resource bpfman_config_map
  reconcile_cm c =
      assure_resource lib api config config_map config_map_needs_update (bpfman_config_map config) c

  -- reconcileCSIDriver
  unfoldable pub reconcile_csi_driver : Cluster → Bool × Cluster
  unfolding assure_resource load
  reconcile_csi_driver c =
      assure_loaded lib api config csi_driver csi_driver_needs_update
        (load lib csi_driver r.csi_driver_ds "csi.bpfman.io") c

  -- reconcileSCC
  unfoldable pub reconcile_scc : Cluster → Bool × Cluster
  unfolding assure_resource bpfman_restricted_scc
  reconcile_scc c =
      if r.is_openshift
      then assure_resource lib api config security_context_constraints scc_needs_update
          bpfman_restricted_scc c
      else (true, c)

  -- reconcileStandardDS
  unfoldable pub reconcile_standard_ds : Cluster → Bool × Cluster
  unfolding assure_resource load configure_bpfman_ds daemon_set_needs_update
  reconcile_standard_ds c =
      assure_loaded lib api config daemon_set daemon_set_needs_update
        (configured (configure_bpfman_ds lib.image_pull_policy config)
          (load lib daemon_set r.bpfman_standard_ds "bpfman-daemon"))
        c

  -- reconcileMetricsProxyDS
  unfoldable pub reconcile_metrics_proxy_ds : Cluster → Bool × Cluster
  unfolding assure_resource load configure_metrics_proxy_ds daemon_set_needs_update
  reconcile_metrics_proxy_ds c =
      if r.has_monitoring
      then assure_loaded lib api config daemon_set daemon_set_needs_update
          (configured (configure_metrics_proxy_ds lib.image_pull_policy config r.is_openshift)
            (load lib daemon_set r.bpfman_metrics_proxy_ds "bpfman-metrics-proxy"))
          c
      else (true, c)

  -- reconcileMetricsServices
  unfoldable pub reconcile_metrics_services : Cluster → Bool × Cluster
  unfolding assure_resource agent_metrics_service controller_metrics_service service_needs_update
  reconcile_metrics_services c =
      if r.has_monitoring
      then and_then lib api config
          (assure_resource lib api config service service_needs_update
            (agent_metrics_service config) c)
          (λ c'.
            assure_resource lib api config service service_needs_update
              (controller_metrics_service config) c')
      else (true, c)

  -- reconcileServiceMonitors
  unfoldable pub reconcile_service_monitors : Cluster → Bool × Cluster
  unfolding assure_resource agent_service_monitor controller_service_monitor
  reconcile_service_monitors c =
      if r.has_monitoring
      then and_then lib api config
          (assure_resource lib api config service_monitor service_monitor_needs_update
            (agent_service_monitor r.is_openshift config) c)
          (λ c'.
            assure_resource lib api config service_monitor service_monitor_needs_update
              (controller_service_monitor config) c')
      else (true, c)

  abbrev pub with_serving_cert : Object service → Object service
  with_serving_cert svc = record svc {
    metadata = record svc.metadata {
      annotations = put serving_cert "agent-metrics-tls" svc.metadata.annotations;
    };
  }

  abbrev pub annotate_unless : Bool → Object service → Cluster → Bool × Cluster
  annotate_unless true svc c = (true, c)
  annotate_unless false svc c = api.update service (with_serving_cert svc) c

  abbrev pub annotate : Got (Object service) → Cluster → Bool × Cluster
  annotate not_found c = (true, c)
  annotate failed c = (false, c)
  annotate (found svc) c =
      annotate_unless
        (value_or_empty (look_up serving_cert svc.metadata.annotations) == "agent-metrics-tls") svc
        c

  abbrev pub annotation_unless : Bool → Cluster → Bool × Cluster
  annotation_unless true c = (true, c)
  annotation_unless false c =
      annotate (api.get service config.namespace "bpfman-agent-metrics-service" c) c

  -- reconcileAgentMetricsServiceAnnotation
  unfoldable pub reconcile_agent_metrics_service_annotation : Cluster → Bool × Cluster
  unfolding is_overridden
  reconcile_agent_metrics_service_annotation c =
      annotation_unless
        (not r.is_openshift
          || is_overridden lib service (meta "bpfman-agent-metrics-service" config.namespace [])
              config.overrides)
        c

  -- reconcileOpenShiftRBAC
  unfoldable pub reconcile_open_shift_rbac : Cluster → Bool × Cluster
  unfolding assure_resource privileged_binding user_role
  reconcile_open_shift_rbac c =
      if r.is_openshift
      then and_then lib api config
          (assure_resource lib api config cluster_role_binding cluster_role_binding_needs_update
            (privileged_binding config) c)
          (λ c'. assure_resource lib api config cluster_role cluster_role_needs_update user_role c')
      else (true, c)

  -- reconcilePrometheusRBAC
  unfoldable pub reconcile_prometheus_rbac : Cluster → Bool × Cluster
  unfolding assure_resource prometheus_role prometheus_role_binding metrics_reader_binding
  reconcile_prometheus_rbac c =
      if r.is_openshift && r.has_monitoring
      then and_then lib api config
          (and_then lib api config
            (assure_resource lib api config role role_needs_update (prometheus_role config) c)
            (λ c'.
              assure_resource lib api config role_binding role_binding_needs_update
                (prometheus_role_binding config) c'))
          (λ c'.
            assure_resource lib api config cluster_role_binding cluster_role_binding_needs_update
              metrics_reader_binding c')
      else (true, c)

  -- The steps of a normal reconciliation, in order.
  unfoldable pub steps : List (Cluster → Bool × Cluster)
  unfolding reconcile_cm reconcile_csi_driver reconcile_scc reconcile_standard_ds
      reconcile_metrics_proxy_ds reconcile_metrics_services reconcile_service_monitors
      reconcile_agent_metrics_service_annotation reconcile_open_shift_rbac reconcile_prometheus_rbac
      reconcile_namespace
  steps =
      reconcile_cm
      ∷ reconcile_csi_driver
      ∷ reconcile_scc
      ∷ reconcile_standard_ds
      ∷ reconcile_metrics_proxy_ds
      ∷ reconcile_metrics_services
      ∷ reconcile_service_monitors
      ∷ reconcile_agent_metrics_service_annotation
      ∷ reconcile_open_shift_rbac
      ∷ reconcile_prometheus_rbac
      ∷ reconcile_namespace r.is_openshift r.has_monitoring api config
      ∷ []

  -- Each step in turn, until one returns an error.
  unfoldable pub run : List (Cluster → Bool × Cluster) → Cluster → Bool × Cluster
  run [] c = (true, c)
  run (step ∷ rest) c = and_then lib api config (step c) (λ c'. run rest c')

  abbrev pub unless_new : Bool → Cluster → Bool × Cluster
  unless_new true c = run steps c
  unless_new false c = add_config_finalizer lib api config c

  abbrev pub unless_deleted : Bool → Cluster → Bool × Cluster
  unless_deleted true c = handle_deletion lib api config c
  unless_deleted false c = unless_new (lib.contains_finalizer config.finalizers config_finalizer) c

module _ (r : Reconciler) (lib : ConfigLib) (api : ConfigApi) where
  open api use {Cluster}

  abbrev pub with_config : Got Config → Cluster → Bool × Cluster
  with_config not_found c = (true, c)
  with_config failed c = (false, c)
  with_config (found config) c = unless_deleted r lib api config config.deleted c

  -- Reconcile: whether there was no error.
  unfoldable pub reconcile : String → Cluster → Bool × Cluster
  unfolding steps run handle_deletion
  reconcile name c = with_config (api.get_config name c) c
