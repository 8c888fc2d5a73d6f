-- ===== src/Operator/Config/Overridden.antt =====
-- An override keeps the operator from its object: Reconcile of controllers/bpfman-operator/config.go.
use bpfman_operator.Shared.{
  Bool, true, false, not, ◌&&◌, ◌||◌, String, Option, none, some, List, [], ◌∷◌, ◌≡◌, refl, ap₂,
  ◌∙◌, All, if◌then◌else◌,
}
use bpfman_operator.Operator.Objects.{
  Kind, config_map, csi_driver, security_context_constraints, daemon_set, service, service_monitor,
  cluster_role_binding, cluster_role, role, role_binding, ObjectMeta, Object,
}
use bpfman_operator.Operator.Config.{
  Config, Got, found, not_found, failed, ConfigApi, ConfigLib, is_overridden, assure_resource,
  assure_loaded, and_then,
}
use bpfman_operator.Operator.Config.DaemonSets.{daemon_set_needs_update}
use bpfman_operator.Operator.Config.Resources.{
  meta, bpfman_config_map, config_map_needs_update, csi_driver_needs_update, bpfman_restricted_scc,
  scc_needs_update, service_needs_update, agent_service_monitor, controller_service_monitor,
  service_monitor_needs_update,
}
use bpfman_operator.Operator.Config.Rbac.{
  privileged_binding, user_role, prometheus_role, prometheus_role_binding, metrics_reader_binding,
  cluster_role_binding_needs_update, role_binding_needs_update, cluster_role_needs_update,
  role_needs_update,
}
use bpfman_operator.Operator.Config.Namespaces.{
  with_namespace, update_if_changed, reconcile_namespace,
}
use bpfman_operator.Operator.Config.Pass.{
  Reconciler, annotate, annotate_unless, annotation_unless, reconcile_cm, reconcile_csi_driver,
  reconcile_scc, reconcile_standard_ds, reconcile_metrics_proxy_ds, reconcile_metrics_services,
  reconcile_service_monitors, reconcile_agent_metrics_service_annotation, reconcile_open_shift_rbac,
  reconcile_prometheus_rbac, steps, run,
}
use bpfman_operator.Operator.Config.Writes.{
  logged, IsManaged, State, AreManaged, Step, Keeps, KeepsMetadata, assure_resource-Keeps,
}

-- A read gives the object that was asked for.
abbrev pub GetsByName : ConfigApi → Type 0
GetsByName api =
    (k : Kind) (namespace name : String) (c : api.Cluster) (o : Object k)
    → api.get k namespace name c ≡ found o
    → (o.metadata.namespace ≡ namespace) × (o.metadata.name ≡ name)

module _ (r : Reconciler) (lib : ConfigLib) (api : ConfigApi) (config : Config) where
  and_then-Keeps :
      (first second : Step lib api config)
      → Keeps lib api config first
      → Keeps lib api config second
      → Keeps lib api config (λ s. and_then lib (logged api) config (first s) second)
  and_then-Keeps first second keeps keeps' s h = after (first s) (keeps s h)
    where
      after :
          (t : Bool × State lib api config)
          → AreManaged lib api config t
          → AreManaged lib api config (and_then lib (logged api) config t second)
      after (true, s') h' = keeps' s' h'
      after (false, s') h' = h'

  if-Keeps :
      (b : Bool) (step : Step lib api config)
      → Keeps lib api config step
      → Keeps lib api config (λ s. if b then step s else (true, s))
  if-Keeps true step keeps = keeps
  if-Keeps false step keeps = λ s h. h

  assure_loaded-Keeps :
      (k : Kind) (needs_update : Object k → Object k → Bool × Object k)
      (desired : Option (Object k))
      → KeepsMetadata lib api config needs_update
      → Keeps lib api config (assure_loaded lib (logged api) config k needs_update desired)
  assure_loaded-Keeps k needs_update none keeps = λ s h. h
  assure_loaded-Keeps k needs_update (some desired) keeps =
      assure_resource-Keeps lib api config k needs_update desired keeps

  assured_twice-Keeps :
      (k k' : Kind) (needs_update : Object k → Object k → Bool × Object k)
      (needs_update' : Object k' → Object k' → Bool × Object k') (desired : Object k)
      (desired' : Object k')
      → KeepsMetadata lib api config needs_update
      → KeepsMetadata lib api config needs_update'
      → Keeps lib api config (λ s.
        and_then lib
          (logged api)
          config
          (assure_resource lib (logged api) config k needs_update desired s)
          (λ s'. assure_resource lib (logged api) config k' needs_update' desired' s'))
  assured_twice-Keeps k k' needs_update needs_update' desired desired' keeps keeps' =
      and_then-Keeps _ _ (assure_resource-Keeps lib api config k needs_update desired keeps)
        (assure_resource-Keeps lib api config k' needs_update' desired' keeps')

  reconcile_standard_ds-Keeps :
      Keeps lib api config (reconcile_standard_ds r lib (logged api) config)
  unfolding reconcile_standard_ds
  reconcile_standard_ds-Keeps =
      assure_loaded-Keeps daemon_set daemon_set_needs_update _ (λ e d. refl)

  reconcile_metrics_services-Keeps :
      Keeps lib api config (reconcile_metrics_services r lib (logged api) config)
  unfolding reconcile_metrics_services
  reconcile_metrics_services-Keeps = if-Keeps r.has_monitoring _ (
      assured_twice-Keeps service service service_needs_update service_needs_update _ _
        (λ e d. refl) (λ e d. refl))

  reconcile_service_monitors-Keeps :
      Keeps lib api config (reconcile_service_monitors r lib (logged api) config)
  unfolding reconcile_service_monitors
  reconcile_service_monitors-Keeps = if-Keeps r.has_monitoring _ (
      assured_twice-Keeps service_monitor service_monitor service_monitor_needs_update
        service_monitor_needs_update (agent_service_monitor r.is_openshift config)
        (controller_service_monitor config) (λ e d. refl) (λ e d. refl))

  reconcile_open_shift_rbac-Keeps :
      Keeps lib api config (reconcile_open_shift_rbac r lib (logged api) config)
  unfolding reconcile_open_shift_rbac
  reconcile_open_shift_rbac-Keeps = if-Keeps r.is_openshift _ (
      assured_twice-Keeps cluster_role_binding cluster_role cluster_role_binding_needs_update
        cluster_role_needs_update (privileged_binding config) user_role (λ e d. refl) (λ e d. refl))

  reconcile_prometheus_rbac-Keeps :
      Keeps lib api config (reconcile_prometheus_rbac r lib (logged api) config)
  unfolding reconcile_prometheus_rbac
  reconcile_prometheus_rbac-Keeps = if-Keeps (r.is_openshift && r.has_monitoring) _ (
      and_then-Keeps _
        (λ s.
          assure_resource lib (logged api) config cluster_role_binding
            cluster_role_binding_needs_update metrics_reader_binding s)
        (assured_twice-Keeps role role_binding role_needs_update role_binding_needs_update
          (prometheus_role config) (prometheus_role_binding config) (λ e d. refl) (λ e d. refl))
        (assure_resource-Keeps lib api config cluster_role_binding cluster_role_binding_needs_update
          metrics_reader_binding (λ e d. refl)))

  reconcile_cm-Keeps : Keeps lib api config (reconcile_cm r lib (logged api) config)
  unfolding reconcile_cm
  reconcile_cm-Keeps =
      assure_resource-Keeps lib api config config_map config_map_needs_update
        (bpfman_config_map config) (λ e d. refl)

  reconcile_csi_driver-Keeps : Keeps lib api config (reconcile_csi_driver r lib (logged api) config)
  unfolding reconcile_csi_driver
  reconcile_csi_driver-Keeps =
      assure_loaded-Keeps csi_driver csi_driver_needs_update _ (λ e d. refl)

  reconcile_scc-Keeps : Keeps lib api config (reconcile_scc r lib (logged api) config)
  unfolding reconcile_scc
  reconcile_scc-Keeps = if-Keeps r.is_openshift _ (
      assure_resource-Keeps lib api config security_context_constraints scc_needs_update
        bpfman_restricted_scc (λ e d. refl))

  reconcile_metrics_proxy_ds-Keeps :
      Keeps lib api config (reconcile_metrics_proxy_ds r lib (logged api) config)
  unfolding reconcile_metrics_proxy_ds
  reconcile_metrics_proxy_ds-Keeps =
      if-Keeps r.has_monitoring _
        (assure_loaded-Keeps daemon_set daemon_set_needs_update _ (λ e d. refl))

  -- An override is found by the names of the object.
  is_overridden_names :
      (k : Kind) (m : ObjectMeta) (namespace name : String)
      → m.namespace ≡ namespace
      → m.name ≡ name
      → is_overridden lib k m config.overrides
        ≡ is_overridden lib k (meta name namespace []) config.overrides
  unfolding is_overridden
  is_overridden_names k m namespace name same_namespace same_name =
      ap₂ (λ n a. is_overridden lib k (meta a n []) config.overrides) same_namespace same_name

  annotate_unless-AreManaged :
      (b : Bool) (svc : Object service) (s : State lib api config)
      → is_overridden lib service svc.metadata config.overrides ≡ false
      → All (IsManaged lib api config) s.1
      → AreManaged lib api config (annotate_unless r lib (logged api) config b svc s)
  unfolding is_overridden
  annotate_unless-AreManaged true svc s free h = h
  annotate_unless-AreManaged false svc s free h = (free, h)

  annotate-AreManaged :
      (got : Got (Object service)) (s : State lib api config)
      → ((o : Object service)
          → got ≡ found o
          → is_overridden lib service o.metadata config.overrides ≡ false)
      → All (IsManaged lib api config) s.1
      → AreManaged lib api config (annotate r lib (logged api) config got s)
  annotate-AreManaged not_found s free h = h
  annotate-AreManaged failed s free h = h
  annotate-AreManaged (found svc) s free h = annotate_unless-AreManaged _ svc s (free svc refl) h

  annotation-Keeps :
      GetsByName api
      → (openshift overridden : Bool)
      → is_overridden lib service
          (meta "bpfman-agent-metrics-service" config.namespace [])
          config.overrides
        ≡ overridden
      → Keeps lib api config (annotation_unless r lib (logged api) config (openshift || overridden))
  annotation-Keeps by_name true overridden e = λ s h. h
  annotation-Keeps by_name false true e = λ s h. h
  annotation-Keeps by_name false false e = λ s h.
      annotate-AreManaged (api.get service config.namespace "bpfman-agent-metrics-service" s.0) s
        (λ o got.
          let (same_namespace, same_name) =
            by_name service config.namespace "bpfman-agent-metrics-service" s.0 o got in
          is_overridden_names service o.metadata config.namespace "bpfman-agent-metrics-service"
            same_namespace same_name
          ∙ e)
        h

  reconcile_agent_metrics_service_annotation-Keeps :
      GetsByName api
      → Keeps lib api config (reconcile_agent_metrics_service_annotation r lib (logged api) config)
  unfolding reconcile_agent_metrics_service_annotation
  reconcile_agent_metrics_service_annotation-Keeps by_name =
      annotation-Keeps by_name (not r.is_openshift) _ refl

  reconcile_namespace-Keeps :
      Keeps lib api config (reconcile_namespace r.is_openshift r.has_monitoring (logged api) config)
  unfolding reconcile_namespace
  reconcile_namespace-Keeps s h = with_got (api.get_namespace config.namespace s.0)
    where
      written :
          (u : _)
          → AreManaged lib api config
              (update_if_changed r.is_openshift r.has_monitoring (logged api) u s)
      written (ns, true) = (tt, h)
      written (ns, false) = h

      with_got :
          (got : _)
          → AreManaged lib api config
              (with_namespace r.is_openshift r.has_monitoring (logged api) got s)
      with_got (found ns) = written _
      with_got not_found = h
      with_got failed = h

  -- Steps that keep to it, one after the other.
  abbrev pub AllKeep : List (Step lib api config) → Type 0
  AllKeep [] = Unit
  AllKeep (step ∷ rest) = Keeps lib api config step × AllKeep rest

  pub run-Keeps :
      (l : List (Step lib api config))
      → AllKeep l
      → Keeps lib api config (run r lib (logged api) config l)
  unfolding run
  run-Keeps [] keep = λ s h. h
  run-Keeps (step ∷ rest) keep = and_then-Keeps step _ keep.0 (run-Keeps rest keep.1)

  pub steps-Keep : GetsByName api → AllKeep (steps r lib (logged api) config)
  unfolding steps
  steps-Keep by_name = (
    reconcile_cm-Keeps,
    (
      reconcile_csi_driver-Keeps,
      (
        reconcile_scc-Keeps,
        (
          reconcile_standard_ds-Keeps,
          (
            reconcile_metrics_proxy_ds-Keeps,
            (
              reconcile_metrics_services-Keeps,
              (
                reconcile_service_monitors-Keeps,
                (
                  reconcile_agent_metrics_service_annotation-Keeps by_name,
                  (
                    reconcile_open_shift_rbac-Keeps,
                    (reconcile_prometheus_rbac-Keeps, (reconcile_namespace-Keeps, tt)),
                  ),
                ),
              ),
            ),
          ),
        ),
      ),
    ),
  )
