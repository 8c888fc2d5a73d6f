-- ===== src/Operator/Config/Rbac.antt =====
-- The roles and bindings that are written in the code: reconcileOpenShiftRBAC and
-- reconcilePrometheusRBAC of controllers/bpfman-operator/config.go.
use bpfman_operator.Shared.{Bool, not, ◌||◌, String, List, [], ◌∷◌, ◌==◌, list_eq}
use bpfman_operator.Operator.Objects.{
  cluster_role_binding, cluster_role, role, role_binding, Object, policy_rule_eq, RoleRef,
  role_ref_eq, Subject, subject_eq, Binding,
}
use bpfman_operator.Operator.Config.{Config}
use bpfman_operator.Operator.Config.Resources.{meta}

abbrev role_ref : (kind name : String) → RoleRef
role_ref kind name = record { api_group = "rbac.authorization.k8s.io"; kind = kind; name = name }

abbrev service_account : (name namespace : String) → List Subject
service_account name namespace =
    record { kind = "ServiceAccount"; name = name; namespace = namespace } ∷ []

-- The objects of reconcileOpenShiftRBAC.
unfoldable pub privileged_binding : Config → Object cluster_role_binding
privileged_binding config = record {
  metadata = meta "bpfman-privileged-scc" "" [];
  body = record {
    role_ref = role_ref "ClusterRole" "system:openshift:scc:privileged";
    subjects = service_account "bpfman-daemon" config.namespace;
  };
}

unfoldable pub user_role : Object cluster_role
user_role = record {
  metadata = meta "bpfman-user" "" [];
  body =
      record {
        api_groups = "security.openshift.io" ∷ [];
        resource_names = "bpfman-restricted" ∷ [];
        resources = "securitycontextconstraints" ∷ [];
        verbs = "use" ∷ [];
      }
      ∷ [];
}

-- The objects of reconcilePrometheusRBAC.
unfoldable pub prometheus_role : Config → Object role
prometheus_role config = record {
  metadata = meta "bpfman-prometheus-k8s" config.namespace [];
  body =
      record {
        api_groups = "" ∷ [];
        resource_names = [];
        resources = "pods" ∷ "services" ∷ "endpoints" ∷ "configmaps" ∷ "secrets" ∷ [];
        verbs = "get" ∷ "list" ∷ "watch" ∷ [];
      }
      ∷ [];
}

unfoldable pub prometheus_role_binding : Config → Object role_binding
prometheus_role_binding config = record {
  metadata = meta "bpfman-prometheus-k8s" config.namespace [];
  body = record {
    role_ref = role_ref "Role" "bpfman-prometheus-k8s";
    subjects = service_account "prometheus-k8s" "openshift-monitoring";
  };
}

unfoldable pub metrics_reader_binding : Object cluster_role_binding
metrics_reader_binding = record {
  metadata = meta "bpfman-prometheus-metrics-reader" "" (
      ("app.kubernetes.io/component", "metrics")
      ∷ ("app.kubernetes.io/created-by", "bpfman-operator")
      ∷ ("app.kubernetes.io/instance", "prometheus-metrics-reader")
      ∷ ("app.kubernetes.io/managed-by", "bpfman-operator")
      ∷ ("app.kubernetes.io/name", "clusterrolebinding")
      ∷ ("app.kubernetes.io/part-of", "bpfman-operator")
      ∷ []);
  body = record {
    role_ref = role_ref "ClusterRole" "bpfman-metrics-reader";
    subjects = service_account "prometheus-k8s" "openshift-monitoring";
  };
}

abbrev bindings_differ : Binding → Binding → Bool
bindings_differ a b = not (a.role_ref == b.role_ref) || not (a.subjects == b.subjects)

abbrev pub cluster_role_binding_needs_update :
    Object cluster_role_binding → Object cluster_role_binding → Bool × Object cluster_role_binding
cluster_role_binding_needs_update existing desired =
    (bindings_differ existing.body desired.body, desired)

abbrev pub role_binding_needs_update :
    Object role_binding → Object role_binding → Bool × Object role_binding
role_binding_needs_update existing desired = (bindings_differ existing.body desired.body, desired)

abbrev pub cluster_role_needs_update :
    Object cluster_role → Object cluster_role → Bool × Object cluster_role
cluster_role_needs_update existing desired = (not (existing.body == desired.body), desired)

abbrev pub role_needs_update : Object role → Object role → Bool × Object role
role_needs_update existing desired = (not (existing.body == desired.body), desired)
