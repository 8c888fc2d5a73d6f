-- ===== src/Operator/Config/Namespaces.antt =====
-- The labels and annotations of the operator's namespace: reconcileNamespace of
-- controllers/bpfman-operator/config.go.
pub mod Settled
use bpfman_operator.Shared.{
  Bool, true, false, ◌&&◌, String, Option, none, some, List, [], ◌∷◌, ◌++◌, ◌==◌, string_eq,
  if◌then◌else◌, Dict, look_up, put,
}
use bpfman_operator.Operator.Config.{Config, Namespace, Got, found, not_found, failed, ConfigApi}

-- `m[k]`, which is "" for a key that is not there.
abbrev pub value_or_empty : Option String → String
value_or_empty none = ""
value_or_empty (some v) = v

abbrev pub psa_labels : Dict String
psa_labels =
    ("pod-security.kubernetes.io/enforce", "privileged")
    ∷ ("pod-security.kubernetes.io/audit", "privileged")
    ∷ ("pod-security.kubernetes.io/warn", "privileged")
    ∷ []

abbrev pub monitoring_labels : Bool → Dict String
monitoring_labels true = ("openshift.io/cluster-monitoring", "true") ∷ []
monitoring_labels false = []

abbrev pub os_annotations : Bool → Dict String
os_annotations true =
    ("openshift.io/node-selector", "")
    ∷ ("openshift.io/description", "Openshift bpfman components")
    ∷ ("workload.openshift.io/allowed", "management")
    ∷ []
os_annotations false = []

-- One round of the loops, and the test of the monitoring label: a value that differs is set, with
-- `changed`.
abbrev pub set_if_differs : String → String → Dict String × Bool → Dict String × Bool
set_if_differs k v (m, changed) =
    if value_or_empty (look_up k m) == v then (m, changed) else (put k v m, true)

unfoldable pub set_all : Dict String → Dict String × Bool → Dict String × Bool
set_all [] state = state
set_all ((k, v) ∷ entries) state = set_all entries (set_if_differs k v state)

module _ (is_openshift has_monitoring : Bool) where
  -- In the order in which the code sets them.
  abbrev pub required_labels : Dict String
  required_labels = psa_labels ++ monitoring_labels (is_openshift && has_monitoring)

  abbrev pub set_labels : Dict String → Dict String × Bool
  set_labels labels = set_all required_labels (labels, false)

  abbrev pub set_annotations : Dict String × Bool → Dict String × Bool
  set_annotations state = set_all (os_annotations is_openshift) state

  abbrev pub joined : Namespace → Dict String → Dict String × Bool → Namespace × Bool
  joined ns labels (annotations, changed) =
      (record ns { labels = labels; annotations = annotations }, changed)

  abbrev pub annotated : Namespace → Dict String × Bool → Namespace × Bool
  annotated ns (labels, changed) = joined ns labels (set_annotations (ns.annotations, changed))

  -- The namespace as it should be, and whether it differs from what it is.
  unfoldable pub labelled : Namespace → Namespace × Bool
  unfolding set_all
  labelled ns = annotated ns (set_labels ns.labels)

  module _ (api : ConfigApi) where
    open api use {Cluster}

    abbrev pub update_if_changed : Namespace × Bool → Cluster → Bool × Cluster
    update_if_changed (ns, true) c = api.update_namespace ns c
    update_if_changed (ns, false) c = (true, c)

    abbrev pub with_namespace : Got Namespace → Cluster → Bool × Cluster
    with_namespace (found ns) c = update_if_changed (labelled ns) c
    with_namespace not_found c = (false, c)
    with_namespace failed c = (false, c)

    -- reconcileNamespace: whether there was no error.
    unfoldable pub reconcile_namespace : Config → Cluster → Bool × Cluster
    unfolding labelled
    reconcile_namespace config c = with_namespace (api.get_namespace config.namespace c) c
