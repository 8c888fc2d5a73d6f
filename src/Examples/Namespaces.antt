-- ===== src/Examples/Namespaces.antt =====
-- A DaemonSet for two Configs, a port and a namespace.
use bpfman_operator.Shared.{true, false, pos, none, some, ◌≡◌, refl, inl, inr, look_up}
use bpfman_operator.Operator.Objects.{daemon_set, Object, pod_spec_eq}
use bpfman_operator.Operator.Config.{Config}
use bpfman_operator.Operator.Config.DaemonSets.{
  configure_bpfman_ds, health_probe_address, daemon_set_needs_update,
}
use bpfman_operator.Operator.Config.DaemonSets.Restarts.{configure_bpfman_ds-restarts}
use bpfman_operator.Operator.Config.Namespaces.{labelled, required_labels, os_annotations}
use bpfman_operator.Operator.Config.Namespaces.Settled.{
  HoldsAll, labelled-IsSettled, labelled-keeps,
}
use bpfman_operator.Examples.Configs.{config, manifest, old_namespace}

probe_test : health_probe_address (pos 8175) ≡ ":8175"
unfolding health_probe_address
probe_test = refl

-- Another agent image, and the same log levels and configuration.
abbrev upgraded : Config
upgraded = record config { namespace = "other" }

unfoldable existing : Object daemon_set
unfolding configure_bpfman_ds
existing = configure_bpfman_ds "" config manifest

no_update_test :
    (daemon_set_needs_update existing (configure_bpfman_ds "" upgraded manifest)).0 ≡ false
unfolding daemon_set_needs_update configure_bpfman_ds existing pod_spec_eq
no_update_test = refl

restart_test :
    (daemon_set_needs_update existing
      (configure_bpfman_ds "" (record config { configuration = "x" }) manifest)).0
    ≡ true
unfolding daemon_set_needs_update configure_bpfman_ds existing pod_spec_eq
restart_test = refl

same_test : existing.body ≡ (configure_bpfman_ds "" config manifest).body
unfolding configure_bpfman_ds existing
same_test = refl

configure_bpfman_ds-restarts_example :
    (config.daemon.log_level ≡ upgraded.daemon.log_level)
    × (config.agent.log_level ≡ upgraded.agent.log_level)
    × (config.configuration ≡ upgraded.configuration)
configure_bpfman_ds-restarts_example =
    configure_bpfman_ds-restarts "" "" config upgraded manifest manifest existing same_test
      no_update_test

labelled-IsSettled_example :
    HoldsAll (required_labels true true) (labelled true true old_namespace).0.labels
    × HoldsAll (os_annotations true) (labelled true true old_namespace).0.annotations
    × (labelled true true (labelled true true old_namespace).0
        ≡ ((labelled true true old_namespace).0, false))
labelled-IsSettled_example = labelled-IsSettled true true old_namespace

-- The node selector is required to be "", and is not added.
labelled-keeps_example :
    (look_up "team" (labelled true true old_namespace).0.labels ≡ some "net")
    × (look_up "openshift.io/node-selector" (labelled true true old_namespace).0.annotations ≡ none)
labelled-keeps_example =
    labelled-keeps true true old_namespace "team" "openshift.io/node-selector" (inl refl) (inr refl)
