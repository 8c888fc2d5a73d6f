-- ===== src/Operator/Config/Settling.antt =====
-- The comparison of DaemonSets in controllers/bpfman-operator/config.go settles: what is written for a
-- Config needs no update for it.
use bpfman_operator.Shared.{
  sym, subst, true, not, ◌&&◌, string_eq, list_eq, beq_refl, maps_equal_refl, HasDistinctKeys, ◌≡◌,
  refl, ap, ap₂, ◌∙◌,
}
use bpfman_operator.Operator.Objects.{
  daemon_set, Object, pod_spec_eq, service_port_eq, DaemonSetSpec,
}
use bpfman_operator.Operator.Config.DaemonSets.{
  copy_image_pull_policy, specs_equal, daemon_set_needs_update,
}
use bpfman_operator.Operator.Config.DaemonSets.Policies.{
  IsFilledPod, IsFilledPod-trans, copy_image_pull_policy-filled,
}
use bpfman_operator.Operator.Config.Twice.{Settles}

specs_equal_refl : (a : DaemonSetSpec) → HasDistinctKeys a.annotations → specs_equal a a ≡ true
specs_equal_refl a distinct =
    ap₂ (λ x y. x && y) (maps_equal_refl a.annotations distinct)
      (ap₂ (λ x y. x && y) (beq_refl a.pod) (beq_refl a.other))

-- What is stored of a DaemonSet for the desired one is equal to it, with the stored policies.
filled-same :
    (a b : DaemonSetSpec)
    → HasDistinctKeys a.annotations
    → b ≡ record a { pod = b.pod }
    → IsFilledPod a.pod b.pod
    → specs_equal b (record a { pod = copy_image_pull_policy b.pod a.pod }) ≡ true
filled-same a b distinct same filled =
    ap (λ p. specs_equal b (record a { pod = p }))
      (copy_image_pull_policy-filled b.pod a.pod filled)
    ∙ (ap (λ x. specs_equal b x) (sym same)
        ∙ specs_equal_refl b
            (subst HasDistinctKeys (sym (ap (λ (x : DaemonSetSpec). x.annotations) same)) distinct))

-- DaemonSets, whose annotations are a map: no key stands twice.
pub daemon_set-Settles :
    (desired : Object daemon_set)
    → HasDistinctKeys desired.body.annotations
    → Settles daemon_set daemon_set_needs_update desired
unfolding daemon_set_needs_update
daemon_set-Settles desired distinct = record {
  keeps_metadata = λ existing. refl;
  created = λ o (version, meta, (same, filled)).
      ap not (filled-same desired.body o.body distinct same filled);
  updated = λ existing o (version, meta, (same, filled)). ap not (
      filled-same desired.body o.body distinct same
        (IsFilledPod-trans existing.body.pod desired.body.pod o.body.pod filled));
}
