-- ===== src/Operator/Config/DaemonSets/Restarts.antt =====
-- What the configuration of the bpfman DaemonSet promises: configureBpfmanDs and healthProbeAddress of
-- controllers/bpfman-operator/config.go.
use Prim.Native.String.{◌++◌ as append}
use text.Mathlib.TextLemmas.{append-eq-nil_iff}
use bpfman_operator.Shared.{
  Bool, true, false, not, ◌&&◌, ◌||◌, ℕ, ◌≤◌, ℤ, pos, negsuc, String, some, ◌==◌, nat_eq, string_eq,
  ltb, Dict, look_up, put_all, look_up-put, maps_equal, maps_equal-look_up, ◌≡◌, ◌≢◌, ◌↔◌, refl, ap,
  sym, ◌∙◌, arith, Bool-cases, inl, inr,
}
use bpfman_operator.Agent.Text.{int32_string}
use bpfman_operator.Operator.Objects.{daemon_set, Object, pod_spec_eq}
use bpfman_operator.Operator.Config.{Config}
use bpfman_operator.Operator.Config.DaemonSets.{
  health_probe_address, new_annotations, configure_bpfman_ds, daemon_set_needs_update,
}

append-ne-nil : (s : String) → append ":" s ≢ ""
append-ne-nil s h = (let empty : ◌≡◌ {A = String} ":" "" = (append-eq-nil_iff.0 h).0 in cc)

-- healthProbeAddress gives an address exactly for the ports 1 to 65535.
pub health_probe_address_bounds :
    (port : ℤ)
    → (health_probe_address port ≢ "") ↔ ((n : ℕ) × (port ≡ pos n) × (1 ≤ n) × (n ≤ 65535))
unfolding health_probe_address
health_probe_address_bounds (negsuc n) = (λ h. absurd (h refl), λ (m, e, _, _). cc)
health_probe_address_bounds (pos n) = elim (Bool-cases (n == 0 || ltb 65535 n)) [
  | inl out ↦ rw (out) (λ h. absurd (h refl), λ (m, e, low, high). absurd (ground (arith, e)))
  | inr inside ↦ rw (inside) (
    λ _. (n, refl, ground (arith, inside), ground (arith, inside)),
    λ _. append-ne-nil (int32_string (pos n)),
  )
]

not-true : (b : Bool) → not b ≡ false → b ≡ true
not-true true h = refl
not-true false h = cc

left_true : (a b : Bool) → (a && b) ≡ true → a ≡ true
left_true true b h = refl
left_true false b h = h

annotations_read :
    (config : Config) (m : Dict String)
    → (look_up "bpfman.io.bpfman.log.level" (put_all (new_annotations config) m)
        ≡ some config.daemon.log_level)
      × (look_up "bpfman.io.bpfman.agent.log.level" (put_all (new_annotations config) m)
          ≡ some config.agent.log_level)
      × (look_up "bpfman.io.bpfman.toml" (put_all (new_annotations config) m)
          ≡ some config.configuration)
annotations_read config m = (
  rw look_up-put (rw look_up-put (rw look_up-put refl)),
  rw look_up-put (rw look_up-put refl),
  rw look_up-put refl,
)

read_same :
    (m m' : Dict String) (k v v' : String)
    → maps_equal m m' ≡ true
    → look_up k m ≡ some v
    → look_up k m' ≡ some v'
    → v ≡ v'
read_same m m' k v v' same here there =
    some_inj (sym (maps_equal-look_up m m' k v same here) ∙ there)
  where
    some_inj : some v ≡ some v' → v ≡ v'
    some_inj e = cc

-- A DaemonSet that was written from one Config needs an update from another, unless the two agree on the
-- log levels and on the configuration: an update changes the pods' annotations, which restarts them.
pub configure_bpfman_ds-restarts :
    (policy policy' : String) (config config' : Config) (ds ds' existing : Object daemon_set)
    → existing.body ≡ (configure_bpfman_ds policy config ds).body
    → (daemon_set_needs_update existing (configure_bpfman_ds policy' config' ds')).0 ≡ false
    → (config.daemon.log_level ≡ config'.daemon.log_level)
      × (config.agent.log_level ≡ config'.agent.log_level)
      × (config.configuration ≡ config'.configuration)
unfolding configure_bpfman_ds daemon_set_needs_update
configure_bpfman_ds-restarts policy policy' config config' ds ds' existing written h =
    let m = put_all (new_annotations config) ds.body.annotations in
    let m' = put_all (new_annotations config') ds'.body.annotations in
    let equal : maps_equal existing.body.annotations m' ≡ true =
      left_true (maps_equal existing.body.annotations m') _ (not-true _ h) in
    let same : maps_equal m m' ≡ true =
      sym (ap (λ b. maps_equal b.annotations m') written) ∙ equal in
    let (level, agent_level, toml) = annotations_read config ds.body.annotations in
    let (level', agent_level', toml') = annotations_read config' ds'.body.annotations in
    (
      read_same m m' _ _ _ same level level',
      read_same m m' _ _ _ same agent_level agent_level',
      read_same m m' _ _ _ same toml toml',
    )
