-- ===== src/Operator/Config/Permitted.antt =====
-- What a reconciliation of the Config may write: Reconcile of controllers/bpfman-operator/config.go.
use bpfman_operator.Shared.{
  Bool, true, false, String, [], ◌≡◌, refl, All, All-map_lem, inl, inr, ◌⊎◌,
}
use bpfman_operator.Operator.Config.{
  Config, Got, found, not_found, failed, ConfigApi, ConfigLib, config_finalizer, is_overridden,
  handle_deletion,
}
use bpfman_operator.Operator.Config.Pass.{
  Reconciler, steps, unless_new, unless_deleted, with_config, reconcile,
}
use bpfman_operator.Operator.Config.Writes.{
  Write, wrote, wrote_config, wrote_namespace, logged, IsManaged,
}
use bpfman_operator.Operator.Config.Overridden.{GetsByName, run-Keeps, steps-Keep}

module _ (r : Reconciler) (lib : ConfigLib) (api : ConfigApi) where
  -- A live Config that has the finalizer.
  abbrev pub IsSettledIn : Config → Type 0
  IsSettledIn config =
      (config.deleted ≡ false) × (lib.contains_finalizer config.finalizers config_finalizer ≡ true)

  -- What may be written for what was read of the Config.
  abbrev pub IsPermitted : Got Config → Write → Type 0
  IsPermitted (found config) (wrote k metadata) =
      IsSettledIn config × (is_overridden lib k metadata config.overrides ≡ false)
  IsPermitted (found config) wrote_config =
      (config.deleted ≡ true) ⊎ (lib.contains_finalizer config.finalizers config_finalizer ≡ false)
  IsPermitted (found config) wrote_namespace = IsSettledIn config
  IsPermitted not_found write = ⊥
  IsPermitted failed write = ⊥

  managed-IsPermitted :
      (config : Config) (write : Write)
      → IsSettledIn config
      → IsManaged lib api config write
      → IsPermitted (found config) write
  managed-IsPermitted config (wrote k metadata) settled free = (settled, free)
  managed-IsPermitted config wrote_config settled free = absurd free
  managed-IsPermitted config wrote_namespace settled free = settled

  unless_new-IsPermitted :
      GetsByName api
      → (config : Config) (c : api.Cluster) (b : Bool) → config.deleted ≡ false
      → lib.contains_finalizer config.finalizers config_finalizer ≡ b
      → All (IsPermitted (found config)) (unless_new r lib (logged api) config b (c, [])).1.1
  unless_new-IsPermitted by_name config c true live e =
      All-map_lem (IsManaged lib api config) (IsPermitted (found config)) _
        (λ write. managed-IsPermitted config write (live, e))
        (run-Keeps r lib api config (steps r lib (logged api) config)
          (steps-Keep r lib api config by_name) (c, []) tt)
  unless_new-IsPermitted by_name config c false live e = (inr e, tt)

  unless_deleted-IsPermitted :
      GetsByName api
      → (config : Config) (c : api.Cluster) (b : Bool) → config.deleted ≡ b
      → All (IsPermitted (found config)) (unless_deleted r lib (logged api) config b (c, [])).1.1
  unfolding handle_deletion
  unless_deleted-IsPermitted by_name config c true e = (inl e, tt)
  unless_deleted-IsPermitted by_name config c false e =
      unless_new-IsPermitted by_name config c _ e refl

  with_config-IsPermitted :
      GetsByName api
      → (got : Got Config) (c : api.Cluster)
      → All (IsPermitted got) (with_config r lib (logged api) got (c, [])).1.1
  with_config-IsPermitted by_name (found config) c =
      unless_deleted-IsPermitted by_name config c _ refl
  with_config-IsPermitted by_name not_found c = tt
  with_config-IsPermitted by_name failed c = tt

  -- Every write that Reconcile attempts, errors included, is permitted: the Config itself is written only
  -- where it is being deleted or has no finalizer yet; resources and the namespace only for a live Config
  -- with the finalizer, and no resource that has an override; without a Config there is no write. The
  -- API server is one whose reads give the object of the name asked for.
  pub reconcile-ArePermitted :
      GetsByName api
      → (name : String) (c : api.Cluster)
      → All (IsPermitted (api.get_config name c)) (reconcile r lib (logged api) name (c, [])).1.1
  unfolding reconcile
  reconcile-ArePermitted by_name name c = with_config-IsPermitted by_name (api.get_config name c) c
