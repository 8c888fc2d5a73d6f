-- ===== src/Operator/Config/Again.antt =====
-- The DaemonSets are written once: reconcileStandardDS of controllers/bpfman-operator/config.go.
use bpfman_operator.Shared.{
  true, false, Option, none, some, HasDistinctKeys, put_all-HasDistinctKeys, ◌≡◌, ap,
}
use bpfman_operator.Operator.Objects.{daemon_set, Object}
use bpfman_operator.Operator.Config.{Config, ConfigApi, ConfigLib, named, assure_loaded}
use bpfman_operator.Operator.Config.DaemonSets.{
  configure_bpfman_ds, daemon_set_needs_update, new_annotations,
}
use bpfman_operator.Operator.Config.Pass.{Reconciler, configured, reconcile_standard_ds}
use bpfman_operator.Operator.Config.Twice.{IsStoring, assure_resource-again}
use bpfman_operator.Operator.Config.Settling.{daemon_set-Settles}

-- The annotations that a manifest gives its pods are a map.
abbrev pub HasMapIn : Option (Object daemon_set) → Type 0
HasMapIn none = Unit
HasMapIn (some ds) = HasDistinctKeys ds.body.annotations

module _ (r : Reconciler) (lib : ConfigLib) (api : ConfigApi) (config : Config) where
  loaded-again :
      IsStoring api
      → (manifest : Option (Object daemon_set)) (c c' : api.Cluster) → HasMapIn manifest
      → assure_loaded lib api config daemon_set daemon_set_needs_update
          (configured
            (configure_bpfman_ds lib.image_pull_policy config)
            (named lib "bpfman-daemon" manifest))
          c
        ≡ (true, c')
      → assure_loaded lib api config daemon_set daemon_set_needs_update
          (configured
            (configure_bpfman_ds lib.image_pull_policy config)
            (named lib "bpfman-daemon" manifest))
          c'
        ≡ (true, c')
  unfolding configure_bpfman_ds
  loaded-again storing none c c' has_map h = (let no : false ≡ true = ap (λ t. t.0) h in cc)
  loaded-again storing (some ds) c c' has_map h =
      assure_resource-again lib api config daemon_set daemon_set_needs_update storing _ c c'
        (λ given.
          daemon_set-Settles _
            (put_all-HasDistinctKeys (new_annotations config) ds.body.annotations has_map))
        h

  -- With an API server that keeps what is written, but for the version and for image pull policies that it
  -- fills in where a container of a DaemonSet has none: reconcileStandardDS after a reconcileStandardDS for
  -- the same Config that succeeded succeeds and writes nothing. The manifest's annotations are a map.
  pub reconcile_standard_ds-again :
      IsStoring api
      → (c c' : api.Cluster) → HasMapIn (lib.decode daemon_set r.bpfman_standard_ds)
      → reconcile_standard_ds r lib api config c ≡ (true, c')
      → reconcile_standard_ds r lib api config c' ≡ (true, c')
  unfolding reconcile_standard_ds
  reconcile_standard_ds-again storing c c' has_map h = loaded-again storing _ c c' has_map h
