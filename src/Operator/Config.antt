-- ===== src/Operator/Config.antt =====
-- The operator's Config and the resources that it owns: controllers/bpfman-operator/config.go, here
-- isOverridden, assureResource, load and the finalizer of the Config. The API server, the scheme and the
-- client libraries are parameters.
pub mod DaemonSets
pub mod Resources
pub mod Rbac
pub mod Namespaces
pub mod Pass
pub mod Writes
pub mod Overridden
pub mod Permitted
pub mod Twice
pub mod Settling
pub mod Again
use bpfman_operator.Shared.{
  Bool, true, false, not, ◌&&◌, ◌||◌, ℤ, String, Option, none, some, List, [], ◌∷◌, ◌==◌, string_eq,
  list_eq, any, if◌then◌else◌,
}
pub use bpfman_operator.Operator.Objects.{Got, found, not_found, failed}
use bpfman_operator.Operator.Objects.{Kind, ObjectMeta, OwnerReference, owner_reference_eq, Object}

pub record ComponentOverride : Type 0 where
  pub api_version : String
  pub kind : String
  pub namespace : String
  pub name : String
  pub unmanaged : Bool

pub record AgentSpec : Type 0 where
  pub health_probe_port : ℤ
  pub image : String
  pub log_level : String

pub record DaemonSpec : Type 0 where
  pub csi_registrar_image : String
  pub image : String
  pub log_level : String

-- `Config`, with the fields of its spec; `deleted` is a deletion timestamp.
pub record Config : Type 0 where
  pub name : String
  pub finalizers : List String
  pub deleted : Bool
  pub agent : AgentSpec
  pub configuration : String
  pub daemon : DaemonSpec
  pub namespace : String
  pub overrides : List ComponentOverride

-- `Namespace`.
pub record Namespace : Type 0 where
  pub name : String
  pub labels : List (String × String)
  pub annotations : List (String × String)

-- The API server. A write returns whether it succeeded.
pub record ConfigApi : Type 1 where
  pub Cluster : Type 0
  pub get_config : (name : String) → Cluster → Got Config
  pub update_config : Config → Cluster → Bool × Cluster
  pub get : (k : Kind) → (namespace name : String) → Cluster → Got (Object k)
  pub create : (k : Kind) → Object k → Cluster → Bool × Cluster
  pub update : (k : Kind) → Object k → Cluster → Bool × Cluster
  pub get_namespace : (name : String) → Cluster → Got Namespace
  pub update_namespace : Namespace → Cluster → Bool × Cluster

-- The scheme, controllerutil, the manifests and the environment: the group and kind of an object, the
-- group of an apiVersion, the owner references that SetControllerReference leaves, a file read and
-- decoded, and BPFMAN_IMAGE_PULL_POLICY.
pub record ConfigLib : Type 0 where
  pub object_kinds : Kind → Option (String × String)
  pub parse_group_version : String → Option String
  pub set_controller_reference : Config → ObjectMeta → Option (List OwnerReference)
  pub contains_finalizer : List String → String → Bool
  pub add_finalizer : List String → String → List String
  pub remove_finalizer : List String → String → List String
  pub decode : (k : Kind) → (path : String) → Option (Object k)
  pub image_pull_policy : String

abbrev pub config_finalizer : String
config_finalizer = "bpfman.io/config-finalizer"

module _ (lib : ConfigLib) where
  abbrev pub has_group : String → Option String → Bool
  has_group group none = false
  has_group group (some g) = g == group

  -- Whether the override is of the object, by group, kind, namespace and name.
  abbrev pub is_override_of : String × String → ObjectMeta → ComponentOverride → Bool
  is_override_of (group, kind) meta o =
      o.unmanaged
      && (has_group group (lib.parse_group_version o.api_version)
          && (o.kind == kind && (o.namespace == meta.namespace && o.name == meta.name)))

  abbrev pub is_overridden_as :
      ObjectMeta → List ComponentOverride → Option (String × String) → Bool
  is_overridden_as meta overrides none = false
  is_overridden_as meta overrides (some gk) = any (is_override_of gk meta) overrides

  -- isOverridden
  unfoldable pub is_overridden : Kind → ObjectMeta → List ComponentOverride → Bool
  is_overridden k meta overrides = is_overridden_as meta overrides (lib.object_kinds k)

  abbrev pub named : {k : Kind} → String → Option (Object k) → Option (Object k)
  named name none = none
  named name (some r) = some (record r { metadata = record r.metadata { name = name } })

  -- load
  unfoldable pub load : (k : Kind) → (path name : String) → Option (Object k)
  load k path name = named name (lib.decode k path)

  module _ (api : ConfigApi) (config : Config) where
    open api use {Cluster}

    abbrev pub update_if : (k : Kind) → Bool → Object k → Object k → Cluster → Bool × Cluster
    update_if k true existing desired c =
        api.update k
          (record desired {
            metadata = record desired.metadata {
              resource_version = existing.metadata.resource_version;
            };
          })
          c
    update_if k false existing desired c = (true, c)

    abbrev pub owners_differ : {k : Kind} → Object k → Object k → Bool
    owners_differ existing desired =
        not (existing.metadata.owner_references == desired.metadata.owner_references)

    abbrev pub compared : (k : Kind) → Object k → Bool × Object k → Cluster → Bool × Cluster
    compared k existing (changed, desired) c =
        update_if k (changed || owners_differ existing desired) existing desired c

    abbrev pub assured :
        (k : Kind)
        → (Object k → Object k → Bool × Object k)
        → Got (Object k)
        → Object k
        → Cluster
        → Bool × Cluster
    assured k needs_update (found existing) desired c =
        compared k existing (needs_update existing desired) c
    assured k needs_update not_found desired c = api.create k desired c
    assured k needs_update failed desired c = (false, c)

    abbrev pub owned :
        (k : Kind)
        → (Object k → Object k → Bool × Object k)
        → Option (List OwnerReference)
        → Object k
        → Cluster
        → Bool × Cluster
    owned k needs_update none desired c = (false, c)
    owned k needs_update (some owners) desired c =
        assured k needs_update (api.get k desired.metadata.namespace desired.metadata.name c)
          (record desired { metadata = record desired.metadata { owner_references = owners } }) c

    abbrev pub owned_unless :
        (k : Kind)
        → Bool
        → (Object k → Object k → Bool × Object k)
        → Object k
        → Cluster
        → Bool × Cluster
    owned_unless k true needs_update desired c = (true, c)
    owned_unless k false needs_update desired c =
        owned k needs_update (lib.set_controller_reference config desired.metadata) desired c

    -- assureResource: whether there was no error. `needs_update` compares the existing object with the
    -- desired one, and gives the desired one as it leaves it.
    unfoldable pub assure_resource :
        (k : Kind) → (Object k → Object k → Bool × Object k) → Object k → Cluster → Bool × Cluster
    unfolding is_overridden
    assure_resource k needs_update desired c =
        owned_unless k (is_overridden k desired.metadata config.overrides) needs_update desired c

    -- assureResource of a manifest, unless it cannot be read.
    abbrev pub assure_loaded :
        (k : Kind)
        → (Object k → Object k → Bool × Object k)
        → Option (Object k)
        → Cluster
        → Bool × Cluster
    assure_loaded k needs_update none c = (false, c)
    assure_loaded k needs_update (some desired) c = assure_resource k needs_update desired c

    -- `if err := step; err != nil { return err }`
    abbrev pub and_then : Bool × Cluster → (Cluster → Bool × Cluster) → Bool × Cluster
    and_then (true, c) rest = rest c
    and_then (false, c) rest = (false, c)

    -- handleDeletion
    unfoldable pub handle_deletion : Cluster → Bool × Cluster
    handle_deletion c =
        api.update_config
          (record config { finalizers = lib.remove_finalizer config.finalizers config_finalizer }) c

    -- The update that adds the finalizer.
    abbrev pub add_config_finalizer : Cluster → Bool × Cluster
    add_config_finalizer c =
        api.update_config
          (record config { finalizers = lib.add_finalizer config.finalizers config_finalizer }) c
