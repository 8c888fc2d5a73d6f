-- ===== src/Operator/Config/Writes.antt =====
-- What Reconcile of the Config writes: controllers/bpfman-operator/config.go over an API server that keeps
-- a log of its writes.
use bpfman_operator.Shared.{
  Bool, true, false, Option, none, some, List, ◌∷◌, ◌≡◌, ap, ◌∙◌, All, Bool-cases, inl, inr,
}
use bpfman_operator.Operator.Objects.{Kind, ObjectMeta, OwnerReference, Object}
use bpfman_operator.Operator.Config.{
  Config, Got, found, not_found, failed, ConfigApi, ConfigLib, is_overridden, assure_resource,
  update_if, assured, owned,
}

pub data Write : Type 0 where
  wrote : (k : Kind) → (metadata : ObjectMeta) → Write
  wrote_config : Write
  wrote_namespace : Write

-- The API server, with every attempt of a write in a log.
abbrev pub logged : ConfigApi → ConfigApi
logged api = record {
  Cluster = api.Cluster × List Write;
  get_config = λ name s. api.get_config name s.0;
  update_config =
      λ config s. let (done, c) = api.update_config config s.0 in (done, (c, wrote_config ∷ s.1));
  get = λ k namespace name s. api.get k namespace name s.0;
  create = λ k object s.
      let (done, c) = api.create k object s.0 in (done, (c, wrote k object.metadata ∷ s.1));
  update = λ k object s.
      let (done, c) = api.update k object s.0 in (done, (c, wrote k object.metadata ∷ s.1));
  get_namespace = λ name s. api.get_namespace name s.0;
  update_namespace =
      λ ns s. let (done, c) = api.update_namespace ns s.0 in (done, (c, wrote_namespace ∷ s.1));
}

module _ (lib : ConfigLib) (api : ConfigApi) (config : Config) where
  -- A write of a reconciliation that is neither of the Config nor of an object with an override.
  abbrev pub IsManaged : Write → Type 0
  IsManaged (wrote k metadata) = is_overridden lib k metadata config.overrides ≡ false
  IsManaged wrote_config = ⊥
  IsManaged wrote_namespace = Unit

  abbrev pub State : Type 0
  State = api.Cluster × List Write

  abbrev pub AreManaged : Bool × State → Type 0
  AreManaged r = All IsManaged r.1.1

  abbrev pub Step : Type 0
  Step = State → Bool × State

  abbrev pub Keeps : Step → Type 0
  Keeps step = (s : State) → All IsManaged s.1 → AreManaged (step s)

  abbrev pub KeepsMetadata : {k : Kind} → (Object k → Object k → Bool × Object k) → Type 0
  KeepsMetadata {k} needs_update =
      (existing desired : Object k) → (needs_update existing desired).1.metadata ≡ desired.metadata

  update_if-AreManaged :
      (k : Kind) (changed : Bool) (existing desired : Object k) (s : State)
      → is_overridden lib k desired.metadata config.overrides ≡ false
      → All IsManaged s.1
      → AreManaged (update_if lib (logged api) config k changed existing desired s)
  unfolding is_overridden
  update_if-AreManaged k true existing desired s free h = (free, h)
  update_if-AreManaged k false existing desired s free h = h

  assured-AreManaged :
      (k : Kind) (needs_update : Object k → Object k → Bool × Object k) (got : Got (Object k))
      (desired : Object k) (s : State)
      → KeepsMetadata needs_update
      → is_overridden lib k desired.metadata config.overrides ≡ false
      → All IsManaged s.1
      → AreManaged (assured lib (logged api) config k needs_update got desired s)
  unfolding is_overridden
  assured-AreManaged k needs_update (found existing) desired s keeps free h =
      update_if-AreManaged k _ existing (needs_update existing desired).1 s
        (ap (λ m. is_overridden lib k m config.overrides) (keeps existing desired) ∙ free) h
  assured-AreManaged k needs_update not_found desired s keeps free h = (free, h)
  assured-AreManaged k needs_update failed desired s keeps free h = h

  owned-AreManaged :
      (k : Kind) (needs_update : Object k → Object k → Bool × Object k)
      (owners : Option (List OwnerReference)) (desired : Object k) (s : State)
      → KeepsMetadata needs_update
      → is_overridden lib k desired.metadata config.overrides ≡ false
      → All IsManaged s.1
      → AreManaged (owned lib (logged api) config k needs_update owners desired s)
  unfolding is_overridden
  owned-AreManaged k needs_update none desired s keeps free h = h
  owned-AreManaged k needs_update (some owners) desired s keeps free h =
      assured-AreManaged k needs_update _
        (record desired { metadata = record desired.metadata { owner_references = owners } }) s
        keeps free h

  -- assureResource leaves an object with an override alone.
  pub assure_resource-Keeps :
      (k : Kind) (needs_update : Object k → Object k → Bool × Object k) (desired : Object k)
      → KeepsMetadata needs_update
      → Keeps (assure_resource lib (logged api) config k needs_update desired)
  unfolding assure_resource
  assure_resource-Keeps k needs_update desired keeps s h =
      elim (Bool-cases (is_overridden lib k desired.metadata config.overrides)) [
        | inl overridden ↦ rw (overridden) h
        | inr free ↦ rw (free) (owned-AreManaged k needs_update _ desired s keeps free h)
      ]
