-- ===== src/Operator/Config/Twice.antt =====
-- assureResource of controllers/bpfman-operator/config.go leaves nothing to do for the next time.
use bpfman_operator.Shared.{
  Bool, true, false, not, ◌||◌, String, Option, none, some, List, string_eq, list_eq, ◌≡◌, refl, ap,
  ap₂, sym, ◌∙◌, subst, Bool-cases, inl, inr,
}
use bpfman_operator.Operator.Config.DaemonSets.Policies.{IsFilledPod}
use bpfman_operator.Operator.Objects.{
  Body, config_map, csi_driver, security_context_constraints, daemon_set, service, service_monitor,
  cluster_role_binding, cluster_role, role, role_binding, Kind, ObjectMeta, OwnerReference,
  owner_reference_eq, Object,
}
use bpfman_operator.Operator.Config.{
  Config, Got, found, not_found, failed, ConfigApi, ConfigLib, assure_resource, update_if,
  owners_differ, assured, owned, owned_unless,
}

-- What the API server makes of an object's body: it fills in the image pull policies that a DaemonSet leaves
-- open.
abbrev IsFilled : (k : Kind) → Body k → Body k → Type 0
IsFilled daemon_set a b = (b ≡ record a { pod = b.pod }) × IsFilledPod a.pod b.pod
IsFilled config_map a b = b ≡ a
IsFilled csi_driver a b = b ≡ a
IsFilled security_context_constraints a b = b ≡ a
IsFilled service a b = b ≡ a
IsFilled service_monitor a b = b ≡ a
IsFilled cluster_role_binding a b = b ≡ a
IsFilled cluster_role a b = b ≡ a
IsFilled role a b = b ≡ a
IsFilled role_binding a b = b ≡ a

-- The second object is the first as the API server has it, with the version that it gave it.
abbrev pub IsStored : {k : Kind} → Object k → Object k → Type 0
IsStored {k} o o' =
    (version : String) × (o'.metadata ≡ record o.metadata { resource_version = version })
    × IsFilled k o.body o'.body

abbrev pub IsKeptAs : (api : ConfigApi) (k : Kind) → Object k → api.Cluster → Type 0
IsKeptAs api k o c =
    (o' : Object k) × IsStored o o' × (api.get k o.metadata.namespace o.metadata.name c ≡ found o')

-- An API server that keeps what is written as it is, but for the version and the image pull policies that
-- it fills in.
pub record IsStoring (api : ConfigApi) : Type 0 where
  pub get-create :
      (k : Kind) (o : Object k) (c c' : api.Cluster)
      → api.create k o c ≡ (true, c')
      → IsKeptAs api k o c'
  pub get-update :
      (k : Kind) (o : Object k) (c c' : api.Cluster)
      → api.update k o c ≡ (true, c')
      → IsKeptAs api k o c'

-- A comparison that keeps the metadata of the desired object, and finds no difference from what was
-- written for the same desired object.
pub record Settles (k : Kind) (needs_update : Object k → Object k → Bool × Object k)
    (desired : Object k) : Type 0 where
  pub keeps_metadata :
      (existing : Object k) → (needs_update existing desired).1.metadata ≡ desired.metadata
  pub created : (o : Object k) → IsStored desired o → (needs_update o desired).0 ≡ false
  pub updated :
      (existing o : Object k)
      → IsStored (needs_update existing desired).1 o
      → (needs_update o desired).0 ≡ false

-- The desired object with the owner references that it is given.
abbrev pub with_owners : {k : Kind} → Object k → List OwnerReference → Object k
with_owners o owners = record o { metadata = record o.metadata { owner_references = owners } }

module _ (lib : ConfigLib) (api : ConfigApi) (config : Config) where
  module _ (k : Kind) (needs_update : Object k → Object k → Bool × Object k) where
    abbrev outcome : Got (Object k) → Object k → api.Cluster → Bool × api.Cluster
    outcome got desired c = assured lib api config k needs_update got desired c

    abbrev read : Object k → api.Cluster → Got (Object k)
    read desired c = api.get k desired.metadata.namespace desired.metadata.name c

    -- An object that settles is not written.
    settled-outcome :
        (desired existing : Object k) (c : api.Cluster)
        → (needs_update existing desired).1.metadata ≡ desired.metadata
        → (needs_update existing desired).0 ≡ false
        → existing.metadata.owner_references ≡ desired.metadata.owner_references
        → outcome (found existing) desired c ≡ (true, c)
    settled-outcome desired existing c keeps same owners =
        let left = needs_update existing desired in
        let same_owners =
          (list_eq.beq_iff existing.metadata.owner_references left.1.metadata.owner_references).1
            (owners ∙ sym (ap (λ (m : ObjectMeta). m.owner_references) keeps)) in
        ap (λ b. update_if lib api config k b existing left.1 c)
          (ap₂ (λ a b. a || not b) same same_owners)

    again-outcome :
        IsStoring api
        → (desired : Object k) (c c' : api.Cluster) (got : Got (Object k))
        → Settles k needs_update desired
        → read desired c ≡ got
        → outcome got desired c ≡ (true, c')
        → outcome (read desired c') desired c' ≡ (true, c')
    again-outcome storing desired c c' failed settles e h =
        (let no : false ≡ true = ap (λ t. t.0) h in cc)
    again-outcome storing desired c c' not_found settles e h =
        let (o, is_stored, kept) = storing.get-create k desired c c' h in
        ap (λ got. outcome got desired c') kept
        ∙ settled-outcome desired o c' (settles.keeps_metadata o) (settles.created o is_stored)
            (ap (λ (m : ObjectMeta). m.owner_references) is_stored.1)
    again-outcome storing desired c c' (found existing) settles e h =
        let left = needs_update existing desired in
        let keeps = settles.keeps_metadata existing in
        elim (Bool-cases (left.0 || owners_differ lib api config existing left.1)) [
          | inl write ↦
              let written =
                sym (ap (λ b. update_if lib api config k b existing left.1 c) write) ∙ h in
              let (o, is_stored, kept) = storing.get-update k _ c c' written in
              let seen : read desired c' ≡ found o =
                ap (λ (m : ObjectMeta). api.get k m.namespace m.name c') (sym keeps) ∙ kept in
              ap (λ got. outcome got desired c') seen
              ∙ settled-outcome desired o c' (settles.keeps_metadata o)
                  (settles.updated existing o is_stored)
                  (ap (λ (m : ObjectMeta). m.owner_references) is_stored.1
                    ∙ ap (λ (m : ObjectMeta). m.owner_references) keeps)
          | inr idle ↦
              let unwritten = ap (λ b. update_if lib api config k b existing left.1 c) idle in
              let same_cluster : c ≡ c' = ap (λ t. t.1) (sym unwritten ∙ h) in
              subst (λ x. outcome (read desired x) desired x ≡ (true, x)) same_cluster
                (ap (λ got. outcome got desired c) e ∙ unwritten)
        ]

    again-owned :
        IsStoring api
        → (desired : Object k) (c c' : api.Cluster) (owners : Option (List OwnerReference))
        → ((given : List OwnerReference) → Settles k needs_update (with_owners desired given))
        → owned lib api config k needs_update owners desired c ≡ (true, c')
        → owned lib api config k needs_update owners desired c' ≡ (true, c')
    again-owned storing desired c c' none settles h =
        (let no : false ≡ true = ap (λ t. t.0) h in cc)
    again-owned storing desired c c' (some owners) settles h =
        again-outcome storing (with_owners desired owners) c c' _ (settles owners) refl h

    again-owned_unless :
        IsStoring api
        → (desired : Object k) (c c' : api.Cluster) (overridden : Bool)
        → ((given : List OwnerReference) → Settles k needs_update (with_owners desired given))
        → owned_unless lib api config k overridden needs_update desired c ≡ (true, c')
        → owned_unless lib api config k overridden needs_update desired c' ≡ (true, c')
    again-owned_unless storing desired c c' true settles h = refl
    again-owned_unless storing desired c c' false settles h =
        again-owned storing desired c c' _ settles h

    -- With an API server that keeps what is written, but for what it fills in, and a comparison that settles, assureResource after an
    -- assureResource that succeeded succeeds and writes nothing.
    pub assure_resource-again :
        IsStoring api
        → (desired : Object k) (c c' : api.Cluster)
        → ((given : List OwnerReference) → Settles k needs_update (with_owners desired given))
        → assure_resource lib api config k needs_update desired c ≡ (true, c')
        → assure_resource lib api config k needs_update desired c' ≡ (true, c')
    unfolding assure_resource
    assure_resource-again storing desired c c' settles h =
        again-owned_unless storing desired c c' _ settles h
