-- ===== src/Operator/Config/DaemonSets/Policies.antt =====
-- What copyImagePullPolicy of controllers/bpfman-operator/config.go makes of the image pull policies that an
-- API server fills in where a manifest sets none.
use bpfman_operator.Shared.{
  String, List, [], ◌∷◌, ◌==◌, string_eq, if◌then◌else◌, ◌≡◌, refl, sym, ap, ap₂, ◌∙◌, Bool-cases,
  inl, inr,
}
use bpfman_operator.Operator.Objects.{Container, PodSpec}
use bpfman_operator.Operator.Config.DaemonSets.{
  with_policy_of, copy_policies, copy_image_pull_policy,
}

abbrev fill : String → Container → Container
fill policy c = if c.image_pull_policy == "" then record c { image_pull_policy = policy } else c

-- The containers, each with some policy where it has none.
abbrev pub AreFilled : List Container → List Container → Type 0
AreFilled [] [] = Unit
AreFilled [] (d ∷ ds) = ⊥
AreFilled (c ∷ cs) [] = ⊥
AreFilled (c ∷ cs) (d ∷ ds) = ((policy : String) × (d ≡ fill policy c)) × AreFilled cs ds

-- The pod, but for the policies of its containers.
abbrev pub IsFilledPod : PodSpec → PodSpec → Type 0
IsFilledPod p q =
    (q ≡ record p { init_containers = q.init_containers; containers = q.containers })
    × AreFilled p.init_containers q.init_containers
    × AreFilled p.containers q.containers

fill-with_policy_of :
    (c d : Container) (policy : String) → d ≡ fill policy c → with_policy_of d c ≡ d
fill-with_policy_of c d policy h = elim (Bool-cases (c.image_pull_policy == "")) [
  | inl unset ↦
      let filled : d ≡ record c { image_pull_policy = policy } = rw unset at h in
      rw unset (
        ap (λ (x : Container). record c { image_pull_policy = x.image_pull_policy }) filled
        ∙ sym filled)
  | inr set ↦ (let kept : d ≡ c = rw set at h in rw set (sym kept))
]

fill_trans :
    (c d e : Container) (p q : String) → d ≡ fill p c → e ≡ fill q d → (r : String) × (e ≡ fill r c)
fill_trans c d e p q h k =
    let both : e ≡ fill q (fill p c) = k ∙ ap (fill q) h in
    elim (Bool-cases (c.image_pull_policy == "")) [
      | inl unset ↦ elim (Bool-cases (p == "")) [
        | inl empty ↦ (q, (let e' = rw (unset, empty) at both in rw unset e'))
        | inr given ↦ (p, (let e' = rw (unset, given) at both in rw unset e'))
      ]
      | inr set ↦ let kept : fill p c ≡ c = rw set refl in (q, both ∙ ap (fill q) kept)
    ]

fill_self : (c : Container) → c ≡ fill c.image_pull_policy c
fill_self c = elim (Bool-cases (c.image_pull_policy == "")) [
  | inl unset ↦ rw unset refl
  | inr set ↦ rw set refl
]

AreFilled-self : (cs : List Container) → AreFilled cs cs
AreFilled-self [] = tt
AreFilled-self (c ∷ cs) = ((c.image_pull_policy, fill_self c), AreFilled-self cs)

AreFilled-copy : (src dst : List Container) → AreFilled dst (copy_policies src dst)
AreFilled-copy src [] = tt
AreFilled-copy [] (d ∷ dst) = AreFilled-self (d ∷ dst)
AreFilled-copy (s ∷ src) (d ∷ dst) = ((s.image_pull_policy, refl), AreFilled-copy src dst)

AreFilled-trans : (xs ys zs : List Container) → AreFilled xs ys → AreFilled ys zs → AreFilled xs zs
AreFilled-trans [] [] [] h k = tt
AreFilled-trans [] [] (z ∷ zs) h k = k
AreFilled-trans [] (y ∷ ys) zs h k = absurd h
AreFilled-trans (x ∷ xs) [] zs h k = absurd h
AreFilled-trans (x ∷ xs) (y ∷ ys) [] h k = k
AreFilled-trans (x ∷ xs) (y ∷ ys) (z ∷ zs) ((p, h), hs) ((q, k), ks) =
    (fill_trans x y z p q h k, AreFilled-trans xs ys zs hs ks)

copy_policies-filled : (src dst : List Container) → AreFilled dst src → copy_policies src dst ≡ src
copy_policies-filled [] [] h = refl
copy_policies-filled (s ∷ src) [] h = absurd h
copy_policies-filled [] (d ∷ dst) h = absurd h
copy_policies-filled (s ∷ src) (d ∷ dst) ((policy, h), hs) =
    ap₂ (λ x xs. x ∷ xs) (fill-with_policy_of d s policy h) (copy_policies-filled src dst hs)

pub IsFilledPod-copy : (src dst : PodSpec) → IsFilledPod dst (copy_image_pull_policy src dst)
unfolding copy_image_pull_policy
IsFilledPod-copy src dst = (
  refl,
  AreFilled-copy src.init_containers dst.init_containers,
  AreFilled-copy src.containers dst.containers,
)

-- From a pod with filled policies, the copied policies are those.
pub copy_image_pull_policy-filled :
    (src dst : PodSpec) → IsFilledPod dst src → copy_image_pull_policy src dst ≡ src
unfolding copy_image_pull_policy
copy_image_pull_policy-filled src dst (same, inits, containers) =
    ap₂ (λ i c. record dst { init_containers = i; containers = c })
      (copy_policies-filled src.init_containers dst.init_containers inits)
      (copy_policies-filled src.containers dst.containers containers)
    ∙ sym same

pub IsFilledPod-trans :
    (src dst q : PodSpec) → IsFilledPod (copy_image_pull_policy src dst) q → IsFilledPod dst q
unfolding copy_image_pull_policy
IsFilledPod-trans src dst q (same, inits, containers) = (
  same,
  AreFilled-trans dst.init_containers (copy_policies src.init_containers dst.init_containers)
      q.init_containers (AreFilled-copy src.init_containers dst.init_containers) inits,
  AreFilled-trans dst.containers (copy_policies src.containers dst.containers) q.containers
      (AreFilled-copy src.containers dst.containers) containers,
)
