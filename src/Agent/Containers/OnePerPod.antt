-- ===== src/Agent/Containers/OnePerPod.antt =====
-- What GetOneContainerPerPod keeps.
use bpfman_operator.Shared.{
  String, Option, none, some, List, [], ◌∷◌, contains, string_eq, ◌==◌, if◌then◌else◌, ◌≡◌, ap,
  arith, Bool-cases, inl, inr, beq→eq, beq_refl,
}
use bpfman_operator.Agent.Containers.{ContainerInfo, one_per_pod, get_one_container_per_pod}

-- The first container of a pod.
abbrev pub first_of_pod : String → List ContainerInfo → Option ContainerInfo
first_of_pod pod [] = none
first_of_pod pod (c ∷ cs) =
    let rest = first_of_pod pod cs in if c.pod_name == pod then some c else rest

-- No pod has two containers.
abbrev pub HaveDistinctPods : List ContainerInfo → Type 0
HaveDistinctPods [] = Unit
HaveDistinctPods (c ∷ cs) = (first_of_pod c.pod_name cs ≡ none) × HaveDistinctPods cs

first-one_per_pod :
    (seen : List String) (cs : List ContainerInfo) (pod : String)
    → first_of_pod pod (one_per_pod seen cs)
      ≡ (if contains pod seen then none else first_of_pod pod cs)
unfolding one_per_pod
first-one_per_pod seen [] pod = ground arith
first-one_per_pod seen (c ∷ cs) pod =
    let skip = first-one_per_pod seen cs pod in
    let take = first-one_per_pod (c.pod_name ∷ seen) cs pod in
    elim (Bool-cases (c.pod_name == pod)) [
      | inl e ↦
          let p = beq→eq c.pod_name pod e in ground (arith, skip, ap (λ k. contains k seen) p, e)
      | inr e ↦ ground (arith, skip, take)
    ]

distinct-one_per_pod :
    (seen : List String) (cs : List ContainerInfo) → HaveDistinctPods (one_per_pod seen cs)
unfolding one_per_pod
distinct-one_per_pod seen [] = tt
distinct-one_per_pod seen (c ∷ cs) = elim (Bool-cases (contains c.pod_name seen)) [
  | inl e ↦ rw e (distinct-one_per_pod seen cs)
  | inr e ↦
      let again = first-one_per_pod (c.pod_name ∷ seen) cs c.pod_name in
      rw e (ground (arith, again, beq_refl c.pod_name), distinct-one_per_pod (c.pod_name ∷ seen) cs)
]

-- Of every pod exactly its first container is kept, and no pod has two.
pub one_container_per_pod :
    (cs : List ContainerInfo)
    → ((pod : String) → first_of_pod pod (get_one_container_per_pod cs) ≡ first_of_pod pod cs)
      × HaveDistinctPods (get_one_container_per_pod cs)
unfolding get_one_container_per_pod
one_container_per_pod cs = (first-one_per_pod [] cs, distinct-one_per_pod [] cs)
