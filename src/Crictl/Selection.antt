-- ===== src/Crictl/Selection.antt =====
-- The selections that the runtime's client makes, one after the other, as one selection.
use bpfman_operator.Shared.{
  Bool, true, not, ◌&&◌, String, some, List, [], ◌∷◌, ◌==◌, string_eq, contains, keep, ◌≡◌, ap, sym,
  refl, ◌∙◌, Bool-cases, inl, inr,
}
use bpfman_operator.Crictl.{
  PodInfo, ContainerInfo, filter_containers_by_names, find_pod_by_name_with_namespace,
}

-- Whether a container's name is asked for: no names ask for all.
abbrev pub is_wanted : List String → String → Bool
is_wanted [] container_name = true
is_wanted (name ∷ names) container_name = contains container_name (name ∷ names)

-- Whether a container is of the pod and asked for.
abbrev pub is_selected : PodInfo → List String → ContainerInfo → Bool
is_selected pod names c = c.pod_id == pod.id && is_wanted names c.metadata.name

pub filtered-keep :
    (pod : PodInfo) (names : List String) (cs : List ContainerInfo)
    → filter_containers_by_names (keep (λ (c : ContainerInfo). c.pod_id == pod.id) cs) names
      ≡ keep (is_selected pod names) cs
unfolding filter_containers_by_names
filtered-keep pod [] [] = refl
filtered-keep pod (name ∷ names) [] = refl
filtered-keep pod [] (c ∷ cs) =
    let rest = filtered-keep pod [] cs in
    elim (Bool-cases (c.pod_id == pod.id)) [
      | inl e ↦ rw e (ap (λ (found : List ContainerInfo). c ∷ found) rest)
      | inr e ↦ rw e rest
    ]
filtered-keep pod (name ∷ names) (c ∷ cs) =
    let rest = filtered-keep pod (name ∷ names) cs in
    elim (Bool-cases (c.pod_id == pod.id)) [
      | inl e ↦ elim (Bool-cases (contains c.metadata.name (name ∷ names))) [
        | inl w ↦ rw e (rw w (ap (λ (found : List ContainerInfo). c ∷ found) rest))
        | inr w ↦ rw e (rw w rest)
      ]
      | inr e ↦ rw e rest
    ]

pub find_pod_name :
    (pods : List PodInfo) (name : String) (pod : PodInfo)
    → find_pod_by_name_with_namespace pods name ≡ some pod
    → name ≡ pod.metadata.name
unfolding find_pod_by_name_with_namespace
find_pod_name [] name pod h = cc
find_pod_name (p ∷ pods) name pod h = elim (Bool-cases (p.metadata.name == name)) [
  | inl e ↦
      let same : some p ≡ some pod = rw e at h in
      let same' : p ≡ pod = cc in
      sym ((string_eq.beq_iff p.metadata.name name).0 e)
      ∙ ap (λ (q : PodInfo). q.metadata.name) same'
  | inr e ↦ find_pod_name pods name pod (rw e at h)
]

-- The filter of listPods.
abbrev pub is_listed : String → PodInfo → Bool
is_listed name pod = not (not (name == "") && not (pod.metadata.name == name))

pub find_pod-keep :
    (pods : List PodInfo) (name : String)
    → find_pod_by_name_with_namespace (keep (is_listed name) pods) name
      ≡ find_pod_by_name_with_namespace pods name
unfolding find_pod_by_name_with_namespace
find_pod-keep [] name = refl
find_pod-keep (p ∷ pods) name =
    let rest = find_pod-keep pods name in
    elim (Bool-cases (p.metadata.name == name)) [
      | inl e ↦ elim (Bool-cases (name == "")) [
        | inl w ↦ rw e (rw w (rw e refl))
        | inr w ↦ rw e (rw w (rw e refl))
      ]
      | inr e ↦ elim (Bool-cases (name == "")) [
        | inl w ↦ rw e (rw w (rw e rest))
        | inr w ↦ rw e (rw w rest)
      ]
    ]
