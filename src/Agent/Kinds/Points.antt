-- ===== src/Agent/Kinds/Points.antt =====
-- The attach points of an entry, by the fields of its selectors: getInterfaces of
-- controllers/bpfman-agent/common.go, and the loops over containers and interfaces in getExpectedLinks of
-- the cluster-scoped `*_program.go`.
use bpfman_operator.Shared.{
  Bool, true, false, ◌==◌, ℕ, zero, suc, String, Option, none, some, List, [], ◌∷◌, ◌++◌, map, ◌≡◌,
  ◌≢◌, ◌⊎◌, inl, inr, refl, sym, ap, subst, ◌∙◌, arith, All, get_elem?, length, ltb, string_eq,
  int_eq, list_eq, option_eq, nat_eq, Bool-cases, Option-cases,
}
use bpfman_operator.Api.Links.{link_status_eq}
use bpfman_operator.Agent.Bpfman.{Result, ok}
use bpfman_operator.Agent.Interfaces.{
  InterfaceDiscovery, InterfaceSelector, get_interfaces, is_discovery_enabled,
}
use bpfman_operator.Agent.Containers.{ContainerInfo, netns_path_from_pid, get_one_container_per_pod}
use bpfman_operator.Agent.Containers.OnePerPod.{first_of_pod, one_container_per_pod}
use bpfman_operator.Agent.Kinds.{
  AgentEnv, AttachPoint, ClNetworkNamespaceSelector, cl_attach_points, points_of_containers,
  selected_points, container_points,
}

module _ {ℓ κ} {A : Type ℓ} (Holds : A → Type κ) where
  pub All-at : (xs : List A) (i : ℕ) (x : A) → All Holds xs → get_elem? xs i ≡ some x → Holds x
  All-at [] i x h e = cc
  All-at (y ∷ xs) zero x h e = (let same : y ≡ x = cc in subst Holds same h.0)
  All-at (y ∷ xs) (suc i) x h e = All-at xs i x h.1 e

  pub All-front : (xs ys : List A) → All Holds (xs ++ ys) → All Holds xs × All Holds ys
  All-front [] ys h = (tt, h)
  All-front (x ∷ xs) ys h = let (a, b) = All-front xs ys h.1 in ((h.0, a), b)

  pub All-unmap {μ} :
      {B : Type μ} (f : B → A) (xs : List B) → All Holds (map f xs) → All (λ x. Holds (f x)) xs
  All-unmap f [] h = tt
  All-unmap f (x ∷ xs) h = (h.0, All-unmap f xs h.1)

-- A selector without discovery names the interface: its list has it, or the list is empty and it is the
-- node's primary interface, which the selector asks for.
abbrev pub IsNamed : AgentEnv → InterfaceSelector → String → Type 0
IsNamed env selector iface =
    ((i : ℕ) × (get_elem? selector.interfaces i ≡ some iface))
    ⊎ ((selector.interfaces ≡ [])
        × ((wanted : Bool) × (selector.primary_node_interface ≡ some wanted))
        × (env.primary_interface ≡ ok iface))

abbrev pub IsUndiscovered : Option InterfaceDiscovery → Type 0
IsUndiscovered none = Unit
IsUndiscovered (some config) = config.interface_auto_discovery ≢ some true

-- The path of the host's network namespace, or, where the entry selects pods, that of the first container
-- of one of them.
abbrev pub IsNetNs : AgentEnv → Option ClNetworkNamespaceSelector → String → Type 0
IsNetNs env none path = path ≡ ""
IsNetNs env (some s) path =
    (cs : List ContainerInfo) × (c : ContainerInfo) × (env.get_containers s.namespace s.pods none
      ≡ ok (some cs))
    × (first_of_pod c.pod_name cs ≡ some c)
    × (path ≡ netns_path_from_pid c.pid)

first-All :
    (Holds : ContainerInfo → Type 0) (pod : String) (cs : List ContainerInfo) (c : ContainerInfo)
    → All Holds cs
    → first_of_pod pod cs ≡ some c
    → Holds c
first-All Holds pod [] c h e = cc
first-All Holds pod (x ∷ cs) c h e = elim (Bool-cases (x.pod_name == pod)) [
  | inl here ↦
      (let same : some x ≡ some c = rw (here, first_of_pod) at e in
        let same' : x ≡ c = cc in subst Holds same' h.0)
  | inr there ↦
      (let e' : first_of_pod pod cs ≡ some c = rw (there, first_of_pod) at e in
        first-All Holds pod cs c h.1 e')
]

module _ (env : AgentEnv) where
  undiscovered :
      (config : Option InterfaceDiscovery)
      → IsUndiscovered config
      → is_discovery_enabled config ≡ false
  unfolding is_discovery_enabled
  undiscovered none h = refl
  undiscovered (some config) h = elim (Option-cases config.interface_auto_discovery) [
    | inl e ↦ rw (e, is_discovery_enabled) refl
    | inr (b, e) ↦ elim (Bool-cases b) [
      | inl k ↦ absurd (h (e ∙ ap some k))
      | inr k ↦ rw (e, is_discovery_enabled) k
    ]
  ]

  at-long :
      (names : List String) (i : ℕ) (name : String)
      → get_elem? names i ≡ some name
      → ltb 0 (length names) ≡ true
  at-long [] i name e = cc
  at-long (n ∷ names) i name e = ground arith

  names-at :
      (selector : InterfaceSelector) (iface : String)
      → IsNamed env selector iface
      → (names : List String) × (get_interfaces env.primary_interface selector ≡ ok names)
        × ((i : ℕ) × (get_elem? names i ≡ some iface))
  unfolding get_interfaces
  names-at selector iface (inl (i, there)) =
      let long = at-long selector.interfaces i iface there in
      (selector.interfaces, rw (long, get_interfaces) refl, (i, there))
  names-at selector iface (inr (empty, (wanted, primary), known)) =
      (iface ∷ [], rw (empty, primary, known, get_interfaces) refl, (0, refl))

  -- The attach points of the containers, by interface and container.
  points-All :
      (Holds : AttachPoint → Type 0) (names : List String) (cs : List ContainerInfo)
      → All Holds (points_of_containers names cs)
      → All (λ (c : ContainerInfo). All (λ i. Holds (i, netns_path_from_pid c.pid)) names) cs
  unfolding points_of_containers
  points-All Holds names [] h = tt
  points-All Holds names (c ∷ cs) h =
      let (here, later) = All-front Holds _ (points_of_containers names cs) h in
      (
        All-unmap Holds (λ i. (i, netns_path_from_pid c.pid)) names here,
        points-All Holds names cs later,
      )

  -- The attach points of an entry, of which the named interface in the network namespace is one.
  abbrev pub HasPoint : Result (List AttachPoint) → AttachPoint → Type 1
  HasPoint r point =
      (points : List AttachPoint) × (r ≡ ok points)
      × ((Holds : AttachPoint → Type 0) → All Holds points → Holds point)

  selected-point :
      (namespaces : Option ClNetworkNamespaceSelector) (names : List String) (i : ℕ)
      (iface path : String)
      → get_elem? names i ≡ some iface
      → IsNetNs env namespaces path
      → HasPoint (selected_points env namespaces (ok names)) (iface, path)
  selected-point none names i iface path there host = (
    map (λ n. (n, "")) names,
    refl,
    λ Holds h.
        subst (λ x. Holds (iface, x)) (sym host)
          (All-at (λ n. Holds (n, "")) names i iface (All-unmap Holds (λ n. (n, "")) names h)
            there),
  )
  selected-point (some s) names i iface path there (cs, c, listed, first, at) =
      let kept = (one_container_per_pod cs).0 c.pod_name ∙ first in
      (
        points_of_containers names (get_one_container_per_pod cs),
        ap (container_points names) listed,
        λ Holds h.
            subst (λ x. Holds (iface, x)) (sym at)
              (All-at (λ n. Holds (n, netns_path_from_pid c.pid)) names i iface
                (first-All
                  (λ (x : ContainerInfo). All (λ n. Holds (n, netns_path_from_pid x.pid)) names)
                  c.pod_name (get_one_container_per_pod cs) c
                  (points-All Holds names (get_one_container_per_pod cs) h) kept)
                there),
      )

  pub entry-point :
      (selector : InterfaceSelector) (namespaces : Option ClNetworkNamespaceSelector)
      (iface path : String)
      → IsUndiscovered selector.interfaces_discovery_config
      → IsNamed env selector iface
      → IsNetNs env namespaces path
      → HasPoint (cl_attach_points env selector namespaces) (iface, path)
  unfolding cl_attach_points
  entry-point selector namespaces iface path off named ns =
      let (names, given, (i, there)) = names-at selector iface named in
      let (points, expands, has) = selected-point namespaces names i iface path there ns in
      let off' = undiscovered selector.interfaces_discovery_config off in
      (
        points,
        rw (off', cl_attach_points) (ap (selected_points env namespaces) given ∙ expands),
        has,
      )
