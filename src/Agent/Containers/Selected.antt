-- ===== src/Agent/Containers/Selected.antt =====
-- Where the containers of GetContainers come from.
use bpfman_operator.Shared.{
  true, String, Option, none, some, List, [], ◌∷◌, ◌++◌, string_eq, map, contains, keep, keep_all,
  All, All-append, All-map_lem, ◌≡◌, ap, sym, subst, refl, ◌∙◌, arith, Option-cases, inl, inr,
  beq_refl,
}
use bpfman_operator.Crictl.{PodInfo, ContainerPidInfo, Json, ContainerInfo as CriContainer}
use bpfman_operator.Crictl.Client.{Runtime, get_container_info_from_pod as get_pid_infos}
use bpfman_operator.Crictl.Api.{get_container_pids_from_pod, pids_from, new_client}
use bpfman_operator.Crictl.Selection.{is_wanted, is_selected, find_pod_name}
use bpfman_operator.Crictl.Found.{AreInfosOf, get_container_info_from_pod-IsExact}
use bpfman_operator.Agent.Bpfman.{ok, err, container_error}
use bpfman_operator.Agent.Containers.{ContainerInfo, LabelSelector}
use bpfman_operator.Agent.Containers.Getter.{
  RealContainerGetter, get_pods_for_node, name_slice, appended, container_info, container_infos,
  as_result, get_container_info_from_pod, get_container_info, get_containers,
}

-- An entry of a pod of that name, for a container that is asked for.
abbrev IsAskedFor : String → List String → ContainerPidInfo → Type 0
IsAskedFor pod_name names info =
    (info.pod_name ≡ pod_name) × (is_wanted names info.container_name ≡ true)

module _ (json : Json) (runtime : Runtime) where
  infos-AreAskedFor :
      (pod : PodInfo) (names : List String) (cs : List CriContainer) (infos : List ContainerPidInfo)
      → All (λ c. is_selected pod names c ≡ true) cs
      → AreInfosOf json runtime pod cs infos
      → All (IsAskedFor pod.metadata.name names) infos
  infos-AreAskedFor pod names [] [] selected exact = tt
  infos-AreAskedFor pod names [] (i ∷ is) selected exact = elim exact [ ]
  infos-AreAskedFor pod names (c ∷ cs) [] selected exact = tt
  infos-AreAskedFor pod names (c ∷ cs) (i ∷ is) (wanted, selected) (exact, rest) =
      let wanted' : is_wanted names c.metadata.name ≡ true = ground (arith, wanted) in
      (
        (exact.2, ap (is_wanted names) exact.1 ∙ wanted'),
        infos-AreAskedFor pod names cs is selected rest,
      )

  cri-AreAskedFor :
      (pod_name : String) (names : List String) (infos : List ContainerPidInfo)
      → get_pid_infos json runtime pod_name names ≡ some infos
      → All (IsAskedFor pod_name names) infos
  cri-AreAskedFor pod_name names infos h =
      let (pods, cs, pod, listed, contained, found, exact) =
        get_container_info_from_pod-IsExact json runtime pod_name names infos h in
      subst (λ n. All (IsAskedFor n names) infos) (sym (find_pod_name pods pod_name pod found))
        (infos-AreAskedFor pod names (keep (is_selected pod names) cs) infos
          (keep_all (is_selected pod names) cs) exact)

All-of_map :
    (f : ContainerPidInfo → ContainerInfo) (Holds : ContainerInfo → Type 0)
    (infos : List ContainerPidInfo)
    → All (λ i. Holds (f i)) infos
    → All Holds (map f infos)
All-of_map f Holds [] h = tt
All-of_map f Holds (i ∷ infos) h = (h.0, All-of_map f Holds infos h.1)

result-inv :
    (r : Option (List ContainerInfo)) (infos : List ContainerInfo)
    → as_result r ≡ ok (some infos)
    → r ≡ some infos
result-inv none infos h = cc
result-inv (some is) infos h = cc

module _ (c : RealContainerGetter) (names : Option (List String)) where
  -- A container of a pod of one of the names that is asked for.
  abbrev pub IsOfPods : List String → ContainerInfo → Type 0
  IsOfPods pods info =
      (contains info.pod_name pods ≡ true)
      × (is_wanted (name_slice names) info.container_name ≡ true)

  infos-AreOfPods :
      (pod_name : String) (pods : List String) (infos : List ContainerInfo)
      (r : Option (List ContainerPidInfo))
      → contains pod_name pods ≡ true
      → ((infos' : List ContainerPidInfo)
          → r ≡ some infos'
          → All (IsAskedFor pod_name (name_slice names)) infos')
      → container_infos r ≡ some infos
      → All (IsOfPods pods) infos
  infos-AreOfPods pod_name pods infos none among asked h = cc
  infos-AreOfPods pod_name pods infos (some infos') among asked h =
      let same : map container_info infos' ≡ infos = cc in
      subst (λ is. All (IsOfPods pods) is) same
        (All-of_map container_info (IsOfPods pods) infos' (
          All-map_lem (IsAskedFor pod_name (name_slice names))
            (λ i. IsOfPods pods (container_info i)) infos'
            (λ i is_asked. (ap (λ n. contains n pods) is_asked.0 ∙ among, is_asked.1))
            (asked infos' refl)))

  pids-AreAskedFor :
      (pod_name : String) (runtime : Option Runtime) (infos : List ContainerPidInfo)
      → pids_from c.json (c.connect pod_name) runtime pod_name (name_slice names) ≡ some infos
      → All (IsAskedFor pod_name (name_slice names)) infos
  pids-AreAskedFor pod_name none infos h = cc
  pids-AreAskedFor pod_name (some runtime) infos h =
      cri-AreAskedFor c.json runtime pod_name (name_slice names) infos h

  pod-AreOfPods :
      (pod_name : String) (pods : List String) (infos : List ContainerInfo)
      → contains pod_name pods ≡ true
      → get_container_info_from_pod c pod_name names ≡ some infos
      → All (IsOfPods pods) infos
  unfolding get_container_info_from_pod get_container_pids_from_pod
  pod-AreOfPods pod_name pods infos among h =
      infos-AreOfPods pod_name pods infos
        (get_container_pids_from_pod c.json (c.connect pod_name) c.socket pod_name
          (name_slice names))
        among
        (λ infos' read.
          pids-AreAskedFor pod_name (new_client c.json (c.connect pod_name) c.socket) infos' read)
        h

  appended-AreOfPods :
      (pods : List String) (infos : List ContainerInfo) (r rest : Option (List ContainerInfo))
      → ((is : List ContainerInfo) → r ≡ some is → All (IsOfPods pods) is)
      → ((is : List ContainerInfo) → rest ≡ some is → All (IsOfPods pods) is)
      → appended r rest ≡ some infos
      → All (IsOfPods pods) infos
  appended-AreOfPods pods infos none rest first others h = cc
  appended-AreOfPods pods infos (some is) none first others h = cc
  appended-AreOfPods pods infos (some is) (some is') first others h =
      let same : is ++ is' ≡ infos = cc in
      subst (λ i. All (IsOfPods pods) i) same
        (All-append (IsOfPods pods) is is' (first is refl) (others is' refl))

  infos-OfPods :
      (todo pods : List String) (infos : List ContainerInfo)
      → ((name : String) → contains name todo ≡ true → contains name pods ≡ true)
      → get_container_info c todo names ≡ some infos
      → All (IsOfPods pods) infos
  unfolding get_container_info
  infos-OfPods [] pods infos within h =
      let same : [] ≡ infos = cc in subst (λ i. All (IsOfPods pods) i) same tt
  infos-OfPods (pod ∷ todo) pods infos within h =
      appended-AreOfPods pods infos (get_container_info_from_pod c pod names)
        (get_container_info c todo names)
        (λ is read. pod-AreOfPods pod pods is (within pod (ground (arith, beq_refl pod))) read)
        (λ is read. infos-OfPods todo pods is (λ name h'. within name (ground (arith, h'))) read) h

  -- Every container that GetContainers returns has the name of a pod that the API server lists for the
  -- namespace, the selector and this node, and one of the container names, if names are given.
  pub get_containers-AreOfPods :
      (namespace : String) (selector : LabelSelector) (infos : List ContainerInfo)
      → get_containers c namespace selector names ≡ ok (some infos)
      → (pods : List String) × (get_pods_for_node c namespace selector ≡ some pods)
        × All (IsOfPods pods) infos
  unfolding get_containers
  get_containers-AreOfPods namespace selector infos h =
      elim (Option-cases (get_pods_for_node c namespace selector)) [
        | inl e ↦ (let failed : err container_error ≡ ok (some infos) = rw e at h in cc)
        | inr (pods, e) ↦
            let h' : as_result (get_container_info c pods names) ≡ ok (some infos) = rw e at h in
            (pods, e, infos-OfPods pods pods infos (λ name among. among) (result-inv _ infos h'))
      ]
