-- ===== src/Crictl/Found.antt =====
-- Which containers GetContainerInfoFromPod returns, and with which process ids.
use bpfman_operator.Shared.{
  ℤ, String, Option, none, some, List, [], ◌∷◌, ◌==◌, string_eq, keep, All, All-keep, Dict, look_up,
  put, look_up-put, ◌≡◌, ◌⊎◌, ap, subst, sym, refl, ◌∙◌, arith, Bool-cases, Option-cases, inl, inr,
}
use bpfman_operator.Crictl.{
  PodInfo, ContainerInfo, ContainerPidInfo, Json, Info, inspected_pid, before, pid_infos,
  build_container_pid_info, filter_containers_by_names, find_pod_by_name_with_namespace,
  process_container_info_from_pod,
}
use bpfman_operator.Crictl.Selection.{
  is_selected, filtered-keep, find_pod_name, is_listed, find_pod-keep,
}
use bpfman_operator.Crictl.Client.{
  ContainerStatus, Runtime, list_pods, inspect_container, inspect_all, get_container_info_from_pod,
}

module _ (json : Json) (runtime : Runtime) where
  abbrev info_of : Option (ContainerStatus × Info json) → Option (Info json)
  info_of none = none
  info_of (some (status, info)) = some info

  -- What the runtime says of a container.
  abbrev pub info_read : String → Option (Info json)
  info_read id = info_of (inspect_container json runtime id)

  abbrev Reads : Dict (Info json) → String → Type 0
  Reads results id = look_up id results ≡ info_read id

  put-Reads :
      (id at : String) (results : Dict (Info json)) (info : Info json)
      → info_read at ≡ some info
      → (at ≡ id) ⊎ Reads results id
      → Reads (put at info results) id
  put-Reads id at results info read known =
      let same = string_eq.beq_iff at id in
      let stored = look_up-put id at info results in
      elim (Bool-cases (at == id)) [
        | inl e ↦ stored ∙ (rw e (sym read ∙ ap info_read (same.0 e)))
        | inr e ↦ stored ∙ (rw e (elim known [ inl p ↦ ground (arith, same, p, e) | inr r ↦ r ]))
      ]

  inspect_all-Reads :
      (id : String) (containers : List ContainerInfo) (results results' : Dict (Info json))
      → Reads results id
      → inspect_all json runtime containers results ≡ some results'
      → Reads results' id
  unfolding inspect_all
  inspect_all-Reads id [] results results' read done =
      let same : results ≡ results' = cc in subst (λ r. Reads r id) same read
  inspect_all-Reads id (c ∷ containers) results results' read done =
      elim (Option-cases (inspect_container json runtime c.id)) [
        | inl e ↦ (let failed : none ≡ some results' = rw e at done in cc)
        | inr ((status, info), e) ↦
            inspect_all-Reads id containers (put c.id info results) results'
              (put-Reads id c.id results info (ap info_of e) (inr read)) (rw e at done)
      ]

  inspect_all-read :
      (containers : List ContainerInfo) (results results' : Dict (Info json))
      → inspect_all json runtime containers results ≡ some results'
      → All (λ (c : ContainerInfo). Reads results' c.id) containers
  unfolding inspect_all
  inspect_all-read [] results results' done = tt
  inspect_all-read (c ∷ containers) results results' done =
      elim (Option-cases (inspect_container json runtime c.id)) [
        | inl e ↦ (let failed : none ≡ some results' = rw e at done in cc)
        | inr ((status, info), e) ↦
            let rest : inspect_all json runtime containers (put c.id info results) ≡ some results' =
              rw e at done in
            (
              inspect_all-Reads c.id containers (put c.id info results) results'
                  (put-Reads c.id c.id results info (ap info_of e) (inl refl)) rest,
              inspect_all-read containers (put c.id info results) results' rest,
            )
      ]

  -- An entry for a container of the pod: its names, and the process id that the runtime tells for it.
  abbrev pub IsInfoOf : PodInfo → ContainerInfo → ContainerPidInfo → Type 0
  IsInfoOf pod c info =
      (info.container_id ≡ c.id)
      × (info.container_name ≡ c.metadata.name)
      × (info.pod_name ≡ pod.metadata.name)
      × (info.namespace ≡ pod.metadata.namespace)
      × (inspected_pid json (info_read c.id) ≡ some info.pid)

  -- One entry for each container, in order.
  abbrev pub AreInfosOf : PodInfo → List ContainerInfo → List ContainerPidInfo → Type 0
  AreInfosOf pod [] [] = Unit
  AreInfosOf pod [] (info ∷ infos) = ⊥
  AreInfosOf pod (c ∷ cs) [] = ⊥
  AreInfosOf pod (c ∷ cs) (info ∷ infos) = IsInfoOf pod c info × AreInfosOf pod cs infos

  before-AreInfosOf :
      (pod : PodInfo) (c : ContainerInfo) (cs : List ContainerInfo) (infos : List ContainerPidInfo)
      (pid : Option ℤ) (rest : Option (List ContainerPidInfo))
      → inspected_pid json (info_read c.id) ≡ pid
      → ((infos' : List ContainerPidInfo) → rest ≡ some infos' → AreInfosOf pod cs infos')
      → before json pid (build_container_pid_info pod.metadata.name pod.metadata.namespace c) rest
        ≡ some infos
      → AreInfosOf pod (c ∷ cs) infos
  before-AreInfosOf pod c cs infos none rest read ih h = cc
  before-AreInfosOf pod c cs infos (some pid) none read ih h = cc
  before-AreInfosOf pod c cs [] (some pid) (some infos') read ih h = cc
  before-AreInfosOf pod c cs (info ∷ infos) (some pid) (some infos') read ih h =
      let built = build_container_pid_info pod.metadata.name pod.metadata.namespace c pid in
      let same : built ≡ info = cc in
      let rest : infos' ≡ infos = cc in
      (subst (λ i. IsInfoOf pod c i) same (refl, refl, refl, refl, read), ih infos (ap some rest))

  pid_infos-AreInfosOf :
      (pod : PodInfo) (cs : List ContainerInfo) (results : Dict (Info json))
      (infos : List ContainerPidInfo)
      → All (λ (c : ContainerInfo). Reads results c.id) cs
      → pid_infos json pod.metadata.name pod.metadata.namespace results cs ≡ some infos
      → AreInfosOf pod cs infos
  unfolding pid_infos
  pid_infos-AreInfosOf pod [] results [] read h = tt
  pid_infos-AreInfosOf pod [] results (info ∷ infos) read h = cc
  pid_infos-AreInfosOf pod (c ∷ cs) results infos read h =
      before-AreInfosOf pod c cs infos (inspected_pid json (look_up c.id results))
        (pid_infos json pod.metadata.name pod.metadata.namespace results cs)
        (ap (inspected_pid json) (sym read.0))
        (λ infos' done. pid_infos-AreInfosOf pod cs results infos' read.1 done) h

  pod-AreInfosOf :
      (pod_name : String) (names : List String) (pods : List PodInfo) (cs : List ContainerInfo)
      (results : Dict (Info json)) (infos : List ContainerPidInfo)
      → inspect_all json runtime cs [] ≡ some results
      → process_container_info_from_pod json pod_name names pods cs results ≡ some infos
      → (pod : PodInfo) × (find_pod_by_name_with_namespace pods pod_name ≡ some pod)
        × AreInfosOf pod (keep (is_selected pod names) cs) infos
  unfolding process_container_info_from_pod
  pod-AreInfosOf pod_name names pods cs results infos inspected h =
      elim (Option-cases (find_pod_by_name_with_namespace pods pod_name)) [
        | inl e ↦ (let failed : none ≡ some infos = rw e at h in cc)
        | inr (pod, e) ↦
            let name = find_pod_name pods pod_name pod e in
            let all = inspect_all-read cs [] results inspected in
            let h' : pid_infos json pod_name pod.metadata.namespace results (
                  filter_containers_by_names (keep (λ (c : ContainerInfo). c.pod_id == pod.id) cs)
                    names)
                ≡ some infos =
              rw e at h in
            (
              pod,
              e,
              pid_infos-AreInfosOf pod (keep (is_selected pod names) cs) results infos
                  (All-keep (λ (c : ContainerInfo). Reads results c.id) (is_selected pod names) cs
                    all)
                  (ap
                      (λ n.
                        pid_infos json n pod.metadata.namespace results
                          (keep (is_selected pod names) cs))
                      (sym name)
                    ∙ (ap (λ found. pid_infos json pod_name pod.metadata.namespace results found)
                          (sym (filtered-keep pod names cs))
                        ∙ h')),
            )
      ]

  -- The entries that GetContainerInfoFromPod returns stand for exactly the containers of the first pod of
  -- that name, in any namespace, that are asked for, in the runtime's order, each with the process id
  -- that the runtime tells for this container.
  pub get_container_info_from_pod-IsExact :
      (pod_name : String) (names : List String) (infos : List ContainerPidInfo)
      → get_container_info_from_pod json runtime pod_name names ≡ some infos
      → (pods : List PodInfo) × (cs : List ContainerInfo) × (pod : PodInfo)
        × (runtime.list_pod_sandbox ≡ some pods)
        × (runtime.list_containers "" ≡ some cs)
        × (find_pod_by_name_with_namespace pods pod_name ≡ some pod)
        × AreInfosOf pod (keep (is_selected pod names) cs) infos
  unfolding get_container_info_from_pod list_pods
  get_container_info_from_pod-IsExact pod_name names infos h =
      elim (Option-cases runtime.list_pod_sandbox) [
        | inl e ↦ (let failed : none ≡ some infos = rw e at h in cc)
        | inr (pods, e) ↦ elim (Option-cases (runtime.list_containers "")) [
          | inl w ↦ (let failed : none ≡ some infos = rw (e, w) at h in cc)
          | inr (cs, w) ↦ elim (Option-cases (inspect_all json runtime cs [])) [
            | inl i ↦ (let failed : none ≡ some infos = rw (e, w, i) at h in cc)
            | inr (results, i) ↦
                let (pod, found, exact) =
                  pod-AreInfosOf pod_name names (keep (is_listed pod_name) pods) cs results infos i
                    (rw (e, w, i) at h) in
                (pods, cs, pod, e, w, sym (find_pod-keep pods pod_name) ∙ found, exact)
          ]
        ]
      ]
