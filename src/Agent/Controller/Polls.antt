-- ===== src/Agent/Controller/Polls.antt =====
-- What a poll finds: waitForBpfAppStateSpecUpdate and waitForBpfAppStateStatusUpdate of
-- controllers/bpfman-agent/{ns,cl}_application_program.go.
use bpfman_operator.Shared.{
  Bool, true, ℕ, zero, suc, ◌<◌, ◌≤◌, String, Option, none, some, Eq, leb, ◌≡◌, ◌≢◌, refl, arith,
  ap, sym, ◌∙◌, subst, Bool-cases, Option-cases, inl, inr,
}
use bpfman_operator.Agent.Bpfman.{Result, ok, err}
use bpfman_operator.Agent.App.{App, AppStateStatus, Scope}
use bpfman_operator.Agent.Controller.{
  AppState, AgentApi, get_bpf_app_state, poll, accepted, or_later,
  wait_for_bpf_app_state_status_update,
}

at_least : (m n : ℕ) → leb m n ≡ true → m ≤ n
at_least m n h = ground (arith, h)

at_least_leb : (m n : ℕ) → m ≤ n → leb m n ≡ true
at_least_leb m n h = ground (arith, h)

abbrev Truth {ℓ} : {A : Type ℓ} → (A → Bool) → Option A → Type 0
Truth p none = Unit
Truth p (some a) = p a ≡ true

module _ {S : Type 0} (scope : Scope S) (api : AgentApi scope.P scope.I)
    (node_name finalizer : String) (attempts : ℕ) ⦃same : Eq (AppStateStatus scope.I)⦄ where
  open scope use {P, I}
  open api use {Cluster}

  -- The cluster after so many pauses.
  abbrev pub passes : ℕ → Cluster → Cluster
  passes zero c = c
  passes (suc k) c = passes k (api.pass c)

  -- What an attempt on the cluster finds.
  abbrev pub finds : (AppState I → Bool) → App P → Cluster → Option (AppState I)
  finds accept app c =
      accepted scope api node_name finalizer attempts accept
        (get_bpf_app_state scope api node_name finalizer attempts app c)

  -- The cluster after `k` pauses, `k` below `n`, has what is found.
  abbrev pub IsFoundAt :
      (AppState I → Bool) → App P → ℕ → Cluster → AppState I → Cluster → ℕ → Type 0
  IsFoundAt accept app n c s c' k = (k < n) × (c' ≡ passes k c) × (finds accept app c' ≡ some s)

  poll-step :
      (accept : AppState I → Bool) (app : App P) (n : ℕ) (c : Cluster) (o : Option (AppState I))
      → finds accept app c ≡ o
      → poll scope api node_name finalizer attempts accept app (suc n) c
        ≡ or_later scope api node_name finalizer attempts o c
            (poll scope api node_name finalizer attempts accept app n (api.pass c))
  unfolding poll
  poll-step accept app n c o h = rw (h) refl

  -- A poll that returns an object found it in one of its attempts.
  poll-IsFoundAt :
      (accept : AppState I → Bool) (app : App P) (n : ℕ) (c : Cluster) (s : AppState I)
      (c' : Cluster)
      → poll scope api node_name finalizer attempts accept app n c ≡ (some s, c')
      → (k : ℕ) × IsFoundAt accept app n c s c' k
  unfolding poll
  poll-IsFoundAt accept app zero c s c' h = (let e = ap (λ r. r.0) h in cc)
  poll-IsFoundAt accept app (suc n) c s c' h = elim (Option-cases (finds accept app c)) [
    | inl e ↦
        let (k, (below, there, found)) =
          poll-IsFoundAt accept app n (api.pass c) s c'
            (sym (poll-step accept app n c none e) ∙ h) in
        (suc k, (omega (arith, below), there, found))
    | inr (s', e) ↦
        let here = sym (poll-step accept app n c (some s') e) ∙ h in
        let same_state = ap (λ r. r.0) here in
        let same_cluster = ap (λ r. r.1) here in
        (
          0,
          (
            omega arith,
            sym same_cluster,
            ap (finds accept app) (sym same_cluster) ∙ e ∙ same_state,
          ),
        )
  ]

  -- A poll finds an object if one of its attempts would.
  pub poll-found :
      (accept : AppState I → Bool) (app : App P) (n k : ℕ) (c : Cluster)
      → k < n
      → finds accept app (passes k c) ≢ none
      → (poll scope api node_name finalizer attempts accept app n c).0 ≢ none
  unfolding poll
  poll-found accept app zero i c below h k = absurd (omega (arith, below))
  poll-found accept app (suc n) zero c below h k = elim (Option-cases (finds accept app c)) [
    | inl e ↦ h e
    | inr (s, e) ↦ (let e' = ap (λ r. r.0) (sym (poll-step accept app n c (some s) e)) ∙ k in cc)
  ]
  poll-found accept app (suc n) (suc i) c below h k = elim (Option-cases (finds accept app c)) [
    | inl e ↦
        poll-found accept app n i (api.pass c) (omega (arith, below)) h
          (ap (λ r. r.0) (sym (poll-step accept app n c none e)) ∙ k)
    | inr (s, e) ↦ (let e' = ap (λ r. r.0) (sym (poll-step accept app n c (some s) e)) ∙ k in cc)
  ]

  accepted-inv :
      (accept : AppState I → Bool) (r : Result (Option (AppState I))) (s : AppState I)
      → accepted scope api node_name finalizer attempts accept r ≡ some s
      → (r ≡ ok (some s)) × (accept s ≡ true)
  accepted-inv accept (err e) s h = cc
  accepted-inv accept (ok none) s h = cc
  accepted-inv accept (ok (some s')) s h = elim (Bool-cases (accept s')) [
    | inl e ↦
        let same_state : some s' ≡ some s = rw e at h in
        (ap ok same_state, subst (λ o. Truth accept o) same_state e)
    | inr e ↦ (let none_some : none ≡ some s = rw e at h in cc)
  ]

  -- Where waitForBpfAppStateStatusUpdate returns an object, the API server had it after fewer pauses than
  -- there are attempts, as the only state of the application on this node, with at least the given update
  -- count.
  pub wait_for_bpf_app_state_status_update-fresh :
      (app : App P) (count : ℕ) (c : Cluster) (s : AppState I) (c' : Cluster)
      → wait_for_bpf_app_state_status_update scope api node_name finalizer attempts app count c
        ≡ (some s, c')
      → (k : ℕ) × (k < attempts)
        × (c' ≡ passes k c)
        × (get_bpf_app_state scope api node_name finalizer attempts app c' ≡ ok (some s))
        × (count ≤ s.status.update_count)
  unfolding wait_for_bpf_app_state_status_update
  wait_for_bpf_app_state_status_update-fresh app count c s c' h =
      let (k, (below, there, found)) =
        poll-IsFoundAt (λ (s' : AppState I). leb count s'.status.update_count) app attempts c s c'
          h in
      let (only, new) =
        accepted-inv (λ (s' : AppState I). leb count s'.status.update_count)
          (get_bpf_app_state scope api node_name finalizer attempts app c') s found in
      (k, below, there, only, at_least count s.status.update_count new)

  accepted-some :
      (accept : AppState I → Bool) (s : AppState I)
      → accept s ≡ true
      → accepted scope api node_name finalizer attempts accept (ok (some s)) ≢ none
  accepted-some accept s h k = (let some_none : some s ≡ none = rw h at k in cc)

  finds-some :
      (accept : AppState I → Bool) (app : App P) (c : Cluster) (s : AppState I)
      → get_bpf_app_state scope api node_name finalizer attempts app c ≡ ok (some s)
      → accept s ≡ true
      → finds accept app c ≢ none
  finds-some accept app c s h a k =
      accepted-some accept s a
        (ap (accepted scope api node_name finalizer attempts accept) (sym h) ∙ k)

  -- waitForBpfAppStateStatusUpdate returns an object if, after some number of pauses below the number of
  -- attempts, the API server has just one state of the application on this node, and with at least the
  -- given update count.
  pub wait_for_bpf_app_state_status_update-found :
      (app : App P) (count k : ℕ) (c : Cluster) (s : AppState I)
      → k < attempts
      → get_bpf_app_state scope api node_name finalizer attempts app (passes k c) ≡ ok (some s)
      → count ≤ s.status.update_count
      → (wait_for_bpf_app_state_status_update scope api node_name finalizer attempts app count c).0
        ≢ none
  unfolding wait_for_bpf_app_state_status_update
  wait_for_bpf_app_state_status_update-found app count k c s below there new =
      poll-found (λ (s' : AppState I). leb count s'.status.update_count) app attempts k c below
        (finds-some (λ (s' : AppState I). leb count s'.status.update_count) app (passes k c) s there
          (at_least_leb count s.status.update_count new))
