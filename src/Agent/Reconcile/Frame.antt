-- ===== src/Agent/Reconcile/Frame.antt =====
-- What the loop over the programs leaves alone, and when an application counts as successful.
use bpfman_operator.Shared.{
  true, false, ℕ, zero, suc, String, Option, none, some, List, [], ◌∷◌, map, ◌≡◌, refl, ◌↔◌,
  Option-cases, inl, inr, sym, ap, ◌∙◌, All, ◌≢◌, ◌==◌, subst, Bool-cases,
}
use bpfman_operator.Api.Links.{
  ProgramLinkStatus, prog_attach_success, program_link_status_eq, program_link_status_beq_iff,
}
use bpfman_operator.Api.Conditions.{
  BpfApplicationStateConditionType, bpf_app_state_cond_success, bpf_app_state_cond_unload_error,
  bpf_app_state_cond_unloaded, app_load_error, app_un_load_success,
  bpf_app_state_cond_program_list_changed_error, app_load_status_eq, app_load_status_beq_iff,
}
use bpfman_operator.Agent.Bpfman.{Error, BpfmanClient}
use bpfman_operator.Agent.App.{Program, ProgramState, AppStateStatus, Scope, get_prog_state}
use bpfman_operator.Agent.Reconcile.{
  reconcile_at, reconcile_programs, put_first, put_back, program_statuses, check_program_status,
}

module _ {S : Type 0} (scope : Scope S) where
  open scope use {P, I}

  -- What stays of a program's state.
  abbrev pub identity : ProgramState I → String × Option ℕ
  identity s = (s.name, s.program_id)

  module _ (client : BpfmanClient) where
    -- Where there is no panic, the states have the given names and ids.
    abbrev pub Keeps :
        List (String × Option ℕ) → Option (List (ProgramState I) × S × client.Daemon) → Type 0
    Keeps ids none = Unit
    Keeps ids (some (states, agent, d)) = map identity states ≡ ids

    abbrev pub KeepsAll :
        List (String × Option ℕ)
        → Option (List (ProgramState I) × BpfApplicationStateConditionType × S × client.Daemon)
        → Type 0
    KeepsAll ids none = Unit
    KeepsAll ids (some (states, cond, agent, d)) = map identity states ≡ ids

    put_back-Keeps :
        (s : ProgramState I) (states : List (ProgramState I))
        (r : Option (I × ProgramLinkStatus × Option Error × S × client.Daemon))
        → Keeps (map identity (s ∷ states)) (put_back scope client s states r)
    put_back-Keeps s states none = tt
    put_back-Keeps s states (some (info, status, error, agent, d)) = refl

    put_first-Keeps :
        (s : ProgramState I) (states : List (ProgramState I))
        (r : Option (List (ProgramState I) × S × client.Daemon))
        → Keeps (map identity states) r
        → Keeps (map identity (s ∷ states)) (put_first scope client s r)
    put_first-Keeps s states none h = tt
    put_first-Keeps s states (some (states', agent, d)) h = ap (λ ids. identity s ∷ ids) h

    reconcile_at-Keeps :
        (prog : Program P) (i : ℕ) (states : List (ProgramState I)) (agent : S) (d : client.Daemon)
        → Keeps (map identity states) (reconcile_at scope client prog i states agent d)
    unfolding reconcile_at
    reconcile_at-Keeps prog i [] agent d = refl
    reconcile_at-Keeps prog zero (s ∷ states) agent d =
        put_back-Keeps s states
          (scope.reconcile_program client prog.info s.info s.program_id agent d)
    reconcile_at-Keeps prog (suc i) (s ∷ states) agent d =
        put_first-Keeps s states (reconcile_at scope client prog i states agent d)
          (reconcile_at-Keeps prog i states agent d)

    -- The loop over the programs, where it does not panic, keeps the programs of the status, in order,
    -- with their names and their ids.
    pub reconcile_programs-KeepsAll :
        (progs : List (Program P)) (states : List (ProgramState I))
        (cond : BpfApplicationStateConditionType) (agent : S) (d : client.Daemon)
        → KeepsAll (map identity states) (reconcile_programs scope client progs states cond agent d)
    unfolding reconcile_programs
    reconcile_programs-KeepsAll [] states cond agent d = refl
    reconcile_programs-KeepsAll (prog ∷ progs) states cond agent d =
        elim (Option-cases (get_prog_state scope prog states)) [
          | inl h ↦
              rw (h, reconcile_programs)
                (reconcile_programs-KeepsAll progs states
                  bpf_app_state_cond_program_list_changed_error agent d)
          | inr (i, h) ↦ elim (Option-cases (reconcile_at scope client prog i states agent d)) [
            | inl e ↦ rw (h, e, reconcile_programs) tt
            | inr ((states', agent', d'), e) ↦
                let here : map identity states' ≡ map identity states =
                  subst (Keeps (map identity states)) e
                    (reconcile_at-Keeps prog i states agent d) in
                rw (h, e, reconcile_programs)
                  (subst
                    (λ ids.
                      KeepsAll ids (reconcile_programs scope client progs states' cond agent' d'))
                    here (reconcile_programs-KeepsAll progs states' cond agent' d'))
          ]
        ]

  program_statuses-success :
      (states : List (ProgramState I))
      → (program_statuses scope states ≡ bpf_app_state_cond_success)
        ↔ All (λ s. s.program_link_status ≡ prog_attach_success) states
  unfolding program_statuses
  program_statuses-success [] = (λ h. tt, λ h. refl)
  program_statuses-success (s ∷ states) =
      let (f, g) = program_statuses-success states in
      let same = program_link_status_beq_iff s.program_link_status prog_attach_success in
      elim (Bool-cases (s.program_link_status == prog_attach_success)) [
        | inl e ↦ rw (e) (λ h. (same.0 e, f h), λ h. g h.1)
        | inr e ↦ rw (e) (λ h. cc, λ h. (let e' = sym e ∙ same.1 h.0 in cc))
      ]

  check-failed :
      (status : AppStateStatus I)
      → (status.app_load_status == app_load_error) ≡ true
      → check_program_status scope status ≡ bpf_app_state_cond_unload_error
  unfolding check_program_status
  check-failed status e = rw (e)

  check-gone :
      (status : AppStateStatus I)
      → (status.app_load_status == app_load_error) ≡ false
      → (status.app_load_status == app_un_load_success) ≡ true
      → check_program_status scope status ≡ bpf_app_state_cond_unloaded
  unfolding check_program_status
  check-gone status e e' = rw (e, e')

  check-live :
      (status : AppStateStatus I)
      → (status.app_load_status == app_load_error) ≡ false
      → (status.app_load_status == app_un_load_success) ≡ false
      → check_program_status scope status ≡ program_statuses scope status.programs
  unfolding check_program_status
  check-live status e e' = rw (e, e')

  -- checkProgramStatus reports success exactly when the load status is neither AppLoadError nor
  -- AppUnLoadSuccess and the links of every program are attached.
  pub check_program_status-success :
      (status : AppStateStatus I)
      → (check_program_status scope status ≡ bpf_app_state_cond_success) ↔ (
          (status.app_load_status ≢ app_load_error)
          × (status.app_load_status ≢ app_un_load_success)
          × All (λ s. s.program_link_status ≡ prog_attach_success) status.programs)
  unfolding check_program_status
  check_program_status-success status =
      let programs = program_statuses-success status.programs in
      let failed = app_load_status_beq_iff status.app_load_status app_load_error in
      let gone = app_load_status_beq_iff status.app_load_status app_un_load_success in
      elim (Bool-cases (status.app_load_status == app_load_error)) [
        | inl e ↦
            let x = check-failed status e in
            (λ h. (let y = sym x ∙ h in cc), λ h. absurd (h.0 (failed.0 e)))
        | inr e ↦ elim (Bool-cases (status.app_load_status == app_un_load_success)) [
          | inl e' ↦
              let x = check-gone status e e' in
              (λ h. (let y = sym x ∙ h in cc), λ h. absurd (h.1 (gone.0 e')))
          | inr e' ↦
              let x = check-live status e e' in
              (
                λ h. (
                  λ k. (let y = sym e ∙ failed.1 k in cc),
                  λ k. (let y = sym e' ∙ gone.1 k in cc),
                  programs.0 (sym x ∙ h),
                ),
                λ h. x ∙ programs.1 h.2,
              )
        ]
      ]
