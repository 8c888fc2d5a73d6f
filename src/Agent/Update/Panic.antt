-- ===== src/Agent/Update/Panic.antt =====
-- When a program's reconciliation panics: reconcileProgram of controllers/bpfman-agent/common.go.
use bpfman_operator.Shared.{
  true, false, ℕ, Option, none, some, List, [], ◌∷◌, map, any, ◌≡◌, ◌≢◌, ◌↔◌, refl, sym, ◌∙◌,
}
use bpfman_operator.Api.Links.{Link, ProgramLinkStatus}
use bpfman_operator.Agent.Bpfman.{Error, AttachInfo, BpfmanClient}
use bpfman_operator.Agent.Links.{process_links, set_should_attach}
use bpfman_operator.Agent.Links.Status.{process_links-panic}
use bpfman_operator.Agent.Update.{
  LinkSource, update_links, reconcile_program, processed, after_update,
}

none_cleared :
    {D : Type 0} (ls : List (Link D))
    → any (λ (l : Link D). l.should_attach) (map (set_should_attach false) ls) ≡ false
none_cleared [] = refl
none_cleared (l ∷ ls) = none_cleared ls

module _ {S A D : Type 0} (source : LinkSource S A D) (client : BpfmanClient)
    (attach_info : Link D → AttachInfo) where
  open client use {Daemon}

  processed-none :
      (s : S) (o : Option (List (Link D) × ProgramLinkStatus × Option Error × Daemon))
      → (processed source client attach_info s o ≡ none) ↔ (o ≡ none)
  processed-none s none = (λ _. refl, λ _. refl)
  processed-none s (some r) = (λ h. cc, λ h. cc)

  -- What updateLinks leaves makes the program panic: no error, and a link to attach without an id.
  abbrev pub IsFatal : Option ℕ → List (Link D) × Option Error × S → Type 0
  IsFatal p (ls, error, s) =
      (p ≡ none) × (error ≡ none) × (any (λ (l : Link D). l.should_attach) ls ≡ true)

  after_update-panic :
      (p : Option ℕ) (u : List (Link D) × Option Error × S) (d : Daemon)
      → (after_update source client attach_info p u d ≡ none) ↔ IsFatal p u
  after_update-panic p (ls, some e, s) d = (λ h. cc, λ h. cc)
  after_update-panic p (ls, none, s) d =
      let (forth, back) = processed-none s (process_links client attach_info p ls d) in
      let (forth', back') = process_links-panic client attach_info p ls d in
      (
        λ h. (let (no_id, wanted) = forth' (forth h) in (no_id, refl, wanted)),
        λ (no_id, _, wanted). back (back' (no_id, wanted)),
      )

  -- reconcileProgram panics exactly when updateLinks returns no error and leaves a link to attach while
  -- the program has no id; and never for an application that is being deleted.
  pub reconcile_program-panic :
      (p : Option ℕ) (infos : List A) (ls : List (Link D)) (s : S) (d : Daemon)
      → ((reconcile_program source client attach_info false p infos ls s d ≡ none)
          ↔ IsFatal p (update_links source false infos ls s))
        × (reconcile_program source client attach_info true p infos ls s d ≢ none)
  unfolding reconcile_program
  reconcile_program-panic p infos ls s d = (
    after_update-panic p (update_links source false infos ls s) d,
    λ h.
        (let both : true ≡ false =
            sym ((after_update-panic p (map (set_should_attach false) ls, none, s) d).0 h).2
            ∙ none_cleared ls in
          cc),
  )
