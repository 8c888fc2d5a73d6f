-- ===== src/Agent/Update/Steady.antt =====
-- Reconciling a program that is as its entries ask for: reconcileProgram of
-- controllers/bpfman-agent/common.go.
use bpfman_operator.Shared.{
  false, ℕ, Option, none, some, List, [], ◌∷◌, ◌≡◌, refl, ap, ap₂, ◌∙◌, inl, inr, All, map,
}
use bpfman_operator.Api.Links.{Link, prog_attach_success}
use bpfman_operator.Agent.Bpfman.{Error, ok, err, AttachInfo, BpfmanClient}
use bpfman_operator.Agent.Links.{set_should_attach, process_links}
use bpfman_operator.Agent.Links.Removal.{report, process_links-eq}
use bpfman_operator.Agent.Links.Status.{IsAttached-status}
use bpfman_operator.Agent.Links.Steady.{IsKeeping, IsSteady, steady-reconcile_all}
use bpfman_operator.Agent.Update.{
  LinkSource, add_links, update_each, update_links, reconcile_program, processed, after_update,
}
use bpfman_operator.Agent.Update.Matching.{Matching, Agrees-cases, all_expected}
use bpfman_operator.Agent.Update.Wanted.{AreDistinct}
use bpfman_operator.Agent.Update.Attached.{AreAttached}
use bpfman_operator.Agent.Update.Settled.{IsEuclidean, settled-links}

module _ {S A D : Type 0} {source : LinkSource S A D} (m : Matching source) where
  -- The error of the first entry whose expansion fails.
  abbrev pub first_failure : List A → Option Error
  first_failure [] = none
  first_failure (a ∷ infos) = elim (m.expected a) [ err e ↦ some e | ok ds ↦ first_failure infos ]

  add_links-Good :
      (expected ls : List (Link D)) (s : S) → m.Good s → m.Good (add_links source expected ls s).1
  unfolding add_links
  add_links-Good [] ls s g = g
  add_links-Good (l ∷ expected) ls s g = add_links-Good expected _ _ (m.find_Good ls l s g)

  update_each-error :
      (infos : List A) (ls : List (Link D)) (s : S)
      → m.Good s
      → (update_each source infos ls s).1 ≡ first_failure infos
  unfolding update_each
  update_each-error [] ls s g = refl
  update_each-error (a ∷ infos) ls s g =
      let s' = (source.get_expected_links a s).1 in
      let g' = m.expected_Good a s g in
      elim (Agrees-cases _ _ (m.expected_Agrees a s g)) [
        | inl (e, p, q) ↦ rw (p, q, update_each, first_failure) refl
        | inr (links, es, p, q, h) ↦
            let after = add_links source links ls s' in
            rw (p, q, update_each, first_failure)
              (update_each-error infos after.0 after.1 (add_links-Good links ls s' g'))
      ]

  pub update_links-error :
      (infos : List A) (ls : List (Link D)) (s : S)
      → m.Good s
      → (update_links source false infos ls s).1 ≡ first_failure infos
  unfolding update_links
  update_links-error infos ls s g = update_each-error infos (map (set_should_attach false) ls) s g

  module _ (client : BpfmanClient) (laws : IsKeeping client) (attach_info : Link D → AttachInfo)
      (program_id : ℕ) where
    steady-process_links :
        (ds : List D) (ls : List (Link D)) (d : client.Daemon)
        → AreAttached m ds ls
        → All (IsSteady client laws attach_info program_id d) ls
        → process_links client attach_info (some program_id) ls d
          ≡ some (ls, prog_attach_success, none, d)
    steady-process_links ds ls d attached steady =
        process_links-eq client attach_info (some program_id) ls d
        ∙ (ap (report client attach_info)
              (steady-reconcile_all client laws attach_info program_id ls d steady)
            ∙ ap (λ s. some (ls, s, none, d)) (IsAttached-status ls attached.attached))

    -- Where the links of a program are as its entries ask for, all entries expand and the daemon still
    -- lists every link, reconcileProgram leaves the links and the daemon as they are and reports Success
    -- without an error; the daemon keeps what it attached, and attach points that one stands for are one.
    pub reconcile_program-steady :
        (infos : List A) (ls : List (Link D)) (s : S) (d : client.Daemon)
        → IsEuclidean m
        → m.Good s
        → AreDistinct m ls
        → first_failure infos ≡ none
        → AreAttached m (all_expected m infos) ls
        → All (IsSteady client laws attach_info program_id d) ls
        → reconcile_program source client attach_info false (some program_id) infos ls s d
          ≡ some (ls, prog_attach_success, none, (update_links source false infos ls s).2, d)
    unfolding reconcile_program
    reconcile_program-steady infos ls s d euclid g h expands attached steady =
        let u = update_links source false infos ls s in
        ap₂ (λ us e. after_update source client attach_info (some program_id) (us, e, u.2) d)
          (settled-links m euclid infos ls s g h attached)
          (update_links-error infos ls s g ∙ expands)
        ∙ ap (processed source client attach_info u.2)
            (steady-process_links (all_expected m infos) ls d attached steady)
