-- ===== src/Agent/Links/Again.antt =====
-- processLinks run once more, over a daemon that keeps the links that it attached.
use bpfman_operator.Shared.{
  true, ℕ, Option, none, some, List, [], ◌∷◌, nat_eq, All, ◌≡◌, ◌⊎◌, inl, inr, refl, sym, ap, subst,
  ◌∙◌, Option-cases,
}
use bpfman_operator.Api.Links.{Link, ap_attach_attached, ap_attach_error, prog_attach_success}
use bpfman_operator.Agent.Bpfman.{Error, AttachInfo, BpfmanClient}
use bpfman_operator.Agent.Links.{reconcile_bpf_link, process_links}
use bpfman_operator.Agent.Links.Removal.{reconcile_all, report, report-inv, process_links-eq}
use bpfman_operator.Agent.Links.Status.{IsAttached, process_links_status}
use bpfman_operator.Agent.Links.Steady.{IsLive, IsKeeping, IsSteady, steady-reconcile_all}
use bpfman_operator.Agent.Links.First.{Stays, reconcile-IsFirst}

module _ (client : BpfmanClient) (laws : IsKeeping client) {D : Type 0}
    (attach_info : Link D → AttachInfo) (program_id : ℕ) where
  open client use {Daemon}

  abbrev Live : Daemon → ℕ → Type 0
  Live d link_id = IsLive client d program_id link_id

  abbrev Steady : Daemon → Link D → Type 0
  Steady = IsSteady client laws attach_info program_id

  abbrev StaysListed : Daemon → Daemon → Type 0
  StaysListed = Stays client laws attach_info program_id

  abbrev AreFirst : Daemon → List (Link D) → Type 0
  AreFirst d = All (λ l. Steady d l ⊎ (l.link_status ≡ ap_attach_error))

  abbrev IsWanted : Link D → Type 0
  IsWanted l = l.should_attach ≡ true

  Steady-Stays : (d d' : Daemon) (l : Link D) → StaysListed d d' → Steady d l → Steady d' l
  Steady-Stays d d' l stays steady = record {
    wanted = steady.wanted;
    status = steady.status;
    id = steady.id;
    has_id = steady.has_id;
    live = stays steady.id steady.live;
  }

  reconcile_all-AreFirst :
      (ls : List (Link D)) (d : Daemon) (ls' : List (Link D)) (d' : Daemon)
      → All IsWanted ls
      → reconcile_all client attach_info (some program_id) ls d ≡ some (ls', d')
      → AreFirst d' ls' × StaysListed d d'
  unfolding reconcile_all
  reconcile_all-AreFirst [] d ls' d' wanted h =
      let lists : [] ≡ ls' = cc in
      let daemons : d ≡ d' = cc in
      (
        subst (λ is. AreFirst d' is) lists tt,
        λ link_id live. subst (λ e. Live e link_id) daemons live,
      )
  reconcile_all-AreFirst (l ∷ ls) d ls' d' wanted h =
      elim (Option-cases (reconcile_bpf_link client attach_info (some program_id) l d)) [
        | inl e ↦ (let failed : none ≡ some (ls', d') = rw (e, reconcile_all) at h in cc)
        | inr (o, e) ↦
            let first = reconcile-IsFirst client laws attach_info program_id l d o wanted.0 e in
            elim (Option-cases (reconcile_all client attach_info (some program_id) ls o.daemon)) [
              | inl f ↦ (let failed : none ≡ some (ls', d') = rw (e, reconcile_all, f) at h in cc)
              | inr ((ls1, d1), f) ↦
                  let (others, stays) = reconcile_all-AreFirst ls o.daemon ls1 d1 wanted.1 f in
                  let both : some (o.link ∷ ls1, d1) ≡ some (ls', d') =
                    rw (e, reconcile_all, f, first.2) at h in
                  let lists : o.link ∷ ls1 ≡ ls' = cc in
                  let daemons : d1 ≡ d' = cc in
                  (
                    subst (λ e'. AreFirst e' ls') daemons
                        (subst (λ is. AreFirst d1 is) lists
                          (
                            elim first.0 [
                              | inl steady ↦ inl (Steady-Stays o.daemon d1 o.link stays steady)
                              | inr failed ↦ inr failed
                            ],
                            others,
                          )),
                    λ link_id live.
                        subst (λ e'. Live e' link_id) daemons
                          (stays link_id (first.1 link_id live)),
                  )
            ]
      ]

  success-AreSteady :
      (ls : List (Link D)) (d : Daemon) → AreFirst d ls → All IsAttached ls → All (Steady d) ls
  success-AreSteady [] d first success = tt
  success-AreSteady (l ∷ ls) d (first, others) (success, successes) = (
    elim first [
      | inl steady ↦ steady
      | inr failed ↦
          (let clash : ap_attach_attached ≡ ap_attach_error = sym success.status ∙ failed in cc)
    ],
    success-AreSteady ls d others successes,
  )

  -- Over a daemon that only reads for Get, lists what it attached and keeps it while it attaches, a
  -- processLinks that ends in Success for wanted links of a loaded program is settled: another one leaves
  -- the links, the status and the daemon as they are.
  pub process_links-again :
      (ls ls' : List (Link D)) (d d' : Daemon) (error : Option Error)
      → All IsWanted ls
      → process_links client attach_info (some program_id) ls d
        ≡ some (ls', prog_attach_success, error, d')
      → process_links client attach_info (some program_id) ls' d'
        ≡ some (ls', prog_attach_success, none, d')
  process_links-again ls ls' d d' error wanted h =
      let (settled, success) = process_links_status client attach_info (some program_id) ls d h in
      let (got, status, _) =
        report-inv client attach_info (reconcile_all client attach_info (some program_id) ls d) ls'
          prog_attach_success error d'
          (sym (process_links-eq client attach_info (some program_id) ls d) ∙ h) in
      let (first, stays) = reconcile_all-AreFirst ls d ls' d' wanted got in
      let steady = success-AreSteady ls' d' first (success.0 refl) in
      process_links-eq client attach_info (some program_id) ls' d'
      ∙ (ap (report client attach_info)
            (steady-reconcile_all client laws attach_info program_id ls' d' steady)
          ∙ ap (λ s. some (ls', s, none, d')) (sym status))
