-- ===== src/Agent/Update/Attached.antt =====
-- A program whose link status is success has exactly the links that its entries ask for:
-- reconcileProgram of controllers/bpfman-agent/common.go, updateLinks and processLinks of the kinds.
use bpfman_operator.Shared.{
  Bool, true, false, ◌&&◌, ℕ, Option, none, some, List, [], ◌∷◌, ◌==◌, ◌≡◌, refl, ap, ap₂, sym, ◌∙◌,
  arith, All, All-map_lem, any, Bool-cases, Option-cases, inl, inr, if◌then◌else◌,
}
use bpfman_operator.Api.Links.{
  Link, ProgramLinkStatus, prog_attach_success, ap_attach_attached, link_status_eq,
}
use bpfman_operator.Agent.Bpfman.{Error, AttachInfo, BpfmanClient}
use bpfman_operator.Agent.Links.{LinkOutcome, reconcile_bpf_link, process_links}
use bpfman_operator.Agent.Links.Outcome.{IsOutcome, reconcile_bpf_link-IsOutcome}
use bpfman_operator.Agent.Links.Removal.{reconcile_all, add_kept, report-inv, process_links-eq}
use bpfman_operator.Agent.Links.Status.{IsAttached, process_links_status}
use bpfman_operator.Agent.Update.{
  LinkSource, update_links, reconcile_program, processed, after_update,
}
use bpfman_operator.Agent.Update.Matching.{Matching, all_expected, is_expected, is_wanted_in}
use bpfman_operator.Agent.Update.Wanted.{AreDistinct, IsExact, update_links-IsExact}

-- The attach points of the links that are to be attached.
abbrev pub wanted_details : {D : Type 0} → List (Link D) → List D
wanted_details [] = []
wanted_details (l ∷ ls) =
    let rest = wanted_details ls in if l.should_attach then l.details ∷ rest else rest

module _ (client : BpfmanClient) {D : Type 0} (attach_info : Link D → AttachInfo) where
  open client use {Daemon}

  abbrev KeepsWanted : List D → Option (List (Link D) × Daemon) → Type 0
  KeepsWanted ds none = Unit
  KeepsWanted ds (some (ls, d)) = wanted_details ls ≡ ds

  KeepsWanted-add :
      (l : Link D) (o : LinkOutcome D Daemon) (ls : List (Link D))
      (x : Option (List (Link D) × Daemon))
      → IsOutcome l o
      → KeepsWanted (wanted_details ls) x
      → KeepsWanted (wanted_details (l ∷ ls)) (add_kept client attach_info o x)
  KeepsWanted-add l o ls none h k = tt
  KeepsWanted-add l o ls (some (ls', d)) h k = elim (Bool-cases o.remove) [
    | inl r ↦ let (unwanted, _) = h.removed.0 r in rw (r, unwanted) k
    | inr r ↦ elim (Bool-cases l.should_attach) [
      | inl e ↦ rw r (let w = h.same_wish ∙ e in rw (e, w) (ap₂ (λ x xs. x ∷ xs) h.same_details k))
      | inr e ↦ rw r (let w = h.same_wish ∙ e in rw (e, w) k)
    ]
  ]

  reconcile_all-KeepsWanted :
      (p : Option ℕ) (ls : List (Link D)) (d : Daemon)
      → KeepsWanted (wanted_details ls) (reconcile_all client attach_info p ls d)
  unfolding reconcile_all
  reconcile_all-KeepsWanted p [] d = refl
  reconcile_all-KeepsWanted p (l ∷ ls) d =
      elim (Option-cases (reconcile_bpf_link client attach_info p l d)) [
        | inl e ↦ rw (e, reconcile_all) tt
        | inr (o, e) ↦
            let h = reconcile_bpf_link-IsOutcome client attach_info p l d o e in
            let ih = reconcile_all-KeepsWanted p ls o.daemon in
            rw (e, reconcile_all) (KeepsWanted-add l o ls _ h ih)
      ]

  pub process_links-wanted :
      (p : Option ℕ) (ls : List (Link D)) (d : Daemon) {ls' : List (Link D)}
      {status : ProgramLinkStatus} {error : Option Error} {d' : Daemon}
      → process_links client attach_info p ls d ≡ some (ls', status, error, d')
      → wanted_details ls' ≡ wanted_details ls
  process_links-wanted p ls d {ls'} {status} {error} {d'} e =
      let (got, st, _) =
        report-inv client attach_info (reconcile_all client attach_info p ls d) ls' status error d'
          (sym (process_links-eq client attach_info p ls d) ∙ e) in
      rw got at (reconcile_all-KeepsWanted p ls d)

module _ {S A D : Type 0} {source : LinkSource S A D} (m : Matching source) where
  -- A link for the attach point that is attached.
  abbrev pub is_attached_in : List (Link D) → D → Bool
  is_attached_in ls d =
      any (λ (l : Link D). l.link_status == ap_attach_attached && m.same d l.details) ls

  wanted_in-details :
      (ls : List (Link D)) (d : D) → is_wanted_in m ls d ≡ any (λ e. m.same d e) (wanted_details ls)
  wanted_in-details [] d = refl
  wanted_in-details (l ∷ ls) d = ground (arith, wanted_in-details ls d)

  attached_in-details :
      (ls : List (Link D)) (d : D)
      → All IsAttached ls
      → is_attached_in ls d ≡ any (λ e. m.same d e) (wanted_details ls)
  attached_in-details [] d h = refl
  attached_in-details (l ∷ ls) d h = rw (h.0.wanted, h.0.status, attached_in-details ls d h.1)

  abbrev AllExpected : List D → List D → Type 0
  AllExpected ds es = All (λ e. is_expected m e ds ≡ true) es

  expected-wanted :
      (ds : List D) (ls : List (Link D))
      → All (λ (l : Link D). l.should_attach ≡ true → is_expected m l.details ds ≡ true) ls
      → AllExpected ds (wanted_details ls)
  expected-wanted ds [] h = tt
  expected-wanted ds (l ∷ ls) h = elim (Bool-cases l.should_attach) [
    | inl e ↦ rw e (h.0 e, expected-wanted ds ls h.1)
    | inr e ↦ rw e (expected-wanted ds ls h.1)
  ]

  expected-attached :
      (ds : List D) (ls : List (Link D))
      → All IsAttached ls
      → AllExpected ds (wanted_details ls)
      → All (λ (l : Link D). is_expected m l.details ds ≡ true) ls
  expected-attached ds [] h k = tt
  expected-attached ds (l ∷ ls) h k =
      let k' : AllExpected ds (l.details ∷ wanted_details ls) = rw h.0.wanted at k in
      (k'.0, expected-attached ds ls h.1 k'.1)

  -- What a success promises: every attach point asked for has an attached link, and every link is
  -- attached, has an id and stands for an attach point asked for.
  pub record AreAttached (ds : List D) (ls : List (Link D)) : Type 0 where
    pub complete : All (λ d. is_attached_in ls d ≡ true) ds
    pub attached : All IsAttached ls
    pub sound : All (λ (l : Link D). is_expected m l.details ds ≡ true) ls

  exact-attached :
      (ds : List D) (before after : List (Link D))
      → IsExact m ds before
      → wanted_details after ≡ wanted_details before
      → All IsAttached after
      → AreAttached ds after
  exact-attached ds before after x w h = record {
    complete =
        All-map_lem (λ d. is_wanted_in m before d ≡ true) (λ d. is_attached_in after d ≡ true) ds
          (λ d k.
            attached_in-details after d h
            ∙ ap (any (λ e. m.same d e)) w
            ∙ sym (wanted_in-details before d)
            ∙ k)
          x.complete;
    attached = h;
    sound = expected-attached ds after h (rw (w) (expected-wanted ds before x.sound));
  }

  module _ (client : BpfmanClient) (attach_info : Link D → AttachInfo) where
    pub processed-inv :
        (s : S) (r : Option (List (Link D) × ProgramLinkStatus × Option Error × client.Daemon))
        (ls' : List (Link D)) (status : ProgramLinkStatus) (error : Option Error) (s' : S)
        (d' : client.Daemon)
        → processed source client attach_info s r ≡ some (ls', status, error, s', d')
        → r ≡ some (ls', status, error, d')
    processed-inv s none ls' status error s' d' e = cc
    processed-inv s (some (ls, status', error', d)) ls' status error s' d' e = cc

    after_update-AreAttached :
        (program_id : Option ℕ) (infos : List A) (r : List (Link D) × Option Error × S)
        (d : client.Daemon) (ls' : List (Link D)) (error : Option Error) (s' : S)
        (d' : client.Daemon)
        → IsExact m (all_expected m infos) r.0
        → after_update source client attach_info program_id r d
          ≡ some (ls', prog_attach_success, error, s', d')
        → AreAttached (all_expected m infos) ls'
    after_update-AreAttached program_id infos (ls, some x, s) d ls' error s' d' exact e = cc
    after_update-AreAttached program_id infos (ls, none, s) d ls' error s' d' exact e =
        let p =
          processed-inv s (process_links client attach_info program_id ls d) ls' prog_attach_success
            error s' d' e in
        let (_, status) = process_links_status client attach_info program_id ls d p in
        exact-attached (all_expected m infos) ls ls' exact
          (process_links-wanted client attach_info program_id ls d p) (status.0 refl)

    pub reconcile_program-AreAttached :
        (program_id : Option ℕ) (infos : List A) (ls : List (Link D)) (s : S) (d : client.Daemon)
        (ls' : List (Link D)) (error : Option Error) (s' : S) (d' : client.Daemon)
        → m.Good s
        → AreDistinct m ls
        → reconcile_program source client attach_info false program_id infos ls s d
          ≡ some (ls', prog_attach_success, error, s', d')
        → AreAttached (all_expected m infos) ls'
    unfolding reconcile_program
    reconcile_program-AreAttached program_id infos ls s d ls' error s' d' g h e =
        after_update-AreAttached program_id infos (update_links source false infos ls s) d ls' error
          s' d' (update_links-IsExact m infos ls s g h) e
