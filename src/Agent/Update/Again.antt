-- ===== src/Agent/Update/Again.antt =====
-- Reconciling a program once more after a success: reconcileProgram of
-- controllers/bpfman-agent/common.go.
use bpfman_operator.Shared.{
  false, ℕ, Option, none, some, List, [], ◌∷◌, ◌≡◌, refl, sym, subst, ◌∙◌, inl, inr, All,
  Bool-cases,
}
use bpfman_operator.Api.Links.{Link, prog_attach_success, update_attach_info_error}
use bpfman_operator.Agent.Bpfman.{Error, AttachInfo, BpfmanClient}
use bpfman_operator.Agent.Links.{process_links}
use bpfman_operator.Agent.Links.Status.{IsAttached}
use bpfman_operator.Agent.Links.Steady.{IsLive, IsKeeping, IsSteady}
use bpfman_operator.Agent.Update.{LinkSource, update_links, reconcile_program, after_update}
use bpfman_operator.Agent.Update.Matching.{Matching}
use bpfman_operator.Agent.Update.Wanted.{AreDistinct, update_links-IsExact}
use bpfman_operator.Agent.Update.Attached.{
  wanted_details, process_links-wanted, processed-inv, reconcile_program-AreAttached,
}
use bpfman_operator.Agent.Update.Settled.{IsEuclidean}
use bpfman_operator.Agent.Update.Steady.{update_links-error, reconcile_program-steady}

module _ {S A D : Type 0} {source : LinkSource S A D} (m : Matching source) where
  abbrev AreApart : List D → Type 0
  AreApart [] = Unit
  AreApart (d ∷ ds) = All (λ d'. m.same d' d ≡ false) ds × AreApart ds

  wanted-differ :
      (d : D) (ls : List (Link D))
      → All (λ (l : Link D). m.same l.details d ≡ false) ls
      → All (λ d'. m.same d' d ≡ false) (wanted_details ls)
  wanted-differ d [] h = tt
  wanted-differ d (l ∷ ls) (h, hs) = elim (Bool-cases l.should_attach) [
    | inl e ↦ rw e (h, wanted-differ d ls hs)
    | inr e ↦ rw e (wanted-differ d ls hs)
  ]

  AreApart-wanted : (ls : List (Link D)) → AreDistinct m ls → AreApart (wanted_details ls)
  AreApart-wanted [] h = tt
  AreApart-wanted (l ∷ ls) (h, hs) = elim (Bool-cases l.should_attach) [
    | inl e ↦ rw e (wanted-differ l.details ls h, AreApart-wanted ls hs)
    | inr e ↦ rw e (AreApart-wanted ls hs)
  ]

  differ-wanted :
      (d : D) (ls : List (Link D))
      → All IsAttached ls
      → All (λ d'. m.same d' d ≡ false) (wanted_details ls)
      → All (λ (l : Link D). m.same l.details d ≡ false) ls
  differ-wanted d [] a h = tt
  differ-wanted d (l ∷ ls) (a, rest) h =
      let h' : All (λ d'. m.same d' d ≡ false) (l.details ∷ wanted_details ls) = rw a.wanted at h in
      (h'.0, differ-wanted d ls rest h'.1)

  AreDistinct-wanted :
      (ls : List (Link D)) → All IsAttached ls → AreApart (wanted_details ls) → AreDistinct m ls
  AreDistinct-wanted [] a h = tt
  AreDistinct-wanted (l ∷ ls) (a, rest) h =
      let h' : AreApart (l.details ∷ wanted_details ls) = rw a.wanted at h in
      (differ-wanted l.details ls rest h'.0, AreDistinct-wanted ls rest h'.1)

  module _ (client : BpfmanClient) (laws : IsKeeping client) (attach_info : Link D → AttachInfo)
      (program_id : ℕ) where
    open client use {Daemon}

    -- The link has an id, and the daemon lists it.
    abbrev pub IsListed : Daemon → Link D → Type 0
    IsListed d l = (id : ℕ) × (l.link_id ≡ some id) × IsLive client d program_id id

    listed-AreSteady :
        (ls : List (Link D)) (d : Daemon)
        → All IsAttached ls
        → All (IsListed d) ls
        → All (IsSteady client laws attach_info program_id d) ls
    listed-AreSteady [] d a h = tt
    listed-AreSteady (l ∷ ls) d (a, rest) ((id, has_id, live), hs) = (
      record { wanted = a.wanted; status = a.status; id = id; has_id = has_id; live = live },
      listed-AreSteady ls d rest hs,
    )

    -- A success comes from an updateLinks without an error, and keeps the links distinct.
    success-inv :
        (u : List (Link D) × Option Error × S) (d : Daemon) (ls' : List (Link D))
        (error : Option Error) (s' : S) (d' : Daemon)
        → AreDistinct m u.0
        → All IsAttached ls'
        → after_update source client attach_info (some program_id) u d
          ≡ some (ls', prog_attach_success, error, s', d')
        → (u.1 ≡ none) × AreDistinct m ls'
    success-inv (us, some e, s) d ls' error s' d' h attached done =
        (let clash : update_attach_info_error ≡ prog_attach_success = cc in cc)
    success-inv (us, none, s) d ls' error s' d' h attached done =
        let p =
          processed-inv m client attach_info s
            (process_links client attach_info (some program_id) us d) ls' prog_attach_success error
            s' d' done in
        let same = process_links-wanted client attach_info (some program_id) us d p in
        (refl, AreDistinct-wanted ls' attached (subst AreApart (sym same) (AreApart-wanted us h)))

    -- Once reconcileProgram has set the link status Success, reconciling the same entries again changes
    -- neither the links nor the daemon and reports Success without an error, whatever happened to the
    -- agent's state and the daemon in between, as long as the daemon lists every link of the program. The
    -- links had distinct attach points at first, the daemon keeps what it attached, and attach points that one
    -- stands for are one.
    pub reconcile_program-again :
        (infos : List A) (ls ls' : List (Link D)) (s s1 s' : S) (d d1 d' : Daemon)
        (error : Option Error)
        → IsEuclidean m
        → m.Good s
        → m.Good s'
        → AreDistinct m ls
        → reconcile_program source client attach_info false (some program_id) infos ls s d
          ≡ some (ls', prog_attach_success, error, s1, d1)
        → All (IsListed d') ls'
        → reconcile_program source client attach_info false (some program_id) infos ls' s' d'
          ≡ some (ls', prog_attach_success, none, (update_links source false infos ls' s').2, d')
    unfolding reconcile_program
    reconcile_program-again infos ls ls' s s1 s' d d1 d' error euclid g g' h done listed =
        let attached =
          reconcile_program-AreAttached m client attach_info (some program_id) infos ls s d ls'
            error s1 d1 g h done in
        let exact = update_links-IsExact m infos ls s g h in
        let (no_error, distinct) =
          success-inv (update_links source false infos ls s) d ls' error s1 d1 exact.distinct
            attached.attached done in
        let expands = sym (update_links-error m infos ls s g) ∙ no_error in
        reconcile_program-steady m client laws attach_info program_id infos ls' s' d' euclid g'
          distinct expands attached (listed-AreSteady ls' d' attached.attached listed)
