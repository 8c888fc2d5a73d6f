-- ===== src/Agent/Links/Status.antt =====
-- What processLinks reports of the links that stay, and when it panics.
use bpfman_operator.Shared.{
  true, false, ℕ, Option, none, some, List, [], ◌∷◌, ◌≡◌, ◌≢◌, ◌↔◌, ◌⊎◌, inl, inr, arith, refl, sym,
  ◌∙◌, Bool-cases, Option-cases, All, any,
}
use bpfman_operator.Api.Links.{
  Link, ProgramLinkStatus, prog_attach_success, ap_attach_attached, ap_attach_error,
  ap_detach_error,
}
use bpfman_operator.Agent.Bpfman.{Error, AttachInfo, BpfmanClient}
use bpfman_operator.Agent.Links.{
  LinkOutcome, is_attach_success, reconcile_bpf_link, process_links, update_program_attach_status,
}
use bpfman_operator.Agent.Links.Outcome.{
  IsOutcome, reconcile_bpf_link-IsOutcome, reconcile_bpf_link-panic,
}
use bpfman_operator.Agent.Links.Removal.{
  reconcile_all, add_kept, report, report-inv, process_links-eq,
}

-- A link that processLinks leaves in the list.
pub record IsSettled {D : Type 0} (l : Link D) : Type 0 where
  pub wanted :
      l.should_attach ≡ true
      → ((l.link_status ≡ ap_attach_attached) × (l.link_id ≢ none))
        ⊎ (l.link_status ≡ ap_attach_error)
  pub unwanted : l.should_attach ≡ false → l.link_status ≡ ap_detach_error

-- A link that is wanted and attached.
pub record IsAttached {D : Type 0} (l : Link D) : Type 0 where
  pub wanted : l.should_attach ≡ true
  pub status : l.link_status ≡ ap_attach_attached
  pub has_id : l.link_id ≢ none

kept-IsSettled :
    {D Daemon : Type 0} (l : Link D) (o : LinkOutcome D Daemon)
    → IsOutcome l o
    → o.remove ≡ false
    → IsSettled o.link
kept-IsSettled l o h r = record { wanted = ground arith; unwanted = ground arith }

settled_success :
    {D : Type 0} (l : Link D)
    → IsSettled l
    → is_attach_success l.should_attach l.link_status ≡ true
    → IsAttached l
unfolding is_attach_success
settled_success l h e = record {
  wanted = ground arith;
  status = ground arith;
  has_id = ground arith;
}

attached_success :
    {D : Type 0} (l : Link D)
    → IsAttached l
    → is_attach_success l.should_attach l.link_status ≡ true
unfolding is_attach_success
attached_success l h = ground arith

status-IsAttached :
    {D : Type 0} (ls : List (Link D))
    → All IsSettled ls
    → update_program_attach_status ls ≡ prog_attach_success
    → All IsAttached ls
unfolding update_program_attach_status
status-IsAttached [] h e = tt
status-IsAttached (l ∷ ls) h e =
    (settled_success l h.0 (ground arith), status-IsAttached ls h.1 (ground arith))

pub IsAttached-status :
    {D : Type 0} (ls : List (Link D))
    → All IsAttached ls
    → update_program_attach_status ls ≡ prog_attach_success
unfolding update_program_attach_status
IsAttached-status [] h = refl
IsAttached-status (l ∷ ls) h = ground (arith, attached_success l h.0, IsAttached-status ls h.1)

module _ (client : BpfmanClient) {D : Type 0} (attach_info : Link D → AttachInfo) where
  open client use {Daemon}

  abbrev AllSettled : Option (List (Link D) × Daemon) → Type 0
  AllSettled none = Unit
  AllSettled (some (ls, d)) = All IsSettled ls

  AllSettled-add :
      (l : Link D) (o : LinkOutcome D Daemon) (x : Option (List (Link D) × Daemon))
      → IsOutcome l o
      → AllSettled x
      → AllSettled (add_kept client attach_info o x)
  AllSettled-add l o none h s = tt
  AllSettled-add l o (some (ls, d)) h s = elim (Bool-cases o.remove) [
    | inl r ↦ rw r s
    | inr r ↦ rw r (kept-IsSettled l o h r, s)
  ]

  reconcile_all-AllSettled :
      (p : Option ℕ) (ls : List (Link D)) (d : Daemon)
      → AllSettled (reconcile_all client attach_info p ls d)
  unfolding reconcile_all
  reconcile_all-AllSettled p [] d = tt
  reconcile_all-AllSettled p (l ∷ ls) d =
      elim (Option-cases (reconcile_bpf_link client attach_info p l d)) [
        | inl e ↦ rw (e, reconcile_all) tt
        | inr (o, e) ↦
            let h = reconcile_bpf_link-IsOutcome client attach_info p l d o e in
            let ih = reconcile_all-AllSettled p ls o.daemon in
            rw (e, reconcile_all) (AllSettled-add l o _ h ih)
      ]

  -- Every link that processLinks leaves is wanted and attached, with its id, or wanted and in error, or
  -- unwanted and could not be detached; and the program's status is Success exactly when all of them are
  -- wanted and attached.
  pub process_links_status :
      (p : Option ℕ) (ls : List (Link D)) (d : Daemon) {ls' : List (Link D)}
      {status : ProgramLinkStatus} {error : Option Error} {d' : Daemon}
      → process_links client attach_info p ls d ≡ some (ls', status, error, d')
      → All IsSettled ls' × ((status ≡ prog_attach_success) ↔ All IsAttached ls')
  process_links_status p ls d {ls'} {status} {error} {d'} e =
      let (got, st, _) =
        report-inv client attach_info (reconcile_all client attach_info p ls d) ls' status error d'
          (sym (process_links-eq client attach_info p ls d) ∙ e) in
      let settled : All IsSettled ls' = rw got at (reconcile_all-AllSettled p ls d) in
      (
        settled,
        (λ s. status-IsAttached ls' settled (sym st ∙ s), λ a. st ∙ IsAttached-status ls' a),
      )

  report-none :
      (x : Option (List (Link D) × Daemon)) → (report client attach_info x ≡ none) ↔ (x ≡ none)
  report-none none = (λ _. refl, λ _. refl)
  report-none (some (ls, d)) = (λ h. cc, λ h. cc)

  add_kept-none :
      (o : LinkOutcome D Daemon) (x : Option (List (Link D) × Daemon))
      → (add_kept client attach_info o x ≡ none) ↔ (x ≡ none)
  add_kept-none o none = (λ _. refl, λ _. refl)
  add_kept-none o (some (ls, d)) = (λ h. cc, λ h. cc)

  reconcile_all-panic :
      (p : Option ℕ) (ls : List (Link D)) (d : Daemon)
      → (reconcile_all client attach_info p ls d ≡ none)
        ↔ ((p ≡ none) × (any (λ (l : Link D). l.should_attach) ls ≡ true))
  unfolding reconcile_all
  reconcile_all-panic p [] d = (λ h. cc, λ h. cc)
  reconcile_all-panic p (l ∷ ls) d =
      let one = reconcile_bpf_link-panic client attach_info p l d in
      elim (Option-cases (reconcile_bpf_link client attach_info p l d)) [
        | inl e ↦ let (w, n) = one.0 e in rw (e, reconcile_all) (ground (arith, w, n))
        | inr (o, e) ↦
            let rest = reconcile_all-panic p ls o.daemon in
            let add = add_kept-none o (reconcile_all client attach_info p ls o.daemon) in
            rw (e, reconcile_all) (ground (arith, one, rest, add, e))
      ]

  -- processLinks panics exactly when a link is to be attached and the program has no id.
  pub process_links-panic :
      (p : Option ℕ) (ls : List (Link D)) (d : Daemon)
      → (process_links client attach_info p ls d ≡ none)
        ↔ ((p ≡ none) × (any (λ (l : Link D). l.should_attach) ls ≡ true))
  process_links-panic p ls d = rw (process_links-eq client attach_info p ls d) (
      ground
        (arith, reconcile_all-panic p ls d, report-none (reconcile_all client attach_info p ls d)))
