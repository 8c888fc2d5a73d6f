-- ===== src/Agent/Links/Removal.antt =====
-- processLinks marks indices and removes them afterwards; the reference drops each link at once.
use bpfman_operator.Shared.{
  false, ℕ, suc, ◌≤◌, ◌<◌, Option, none, some, List, [], ◌∷◌, ◌≡◌, inl, inr, arith, refl, ap, sym,
  ◌∙◌, Bool-cases, Option-cases, All, All-map_lem, contains, nat_eq, length, ltb, if◌then◌else◌,
}
use bpfman_operator.Api.Links.{Link, ProgramLinkStatus}
use bpfman_operator.Agent.Links.Outcome.{reconcile_bpf_link-IsOutcome}
use bpfman_operator.Agent.Bpfman.{Error, AttachInfo, BpfmanClient}
use bpfman_operator.Agent.Links.{
  LinkOutcome, Processed, reconcile_bpf_link, process_from, add_processed, finish, process_links,
  remove_links_from, remove_links, update_program_attach_status,
}

-- An index below the start is never looked up.
remove_below :
    {D : Type 0} (i j : ℕ) (ls : List (Link D)) (rm : List ℕ)
    → i < j
    → remove_links_from j ls (i ∷ rm) ≡ remove_links_from j ls rm
unfolding remove_links_from
remove_below i j [] rm h = refl
remove_below i j (l ∷ ls) rm h = ground (arith, remove_below i (suc j) ls rm)

-- All marked indices are at least `i`.
abbrev AreFrom : ℕ → List ℕ → Type 0
AreFrom i = All (λ k. i ≤ k)

not-contains-below : (i : ℕ) (rm : List ℕ) → AreFrom (suc i) rm → contains i rm ≡ false
not-contains-below i [] h = refl
not-contains-below i (k ∷ rm) h = ground (arith, not-contains-below i rm)

remove-nil : {D : Type 0} (i : ℕ) (ls : List (Link D)) → remove_links_from i ls [] ≡ ls
unfolding remove_links_from
remove-nil i [] = refl
remove-nil i (l ∷ ls) = ap (λ r. l ∷ r) (remove-nil (suc i) ls)

-- Without marks nothing would be removed, so the guard on their number changes nothing.
remove_guard :
    {D : Type 0} (ls : List (Link D)) (rm : List ℕ)
    → (if ltb 0 (length rm) then remove_links ls rm else ls) ≡ remove_links_from 0 ls rm
unfolding remove_links
remove_guard ls [] = sym (remove-nil 0 ls)
remove_guard ls (k ∷ rm) = ground arith

module _ (client : BpfmanClient) {D : Type 0} (attach_info : Link D → AttachInfo) where
  open client use {Daemon}

  abbrev pub add_kept :
      LinkOutcome D Daemon → Option (List (Link D) × Daemon) → Option (List (Link D) × Daemon)
  add_kept o none = none
  add_kept o (some (ls, d)) = some (if o.remove then ls else o.link ∷ ls, d)

  -- The links in turn, each dropped at once if its reconciliation says so.
  unfoldable pub reconcile_all : Option ℕ → List (Link D) → Daemon → Option (List (Link D) × Daemon)
  reconcile_all p [] d = some ([], d)
  reconcile_all p (l ∷ ls) d = elim (reconcile_bpf_link client attach_info p l d) [
    | none ↦ none
    | some o ↦ add_kept o (reconcile_all p ls o.daemon)
  ]

  abbrev kept : ℕ → Option (Processed D Daemon) → Option (List (Link D) × Daemon)
  kept i none = none
  kept i (some r) = some (remove_links_from i r.links r.to_remove, r.daemon)

  -- No error is reported, and every marked index is at least `i`.
  abbrev Marks : ℕ → Option (Processed D Daemon) → Type 0
  Marks i none = Unit
  Marks i (some r) = AreFrom i r.to_remove × (r.last_error ≡ none)

  AreFrom-suc : (i : ℕ) (rm : List ℕ) → AreFrom (suc i) rm → AreFrom i rm
  AreFrom-suc i rm h = All-map_lem (λ k. suc i ≤ k) (λ k. i ≤ k) rm (λ k h. omega arith) h

  Marks-add :
      (i : ℕ) (o : LinkOutcome D Daemon) (r : Processed D Daemon)
      → o.error ≡ none
      → Marks (suc i) (some r)
      → Marks i (add_processed client attach_info i o (some r))
  Marks-add i o r e h = elim (Bool-cases o.remove) [
    | inl b ↦ rw (b, h.1, e) ((omega arith, AreFrom-suc i r.to_remove h.0), refl)
    | inr b ↦ rw (b, h.1, e) (AreFrom-suc i r.to_remove h.0, refl)
  ]

  kept-add :
      (i : ℕ) (o : LinkOutcome D Daemon) (r : Processed D Daemon)
      → Marks (suc i) (some r)
      → kept i (add_processed client attach_info i o (some r)) ≡ add_kept o (kept (suc i) (some r))
  unfolding remove_links_from
  kept-add i o r h =
      ground
        (arith, remove_below i (suc i) r.links r.to_remove, not-contains-below i r.to_remove h.0)

  process_from-Marks :
      (i : ℕ) (p : Option ℕ) (ls : List (Link D)) (d : Daemon)
      → Marks i (process_from client attach_info i p ls d)
  unfolding process_from
  process_from-Marks i p [] d = (tt, refl)
  process_from-Marks i p (l ∷ ls) d =
      elim (Option-cases (reconcile_bpf_link client attach_info p l d)) [
        | inl e ↦ rw (e, process_from) tt
        | inr (o, e) ↦
            let ih = process_from-Marks (suc i) p ls o.daemon in
            let no_error = (reconcile_bpf_link-IsOutcome client attach_info p l d o e).no_error in
            elim (Option-cases (process_from client attach_info (suc i) p ls o.daemon)) [
              | inl f ↦ rw (e, f, process_from) tt
              | inr (r, f) ↦
                  rw (e, process_from)
                    (rw (f, process_from) (Marks-add i o r no_error (rw f at ih)))
            ]
      ]

  process_from-kept :
      (i : ℕ) (p : Option ℕ) (ls : List (Link D)) (d : Daemon)
      → kept i (process_from client attach_info i p ls d) ≡ reconcile_all p ls d
  unfolding process_from reconcile_all remove_links_from
  process_from-kept i p [] d = refl
  process_from-kept i p (l ∷ ls) d =
      elim (Option-cases (reconcile_bpf_link client attach_info p l d)) [
        | inl e ↦ rw (e, process_from, reconcile_all) refl
        | inr (o, e) ↦
            let ih = process_from-kept (suc i) p ls o.daemon in
            let marks = process_from-Marks (suc i) p ls o.daemon in
            rw (e, process_from, reconcile_all)
              (elim (Option-cases (process_from client attach_info (suc i) p ls o.daemon)) [
                | inl f ↦ rw (f, process_from) (ap (add_kept o) (rw f at ih))
                | inr (r, f) ↦
                    rw (f, process_from)
                      (kept-add i o r (rw f at marks) ∙ ap (add_kept o) (rw f at ih))
              ])
      ]

  abbrev pub report :
      Option (List (Link D) × Daemon)
      → Option (List (Link D) × ProgramLinkStatus × Option Error × Daemon)
  report none = none
  report (some (ls, d)) = some (ls, update_program_attach_status ls, none, d)

  pub report-inv :
      (x : Option (List (Link D) × Daemon)) (ls : List (Link D)) (status : ProgramLinkStatus)
      (error : Option Error) (d : Daemon)
      → report x ≡ some (ls, status, error, d)
      → (x ≡ some (ls, d)) × (status ≡ update_program_attach_status ls) × (error ≡ none)
  report-inv none ls status error d h = cc
  report-inv (some (ls', d')) ls status error d h = ground arith

  finish-kept :
      (x : Option (Processed D Daemon))
      → Marks 0 x
      → finish client attach_info x ≡ report (kept 0 x)
  unfolding remove_links
  finish-kept none h = refl
  finish-kept (some r) h = rw (remove_guard r.links r.to_remove, h.1)

  -- processLinks, with its map of indices and removal afterwards, is reconciling the links in turn and
  -- dropping at once each one that needs no link any more; it never returns an error, and the program's
  -- status is computed from the links that stay. Both panic together.
  pub process_links-eq :
      (p : Option ℕ) (ls : List (Link D)) (d : Daemon)
      → process_links client attach_info p ls d ≡ report (reconcile_all p ls d)
  unfolding process_links
  process_links-eq p ls d =
      finish-kept (process_from client attach_info 0 p ls d) (process_from-Marks 0 p ls d)
      ∙ ap report (process_from-kept 0 p ls d)
