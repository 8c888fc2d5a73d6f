-- ===== src/Agent/Links.antt =====
-- Reconciling the links of one program: controllers/bpfman-agent/common.go (reconcileBpfLink,
-- doesLinkExist, isAttachSuccess, reconcileProgram) and the code that each `*_program.go` repeats
-- for its own kind of link (isAttached, updateLinks, processLinks, removeLinks,
-- updateProgramAttachStatus).
pub mod Outcome
pub mod Removal
pub mod Status
pub mod Steady
pub mod First
pub mod Again
use bpfman_operator.Shared.{
  Bool, true, false, not, ◌&&◌, ℕ, suc, Option, none, some, List, [], ◌∷◌, ◌==◌, nat_eq, contains,
  ltb, length, if◌then◌else◌,
}
use bpfman_operator.Api.Links.{
  LinkStatus, ap_attach_attached, ap_attach_not_attached, ap_attach_error, ap_detach_error,
  ProgramLinkStatus, prog_attach_success, prog_attach_error, Link, link_status_eq,
}
use bpfman_operator.Agent.Bpfman.{Error, AttachInfo, BpfmanClient}

-- isAttachSuccess
unfoldable pub is_attach_success : Bool → LinkStatus → Bool
is_attach_success should_attach status =
    if should_attach && status == ap_attach_attached
    then true
    else if not should_attach && status == ap_attach_not_attached
    then true
    else false

module _ {D : Type 0} where
  abbrev pub set_should_attach : Bool → Link D → Link D
  set_should_attach b l = record l { common = record l.common { should_attach = b } }

  abbrev pub set_current_link_status : LinkStatus → Link D → Link D
  set_current_link_status s l = record l { common = record l.common { link_status = s } }

  abbrev pub set_link_id : Option ℕ → Link D → Link D
  set_link_id id l = record l { common = record l.common { link_id = id } }

  -- updateProgramAttachStatus: the first link that is not as it should be decides.
  unfoldable pub update_program_attach_status : List (Link D) → ProgramLinkStatus
  unfolding is_attach_success
  update_program_attach_status [] = prog_attach_success
  update_program_attach_status (l ∷ ls) =
      let rest = update_program_attach_status ls in
      if not (is_attach_success l.should_attach l.link_status) then prog_attach_error else rest

  -- removeLinks from index `i` on: `remove` is the set of keys of `linksToRemove`.
  unfoldable pub remove_links_from : ℕ → List (Link D) → List ℕ → List (Link D)
  remove_links_from i [] remove = []
  remove_links_from i (l ∷ ls) remove =
      let rest = remove_links_from (suc i) ls remove in if contains i remove then rest else l ∷ rest

  unfoldable pub remove_links : List (Link D) → List ℕ → List (Link D)
  unfolding remove_links_from
  remove_links ls remove = remove_links_from 0 ls remove

-- What a loop over the links leaves: the links, the indices marked for removal, the last error,
-- and the daemon.
pub record Processed (D : Type 0) (Daemon : Type 0) : Type 0 where
  pub links : List (Link D)
  pub to_remove : List ℕ
  pub last_error : Option Error
  pub daemon : Daemon

pub record LinkOutcome (D : Type 0) (Daemon : Type 0) : Type 0 where
  pub remove : Bool
  pub error : Option Error
  pub link : Link D
  pub daemon : Daemon

module _ (client : BpfmanClient) {D : Type 0} (attach_info : Link D → AttachInfo) where
  open client use {Daemon}

  abbrev links_contain : ℕ → Option (List ℕ) → Bool
  links_contain link_id none = false
  links_contain link_id (some links) = contains link_id links

  -- doesLinkExist
  does_link_exist : ℕ → ℕ → Daemon → Bool × Daemon
  does_link_exist program_id link_id d =
      let (response, d') = client.get program_id d in (links_contain link_id response, d')

  -- isAttached
  is_attached : Option ℕ → Option ℕ → Daemon → Bool × Daemon
  unfolding does_link_exist
  is_attached (some program_id) (some link_id) d = does_link_exist program_id link_id d
  is_attached none link_id d = (false, d)
  is_attached (some program_id) none d = (false, d)

  abbrev attached : Option ℕ → Link D → Link D
  attached none l = set_current_link_status ap_attach_error l
  attached (some id) l = set_current_link_status ap_attach_attached (set_link_id (some id) l)

  -- The request dereferences the program's id: with none the agent panics.
  attach_link : Option ℕ → Link D → Daemon → Option (Link D × Daemon)
  attach_link none l d = none
  attach_link (some program_id) l d =
      let (id, d') = client.attach (record { id = program_id; attach = attach_info l }) d in
      some (attached id l, d')

  abbrev detached : Bool → Link D → Link D
  detached false l = set_current_link_status ap_detach_error l
  detached true l = set_current_link_status ap_attach_not_attached (set_link_id none l)

  -- The call dereferences the link's id.
  detach_link : Option ℕ → Link D → Daemon → Option (Link D × Daemon)
  detach_link none l d = none
  detach_link (some id) l d = let (done, d') = client.detach id d in some (detached done l, d')

  -- The two nested switches.
  reconcile_case :
      (should_attach is_attached : Bool) → Option ℕ → Link D → Daemon → Option (Link D × Daemon)
  unfolding attach_link detach_link
  reconcile_case true true p l d = some (set_current_link_status ap_attach_attached l, d)
  reconcile_case true false p l d = attach_link p l d
  reconcile_case false true p l d = detach_link l.link_id l d
  reconcile_case false false p l d = some (set_current_link_status ap_attach_not_attached l, d)

  abbrev outcome : Bool → Option (Link D × Daemon) → Option (LinkOutcome D Daemon)
  outcome should_attach none = none
  outcome should_attach (some (l, d)) = some (record {
    remove = not should_attach && l.link_status == ap_attach_not_attached;
    error = none;
    link = l;
    daemon = d;
  })

  -- reconcileBpfLink. `none` is a panic on a nil pointer.
  unfoldable pub reconcile_bpf_link : Option ℕ → Link D → Daemon → Option (LinkOutcome D Daemon)
  unfolding is_attached reconcile_case
  reconcile_bpf_link program_id l d =
      let (attached, d') = is_attached program_id l.link_id d in
      outcome l.should_attach (reconcile_case l.should_attach attached program_id l d')

  abbrev last : Option Error → Option Error → Option Error
  last e none = e
  last e (some e') = some e'

  abbrev add_processed :
      ℕ → LinkOutcome D Daemon → Option (Processed D Daemon) → Option (Processed D Daemon)
  add_processed i o none = none
  add_processed i o (some r) = some (record {
    links = o.link ∷ r.links;
    to_remove = if o.remove then i ∷ r.to_remove else r.to_remove;
    last_error = last o.error r.last_error;
    daemon = r.daemon;
  })

  -- The loop of processLinks from index `i` on.
  process_from : ℕ → Option ℕ → List (Link D) → Daemon → Option (Processed D Daemon)
  process_from i p [] d =
      some (record { links = []; to_remove = []; last_error = none; daemon = d })
  process_from i p (l ∷ ls) d = elim (reconcile_bpf_link p l d) [
    | none ↦ none
    | some o ↦ add_processed i o (process_from (suc i) p ls o.daemon)
  ]

  -- The links, the program's link status, the error and the daemon after processLinks.
  abbrev finish :
      Option (Processed D Daemon)
      → Option (List (Link D) × ProgramLinkStatus × Option Error × Daemon)
  finish none = none
  finish (some r) =
      let links =
        if ltb 0 (length r.to_remove) then remove_links r.links r.to_remove else r.links in
      some (links, update_program_attach_status links, r.last_error, r.daemon)

  -- processLinks
  unfoldable pub process_links :
      Option ℕ
      → List (Link D)
      → Daemon
      → Option (List (Link D) × ProgramLinkStatus × Option Error × Daemon)
  unfolding process_from reconcile_bpf_link remove_links update_program_attach_status
  process_links p ls d = finish (process_from 0 p ls d)
