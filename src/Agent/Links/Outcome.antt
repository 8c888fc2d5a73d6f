-- ===== src/Agent/Links/Outcome.antt =====
-- What reconcileBpfLink does to one link.
use bpfman_operator.Shared.{true, false, ℕ, Option, none, some, ◌≡◌, ◌≢◌, ◌↔◌, ◌⊎◌, arith}
use bpfman_operator.Api.Links.{
  Link, ap_attach_attached, ap_attach_not_attached, ap_attach_error, ap_detach_error,
}
use bpfman_operator.Agent.Bpfman.{AttachInfo, BpfmanClient}
use bpfman_operator.Agent.Links.{LinkOutcome, reconcile_bpf_link}

-- `o` is an allowed outcome of reconciling `l`.
pub record IsOutcome {D Daemon : Type 0} (l : Link D) (o : LinkOutcome D Daemon) : Type 0 where
  pub no_error : o.error ≡ none
  pub same_wish : o.link.should_attach ≡ l.should_attach
  pub same_uuid : o.link.uuid ≡ l.uuid
  pub same_details : o.link.details ≡ l.details
  pub wanted :
      l.should_attach ≡ true
      → (o.link.link_status ≡ ap_attach_attached) ⊎ (o.link.link_status ≡ ap_attach_error)
  pub unwanted :
      l.should_attach ≡ false
      → (o.link.link_status ≡ ap_attach_not_attached) ⊎ (o.link.link_status ≡ ap_detach_error)
  pub failed :
      (o.link.link_status ≡ ap_attach_error) ⊎ (o.link.link_status ≡ ap_detach_error)
      → o.link.link_id ≡ l.link_id
  pub has_id : o.link.link_status ≡ ap_attach_attached → o.link.link_id ≢ none
  pub removed :
      (o.remove ≡ true)
      ↔ ((l.should_attach ≡ false) × (o.link.link_status ≡ ap_attach_not_attached))

module _ (client : BpfmanClient) {D : Type 0} (attach_info : Link D → AttachInfo) where
  open client use {Daemon}

  -- Where reconcileBpfLink does not panic, it reports no error and leaves the link's wish, UUID and
  -- attach point; a wanted link ends attached, with an id, or in an attach error, an unwanted one not
  -- attached or in a detach error; on an error the link id stays; and the link is to be removed exactly
  -- if it is unwanted and not attached.
  pub reconcile_bpf_link-IsOutcome :
      (program_id : Option ℕ) (l : Link D) (d : Daemon) (o : LinkOutcome D Daemon)
      → reconcile_bpf_link client attach_info program_id l d ≡ some o
      → IsOutcome l o
  unfolding reconcile_bpf_link
  reconcile_bpf_link-IsOutcome program_id l d o h = record {
    no_error = ground arith;
    same_wish = ground arith;
    same_uuid = ground arith;
    same_details = ground arith;
    wanted = ground arith;
    unwanted = ground arith;
    failed = ground arith;
    has_id = ground arith;
    removed = ground arith;
  }

  -- reconcileBpfLink panics exactly when the link is wanted and the program has no id.
  pub reconcile_bpf_link-panic :
      (program_id : Option ℕ) (l : Link D) (d : Daemon)
      → (reconcile_bpf_link client attach_info program_id l d ≡ none)
        ↔ ((l.should_attach ≡ true) × (program_id ≡ none))
  unfolding reconcile_bpf_link
  reconcile_bpf_link-panic program_id l d = ground arith
