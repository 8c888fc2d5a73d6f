-- ===== src/Agent/Links/Steady.antt =====
-- Attached links that the daemon lists, over a daemon that keeps what it attached: processLinks leaves
-- them as they are.
use bpfman_operator.Shared.{
  Bool, true, false, ℕ, Option, none, some, List, [], ◌∷◌, nat_eq, contains, All, ◌≡◌, refl, sym,
  ap, ap₂, ◌∙◌,
}
use bpfman_operator.Api.Links.{Link, ap_attach_attached}
use bpfman_operator.Agent.Bpfman.{AttachInfo, AttachRequest, BpfmanClient}
use bpfman_operator.Agent.Links.{
  set_current_link_status, does_link_exist, links_contain, is_attached, reconcile_case, outcome,
  reconcile_bpf_link,
}
use bpfman_operator.Agent.Links.Removal.{reconcile_all, add_kept}

-- The daemon lists the link for the program.
abbrev pub IsLive : (client : BpfmanClient) → client.Daemon → (program_id link_id : ℕ) → Type 0
IsLive client d program_id link_id =
    (links : List ℕ) × ((client.get program_id d).0 ≡ some links) × (contains link_id links ≡ true)

-- Get only reads, a link that was attached is listed, and an attach keeps the links that are listed.
pub record IsKeeping (client : BpfmanClient) : Type 0 where
  pub reads : (program_id : ℕ) (d : client.Daemon) → (client.get program_id d).1 ≡ d
  pub attaches :
      (request : AttachRequest) (d d' : client.Daemon) (link_id : ℕ)
      → client.attach request d ≡ (some link_id, d')
      → IsLive client d' request.id link_id
  pub keeps :
      (request : AttachRequest) (d : client.Daemon) (program_id link_id : ℕ)
      → IsLive client d program_id link_id
      → IsLive client (client.attach request d).1 program_id link_id

module _ (client : BpfmanClient) (laws : IsKeeping client) {D : Type 0}
    (attach_info : Link D → AttachInfo) (program_id : ℕ) where
  open client use {Daemon}

  abbrev pub Live : Daemon → ℕ → Type 0
  Live d link_id = IsLive client d program_id link_id

  -- A link that is wanted and attached, and that the daemon lists.
  pub record IsSteady (d : Daemon) (l : Link D) : Type 0 where
    pub wanted : l.should_attach ≡ true
    pub status : l.link_status ≡ ap_attach_attached
    pub id : ℕ
    pub has_id : l.link_id ≡ some id
    pub live : Live d id

  exists-again :
      (link_id : ℕ) (d : Daemon)
      → Live d link_id
      → does_link_exist client attach_info program_id link_id d ≡ (true, d)
  unfolding does_link_exist
  exists-again link_id d (links, listed, found) =
      ap₂ (λ (r : Option (List ℕ)) (e : Daemon). (links_contain client attach_info link_id r, e))
        listed (laws.reads program_id d)
      ∙ ap (λ (b : Bool). (b, d)) found

  steady-again :
      (l : Link D) (d : Daemon)
      → IsSteady d l
      → reconcile_bpf_link client attach_info (some program_id) l d
        ≡ some (record { remove = false; error = none; link = l; daemon = d })
  unfolding reconcile_bpf_link is_attached reconcile_case
  steady-again l d steady =
      let there : is_attached client attach_info (some program_id) l.link_id d ≡ (true, d) =
        ap (λ i. is_attached client attach_info (some program_id) i d) steady.has_id
        ∙ exists-again steady.id d steady.live in
      ap
        (λ (r : Bool × Daemon).
          outcome client attach_info l.should_attach
            (reconcile_case client attach_info l.should_attach r.0 (some program_id) l r.1))
        there
      ∙ (ap
            (λ b.
              outcome client attach_info b
                (reconcile_case client attach_info b true (some program_id) l d))
            steady.wanted
          ∙ ap
              (λ s. some (record {
                remove = false;
                error = none;
                link = set_current_link_status s l;
                daemon = d;
              }))
              (sym steady.status))

  pub steady-reconcile_all :
      (ls : List (Link D)) (d : Daemon)
      → All (IsSteady d) ls
      → reconcile_all client attach_info (some program_id) ls d ≡ some (ls, d)
  unfolding reconcile_all
  steady-reconcile_all [] d steady = refl
  steady-reconcile_all (l ∷ ls) d (steady, others) =
      rw (steady-again l d steady, reconcile_all)
        (ap
          (add_kept client attach_info
            (record { remove = false; error = none; link = l; daemon = d }))
          (steady-reconcile_all ls d others))
