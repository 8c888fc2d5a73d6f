-- ===== src/Agent/Links/First.antt =====
-- What reconcileBpfLink makes of a wanted link, over a daemon that keeps what it attached.
use bpfman_operator.Shared.{
  Bool, true, false, ℕ, Option, none, some, List, nat_eq, contains, ◌≡◌, ◌⊎◌, inl, inr, refl, sym,
  ap, subst, ◌∙◌, Bool-cases,
}
use bpfman_operator.Api.Links.{Link, ap_attach_attached, ap_attach_error}
use bpfman_operator.Agent.Bpfman.{AttachInfo, BpfmanClient}
use bpfman_operator.Agent.Links.{
  LinkOutcome, set_current_link_status, set_link_id, does_link_exist, links_contain, is_attached,
  attach_link, attached, reconcile_case, outcome, reconcile_bpf_link,
}
use bpfman_operator.Agent.Links.Steady.{IsLive, IsKeeping, IsSteady}

module _ (client : BpfmanClient) (laws : IsKeeping client) {D : Type 0}
    (attach_info : Link D → AttachInfo) (program_id : ℕ) where
  open client use {Daemon}

  abbrev Live : Daemon → ℕ → Type 0
  Live d link_id = IsLive client d program_id link_id

  abbrev Steady : Daemon → Link D → Type 0
  Steady = IsSteady client laws attach_info program_id

  -- Nothing is lost from the first daemon to the second.
  abbrev pub Stays : Daemon → Daemon → Type 0
  Stays d d' = (link_id : ℕ) → Live d link_id → Live d' link_id

  -- What the first run makes of a wanted link.
  abbrev pub IsFirst : Daemon → LinkOutcome D Daemon → Type 0
  IsFirst d o =
      (Steady o.daemon o.link ⊎ (o.link.link_status ≡ ap_attach_error))
      × Stays d o.daemon
      × (o.remove ≡ false)

  attached-IsFirst :
      (l : Link D) (d : Daemon) (r : Option ℕ × Daemon) (o : LinkOutcome D Daemon)
      → l.should_attach ≡ true
      → client.attach (record { id = program_id; attach = attach_info l }) d ≡ r
      → outcome client attach_info true (some (attached client attach_info r.0 l, r.1)) ≡ some o
      → IsFirst d o
  attached-IsFirst l d (none, d') o wanted made h =
      let same : record {
        remove = false;
        error = none;
        link = set_current_link_status ap_attach_error l;
        daemon = d';
      }
          ≡ o =
        cc in
      subst (IsFirst d) same (
        inr refl,
        λ link_id live.
            subst (λ e. Live e link_id) (ap (λ r. r.1) made)
              (laws.keeps (record { id = program_id; attach = attach_info l }) d program_id link_id
                live),
        refl,
      )
  attached-IsFirst l d (some id, d') o wanted made h =
      let same : record {
        remove = false;
        error = none;
        link = set_current_link_status ap_attach_attached (set_link_id (some id) l);
        daemon = d';
      }
          ≡ o =
        cc in
      subst (IsFirst d) same (
        inl (record {
          wanted = wanted;
          status = refl;
          id = id;
          has_id = refl;
          live = laws.attaches (record { id = program_id; attach = attach_info l }) d d' id made;
        }),
        λ link_id live.
            subst (λ e. Live e link_id) (ap (λ r. r.1) made)
              (laws.keeps (record { id = program_id; attach = attach_info l }) d program_id link_id
                live),
        refl,
      )

  -- The link's id, if isAttached finds it.
  abbrev Found : Link D → Daemon → Bool × Daemon → Type 0
  Found l d (true, d') = (d' ≡ d) × ((id : ℕ) × (l.link_id ≡ some id) × Live d id)
  Found l d (false, d') = d' ≡ d

  case-IsFirst :
      (l : Link D) (d : Daemon) (r : Bool × Daemon) (o : LinkOutcome D Daemon)
      → l.should_attach ≡ true
      → Found l d r
      → outcome client attach_info true
          (reconcile_case client attach_info true r.0 (some program_id) l r.1)
        ≡ some o
      → IsFirst d o
  unfolding reconcile_case attach_link
  case-IsFirst l d (true, d') o wanted (same, (id, has_id, live)) h =
      let built : record {
        remove = false;
        error = none;
        link = set_current_link_status ap_attach_attached l;
        daemon = d';
      }
          ≡ o =
        cc in
      subst (IsFirst d) built (
        inl (record {
          wanted = wanted;
          status = refl;
          id = id;
          has_id = has_id;
          live = subst (λ e. Live e id) (sym same) live;
        }),
        λ link_id there. subst (λ e. Live e link_id) (sym same) there,
        refl,
      )
  case-IsFirst l d (false, d') o wanted same h =
      subst (λ e. IsFirst e o) same
        (attached-IsFirst l d'
          (client.attach (record { id = program_id; attach = attach_info l }) d') o wanted refl h)

  exists-Found :
      (l : Link D) (d e : Daemon) (id : ℕ) (r : Option (List ℕ))
      → l.link_id ≡ some id
      → (client.get program_id d).0 ≡ r
      → e ≡ d
      → Found l d (links_contain client attach_info id r, e)
  exists-Found l d e id none has_id listed same = same
  exists-Found l d e id (some links) has_id listed same = elim (Bool-cases (contains id links)) [
    | inl c ↦ rw c (same, (id, has_id, (links, listed, c)))
    | inr c ↦ rw c same
  ]

  is_attached-Found :
      (l : Link D) (d : Daemon) (link_id : Option ℕ)
      → l.link_id ≡ link_id
      → Found l d (is_attached client attach_info (some program_id) link_id d)
  unfolding is_attached does_link_exist
  is_attached-Found l d none same = refl
  is_attached-Found l d (some id) same =
      exists-Found l d (client.get program_id d).1 id (client.get program_id d).0 same refl
        (laws.reads program_id d)

  pub reconcile-IsFirst :
      (l : Link D) (d : Daemon) (o : LinkOutcome D Daemon)
      → l.should_attach ≡ true
      → reconcile_bpf_link client attach_info (some program_id) l d ≡ some o
      → IsFirst d o
  unfolding reconcile_bpf_link
  reconcile-IsFirst l d o wanted h =
      let r = is_attached client attach_info (some program_id) l.link_id d in
      case-IsFirst l d r o wanted (is_attached-Found l d l.link_id refl) (
        ap
          (λ b.
            outcome client attach_info b
              (reconcile_case client attach_info b r.0 (some program_id) l r.1))
          (sym wanted)
        ∙ h)
