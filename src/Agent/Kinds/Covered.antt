-- ===== src/Agent/Kinds/Covered.antt =====
-- What a Success means for an XDP program, by the fields of its entries: getExpectedLinks, findLink and
-- getAttachRequest of controllers/bpfman-agent/cl_xdp_program.go under reconcileProgram.
use bpfman_operator.Shared.{
  Bool, true, false, ◌&&◌, ◌==◌, ℕ, zero, suc, ℤ, pos, String, Option, none, some, List, [], ◌∷◌,
  ◌++◌, map, ◌≡◌, inl, inr, refl, sym, ap, subst, ◌∙◌, arith, All, keep, any, get_elem?, string_eq,
  int_eq, list_eq, option_eq, nat_eq, beq→eq, Bool-cases, Option-cases, if◌then◌else◌,
}
use bpfman_operator.Api.Links.{
  Link, prog_attach_success, update_attach_info_error, ap_attach_attached, link_status_eq,
}
use bpfman_operator.Agent.Bpfman.{
  Error, ok, Result-cases, BpfmanClient, AttachInfo, xdp_attach_info,
}
use bpfman_operator.Agent.NetNs.{net_ns_path}
use bpfman_operator.Agent.Links.Status.{IsAttached}
use bpfman_operator.Agent.Update.{LinkSource, update_links, reconcile_program, after_update}
use bpfman_operator.Agent.Update.Matching.{Matching, all_expected}
use bpfman_operator.Agent.Update.Wanted.{AreDistinct}
use bpfman_operator.Agent.Update.Attached.{is_attached_in}
use bpfman_operator.Agent.Update.Steady.{first_failure, update_links-error}
use bpfman_operator.Agent.Kinds.{AgentEnv, AgentState, get_priority, AttachPoint, cl_attach_points}
use bpfman_operator.Agent.Kinds.Points.{
  All-at, All-front, All-unmap, IsNamed, IsUndiscovered, IsNetNs, HasPoint, entry-point,
}
use bpfman_operator.Agent.Kinds.Source.{IsGood, netns_matching}
use bpfman_operator.Agent.Kinds.Xdp.{
  ClXdpAttachInfo, XdpDetails, xdp_same_fields, xdp_proceed_on_to_int, cl_xdp_source,
  cl_xdp_matching, cl_xdp_attach_info, cl_xdp_details, map_points,
}
use bpfman_operator.Agent.Kinds.Again.{both_true}
use bpfman_operator.Agent.Kinds.Attached.{cl_xdp_program-AreAttached}

module _ {ℓ κ} {A : Type ℓ} (Holds : A → Type κ) where
  kept-All :
      (p : A → Bool) (xs : List A) → All Holds (keep p xs) → All (λ x. p x ≡ true → Holds x) xs
  kept-All p [] h = tt
  kept-All p (x ∷ xs) h = elim (Bool-cases (p x)) [
    | inl e ↦ let h' : All Holds (x ∷ keep p xs) = rw e at h in ((λ _. h'.0), kept-All p xs h'.1)
    | inr e ↦
        let h' : All Holds (keep p xs) = rw e at h in
        ((λ yes. (let clash : true ≡ false = sym yes ∙ e in cc)), kept-All p xs h')
  ]

any-at {ℓ} :
    {A : Type ℓ} (p : A → Bool) (xs : List A)
    → any p xs ≡ true
    → (i : ℕ) × (x : A) × (get_elem? xs i ≡ some x) × (p x ≡ true)
any-at p [] h = cc
any-at p (x ∷ xs) h = elim (Bool-cases (p x)) [
  | inl e ↦ (0, x, refl, e)
  | inr e ↦ let (i, y, there, e') = any-at p xs (ground (arith, h, e)) in (suc i, y, there, e')
]

module _ {S A D : Type 0} {source : LinkSource S A D} (m : Matching source) where
  by_place :
      (Holds : D → Type 0) (b : A) (infos : List A) (k : ℕ) (a : A) (ds : List D)
      → m.expected b ≡ ok ds
      → All Holds (keep m.valid ds)
      → get_elem? (b ∷ infos) k ≡ some a
      → ((j : ℕ)
          → get_elem? infos j ≡ some a
          → (es : List D) × (m.expected a ≡ ok es) × All Holds (keep m.valid es))
      → (es : List D) × (m.expected a ≡ ok es) × All Holds (keep m.valid es)
  by_place Holds b infos zero a ds expands here e next =
      (let same : b ≡ a = cc in (ds, ap m.expected (sym same) ∙ expands, here))
  by_place Holds b infos (suc k) a ds expands here e next = next k e

  -- What holds of all attach points asked for holds of the valid ones of an entry, if all entries expand.
  expected-at :
      (Holds : D → Type 0) (infos : List A) (k : ℕ) (a : A)
      → first_failure m infos ≡ none
      → All Holds (all_expected m infos)
      → get_elem? infos k ≡ some a
      → (ds : List D) × (m.expected a ≡ ok ds) × All Holds (keep m.valid ds)
  expected-at Holds [] k a f h e = cc
  expected-at Holds (b ∷ infos) k a f h e = elim (Result-cases (m.expected b)) [
    | inl (x, failed) ↦ (let clash : some x ≡ none = rw (failed, first_failure) at f in cc)
    | inr (ds, expands) ↦
        let f' : first_failure m infos ≡ none = rw (expands, first_failure) at f in
        let h' : All Holds (keep m.valid ds ++ all_expected m infos) =
          rw (expands, all_expected) at h in
        let (here, later) = All-front Holds (keep m.valid ds) (all_expected m infos) h' in
        by_place Holds b infos k a ds expands here e
          (λ j e'. expected-at Holds infos j a f' later e')
  ]

  success-expands :
      (client : BpfmanClient) (attach_info : Link D → AttachInfo) (program_id : Option ℕ)
      (u : List (Link D) × Option Error × S) (d : client.Daemon) (ls' : List (Link D))
      (error : Option Error) (s' : S) (d' : client.Daemon)
      → after_update source client attach_info program_id u d
        ≡ some (ls', prog_attach_success, error, s', d')
      → u.1 ≡ none
  success-expands client attach_info program_id (us, some e, s) d ls' error s' d' h =
      (let clash : update_attach_info_error ≡ prog_attach_success = cc in cc)
  success-expands client attach_info program_id (us, none, s) d ls' error s' d' h = refl

module _ (env : AgentEnv) where
  -- The entry's priority and the attributes of the link's request.
  abbrev priority_of : ClXdpAttachInfo → ℤ
  priority_of info = elim info.priority [ none ↦ pos 1000 | some priority ↦ priority ]

  -- The link is on the interface in the network namespace that the path leads to, with the entry's
  -- priority and proceedOn, and so is the request that attaches it.
  abbrev IsLinkOf : ClXdpAttachInfo → (iface path : String) → Link XdpDetails → Type 0
  IsLinkOf info iface path l =
      (l.details.interface_name ≡ iface)
      × (l.details.priority ≡ priority_of info)
      × (l.details.proceed_on ≡ info.proceed_on)
      × (env.stat (net_ns_path l.details.netns_path) ≡ env.stat (net_ns_path path))
      × (cl_xdp_attach_info l
          ≡ xdp_attach_info (record {
            priority = priority_of info;
            iface = iface;
            proceed_on = xdp_proceed_on_to_int info.proceed_on;
            uuid = l.uuid;
            netns = if l.details.netns_path == "" then none else some l.details.netns_path;
          }))

  -- An attached link stands for the interface and the network namespace.
  abbrev pub IsCovered : ClXdpAttachInfo → (iface path : String) → List (Link XdpDetails) → Type 0
  IsCovered info iface path ls =
      (i : ℕ) × (l : Link XdpDetails) × (get_elem? ls i ≡ some l)
      × IsAttached l
      × IsLinkOf info iface path l

  priority_same : (info : ClXdpAttachInfo) → get_priority info.priority ≡ priority_of info
  unfolding get_priority
  priority_same info = elim (Option-cases info.priority) [
    | inl e ↦ rw (e, get_priority, priority_of) refl
    | inr (p, e) ↦ rw (e, get_priority, priority_of) refl
  ]

  request-eq :
      (info : ClXdpAttachInfo) (iface : String) (l : Link XdpDetails)
      → l.details.interface_name ≡ iface
      → l.details.priority ≡ priority_of info
      → l.details.proceed_on ≡ info.proceed_on
      → cl_xdp_attach_info l
        ≡ xdp_attach_info (record {
          priority = priority_of info;
          iface = iface;
          proceed_on = xdp_proceed_on_to_int info.proceed_on;
          uuid = l.uuid;
          netns = if l.details.netns_path == "" then none else some l.details.netns_path;
        })
  unfolding cl_xdp_attach_info
  request-eq info iface l i p o =
      let request = λ (name : String) (priority : ℤ) (proceed_on : Option (List String)).
        xdp_attach_info (record {
          priority = priority;
          iface = name;
          proceed_on = xdp_proceed_on_to_int proceed_on;
          uuid = l.uuid;
          netns = if l.details.netns_path == "" then none else some l.details.netns_path;
        }) in
      ap (λ name. request name l.details.priority l.details.proceed_on) i
      ∙ (ap (λ priority. request iface priority l.details.proceed_on) p
          ∙ ap (λ proceed_on. request iface (priority_of info) proceed_on) o)

  same-IsLinkOf :
      (info : ClXdpAttachInfo) (iface path : String) (l : Link XdpDetails)
      → (cl_xdp_matching env).same (cl_xdp_details info (iface, path)) l.details ≡ true
      → IsLinkOf info iface path l
  unfolding cl_xdp_matching netns_matching xdp_same_fields cl_xdp_attach_info get_priority
  same-IsLinkOf info iface path l h =
      let want = cl_xdp_details info (iface, path) in
      let (fields, netns) = both_true (xdp_same_fields want l.details) _ h in
      let (i, rest) = both_true (iface == l.details.interface_name) _ fields in
      let (p, o) =
        both_true (want.priority == l.details.priority) (info.proceed_on == l.details.proceed_on)
          rest in
      let iface_eq = sym (beq→eq iface l.details.interface_name i) in
      let priority_eq : l.details.priority ≡ priority_of info =
        sym (beq→eq want.priority l.details.priority p) ∙ priority_same info in
      let proceed_eq = sym (beq→eq info.proceed_on l.details.proceed_on o) in
      (
        iface_eq,
        priority_eq,
        proceed_eq,
        beq→eq (env.stat (net_ns_path l.details.netns_path)) (env.stat (net_ns_path path)) netns,
        request-eq info iface l iface_eq priority_eq proceed_eq,
      )

  attached-IsCovered :
      (info : ClXdpAttachInfo) (iface path : String) (ls : List (Link XdpDetails))
      → All IsAttached ls
      → is_attached_in (cl_xdp_matching env) ls (cl_xdp_details info (iface, path)) ≡ true
      → IsCovered info iface path ls
  attached-IsCovered info iface path ls attached h =
      let (i, l, there, test) =
        any-at
          (λ (l : Link XdpDetails).
            l.link_status == ap_attach_attached
            && (cl_xdp_matching env).same (cl_xdp_details info (iface, path)) l.details)
          ls h in
      (
        i,
        l,
        there,
        All-at IsAttached ls i l attached there,
        same-IsLinkOf info iface path l (ground (arith, test)),
      )

  expected-details :
      (Holds : XdpDetails → Type 0) (info : ClXdpAttachInfo) (ds : List XdpDetails)
      (point : AttachPoint)
      → (cl_xdp_matching env).expected info ≡ ok ds
      → All Holds ds
      → HasPoint env (cl_attach_points env info.interface_selector info.network_namespaces) point
      → Holds (cl_xdp_details info point)
  unfolding cl_xdp_matching netns_matching
  expected-details Holds info ds point e h (points, expands, has) =
      let e' : ok (map (cl_xdp_details info) points) ≡ ok ds =
        sym (ap (map_points (cl_xdp_details info)) expands) ∙ e in
      let same : map (cl_xdp_details info) points ≡ ds = cc in
      has (λ p. Holds (cl_xdp_details info p))
        (All-unmap Holds (cl_xdp_details info) points (subst (All Holds) (sym same) h))

  resolved-valid :
      (info : ClXdpAttachInfo) (iface path : String) (id : ℕ)
      → env.stat (net_ns_path path) ≡ some id
      → (cl_xdp_matching env).valid (cl_xdp_details info (iface, path)) ≡ true
  unfolding cl_xdp_matching netns_matching
  resolved-valid info iface path id h = rw h refl

  -- A cluster-scoped XDP program whose reconciliation ends in Success has, for every entry without
  -- discovery, every interface that the entry's list names (or the primary one, if it asks for that and
  -- has no list), and the host's network namespace or that of the first container of every pod that the
  -- entry selects, if the node resolves it: an attached link on that interface, in that namespace, with
  -- the entry's priority (1000 by default) and proceedOn, and these are what its request asks for. The
  -- cache of namespaces agreed with the file system, and the links had distinct attach points before.
  pub cl_xdp_program-covers :
      (client : BpfmanClient) (program_id : Option ℕ) (infos : List ClXdpAttachInfo)
      (ls : List (Link XdpDetails)) (s : AgentState) (d : client.Daemon)
      (ls' : List (Link XdpDetails)) (error : Option Error) (s' : AgentState) (d' : client.Daemon)
      (k : ℕ) (info : ClXdpAttachInfo) (iface path : String) (id : ℕ)
      → IsGood env s
      → AreDistinct (cl_xdp_matching env) ls
      → reconcile_program
          (cl_xdp_source env)
          client
          cl_xdp_attach_info
          false
          program_id
          infos
          ls
          s
          d
        ≡ some (ls', prog_attach_success, error, s', d')
      → get_elem? infos k ≡ some info
      → IsUndiscovered info.interface_selector.interfaces_discovery_config
      → IsNamed env info.interface_selector iface
      → IsNetNs env info.network_namespaces path
      → env.stat (net_ns_path path) ≡ some id
      → IsCovered info iface path ls'
  unfolding reconcile_program cl_xdp_matching netns_matching
  cl_xdp_program-covers client program_id infos ls s d ls' error s' d' k info iface path id g h done
        at off named ns resolved =
      let m = cl_xdp_matching env in
      let attached =
        cl_xdp_program-AreAttached env client program_id infos ls s d ls' error s' d' g h done in
      let u = update_links (cl_xdp_source env) false infos ls s in
      let no_error =
        success-expands m client cl_xdp_attach_info program_id u d ls' error s' d' done in
      let expands = sym (update_links-error m infos ls s g) ∙ no_error in
      let IsThere = λ (x : XdpDetails). is_attached_in m ls' x ≡ true in
      let (ds, expected, kept) = expected-at m IsThere infos k info expands attached.complete at in
      attached-IsCovered info iface path ls' attached.attached (
        expected-details (λ x. m.valid x ≡ true → IsThere x) info ds (iface, path) expected
          (kept-All IsThere m.valid ds kept)
          (entry-point env info.interface_selector info.network_namespaces iface path off named ns)
          (resolved-valid info iface path id resolved))
