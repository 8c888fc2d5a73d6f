-- ===== src/Agent/Kinds/Again.antt =====
-- Reconciling an XDP program once more after a success: reconcileProgram with the reconciler of
-- controllers/bpfman-agent/cl_xdp_program.go.
use bpfman_operator.Shared.{
  Bool, true, false, ◌&&◌, ◌==◌, ℕ, Option, none, some, List, ◌≡◌, sym, ◌∙◌, All, Eq, refl,
  string_eq, int_eq, list_eq, option_eq, beq→eq, nat_eq, ap,
}
use bpfman_operator.Api.Links.{Link, prog_attach_success}
use bpfman_operator.Agent.Bpfman.{Error, BpfmanClient}
use bpfman_operator.Agent.NetNs.{net_ns_path}
use bpfman_operator.Agent.Links.Steady.{IsKeeping}
use bpfman_operator.Agent.Update.{update_links, reconcile_program}
use bpfman_operator.Agent.Update.Wanted.{AreDistinct}
use bpfman_operator.Agent.Update.Settled.{IsEuclidean}
use bpfman_operator.Agent.Update.Again.{IsListed, reconcile_program-again}
use bpfman_operator.Agent.Kinds.{AgentEnv, AgentState}
use bpfman_operator.Agent.Kinds.Source.{IsGood, netns_matching}
use bpfman_operator.Agent.Kinds.Xdp.{
  ClXdpAttachInfo, XdpDetails, xdp_same_fields, cl_xdp_source, cl_xdp_matching, cl_xdp_attach_info,
}

-- What one value equals is equal, and so is what equals one value.
one_equals {ℓ} :
    {A : Type ℓ} ⦃e : Eq A⦄ (x y z : A) → (z == x) ≡ true → (z == y) ≡ true → (y == x) ≡ true
one_equals x y z h k = ap (λ w. w == x) (sym (beq→eq z y k)) ∙ h

equal_to_one {ℓ} :
    {A : Type ℓ} ⦃e : Eq A⦄ (x y z : A) → (x == z) ≡ true → (y == z) ≡ true → (x == y) ≡ true
equal_to_one x y z h k = ap (λ w. x == w) (beq→eq y z k) ∙ h

pub both_true : (a b : Bool) → (a && b) ≡ true → (a ≡ true) × (b ≡ true)
both_true true b h = (refl, h)
both_true false b h = cc

true_both : (a b : Bool) → a ≡ true → b ≡ true → (a && b) ≡ true
true_both a b h k = rw (h, k) refl

xdp_fields_one :
    (e d d' : XdpDetails)
    → xdp_same_fields e d ≡ true
    → xdp_same_fields e d' ≡ true
    → xdp_same_fields d' d ≡ true
unfolding xdp_same_fields
xdp_fields_one e d d' h k =
    let (i, rest) = both_true (e.interface_name == d.interface_name) _ h in
    let (p, o) = both_true (e.priority == d.priority) (e.proceed_on == d.proceed_on) rest in
    let (i', rest') = both_true (e.interface_name == d'.interface_name) _ k in
    let (p', o') = both_true (e.priority == d'.priority) (e.proceed_on == d'.proceed_on) rest' in
    true_both _ _ (one_equals d.interface_name d'.interface_name e.interface_name i i') (
      true_both _ _ (one_equals d.priority d'.priority e.priority p p')
        (one_equals d.proceed_on d'.proceed_on e.proceed_on o o'))

module _ (env : AgentEnv) where
  abbrev stat_id : XdpDetails → Option ℕ
  stat_id d = env.stat (net_ns_path d.netns_path)

  cl_xdp-IsEuclidean : IsEuclidean (cl_xdp_matching env)
  unfolding cl_xdp_matching netns_matching
  cl_xdp-IsEuclidean e d d' h k =
      let (f, n) = both_true (xdp_same_fields e d) _ h in
      let (f', n') = both_true (xdp_same_fields e d') _ k in
      true_both _ _ (xdp_fields_one e d d' f f')
        (equal_to_one (stat_id d) (stat_id d') (stat_id e) n n')

  module _ (client : BpfmanClient) (laws : IsKeeping client) (program_id : ℕ) where
    -- Once the reconciliation of a loaded cluster-scoped XDP program has ended in Success, reconciling the
    -- same entries again changes neither its links nor the daemon and ends in Success without an error, as
    -- long as the daemon lists all of the links. At both times the cache of namespaces agrees with the same
    -- file system, and the node has the same interfaces and containers; the links had distinct attach
    -- points at first, and the daemon keeps what it attached.
    pub cl_xdp_program-again :
        (infos : List ClXdpAttachInfo) (ls ls' : List (Link XdpDetails)) (s s1 s' : AgentState)
        (d d1 d' : client.Daemon) (error : Option Error)
        → IsGood env s
        → IsGood env s'
        → AreDistinct (cl_xdp_matching env) ls
        → reconcile_program
            (cl_xdp_source env)
            client
            cl_xdp_attach_info
            false
            (some program_id)
            infos
            ls
            s
            d
          ≡ some (ls', prog_attach_success, error, s1, d1)
        → All (IsListed (cl_xdp_matching env) client laws cl_xdp_attach_info program_id d') ls'
        → reconcile_program
            (cl_xdp_source env)
            client
            cl_xdp_attach_info
            false
            (some program_id)
            infos
            ls'
            s'
            d'
          ≡ some (
            ls',
            prog_attach_success,
            none,
            (update_links (cl_xdp_source env) false infos ls' s').2,
            d',
          )
    unfolding cl_xdp_matching
    cl_xdp_program-again infos ls ls' s s1 s' d d1 d' error g g' h done listed =
        reconcile_program-again (cl_xdp_matching env) client laws cl_xdp_attach_info program_id
          infos ls ls' s s1 s' d d1 d' error cl_xdp-IsEuclidean g g' h done listed
