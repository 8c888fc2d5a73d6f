-- ===== src/Examples/Links.antt =====
-- Reconciling concrete links.
use bpfman_operator.Shared.{
  true, false, ℕ, String, Option, none, some, [], ◌∷◌, ◌≡◌, refl, sym, ap, subst, arith, contains,
  length, nat_eq, All, ◌↔◌,
}
use bpfman_operator.Api.Links.{
  Link, ap_attach_attached, ap_attach_not_attached, prog_attach_success,
}
use bpfman_operator.Agent.Links.{LinkOutcome, reconcile_bpf_link, process_links}
use bpfman_operator.Agent.Links.Removal.{process_links-eq, reconcile_all, report}
use bpfman_operator.Agent.Links.Status.{IsSettled, IsAttached, process_links_status}
use bpfman_operator.Agent.Links.Steady.{IsKeeping}
use bpfman_operator.Agent.Links.Again.{process_links-again}
use bpfman_operator.Examples.{daemon, link, by_uuid}

abbrev wanted : Link String
wanted = link true none ap_attach_not_attached "wanted"

abbrev no_id : Option ℕ
no_id = none

abbrev attached : Link String
attached = link true (some 0) ap_attach_attached "wanted"

abbrev unwanted : Link String
unwanted = link false (some 3) ap_attach_attached "unwanted"

abbrev attached_outcome : LinkOutcome String (daemon.Daemon)
attached_outcome = record { remove = false; error = none; link = attached; daemon = 0 ∷ [] }

attach_test : reconcile_bpf_link daemon by_uuid (some 5) wanted [] ≡ some attached_outcome
unfolding reconcile_bpf_link
attach_test = refl

process_test :
    process_links daemon by_uuid (some 5) (unwanted ∷ wanted ∷ []) (3 ∷ [])
    ≡ some (attached ∷ [], prog_attach_success, none, 0 ∷ [])
unfolding process_links
process_test = refl

wanted_test :
    process_links daemon by_uuid (some 5) (wanted ∷ []) []
    ≡ some (attached ∷ [], prog_attach_success, none, 0 ∷ [])
unfolding process_links
wanted_test = refl

some_inj : (a b : ℕ) → some a ≡ some b → a ≡ b
some_inj a b h = cc

process_links-eq_example :
    process_links daemon by_uuid (some 5) (unwanted ∷ wanted ∷ []) (3 ∷ [])
    ≡ report daemon by_uuid
        (reconcile_all daemon by_uuid (some 5) (unwanted ∷ wanted ∷ []) (3 ∷ []))
process_links-eq_example =
    process_links-eq daemon by_uuid (some 5) (unwanted ∷ wanted ∷ []) (3 ∷ [])

process_links_status_example :
    All IsSettled (attached ∷ [])
    × ((prog_attach_success ≡ prog_attach_success) ↔ All IsAttached (attached ∷ []))
process_links_status_example =
    process_links_status daemon by_uuid (some 5) (unwanted ∷ wanted ∷ []) (3 ∷ []) process_test

pub daemon-IsKeeping : IsKeeping daemon
daemon-IsKeeping = record {
  reads = λ program_id d. refl;
  attaches = λ request d d' link_id made. (
    d',
    refl,
    subst (λ links. contains link_id links ≡ true) (ap (λ r. r.1) made)
        (ground (arith, some_inj (length d) link_id (ap (λ r. r.0) made))),
  );
  keeps = λ request d program_id link_id (links, listed, live). (
    length d ∷ d,
    refl,
    (let same : d ≡ links = cc in
        ground (arith, subst (λ ls. contains link_id ls ≡ true) (sym same) live)),
  );
}

process_links-again_example :
    process_links daemon by_uuid (some 5) (attached ∷ []) (0 ∷ [])
    ≡ some (attached ∷ [], prog_attach_success, none, 0 ∷ [])
process_links-again_example =
    process_links-again daemon daemon-IsKeeping by_uuid 5 (wanted ∷ []) (attached ∷ []) [] (0 ∷ [])
      none (refl, tt) wanted_test
