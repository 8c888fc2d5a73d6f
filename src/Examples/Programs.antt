-- ===== src/Examples/Programs.antt =====
-- Updating and reconciling concrete programs.
use bpfman_operator.Shared.{
  arith, string_eq, int_eq, true, false, pos, none, some, List, [], ◌∷◌, ◌≡◌, ◌≢◌, ◌↔◌, refl,
}
use bpfman_operator.Api.Links.{Link, ap_attach_attached, prog_attach_success}
use bpfman_operator.Agent.Interfaces.{discovered_eq}
use bpfman_operator.Agent.Links.{process_links}
use bpfman_operator.Agent.Update.{
  update_links, update_each, add_links, add_found, reconcile_program,
}
use bpfman_operator.Agent.Update.Frame.{Extends, update_links-Extends}
use bpfman_operator.Agent.Update.Panic.{IsFatal, reconcile_program-panic}
use bpfman_operator.Agent.Update.Settled.{IsEuclidean}
use bpfman_operator.Agent.Update.Again.{reconcile_program-again}
use bpfman_operator.Agent.Kinds.{new_links}
use bpfman_operator.Agent.Kinds.Plain.{plain_source, plain_matching}
use bpfman_operator.Agent.Kinds.Probes.{
  KprobeDetails, kprobe_source, kprobe_matching, kprobe_attach_request, kprobe_same_fields,
}
use bpfman_operator.Examples.Links.{daemon-IsKeeping}
use bpfman_operator.Examples.{daemon, node, idle, link}

abbrev entry : KprobeDetails
entry = record { function = "do_exec"; offset = pos 0 }

abbrev other : KprobeDetails
other = record { function = "do_exit"; offset = pos 0 }

abbrev old_links : List (Link KprobeDetails)
old_links = link true (some 0) ap_attach_attached other ∷ []

update_links-Extends_example :
    Extends old_links (update_links (kprobe_source node) false (entry ∷ []) old_links idle).0
update_links-Extends_example =
    update_links-Extends (kprobe_source node) false (entry ∷ []) old_links idle

kprobe_test :
    reconcile_program
      (kprobe_source node)
      daemon
      kprobe_attach_request
      false
      (some 5)
      (entry ∷ [])
      old_links
      idle
      (0 ∷ [])
    ≡ some (
      link true (some 0) ap_attach_attached entry ∷ [],
      prog_attach_success,
      none,
      record idle { uuids = 1 },
      0 ∷ [],
    )
unfolding reconcile_program kprobe_source update_links update_each plain_source process_links
    add_links new_links add_found
kprobe_test = refl

kprobe_euclidean : IsEuclidean (kprobe_matching node)
unfolding kprobe_matching plain_matching kprobe_same_fields
kprobe_euclidean e d d' h k =
    let ff = string_eq.beq_iff d'.function d.function in
    let fe = string_eq.beq_iff d.function e.function in
    let fe' = string_eq.beq_iff d'.function e.function in
    let oo = int_eq.beq_iff d'.offset d.offset in
    let oe = int_eq.beq_iff d.offset e.offset in
    let oe' = int_eq.beq_iff d'.offset e.offset in ground (arith, h, k, ff, fe, fe', oo, oe, oe')

reconcile_program-again_example :
    reconcile_program
      (kprobe_source node)
      daemon
      kprobe_attach_request
      false
      (some 5)
      (entry ∷ [])
      (link true (some 0) ap_attach_attached entry ∷ [])
      idle
      (0 ∷ [])
    ≡ some (
      link true (some 0) ap_attach_attached entry ∷ [],
      prog_attach_success,
      none,
      (update_links
          (kprobe_source node)
          false
          (entry ∷ [])
          (link true (some 0) ap_attach_attached entry ∷ [])
          idle).2,
      0 ∷ [],
    )
unfolding kprobe_matching
reconcile_program-again_example =
    reconcile_program-again (kprobe_matching node) daemon daemon-IsKeeping kprobe_attach_request 5
      (entry ∷ []) old_links (link true (some 0) ap_attach_attached entry ∷ []) idle
      (record idle { uuids = 1 }) idle (0 ∷ []) (0 ∷ []) (0 ∷ []) none kprobe_euclidean tt tt
      (tt, tt) kprobe_test ((0, refl, (0 ∷ [], refl, refl)), tt)

reconcile_program-panic_example :
    ((reconcile_program
          (kprobe_source node)
          daemon
          kprobe_attach_request
          false
          none
          (entry ∷ [])
          old_links
          idle
          []
        ≡ none)
      ↔ IsFatal
          (kprobe_source node)
          daemon
          kprobe_attach_request
          none
          (update_links (kprobe_source node) false (entry ∷ []) old_links idle))
    × (reconcile_program
          (kprobe_source node)
          daemon
          kprobe_attach_request
          true
          none
          (entry ∷ [])
          old_links
          idle
          []
        ≢ none)
reconcile_program-panic_example =
    reconcile_program-panic (kprobe_source node) daemon kprobe_attach_request none (entry ∷ [])
      old_links idle []
