-- ===== src/Agent/Update.antt =====
-- Computing the wanted links of one program: updateLinks, as each `*_program.go` under
-- controllers/bpfman-agent repeats it, and reconcileProgram of common.go, which runs it before
-- processLinks.
pub mod Matching
pub mod Frame
pub mod Panic
pub mod Wanted
pub mod Attached
pub mod Known
pub mod Settled
pub mod Steady
pub mod Again
use bpfman_operator.Shared.{
  Bool, true, false, ℕ, zero, suc, Option, none, some, List, [], ◌∷◌, ◌++◌, map, if◌then◌else◌,
}
use bpfman_operator.Api.Links.{ProgramLinkStatus, update_attach_info_error, Link}
use bpfman_operator.Agent.Bpfman.{Error, Result, ok, err, AttachInfo, BpfmanClient}
use bpfman_operator.Agent.Links.{set_should_attach, process_links}

-- What a kind of program provides: getExpectedLinks for one entry `A` of the spec, and findLink.
-- `S` is the agent's state that they use: the network namespace cache and the source of UUIDs.
pub record LinkSource (S A D : Type 0) : Type 0 where
  pub get_expected_links : A → S → Result (List (Link D)) × S
  pub find_link : List (Link D) → Link D → S → Result (Option ℕ) × S

module _ {D : Type 0} where
  -- `links[i].ShouldAttach = true`
  unfoldable pub mark : ℕ → List (Link D) → List (Link D)
  mark i [] = []
  mark zero (l ∷ ls) = set_should_attach true l ∷ ls
  mark (suc i) (l ∷ ls) = l ∷ mark i ls

  -- An invalid link is skipped, a known one is marked, and a new one is added at the end.
  unfoldable pub add_found : Result (Option ℕ) → Link D → List (Link D) → List (Link D)
  unfolding mark
  add_found (err e) link ls = ls
  add_found (ok (some i)) link ls = mark i ls
  add_found (ok none) link ls = ls ++ link ∷ []

module _ {S A D : Type 0} (source : LinkSource S A D) where
  -- The inner loop, over the expected links of one entry.
  unfoldable pub add_links : List (Link D) → List (Link D) → S → List (Link D) × S
  add_links [] ls s = (ls, s)
  add_links (link ∷ expected) ls s =
      let (found, s') = source.find_link ls link s in
      add_links expected (add_found found link ls) s'

  -- The outer loop. On an error the links updated so far stay.
  unfoldable pub update_each : List A → List (Link D) → S → List (Link D) × Option Error × S
  update_each [] ls s = (ls, none, s)
  update_each (info ∷ infos) ls s =
      let (expected, s') = source.get_expected_links info s in
      elim expected [
        | err e ↦ (ls, some e, s')
        | ok links ↦ let (ls', s'') = add_links links ls s' in update_each infos ls' s''
      ]

  -- updateLinks
  unfoldable pub update_links : Bool → List A → List (Link D) → S → List (Link D) × Option Error × S
  update_links is_being_deleted infos ls s =
      let cleared = map (set_should_attach false) ls in
      if is_being_deleted then (cleared, none, s) else update_each infos cleared s

  module _ (client : BpfmanClient) (attach_info : Link D → AttachInfo) where
    open client use {Daemon}

    abbrev pub processed :
        S
        → Option (List (Link D) × ProgramLinkStatus × Option Error × Daemon)
        → Option (List (Link D) × ProgramLinkStatus × Option Error × S × Daemon)
    processed s none = none
    processed s (some (ls, status, error, d)) = some (ls, status, error, s, d)

    abbrev pub after_update :
        Option ℕ
        → List (Link D) × Option Error × S
        → Daemon
        → Option (List (Link D) × ProgramLinkStatus × Option Error × S × Daemon)
    after_update program_id (ls, some e, s) d = some (ls, update_attach_info_error, some e, s, d)
    after_update program_id (ls, none, s) d =
        processed s (process_links client attach_info program_id ls d)

    -- reconcileProgram. `none` is a panic.
    unfoldable pub reconcile_program :
        Bool
        → Option ℕ
        → List A
        → List (Link D)
        → S
        → Daemon
        → Option (List (Link D) × ProgramLinkStatus × Option Error × S × Daemon)
    unfolding update_links
    reconcile_program is_being_deleted program_id infos ls s d =
        after_update program_id (update_links is_being_deleted infos ls s) d
