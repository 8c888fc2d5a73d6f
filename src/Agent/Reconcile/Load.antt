-- ===== src/Agent/Reconcile/Load.antt =====
-- What reconcileLoad leaves when it returns no error: controllers/bpfman-agent/common.go.
use bpfman_operator.Shared.{
  Bool, true, false, String, Option, none, some, List, map, ◌≡◌, ◌↔◌, ◌⊎◌, inl, inr, refl, sym, ap,
  subst,
}
use bpfman_operator.Api.Conditions.{app_load_success, app_un_load_success, not_selected}
use bpfman_operator.Agent.Bpfman.{
  Error, Result, ok, BytecodeLocation, LoadRequest, LoadResponseInfo, BpfmanClient,
}
use bpfman_operator.Agent.App.{
  App, ProgramState, AppStateStatus, Scope, get_load_request, validate_program_list, is_loaded,
  load,
}
use bpfman_operator.Agent.App.Loading.{
  loaded_ids, unload_all, get_all, AllKnown, AllHaveId, without_program, unload-eq, is_loaded_iff,
  AllHaveIds, load-AllHaveIds, load-daemon,
}
use bpfman_operator.Agent.Reconcile.{
  reconcile_load, load_or_unload, load_valid, load_unless, after_load,
}

module _ {S : Type 0} (scope : Scope S) (client : BpfmanClient) where
  open scope use {P, I}
  open client use {Daemon}

  -- The daemon has been told to unload every program that had an id; none has one, and those
  -- that had one have lost their links.
  abbrev AreUnloaded : List (ProgramState I) → Daemon → List (ProgramState I) → Daemon → Type 0
  AreUnloaded olds d news d' =
      (news ≡ map (without_program scope client) olds)
      × (d' ≡ unload_all scope client (loaded_ids scope client olds) d)

  -- Every program has an id, and the daemon knows all of them.
  abbrev AreLoaded : List (ProgramState I) → Daemon → Type 0
  AreLoaded states d =
      AllHaveId scope client states × AllKnown scope client (loaded_ids scope client states) d

  module _ (uid : String) (app : App P) (bytecode : Result BytecodeLocation) where
    -- The daemon, asked about the programs, knew all; or it did not, and has loaded the application and
    -- given each program its id.
    abbrev BecomeLoaded : List (ProgramState I) → Daemon → List (ProgramState I) → Daemon → Type 0
    BecomeLoaded olds d news d' =
        let asked = get_all scope client (loaded_ids scope client olds) d in
        (AreLoaded olds d × (news ≡ olds) × (d' ≡ asked))
        ⊎ ((AreLoaded olds d → ⊥)
            × ((req : LoadRequest) × (response : List LoadResponseInfo) × (get_load_request scope
                    client uid app bytecode olds
                  ≡ ok req)
                × ((client.load req asked).0 ≡ some response)
                × (d' ≡ (client.load req asked).1)
                × AllHaveIds scope client response olds news))

    -- What is asked for, by whether the node is selected and the application deleted.
    abbrev pub IsSettled :
        Bool → Bool → AppStateStatus I → Daemon → AppStateStatus I × Option Error × Daemon → Type 0
    IsSettled false deleted old d (new, error, d') =
        AreUnloaded old.programs d new.programs d' × (new.app_load_status ≡ not_selected)
    IsSettled true true old d (new, error, d') =
        AreUnloaded old.programs d new.programs d' × (new.app_load_status ≡ app_un_load_success)
    IsSettled true false old d (new, error, d') =
        BecomeLoaded old.programs d new.programs d' × (new.app_load_status ≡ app_load_success)

    after_unload-AreUnloaded :
        (old : AppStateStatus I) (d : Daemon) (r : List (ProgramState I) × Daemon)
        → r ≡ (
          map (without_program scope client) old.programs,
          unload_all scope client (loaded_ids scope client old.programs) d,
        )
        → AreUnloaded old.programs d r.0 r.1
    after_unload-AreUnloaded old d r h = (ap (λ x. x.0) h, ap (λ x. x.1) h)

    after_load-IsSettled :
        (old : AppStateStatus I) (d : Daemon) (r : List (ProgramState I) × Option Error × Daemon)
        → (r.1 ≡ none → BecomeLoaded old.programs d r.0 r.2)
        → (after_load scope client old r).1 ≡ none
        → IsSettled true false old d (after_load scope client old r)
    after_load-IsSettled old d (programs, none, d') l h = (l refl, refl)
    after_load-IsSettled old d (programs, some e, d') l h = cc

    load-BecomeLoaded :
        (old : AppStateStatus I) (d : Daemon)
        → (AreLoaded old.programs d → ⊥)
        → let asked = get_all scope client (loaded_ids scope client old.programs) d in
          let r = load scope client uid app bytecode old.programs asked in
          r.1 ≡ none → BecomeLoaded old.programs d r.0 r.2
    load-BecomeLoaded old d fresh h =
        let asked = get_all scope client (loaded_ids scope client old.programs) d in
        let (req, response, hr, hl, ids) =
          load-AllHaveIds scope client uid app bytecode old.programs asked h in
        inr (
          fresh,
          (
            req,
            response,
            hr,
            hl,
            load-daemon scope client uid app bytecode old.programs asked req hr,
            ids,
          ),
        )

    load_unless-IsSettled :
        (r : Bool × Daemon) (old : AppStateStatus I) (d : Daemon)
        → (r.0 ≡ true) ↔ AreLoaded old.programs d
        → r.1 ≡ get_all scope client (loaded_ids scope client old.programs) d
        → (load_unless scope client r uid app bytecode old).1 ≡ none
        → IsSettled true false old d (load_unless scope client r uid app bytecode old)
    load_unless-IsSettled (true, d') old d known asked h = (inl (known.0 refl, refl, asked), refl)
    load_unless-IsSettled (false, d') old d known asked h =
        after_load-IsSettled old d (load scope client uid app bytecode old.programs d')
          (subst
            (λ x.
              (load scope client uid app bytecode old.programs x).1 ≡ none
              → BecomeLoaded old.programs d (load scope client uid app bytecode old.programs x).0
                  (load scope client uid app bytecode old.programs x).2)
            (sym asked) (load-BecomeLoaded old d (λ all. (let no = known.1 all in cc))))
          h

    load_valid-IsSettled :
        (r : Option Error) (old : AppStateStatus I) (d : Daemon)
        → (load_valid scope client r uid app bytecode old d).1 ≡ none
        → IsSettled true false old d (load_valid scope client r uid app bytecode old d)
    load_valid-IsSettled (some e) old d h = cc
    load_valid-IsSettled none old d h =
        let (known, asked) = is_loaded_iff scope client old.programs d in
        load_unless-IsSettled (is_loaded scope client old.programs d) old d known asked h

    load_or_unload-IsSettled :
        (deleted : Bool) (old : AppStateStatus I) (d : Daemon)
        → (load_or_unload scope client deleted uid app bytecode old d).1 ≡ none
        → IsSettled true deleted old d (load_or_unload scope client deleted uid app bytecode old d)
    load_or_unload-IsSettled true old d h =
        (after_unload-AreUnloaded old d _ (unload-eq scope client old.programs d), refl)
    load_or_unload-IsSettled false old d h =
        load_valid-IsSettled (validate_program_list scope app.programs old.programs) old d h

    -- Where reconcileLoad returns no error: on a node that is not selected, or when the application is
    -- being deleted, the daemon was told to unload every program that had an id, no program has an id, and
    -- those that had one have lost their links; the load status says which. Otherwise the load status is
    -- AppLoadSuccess, and either every program had an id and the daemon, asked for each, knew it, and
    -- nothing else was done; or not, and the daemon has then been sent the application's request, and every
    -- program has the id that the answer has for its name.
    pub reconcile_load-IsSettled :
        (selected : Bool) (old : AppStateStatus I) (d : Daemon)
        → (reconcile_load scope client (ok selected) uid app bytecode old d).1 ≡ none
        → IsSettled selected app.deleted old d
            (reconcile_load scope client (ok selected) uid app bytecode old d)
    unfolding reconcile_load
    reconcile_load-IsSettled false old d h =
        (after_unload-AreUnloaded old d _ (unload-eq scope client old.programs d), refl)
    reconcile_load-IsSettled true old d h = load_or_unload-IsSettled app.deleted old d h
