-- ===== src/Agent/App/Loading.antt =====
-- What load, unload and isLoaded leave: controllers/bpfman-agent/{cl,ns}_application_program.go.
use bpfman_operator.Shared.{
  Bool, true, ◌&&◌, ◌↔◌, ◌∙◌, ℕ, String, Option, none, some, List, [], ◌∷◌, string_eq, All, map,
  ◌≡◌, ◌≢◌, refl, Option-cases, inl, inr, arith, ap,
}
use bpfman_operator.Api.Links.{prog_attach_success}
use bpfman_operator.Agent.Bpfman.{
  Error, Result, ok, err, LoadRequest, LoadResponseInfo, BytecodeLocation, BpfmanClient,
  get_bpf_program_id,
}
use bpfman_operator.Agent.App.{
  App, get_load_request, loaded, sent, ProgramState, Scope, unload, is_some, assign_ids, assigned,
  load, is_loaded, set_program_id,
}

module _ {S : Type 0} (scope : Scope S) (client : BpfmanClient) where
  open scope use {P, I}

  -- The ids of the programs that have one, in order.
  abbrev pub loaded_ids : List (ProgramState I) → List ℕ
  loaded_ids [] = []
  loaded_ids (s ∷ states) =
      let rest = loaded_ids states in elim s.program_id [ none ↦ rest | some id ↦ id ∷ rest ]

  -- The daemon once all of the ids are unloaded, and once they are asked for.
  abbrev pub unload_all : List ℕ → client.Daemon → client.Daemon
  unload_all [] d = d
  unload_all (id ∷ ids) d = unload_all ids (client.unload id d).1

  abbrev pub get_all : List ℕ → client.Daemon → client.Daemon
  get_all [] d = d
  get_all (id ∷ ids) d = get_all ids (client.get id d).1

  -- The daemon knows each of the ids when it is asked for it.
  abbrev pub AllKnown : List ℕ → client.Daemon → Type 0
  AllKnown [] d = Unit
  AllKnown (id ∷ ids) d = ((client.get id d).0 ≢ none) × AllKnown ids (client.get id d).1

  abbrev pub AllHaveId : List (ProgramState I) → Type 0
  AllHaveId states = All (λ s. s.program_id ≢ none) states

  -- What is left of an unloaded program: it has no id and nothing to attach; the links of one that had
  -- an id are gone, and all else stays.
  abbrev pub without_program : ProgramState I → ProgramState I
  without_program s = record s {
    program_id = none;
    program_link_status = prog_attach_success;
    info = elim s.program_id [ none ↦ s.info | some id ↦ scope.delete_links s.info ];
  }

  -- unload, whatever the daemon answers.
  pub unload-eq :
      (states : List (ProgramState I)) (d : client.Daemon)
      → unload scope client states d
        ≡ (map without_program states, unload_all (loaded_ids states) d)
  unfolding unload
  unload-eq [] d = refl
  unload-eq (s ∷ states) d = elim (Option-cases s.program_id) [
    | inl h ↦ rw (h, unload-eq states d) refl
    | inr (id, h) ↦ rw (h, unload-eq states (client.unload id d).1) refl
  ]

  -- The id that the response gives a state, whose other fields stay.
  abbrev pub HasIdOf : List LoadResponseInfo → ProgramState I → ProgramState I → Type 0
  HasIdOf response old new =
      (id : ℕ) × (get_bpf_program_id old.name response ≡ ok id)
      × (new ≡ set_program_id scope client id old)

  abbrev pub AllHaveIds :
      List LoadResponseInfo → List (ProgramState I) → List (ProgramState I) → Type 0
  AllHaveIds response [] [] = Unit
  AllHaveIds response [] (n ∷ news) = ⊥
  AllHaveIds response (o ∷ olds) [] = ⊥
  AllHaveIds response (o ∷ olds) (n ∷ news) = HasIdOf response o n × AllHaveIds response olds news

  assigned-AllHaveIds :
      (response : List LoadResponseInfo) (s : ProgramState I) (states : List (ProgramState I))
      (r : Result ℕ) (rest : List (ProgramState I) × Option Error)
      → get_bpf_program_id s.name response ≡ r
      → (rest.1 ≡ none → AllHaveIds response states rest.0)
      → (assigned scope client s states r rest).1 ≡ none
      → AllHaveIds response (s ∷ states) (assigned scope client s states r rest).0
  assigned-AllHaveIds response s states (err e) rest hr ih h = cc
  assigned-AllHaveIds response s states (ok id) (states', error) hr ih h = ((id, hr, refl), ih h)

  assign_ids-AllHaveIds :
      (response : List LoadResponseInfo) (states : List (ProgramState I))
      → (assign_ids scope client response states).1 ≡ none
      → AllHaveIds response states (assign_ids scope client response states).0
  unfolding assign_ids
  assign_ids-AllHaveIds response [] h = tt
  assign_ids-AllHaveIds response (s ∷ states) h =
      assigned-AllHaveIds response s states (get_bpf_program_id s.name response)
        (assign_ids scope client response states) refl (assign_ids-AllHaveIds response states) h

  loaded-AllHaveIds :
      (states : List (ProgramState I)) (r : Option (List LoadResponseInfo) × client.Daemon)
      → (loaded scope client states r).1 ≡ none
      → (response : List LoadResponseInfo) × (r.0 ≡ some response)
        × AllHaveIds response states (loaded scope client states r).0
  loaded-AllHaveIds states (none, d) h = cc
  loaded-AllHaveIds states (some response, d) h =
      (response, refl, assign_ids-AllHaveIds response states h)

  loaded-daemon :
      (states : List (ProgramState I)) (r : Option (List LoadResponseInfo) × client.Daemon)
      → (loaded scope client states r).2 ≡ r.1
  loaded-daemon states (none, d) = refl
  loaded-daemon states (some response, d) = refl

  -- The daemon after a load that was sent.
  pub load-daemon :
      (uid : String) (app : App P) (bytecode : Result BytecodeLocation)
      (states : List (ProgramState I)) (d : client.Daemon) (req : LoadRequest)
      → get_load_request scope client uid app bytecode states ≡ ok req
      → (load scope client uid app bytecode states d).2 ≡ (client.load req d).1
  unfolding load
  load-daemon uid app bytecode states d req h =
      ap (λ r. (sent scope client states r d).2) h ∙ loaded-daemon states (client.load req d)

  sent-AllHaveIds :
      (states : List (ProgramState I)) (r : Result LoadRequest) (d : client.Daemon)
      → (sent scope client states r d).1 ≡ none
      → (req : LoadRequest) × (response : List LoadResponseInfo) × (r ≡ ok req)
        × ((client.load req d).0 ≡ some response)
        × AllHaveIds response states (sent scope client states r d).0
  sent-AllHaveIds states (err e) d h = cc
  sent-AllHaveIds states (ok req) d h =
      let (response, hr, ids) = loaded-AllHaveIds states (client.load req d) h in
      (req, response, refl, hr, ids)

  -- A load without an error has sent the application's request to the daemon, and gives every program
  -- the id that the daemon's answer has for its name.
  pub load-AllHaveIds :
      (uid : String) (app : App P) (bytecode : Result BytecodeLocation)
      (states : List (ProgramState I)) (d : client.Daemon)
      → (load scope client uid app bytecode states d).1 ≡ none
      → (req : LoadRequest) × (response : List LoadResponseInfo) × (get_load_request scope client
            uid app bytecode states
          ≡ ok req)
        × ((client.load req d).0 ≡ some response)
        × AllHaveIds response states (load scope client uid app bytecode states d).0
  unfolding load
  load-AllHaveIds uid app bytecode states d h =
      sent-AllHaveIds states (get_load_request scope client uid app bytecode states) d h

  is_some_iff : (r : Option (List ℕ)) → (is_some scope client r ≡ true) ↔ (r ≢ none)
  is_some_iff none = (λ h. cc, λ h. absurd (h refl))
  is_some_iff (some links) = (λ h e. cc, λ h. refl)

  and_iff : (a b : Bool) → ((a && b) ≡ true) ↔ ((a ≡ true) × (b ≡ true))
  and_iff a b = ground arith

  -- isLoaded answers yes exactly if every program has an id and the daemon knows each of them; it asks
  -- for all of them.
  pub is_loaded_iff :
      (states : List (ProgramState I)) (d : client.Daemon)
      → (((is_loaded scope client states d).0 ≡ true)
          ↔ (AllHaveId states × AllKnown (loaded_ids states) d))
        × ((is_loaded scope client states d).1 ≡ get_all (loaded_ids states) d)
  unfolding is_loaded
  is_loaded_iff [] d = ((λ _. (tt, tt), λ _. refl), refl)
  is_loaded_iff (s ∷ states) d = elim (Option-cases s.program_id) [
    | inl h ↦
        let (ih, asked) = is_loaded_iff states d in
        rw h ((λ no. cc, λ yes. absurd (yes.0.0 refl)), asked)
    | inr (id, h) ↦
        let (ih, asked) = is_loaded_iff states (client.get id d).1 in
        let (known, is_known) = is_some_iff (client.get id d).0 in
        let (apart, both) =
          and_iff (is_some scope client (client.get id d).0)
            (is_loaded scope client states (client.get id d).1).0 in
        rw h (
          (
            λ yes.
                (let (here, there) = apart yes in
                  let (ids, answers) = ih.0 there in (((λ e. cc), ids), (known here, answers))),
            λ all. both (is_known all.1.0, ih.1 (all.0.1, all.1.1)),
          ),
          asked,
        )
  ]
