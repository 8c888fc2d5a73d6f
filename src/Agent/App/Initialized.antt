-- ===== src/Agent/App/Initialized.antt =====
-- What initializeNodeProgramList leaves: controllers/bpfman-agent/{cl,ns}_application_program.go.
use bpfman_operator.Shared.{
  Bool, true, false, not, ◌&&◌, ◌||◌, ℕ, Option, none, some, List, [], ◌∷◌, ◌++◌, map, ◌≡◌, refl,
  ap, sym, ◌∙◌, arith, any, Bool-cases, Option-cases, inl, inr, string_eq, ◌↔◌, any-append,
}
use mathlib.Core.List.{append_assoc, append-nil}
use bpfman_operator.Agent.App.{
  Program, ProgramState, Scope, get_prog_state, next, is_state_of, init_state, initialize_from,
  initialize_node_program_list,
}

module _ {S : Type 0} (scope : Scope S) where
  open scope use {P, I}

  -- No program would take the new state of an earlier one, nor one of the given states, for its own.
  abbrev no_clash : List (ProgramState I) → List (Program P) → Bool
  no_clash states [] = true
  no_clash states (prog ∷ progs) =
      not (any (is_state_of scope prog) states)
      && no_clash (states ++ init_state scope prog ∷ []) progs

  abbrev is_none : Option ℕ → Bool
  is_none none = true
  is_none (some i) = false

  is_none-next : (o : Option ℕ) → is_none (next scope o) ≡ is_none o
  is_none-next none = refl
  is_none-next (some i) = refl

  -- getProgState finds a state exactly if there is one.
  get_prog_state-any :
      (prog : Program P) (states : List (ProgramState I))
      → is_none (get_prog_state scope prog states) ≡ not (any (is_state_of scope prog) states)
  unfolding get_prog_state
  get_prog_state-any prog [] = refl
  get_prog_state-any prog (s ∷ states) =
      let ih = get_prog_state-any prog states in
      let up = is_none-next (get_prog_state scope prog states) in
      elim (Bool-cases (is_state_of scope prog s)) [ inl e ↦ rw (e) refl | inr e ↦ rw (e, up) ih ]

  -- Without an error the new states stand behind the old ones, in the programs' order.
  initialize_from-eq :
      (progs : List (Program P)) (states : List (ProgramState I))
      → ((initialize_from scope progs states).1 ≡ none) ↔ (no_clash states progs ≡ true)
  unfolding initialize_from
  initialize_from-eq [] states = (λ h. refl, λ h. refl)
  initialize_from-eq (prog ∷ progs) states =
      let found = get_prog_state-any prog states in
      let ih = initialize_from-eq progs (states ++ init_state scope prog ∷ []) in
      elim (Option-cases (get_prog_state scope prog states)) [
        | inl e ↦
            let absent : not (any (is_state_of scope prog) states) ≡ true =
              sym found ∙ ap is_none e in
            rw (e, initialize_from) (rw absent ih)
        | inr (i, e) ↦
            let present : not (any (is_state_of scope prog) states) ≡ false =
              sym found ∙ ap is_none e in
            rw (e, initialize_from) (rw present (λ h. cc, λ h. cc))
      ]

  initialize_from-states :
      (progs : List (Program P)) (states : List (ProgramState I))
      → (initialize_from scope progs states).1 ≡ none
      → (initialize_from scope progs states).0 ≡ states ++ map (init_state scope) progs
  unfolding initialize_from
  initialize_from-states [] states = λ h. sym (append-nil states)
  initialize_from-states (prog ∷ progs) states =
      elim (Option-cases (get_prog_state scope prog states)) [
        | inl e ↦
            rw (e, initialize_from)
              (λ h.
                initialize_from-states progs (states ++ init_state scope prog ∷ []) h
                ∙ append_assoc states (init_state scope prog ∷ []) (map (init_state scope) progs))
        | inr (i, e) ↦ rw (e, initialize_from) (λ h. cc)
      ]

  -- Whether `prog` would take the new state of `earlier` for its own: the names and the kinds are the
  -- same, and for fentry and fexit the functions.
  abbrev pub clashes : Program P → Program P → Bool
  clashes earlier prog = is_state_of scope prog (init_state scope earlier)

  abbrev pub are_unclashing : List (Program P) → Bool
  are_unclashing [] = true
  are_unclashing (prog ∷ progs) = not (any (clashes prog) progs) && are_unclashing progs

  abbrev taken : List (ProgramState I) → List (Program P) → Bool
  taken states progs = any (λ (prog : Program P). any (is_state_of scope prog) states) progs

  taken-append :
      (states : List (ProgramState I)) (prog : Program P) (progs : List (Program P))
      → taken (states ++ init_state scope prog ∷ []) progs
        ≡ (taken states progs || any (clashes prog) progs)
  taken-append states prog [] = refl
  taken-append states prog (q ∷ progs) =
      let ih = taken-append states prog progs in
      let here = any-append (is_state_of scope q) states (init_state scope prog ∷ []) in
      ground (arith, ih, here)

  no_clash-eq :
      (states : List (ProgramState I)) (progs : List (Program P))
      → no_clash states progs ≡ (not (taken states progs) && are_unclashing progs)
  no_clash-eq states [] = refl
  no_clash-eq states (prog ∷ progs) =
      let ih = no_clash-eq (states ++ init_state scope prog ∷ []) progs in
      let more = taken-append states prog progs in ground (arith, ih, more)

  untaken : (progs : List (Program P)) → taken [] progs ≡ false
  untaken [] = refl
  untaken (prog ∷ progs) = untaken progs

  -- On an empty status, initializeNodeProgramList returns no error exactly when no program would take
  -- the state of an earlier one.
  pub initialize_node_program_list_iff :
      (progs : List (Program P))
      → ((initialize_node_program_list scope progs []).1 ≡ none) ↔ (are_unclashing progs ≡ true)
  unfolding initialize_node_program_list
  initialize_node_program_list_iff progs =
      let (f, g) = initialize_from-eq progs [] in
      let all = untaken progs in
      let same = no_clash-eq [] progs in
      (λ h. (let k = f h in ground (arith, same, k, all)), λ h. g (ground (arith, same, h, all)))

  -- Where initializeNodeProgramList returns no error on an empty status, it leaves one new state for
  -- each program, in their order.
  pub initialize_node_program_list-states :
      (progs : List (Program P))
      → (initialize_node_program_list scope progs []).1 ≡ none
      → (initialize_node_program_list scope progs []).0 ≡ map (init_state scope) progs
  unfolding initialize_node_program_list
  initialize_node_program_list-states progs h = initialize_from-states progs [] h
