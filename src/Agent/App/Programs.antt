-- ===== src/Agent/App/Programs.antt =====
-- What validateProgramList accepts: the programs' names are those of the states, and each stands once.
use bpfman_operator.Shared.{
  Bool, true, false, not, ◌&&◌, String, none, List, [], ◌∷◌, ◌==◌, string_eq, contains, delete, map,
  ◌≡◌, refl, ◌↔◌, Bool-cases, inl, inr, arith, beq_refl, beq→eq, sym, ap, ◌∙◌,
}
use bpfman_operator.Agent.App.{
  Program, ProgramState, Scope, check_added, state_names, validate_program_list, validated,
}

abbrev pub no_repeats : List String → Bool
no_repeats [] = true
no_repeats (n ∷ ns) = not (contains n ns) && no_repeats ns

abbrev pub all_in : List String → List String → Bool
all_in [] names = true
all_in (n ∷ ns) names = contains n names && all_in ns names

name_comm : (a b : String) → (a == b) ≡ (b == a)
name_comm a b = ground (arith, string_eq.beq_iff a b, string_eq.beq_iff b a)

contains-delete :
    (x n : String) (ns : List String) → contains x (delete n ns) ≡ (contains x ns && not (n == x))
contains-delete x n [] = refl
contains-delete x n (m ∷ ns) =
    let ih = contains-delete x n ns in
    elim (Bool-cases (m == n)) [
      | inl e ↦ let same = ap (λ k. k == x) (beq→eq m n e) in ground (arith, e, ih, same)
      | inr e ↦ elim (Bool-cases (m == x)) [
        | inl f ↦
            let same = ap (λ k. n == k) (sym (beq→eq m x f)) in
            let flipped = name_comm n m in ground (arith, e, f, ih, same, flipped)
        | inr f ↦ ground (arith, e, f, ih)
      ]
    ]

all_in-delete :
    (n : String) (ps names : List String)
    → all_in ps (delete n names) ≡ (all_in ps names && not (contains n ps))
all_in-delete n [] names = refl
all_in-delete n (p ∷ ps) names =
    let ih = all_in-delete n ps names in
    let here = contains-delete p n names in
    let flipped = name_comm n p in ground (arith, ih, here, flipped)

contains→all_in :
    (ps names : List String)
    → ((x : String) → contains x ps ≡ true → contains x names ≡ true)
    → all_in ps names ≡ true
contains→all_in [] names h = refl
contains→all_in (p ∷ ps) names h =
    let rest = contains→all_in ps names (λ x hx. h x (ground (arith, hx))) in
    let here = h p (let r = beq_refl p in ground (arith, r)) in ground (arith, rest, here)

all_in→contains :
    (ps names : List String) (x : String)
    → all_in ps names ≡ true
    → contains x ps ≡ true
    → contains x names ≡ true
all_in→contains [] names x h hx = cc
all_in→contains (p ∷ ps) names x h hx =
    let rest = all_in→contains ps names x in
    elim (Bool-cases (p == x)) [
      | inl e ↦ let same = ap (λ k. contains k names) (beq→eq p x e) in ground (arith, same, h)
      | inr e ↦ rest (ground (arith, h)) (ground (arith, hx, e))
    ]

empty_of_contains : (ns : List String) → ((x : String) → contains x ns ≡ false) → ns ≡ []
empty_of_contains [] h = refl
empty_of_contains (n ∷ ns) h = let e = h n in let r = beq_refl n in ground (arith, e, r)

module _ {S : Type 0} (scope : Scope S) where
  open scope use {P, I}

  abbrev pub names_of : List (Program P) → List String
  names_of progs = map (λ (p : Program P). p.name) progs

  abbrev pub state_names_of : List (ProgramState I) → List String
  state_names_of states = map (λ (s : ProgramState I). s.name) states

  contains-state_names :
      (x : String) (states : List (ProgramState I))
      → contains x (state_names scope states) ≡ contains x (state_names_of states)
  unfolding state_names
  contains-state_names x [] = refl
  contains-state_names x (s ∷ states) =
      let ih = contains-state_names x states in
      elim (Bool-cases (s.name == x)) [
        | inl e ↦
            let same = ap (λ k. contains k (state_names scope states)) (beq→eq s.name x e) in
            ground (arith, e, ih, same)
        | inr e ↦ ground (arith, e, ih)
      ]

  abbrev is_empty : List String → Bool
  is_empty [] = true
  is_empty (n ∷ ns) = false

  check_added-none :
      (progs : List (Program P)) (names : List String)
      → is_empty (check_added scope progs names).0
        ≡ (no_repeats (names_of progs) && all_in (names_of progs) names)
  unfolding check_added
  check_added-none [] names = refl
  check_added-none (p ∷ progs) names =
      let deleted = check_added-none progs (delete p.name names) in
      let absent = all_in-delete p.name (names_of progs) names in ground (arith, deleted, absent)

  check_added-left :
      (progs : List (Program P)) (names : List String) (x : String)
      → contains x (check_added scope progs names).1
        ≡ (contains x names && not (contains x (names_of progs)))
  unfolding check_added
  check_added-left [] names x = ground arith
  check_added-left (p ∷ progs) names x =
      let deleted = check_added-left progs (delete p.name names) x in
      let kept = check_added-left progs names x in
      let absent = contains-delete x p.name names in
      elim (Bool-cases (p.name == x)) [
        | inl e ↦
            let same = ap (λ k. contains k names) (beq→eq p.name x e) in
            ground (arith, e, deleted, kept, absent, same)
        | inr e ↦ ground (arith, e, deleted, kept, absent)
      ]

  validated-none :
      (r : List String × List String) → (validated scope r ≡ none) ↔ ((r.0 ≡ []) × (r.1 ≡ []))
  validated-none ([], []) = (λ h. (refl, refl), λ h. refl)
  validated-none ([], n ∷ left) = (λ h. cc, λ h. cc)
  validated-none (a ∷ added, left) = (λ h. cc, λ h. cc)

  empty_iff : (ns : List String) → (is_empty ns ≡ true) ↔ (ns ≡ [])
  empty_iff [] = (λ h. refl, λ h. refl)
  empty_iff (n ∷ ns) = (λ h. cc, λ h. cc)

  -- validateProgramList accepts a list of programs exactly when no name stands twice in it and its
  -- names are those of the states.
  pub validate_program_list_iff :
      (progs : List (Program P)) (states : List (ProgramState I))
      → (validate_program_list scope progs states ≡ none) ↔ (
          (no_repeats (names_of progs) ≡ true)
          × ((x : String) → contains x (names_of progs) ≡ contains x (state_names_of states)))
  unfolding validate_program_list
  validate_program_list_iff progs states =
      let names = state_names scope states in
      let r = check_added scope progs names in
      let added = check_added-none progs names in
      (
        λ h.
            let (no_added, no_left) = (validated-none r).0 h in
            let e = (empty_iff r.0).1 no_added in
            let all = all_in→contains (names_of progs) names in
            (
              ground (arith, added, e),
              λ x.
                  let left = check_added-left progs names x in
                  let gone = ap (contains x) no_left in
                  let same = contains-state_names x states in
                  let into = all x (ground (arith, added, e)) in
                  ground (arith, left, gone, same, into),
            ),
        λ h.
            let all =
              contains→all_in (names_of progs) names
                (λ x hx. contains-state_names x states ∙ sym (h.1 x) ∙ hx) in
            let gone : (x : String)
                → (contains x names && not (contains x (names_of progs))) ≡ false =
              λ x.
                (let same = contains-state_names x states in
                  let e = h.1 x in ground (arith, same, e)) in
            (validated-none r).1 (
              (empty_iff r.0).0 (ground (arith, added, all, h.0)),
              empty_of_contains r.1 (λ x. check_added-left progs names x ∙ gone x),
            ),
      )
