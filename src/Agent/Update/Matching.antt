-- ===== src/Agent/Update/Matching.antt =====
-- What updateLinks relies on in findLink and getExpectedLinks of a kind of program. The kinds'
-- modules fill this interface.
use bpfman_operator.Shared.{
  Bool, true, ◌&&◌, ℕ, suc, Option, none, some, List, [], ◌∷◌, ◌++◌, ◌≡◌, refl, ap, sym, ◌⊎◌, inl,
  inr, if◌then◌else◌, any, keep,
}
use bpfman_operator.Api.Links.{Link, ap_attach_not_attached}
use bpfman_operator.Agent.Bpfman.{Error, Result, ok, err}
use bpfman_operator.Agent.Update.{LinkSource}

-- The first link that passes a test.
abbrev pub shift : Option ℕ → Option ℕ
shift none = none
shift (some i) = some (suc i)

abbrev pub find_index {ℓ} : {A : Type ℓ} → (A → Bool) → List A → Option ℕ
find_index p [] = none
find_index p (x ∷ xs) = let rest = find_index p xs in if p x then some 0 else shift rest

-- A new link is to be attached and is not yet.
pub record IsFresh {D : Type 0} (l : Link D) : Type 0 where
  pub wanted : l.should_attach ≡ true
  pub unattached : l.link_id ≡ none
  pub status : l.link_status ≡ ap_attach_not_attached

-- The links have the given details, in order, and are fresh.
abbrev pub HaveDetails : {D : Type 0} → List (Link D) → List D → Type 0
HaveDetails [] [] = Unit
HaveDetails [] (d ∷ ds) = ⊥
HaveDetails (l ∷ ls) [] = ⊥
HaveDetails (l ∷ ls) (d ∷ ds) = (l.details ≡ d) × IsFresh l × HaveDetails ls ds

abbrev pub Agrees : {D : Type 0} → Result (List (Link D)) → Result (List D) → Type 0
Agrees (ok ls) (ok ds) = HaveDetails ls ds
Agrees (err e) (err e') = e ≡ e'
Agrees (ok ls) (err e) = ⊥
Agrees (err e) (ok ds) = ⊥

pub Agrees-cases :
    {D : Type 0} (r : Result (List (Link D))) (r' : Result (List D))
    → Agrees r r'
    → ((e : Error) × (r ≡ err e) × (r' ≡ err e))
      ⊎ ((ls : List (Link D)) × (ds : List D) × (r ≡ ok ls) × (r' ≡ ok ds) × HaveDetails ls ds)
Agrees-cases (ok ls) (ok ds) h = inr (ls, ds, refl, refl, h)
Agrees-cases (err e) (err e') h = inl (e, refl, ap err (sym h))
Agrees-cases (ok ls) (err e) h = absurd h
Agrees-cases (err e) (ok ds) h = absurd h

-- `same new old` says that the details `new` and `old` stand for one attach point; `valid` that the
-- attach point can be resolved.
pub record Matching {S A D : Type 0} (source : LinkSource S A D) : Type 1 where
  pub Good : S → Type 0
  pub same : D → D → Bool
  pub valid : D → Bool
  pub invalid : D → Error
  pub expected : A → Result (List D)
  pub same_refl : (d : D) → valid d ≡ true → same d d ≡ true
  pub find_Good :
      (ls : List (Link D)) (l : Link D) (s : S) → Good s → Good (source.find_link ls l s).1
  pub find_eq :
      (ls : List (Link D)) (l : Link D) (s : S)
      → Good s
      → (source.find_link ls l s).0 ≡ (
          if valid l.details
          then ok (find_index (λ (old : Link D). same l.details old.details) ls)
          else err (invalid l.details))
  pub expected_Good : (a : A) (s : S) → Good s → Good (source.get_expected_links a s).1
  pub expected_Agrees :
      (a : A) (s : S) → Good s → Agrees (source.get_expected_links a s).0 (expected a)

module _ {S A D : Type 0} {source : LinkSource S A D} (m : Matching source) where
  -- The valid attach points that the entries before the first failing one ask for.
  abbrev pub all_expected : List A → List D
  all_expected [] = []
  all_expected (a ∷ infos) = elim (m.expected a) [
    | err e ↦ []
    | ok ds ↦ keep m.valid ds ++ all_expected infos
  ]

  abbrev pub is_expected : D → List D → Bool
  is_expected old ds = any (λ d. m.same d old) ds

  -- A link for the attach point that is to be attached.
  abbrev pub is_wanted_in : List (Link D) → D → Bool
  is_wanted_in ls d = any (λ (l : Link D). l.should_attach && m.same d l.details) ls
