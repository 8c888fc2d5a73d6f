-- ===== src/Agent/Update/Frame.antt =====
-- What updateLinks leaves alone.
use bpfman_operator.Shared.{
  Bool, true, false, ℕ, zero, suc, Option, none, some, List, [], ◌∷◌, ◌++◌, map, ◌≡◌, refl, ap, sym,
  ◌∙◌, inl, inr,
}
use mathlib.Core.List.{map-append, append_assoc, append-nil}
use bpfman_operator.Api.Links.{Link}
use bpfman_operator.Agent.Bpfman.{Result, ok, err, Result-cases}
use bpfman_operator.Agent.Links.{set_should_attach}
use bpfman_operator.Agent.Update.{LinkSource, mark, add_found, add_links, update_each, update_links}

-- The links without their `should_attach`.
abbrev pub forget : {D : Type 0} → List (Link D) → List (Link D)
forget ls = map (set_should_attach false) ls

pub forget-mark : {D : Type 0} (i : ℕ) (ls : List (Link D)) → forget (mark i ls) ≡ forget ls
unfolding mark
forget-mark i [] = refl
forget-mark zero (l ∷ ls) = refl
forget-mark (suc i) (l ∷ ls) = ap (λ r. set_should_attach false l ∷ r) (forget-mark i ls)

pub forget_twice : {D : Type 0} (ls : List (Link D)) → forget (forget ls) ≡ forget ls
forget_twice [] = refl
forget_twice (l ∷ ls) = ap (λ r. set_should_attach false l ∷ r) (forget_twice ls)

-- `after` is `before`, but for `should_attach`, and then more links.
abbrev pub Extends : {D : Type 0} → List (Link D) → List (Link D) → Type 0
Extends {D} before after = (added : List (Link D)) × (forget after ≡ forget before ++ forget added)

Extends-refl : {D : Type 0} (ls : List (Link D)) → Extends ls ls
Extends-refl ls = ([], sym (append-nil _))

Extends-trans : {D : Type 0} (a b c : List (Link D)) → Extends a b → Extends b c → Extends a c
Extends-trans a b c (x, p) (y, q) = (x ++ y, rw (q, p) (rw (map-append, append_assoc) refl))

Extends-add_found :
    {D : Type 0} (r : Result (Option ℕ)) (l : Link D) (ls : List (Link D))
    → Extends ls (add_found r l ls)
unfolding add_found
Extends-add_found (err e) l ls = Extends-refl ls
Extends-add_found (ok (some i)) l ls = ([], forget-mark i ls ∙ sym (append-nil _))
Extends-add_found (ok none) l ls = (l ∷ [], map-append _ ls (l ∷ []))

module _ {S A D : Type 0} (source : LinkSource S A D) where
  Extends-add_links :
      (expected ls : List (Link D)) (s : S) → Extends ls (add_links source expected ls s).0
  unfolding add_links
  Extends-add_links [] ls s = Extends-refl ls
  Extends-add_links (l ∷ expected) ls s =
      let (found, s') = source.find_link ls l s in
      Extends-trans ls (add_found found l ls) _ (Extends-add_found found l ls)
        (Extends-add_links expected (add_found found l ls) s')

  Extends-update_each :
      (infos : List A) (ls : List (Link D)) (s : S) → Extends ls (update_each source infos ls s).0
  unfolding update_each
  Extends-update_each [] ls s = Extends-refl ls
  Extends-update_each (info ∷ infos) ls s =
      elim (Result-cases (source.get_expected_links info s).0) [
        | inl (e, failed) ↦ rw (failed, update_each) (Extends-refl ls)
        | inr (links, got) ↦
            let s' = (source.get_expected_links info s).1 in
            let (ls', s'') = add_links source links ls s' in
            rw (got, update_each)
              (Extends-trans ls ls' _ (Extends-add_links links ls s')
                (Extends-update_each infos ls' s''))
      ]

  -- updateLinks removes no link, and changes of the old ones nothing but `should_attach`: their order,
  -- UUIDs, link ids, statuses and attach points stay, whether or not an error is returned.
  pub update_links-Extends :
      (is_being_deleted : Bool) (infos : List A) (ls : List (Link D)) (s : S)
      → Extends ls (update_links source is_being_deleted infos ls s).0
  unfolding update_links
  update_links-Extends true infos ls s = ([], forget_twice ls ∙ sym (append-nil _))
  update_links-Extends false infos ls s =
      let (added, p) = Extends-update_each infos (forget ls) s in
      (added, p ∙ ap (λ r. r ++ forget added) (forget_twice ls))
