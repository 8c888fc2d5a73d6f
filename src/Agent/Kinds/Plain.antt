-- ===== src/Agent/Kinds/Plain.antt =====
-- The LinkSource of the kinds that compare links by their own fields alone (uprobe, kprobe,
-- tracepoint, fentry and their returns), and that it matches.
use bpfman_operator.Shared.{
  Bool, true, ℕ, suc, Option, none, some, List, [], ◌∷◌, ◌≡◌, refl, ap, if◌then◌else◌,
}
use bpfman_operator.Api.Links.{Link}
use bpfman_operator.Agent.Bpfman.{rpc_failed, Result, ok}
use bpfman_operator.Agent.Update.{LinkSource}
use bpfman_operator.Agent.Update.Matching.{Matching, find_index, shift}
use bpfman_operator.Agent.Kinds.{AgentEnv, AgentState}
use bpfman_operator.Agent.Kinds.Source.{draw_links, draw_links-Agrees}

module _ {D : Type 0} (same_fields : D → D → Bool) where
  abbrev next_index : Option ℕ → Option ℕ
  next_index none = none
  next_index (some i) = some (suc i)

  -- The loop of findLink: the first link with the same fields.
  unfoldable pub find_same : List (Link D) → Link D → Option ℕ
  find_same [] l = none
  find_same (a ∷ links) l =
      let rest = find_same links l in
      if same_fields a.details l.details then some 0 else next_index rest

  next_index-shift : (o : Option ℕ) → next_index o ≡ shift o
  next_index-shift none = refl
  next_index-shift (some i) = refl

  pub find_same-eq :
      (links : List (Link D)) (l : Link D)
      → find_same links l ≡ find_index (λ (old : Link D). same_fields old.details l.details) links
  unfolding find_same
  find_same-eq [] l = refl
  find_same-eq (a ∷ links) l = rw (
    find_same-eq links l,
    next_index-shift (find_index (λ (old : Link D). same_fields old.details l.details) links),
  )

  module _ (env : AgentEnv) {A : Type 0} (details : A → Result (List D)) where
    unfoldable pub plain_source : LinkSource AgentState A D
    unfolding find_same
    plain_source = record {
      get_expected_links = λ a s. draw_links env s (details a);
      find_link = λ ls l s. (ok (find_same ls l), s);
    }

    unfoldable pub plain_matching : ((d : D) → same_fields d d ≡ true) → Matching plain_source
    unfolding plain_source
    plain_matching fields_refl = record {
      Good = λ s. Unit;
      same = λ new old. same_fields old new;
      valid = λ d. true;
      invalid = λ d. rpc_failed;
      expected = details;
      same_refl = λ d h. fields_refl d;
      find_Good = λ ls l s h. tt;
      find_eq = λ ls l s h. ap ok (find_same-eq ls l);
      expected_Good = λ a s h. tt;
      expected_Agrees = λ a s h. draw_links-Agrees env s (details a);
    }
