-- ===== src/Agent/Kinds/Source.antt =====
-- The LinkSource of the kinds that compare links by network namespace, and that it matches.
use bpfman_operator.Shared.{Bool, true, ℕ, suc, ◌+◌, String, List, [], ◌∷◌, length, ◌≡◌, refl}
use bpfman_operator.Api.Links.{Link}
use bpfman_operator.Agent.Bpfman.{netns_id_error, Result, ok, err}
use bpfman_operator.Agent.NetNs.{NetNsCache, find_link}
use bpfman_operator.Agent.NetNs.Consistent.{
  IsConsistent, find_link-eq, same_link, same_link_refl, has_netns,
}
use bpfman_operator.Agent.Update.{LinkSource}
use bpfman_operator.Agent.Update.Matching.{Matching, HaveDetails, Agrees}
use bpfman_operator.Agent.Kinds.{AgentEnv, AgentState, new_links}

abbrev with_cache : {A : Type 0} → AgentState → A × NetNsCache → A × AgentState
with_cache s (a, cache) = (a, record s { net_ns_cache = cache })

-- The state that a reconcile starts from, and keeps: the cache answers as the file system does.
abbrev pub IsGood : AgentEnv → AgentState → Type 0
IsGood env s = IsConsistent env.stat s.net_ns_cache

module _ (env : AgentEnv) {D : Type 0} where
  abbrev pub draw_links : AgentState → Result (List D) → Result (List (Link D)) × AgentState
  draw_links s (err e) = (err e, s)
  draw_links s (ok ds) = (ok (new_links env s.uuids ds), record s { uuids = s.uuids + length ds })

  new_links-HaveDetails : (n : ℕ) (ds : List D) → HaveDetails (new_links env n ds) ds
  unfolding new_links
  new_links-HaveDetails n [] = tt
  new_links-HaveDetails n (d ∷ ds) = (
    refl,
    record { wanted = refl; unattached = refl; status = refl },
    new_links-HaveDetails (suc n) ds,
  )

  pub draw_links-Agrees : (s : AgentState) (r : Result (List D)) → Agrees (draw_links s r).0 r
  draw_links-Agrees s (err e) = refl
  draw_links-Agrees s (ok ds) = new_links-HaveDetails s.uuids ds

  pub draw_links-IsGood :
      (s : AgentState) (r : Result (List D)) → IsGood env s → IsGood env (draw_links s r).1
  draw_links-IsGood s (err e) h = h
  draw_links-IsGood s (ok ds) h = h

  module _ {A : Type 0} (same_fields : D → D → Bool) (netns_path : D → String)
      (details : A → Result (List D)) where
    -- getExpectedLinks and findLink.
    unfoldable pub netns_source : LinkSource AgentState A D
    netns_source = record {
      get_expected_links = λ a s. draw_links s (details a);
      find_link =
          λ ls l s. with_cache s (find_link same_fields netns_path env.stat ls l s.net_ns_cache);
    }

    unfoldable pub netns_matching : ((d : D) → same_fields d d ≡ true) → Matching netns_source
    unfolding netns_source
    netns_matching fields_refl = record {
      Good = IsGood env;
      same = same_link same_fields netns_path env.stat;
      valid = has_netns same_fields netns_path env.stat;
      invalid = λ d. netns_id_error (netns_path d);
      expected = details;
      same_refl = same_link_refl same_fields netns_path env.stat fields_refl;
      find_Good =
          λ ls l s h. (find_link-eq same_fields netns_path env.stat ls l s.net_ns_cache h).1;
      find_eq = λ ls l s h. (find_link-eq same_fields netns_path env.stat ls l s.net_ns_cache h).0;
      expected_Good = λ a s h. draw_links-IsGood s (details a) h;
      expected_Agrees = λ a s h. draw_links-Agrees s (details a);
    }
