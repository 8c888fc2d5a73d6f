-- ===== src/Agent/Update/Known.antt =====
-- updateLinks where every attach point that the entries ask for has a link already: it adds none.
use bpfman_operator.Shared.{
  ◌||◌, Bool, true, false, ℕ, suc, some, List, [], ◌∷◌, ◌++◌, ◌≡◌, refl, ap, sym, ◌∙◌, Bool-cases,
  inl, inr, arith, All, any, keep,
}
use bpfman_operator.Api.Links.{Link}
use bpfman_operator.Agent.Update.{LinkSource, mark, add_found, add_links, update_each, update_links}
use bpfman_operator.Agent.Update.Matching.{
  Matching, find_index, shift, HaveDetails, Agrees-cases, all_expected,
}
use bpfman_operator.Agent.Update.Frame.{forget, forget-mark, forget_twice}

find_index-any {ℓ} :
    {A : Type ℓ} (p : A → Bool) (xs : List A)
    → any p xs ≡ true
    → (i : ℕ) × (find_index p xs ≡ some i)
find_index-any p [] h = cc
find_index-any p (x ∷ xs) h = elim (Bool-cases (p x)) [
  | inl e ↦ (0, rw e refl)
  | inr e ↦
      let (i, found) = find_index-any p xs (ground (arith, h, e)) in (suc i, rw e (ap shift found))
]

All-split {ℓ κ} :
    {A : Type ℓ} (Holds : A → Type κ) (front back : List A)
    → All Holds (front ++ back)
    → All Holds front × All Holds back
All-split Holds [] back h = (tt, h)
All-split Holds (x ∷ front) back h =
    let (k, rest) = All-split Holds front back h.1 in ((h.0, k), rest)

module _ {S A D : Type 0} {source : LinkSource S A D} (m : Matching source) where
  -- A link, wanted or not, stands for the attach point.
  abbrev pub is_known_in : List (Link D) → D → Bool
  is_known_in ls d = any (λ (l : Link D). m.same d l.details) ls

  known-forget : (d : D) (ls : List (Link D)) → is_known_in (forget ls) d ≡ is_known_in ls d
  known-forget d [] = refl
  known-forget d (l ∷ ls) = ap (λ b. m.same d l.details || b) (known-forget d ls)

  known-as :
      (d : D) (ls before : List (Link D))
      → forget ls ≡ forget before
      → is_known_in before d ≡ true
      → is_known_in ls d ≡ true
  known-as d ls before same h =
      sym (known-forget d ls) ∙ (ap (λ x. is_known_in x d) same ∙ (known-forget d before ∙ h))

  add_links-forget :
      (before : List (Link D)) (es : List D) (expected ls : List (Link D)) (s : S)
      → HaveDetails expected es
      → m.Good s
      → forget ls ≡ forget before
      → All (λ d. is_known_in before d ≡ true) (keep m.valid es)
      → (forget (add_links source expected ls s).0 ≡ forget before)
        × m.Good (add_links source expected ls s).1
  unfolding add_links add_found
  add_links-forget before [] [] ls s h g same known = (same, g)
  add_links-forget before [] (l ∷ expected) ls s h g same known = absurd h
  add_links-forget before (e ∷ es) [] ls s h g same known = absurd h
  add_links-forget before (e ∷ es) (l ∷ expected) ls s h g same known =
      let s' = (source.find_link ls l s).1 in
      let g' = m.find_Good ls l s g in
      elim (Bool-cases (m.valid l.details)) [
        | inl v ↦
            let v' : m.valid e ≡ true = sym (ap m.valid h.0) ∙ v in
            let known' : All (λ d. is_known_in before d ≡ true) (e ∷ keep m.valid es) =
              rw v' at known in
            let here : is_known_in before l.details ≡ true =
              ap (is_known_in before) h.0 ∙ known'.0 in
            let (i, found) =
              find_index-any (λ (old : Link D). m.same l.details old.details) ls
                (known-as l.details ls before same here) in
            rw (m.find_eq ls l s g, v, found, add_links)
              (add_links-forget before es expected (mark i ls) s' h.2 g' (forget-mark i ls ∙ same)
                known'.1)
        | inr v ↦
            let v' : m.valid e ≡ false = sym (ap m.valid h.0) ∙ v in
            let known' : All (λ d. is_known_in before d ≡ true) (keep m.valid es) =
              rw v' at known in
            rw (m.find_eq ls l s g, v, add_links)
              (add_links-forget before es expected ls s' h.2 g' same known')
      ]

  update_each-forget :
      (before : List (Link D)) (infos : List A) (ls : List (Link D)) (s : S)
      → m.Good s
      → forget ls ≡ forget before
      → All (λ d. is_known_in before d ≡ true) (all_expected m infos)
      → forget (update_each source infos ls s).0 ≡ forget before
  unfolding update_each
  update_each-forget before [] ls s g same known = same
  update_each-forget before (a ∷ infos) ls s g same known =
      let s' = (source.get_expected_links a s).1 in
      let g' = m.expected_Good a s g in
      elim (Agrees-cases _ _ (m.expected_Agrees a s g)) [
        | inl (e, p, q) ↦ rw (p, update_each) same
        | inr (links, es, p, q, h) ↦
            let known' : All (λ d. is_known_in before d ≡ true)
                (keep m.valid es ++ all_expected m infos) =
              rw (q, all_expected) at known in
            let (here, later) =
              All-split (λ d. is_known_in before d ≡ true) (keep m.valid es) (all_expected m infos)
                known' in
            let (same', g'') = add_links-forget before es links ls s' h g' same here in
            let after = add_links source links ls s' in
            rw (p, update_each) (update_each-forget before infos after.0 after.1 g'' same' later)
      ]

  -- Where every attach point asked for has a link already, updateLinks adds none.
  pub update_links_known :
      (infos : List A) (ls : List (Link D)) (s : S)
      → m.Good s
      → All (λ d. is_known_in ls d ≡ true) (all_expected m infos)
      → forget (update_links source false infos ls s).0 ≡ forget ls
  unfolding update_links
  update_links_known infos ls s g known =
      update_each-forget ls infos (forget ls) s g (forget_twice ls) known
