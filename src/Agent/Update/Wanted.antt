-- ===== src/Agent/Update/Wanted.antt =====
-- Which links updateLinks leaves marked `should_attach`.
use bpfman_operator.Shared.{
  Bool, true, false, ◌&&◌, ℕ, zero, suc, none, some, List, [], ◌∷◌, ◌++◌, map, ◌≡◌, refl,
  Bool-cases, Option-cases, inl, inr, arith, All, All-append, All-map_lem, any, any-append, keep,
}
use mathlib.Core.List.{append_assoc, append-nil}
use bpfman_operator.Api.Links.{Link}
use bpfman_operator.Agent.Bpfman.{ok}
use bpfman_operator.Agent.Links.{set_should_attach}
use bpfman_operator.Agent.Update.{LinkSource, mark, add_found, add_links, update_each, update_links}
use bpfman_operator.Agent.Update.Matching.{
  Matching, find_index, IsFresh, HaveDetails, Agrees-cases, all_expected, is_expected, is_wanted_in,
}

any-left {ℓ} :
    {A : Type ℓ} (p : A → Bool) (xs ys : List A) → any p xs ≡ true → any p (xs ++ ys) ≡ true
any-left p xs ys h = rw any-append (rw h refl)

any-right {ℓ} :
    {A : Type ℓ} (p : A → Bool) (xs ys : List A) → any p ys ≡ true → any p (xs ++ ys) ≡ true
any-right p xs ys h = rw any-append (ground (arith, h))

module _ {S A D : Type 0} {source : LinkSource S A D} (m : Matching source) where
  -- A marked link stands for one of the attach points `ds`.
  abbrev IsJustified : List D → Link D → Type 0
  IsJustified ds l = l.should_attach ≡ true → is_expected m l.details ds ≡ true

  -- No link stands for the attach point of an earlier one.
  abbrev pub AreDistinct : List (Link D) → Type 0
  AreDistinct [] = Unit
  AreDistinct (l ∷ ls) =
      All (λ (l' : Link D). m.same l'.details l.details ≡ false) ls × AreDistinct ls

  -- Exactly what is asked for is marked.
  pub record IsExact (ds : List D) (ls : List (Link D)) : Type 0 where
    pub sound : All (IsJustified ds) ls
    pub complete : All (λ d. is_wanted_in m ls d ≡ true) ds
    pub distinct : AreDistinct ls

  wanted-mark :
      (d d' : D) (ls : List (Link D)) (i : ℕ)
      → is_wanted_in m ls d' ≡ true
      → is_wanted_in m (mark i ls) d' ≡ true
  unfolding mark
  wanted-mark d d' [] i h = h
  wanted-mark d d' (l ∷ ls) zero h = ground arith
  wanted-mark d d' (l ∷ ls) (suc i) h = ground (arith, wanted-mark d d' ls i)

  wanted-mark_found :
      (d : D) (ls : List (Link D)) (i : ℕ)
      → find_index (λ (old : Link D). m.same d old.details) ls ≡ some i
      → is_wanted_in m (mark i ls) d ≡ true
  unfolding mark
  wanted-mark_found d [] i h = cc
  wanted-mark_found d (l ∷ ls) zero h = ground arith
  wanted-mark_found d (l ∷ ls) (suc i) h = ground (arith, wanted-mark_found d ls i)

  -- Asking for more keeps a link justified, and the attach point itself justifies its link.
  IsJustified-more : (ds es : List D) (l : Link D) → IsJustified ds l → IsJustified (ds ++ es) l
  IsJustified-more ds es l h w = any-left (λ d. m.same d l.details) ds es (h w)

  IsJustified-by :
      (ds : List D) (d : D) (l : Link D) → m.same d l.details ≡ true → IsJustified (ds ++ d ∷ []) l
  IsJustified-by ds d l h w = any-right (λ e. m.same e l.details) ds (d ∷ []) (rw h refl)

  IsJustified-mark :
      (ds : List D) (d : D) (ls : List (Link D)) (i : ℕ)
      → find_index (λ (old : Link D). m.same d old.details) ls ≡ some i
      → All (IsJustified ds) ls
      → All (IsJustified (ds ++ d ∷ [])) (mark i ls)
  unfolding mark
  IsJustified-mark ds d [] i h s = tt
  IsJustified-mark ds d (l ∷ ls) zero h s = (
    IsJustified-by ds d (set_should_attach true l) (ground arith),
    All-map_lem (IsJustified ds) (IsJustified (ds ++ d ∷ [])) ls (IsJustified-more ds (d ∷ [])) s.1,
  )
  IsJustified-mark ds d (l ∷ ls) (suc i) h s =
      (IsJustified-more ds (d ∷ []) l s.0, IsJustified-mark ds d ls i (ground arith) s.1)

  details-mark :
      (d : D) (ls : List (Link D)) (i : ℕ)
      → All (λ (l : Link D). m.same l.details d ≡ false) ls
      → All (λ (l : Link D). m.same l.details d ≡ false) (mark i ls)
  unfolding mark
  details-mark d [] i h = tt
  details-mark d (l ∷ ls) zero h = h
  details-mark d (l ∷ ls) (suc i) h = (h.0, details-mark d ls i h.1)

  distinct-mark : (ls : List (Link D)) (i : ℕ) → AreDistinct ls → AreDistinct (mark i ls)
  unfolding mark
  distinct-mark [] i h = tt
  distinct-mark (l ∷ ls) zero h = h
  distinct-mark (l ∷ ls) (suc i) h = (details-mark l.details ls i h.0, distinct-mark ls i h.1)

  distinct-append :
      (ls : List (Link D)) (l : Link D)
      → find_index (λ (old : Link D). m.same l.details old.details) ls ≡ none
      → AreDistinct ls
      → AreDistinct (ls ++ l ∷ [])
  distinct-append [] l f h = (tt, tt)
  distinct-append (x ∷ xs) l f h = (
    All-append (λ (l' : Link D). m.same l'.details x.details ≡ false) xs (l ∷ []) h.0
        (ground arith, tt),
    distinct-append xs l (ground arith) h.1,
  )

  wanted-append :
      (d : D) (ls : List (Link D)) (l : Link D)
      → is_wanted_in m ls d ≡ true
      → is_wanted_in m (ls ++ l ∷ []) d ≡ true
  wanted-append d ls l =
      any-left (λ (l : Link D). l.should_attach && m.same d l.details) ls (l ∷ [])

  wanted-append_self :
      (ls : List (Link D)) (l : Link D)
      → IsFresh l
      → m.same l.details l.details ≡ true
      → is_wanted_in m (ls ++ l ∷ []) l.details ≡ true
  wanted-append_self ls l fresh e =
      any-right (λ (l' : Link D). l'.should_attach && m.same l.details l'.details) ls (l ∷ [])
        (ground (arith, e, fresh.wanted))

  -- A valid expected link that is found adds its attach point to what is asked for.
  IsExact-mark :
      (ds : List D) (d : D) (ls : List (Link D)) (i : ℕ)
      → find_index (λ (old : Link D). m.same d old.details) ls ≡ some i
      → IsExact ds ls
      → IsExact (ds ++ d ∷ []) (mark i ls)
  IsExact-mark ds d ls i f x = record {
    sound = IsJustified-mark ds d ls i f x.sound;
    complete =
        All-append (λ d'. is_wanted_in m (mark i ls) d' ≡ true) ds (d ∷ [])
          (All-map_lem (λ d'. is_wanted_in m ls d' ≡ true)
            (λ d'. is_wanted_in m (mark i ls) d' ≡ true) ds (λ d' h. wanted-mark d d' ls i h)
            x.complete)
          (wanted-mark_found d ls i f, tt);
    distinct = distinct-mark ls i x.distinct;
  }

  -- So does one that is not.
  IsExact-append :
      (ds : List D) (l : Link D) (ls : List (Link D))
      → IsFresh l
      → m.same l.details l.details ≡ true
      → find_index (λ (old : Link D). m.same l.details old.details) ls ≡ none
      → IsExact ds ls
      → IsExact (ds ++ l.details ∷ []) (ls ++ l ∷ [])
  IsExact-append ds l ls fresh e f x = record {
    sound =
        All-append (IsJustified (ds ++ l.details ∷ [])) ls (l ∷ [])
          (All-map_lem (IsJustified ds) (IsJustified (ds ++ l.details ∷ [])) ls
            (IsJustified-more ds (l.details ∷ [])) x.sound)
          (IsJustified-by ds l.details l e, tt);
    complete =
        All-append (λ d. is_wanted_in m (ls ++ l ∷ []) d ≡ true) ds (l.details ∷ [])
          (All-map_lem (λ d. is_wanted_in m ls d ≡ true)
            (λ d. is_wanted_in m (ls ++ l ∷ []) d ≡ true) ds (λ d. wanted-append d ls l) x.complete)
          (wanted-append_self ls l fresh e, tt);
    distinct = distinct-append ls l f x.distinct;
  }

  IsExact-add_found :
      (ds : List D) (l : Link D) (ls : List (Link D))
      → IsFresh l
      → m.valid l.details ≡ true
      → IsExact ds ls
      → IsExact
          (ds ++ l.details ∷ [])
          (add_found (ok (find_index (λ (old : Link D). m.same l.details old.details) ls)) l ls)
  unfolding add_found
  IsExact-add_found ds l ls fresh v x =
      elim (Option-cases (find_index (λ (old : Link D). m.same l.details old.details) ls)) [
        | inl f ↦ rw f (IsExact-append ds l ls fresh (m.same_refl l.details v) f x)
        | inr (i, f) ↦ rw f (IsExact-mark ds l.details ls i f x)
      ]

  -- The inner loop adds the valid ones of the expected attach points.
  IsExact-add_links :
      (ds es : List D) (expected ls : List (Link D)) (s : S)
      → HaveDetails expected es
      → m.Good s
      → IsExact ds ls
      → IsExact (ds ++ keep m.valid es) (add_links source expected ls s).0
        × m.Good (add_links source expected ls s).1
  unfolding add_links add_found
  IsExact-add_links ds [] [] ls s h g x = (rw append-nil x, g)
  IsExact-add_links ds [] (l ∷ expected) ls s h g x = absurd h
  IsExact-add_links ds (e ∷ es) [] ls s h g x = absurd h
  IsExact-add_links ds (e ∷ es) (l ∷ expected) ls s h g x =
      let s' = (source.find_link ls l s).1 in
      let g' = m.find_Good ls l s g in
      let i = find_index (λ (old : Link D). m.same l.details old.details) ls in
      elim (Bool-cases (m.valid l.details)) [
        | inl v ↦
            let x' = IsExact-add_found ds l ls h.1 v x in
            let ih =
              IsExact-add_links (ds ++ l.details ∷ []) es expected (add_found (ok i) l ls) s' h.2 g'
                x' in
            rw (← h.0)
              (rw (v, m.find_eq ls l s g, add_links) (rw (v, add_links) (rw append_assoc at ih)))
        | inr v ↦
            let ih = IsExact-add_links ds es expected ls s' h.2 g' x in
            rw (← h.0) (rw (v, m.find_eq ls l s g, add_links) (rw (v, add_links) ih))
      ]

  pub IsExact-update_each :
      (ds : List D) (infos : List A) (ls : List (Link D)) (s : S)
      → m.Good s
      → IsExact ds ls
      → IsExact (ds ++ all_expected m infos) (update_each source infos ls s).0
  unfolding update_each
  IsExact-update_each ds [] ls s g x = rw append-nil x
  IsExact-update_each ds (a ∷ infos) ls s g x =
      let s' = (source.get_expected_links a s).1 in
      let g' = m.expected_Good a s g in
      elim (Agrees-cases _ _ (m.expected_Agrees a s g)) [
        | inl (e, p, q) ↦ rw (p, q, update_each, all_expected) (rw append-nil x)
        | inr (links, es, p, q, h) ↦
            let (x', g'') = IsExact-add_links ds es links ls s' h g' x in
            let after = add_links source links ls s' in
            let ih = IsExact-update_each (ds ++ keep m.valid es) infos after.0 after.1 g'' x' in
            rw (p, q, update_each, all_expected) (rw append_assoc at ih)
      ]

  same-forget :
      (l : Link D) (ls : List (Link D))
      → All (λ (l' : Link D). m.same l'.details l.details ≡ false) ls
      → All
          (λ (l' : Link D). m.same l'.details l.details ≡ false)
          (map (set_should_attach false) ls)
  same-forget l [] h = tt
  same-forget l (l' ∷ ls) h = (h.0, same-forget l ls h.1)

  AreDistinct-forget :
      (ls : List (Link D)) → AreDistinct ls → AreDistinct (map (set_should_attach false) ls)
  AreDistinct-forget [] h = tt
  AreDistinct-forget (l ∷ ls) h = (same-forget l ls h.0, AreDistinct-forget ls h.1)

  IsJustified-forget :
      (ls : List (Link D)) → All (IsJustified []) (map (set_should_attach false) ls)
  IsJustified-forget [] = tt
  IsJustified-forget (l ∷ ls) = (λ h. cc, IsJustified-forget ls)

  pub update_links-IsExact :
      (infos : List A) (ls : List (Link D)) (s : S)
      → m.Good s
      → AreDistinct ls
      → IsExact (all_expected m infos) (update_links source false infos ls s).0
  unfolding update_links
  update_links-IsExact infos ls s g h =
      IsExact-update_each [] infos _ s g (record {
        sound = IsJustified-forget ls;
        complete = tt;
        distinct = AreDistinct-forget ls h;
      })
