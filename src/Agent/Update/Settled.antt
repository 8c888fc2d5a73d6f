-- ===== src/Agent/Update/Settled.antt =====
-- A program that is as its entries ask for: updateLinks of the `*_program.go` under
-- controllers/bpfman-agent leaves its links alone.
use bpfman_operator.Shared.{
  true, false, List, [], ◌∷◌, map, ◌≡◌, refl, ap, ap₂, sym, ◌∙◌, subst, Bool-cases, inl, inr, arith,
  All, All-map_lem,
}
use bpfman_operator.Api.Links.{Link}
use bpfman_operator.Agent.Links.{set_should_attach}
use bpfman_operator.Agent.Links.Status.{IsAttached}
use bpfman_operator.Agent.Update.{LinkSource, update_links}
use bpfman_operator.Agent.Update.Matching.{Matching, all_expected, is_expected, is_wanted_in}
use bpfman_operator.Agent.Update.Frame.{forget}
use bpfman_operator.Agent.Update.Wanted.{AreDistinct, update_links-IsExact}
use bpfman_operator.Agent.Update.Attached.{AreAttached, is_attached_in}
use bpfman_operator.Agent.Update.Known.{is_known_in, update_links_known}

abbrev AreWanted : {D : Type 0} → List (Link D) → Type 0
AreWanted {D} = All (λ (l : Link D). l.should_attach ≡ true)

module _ {D : Type 0} where
  wanted-forget :
      (ls : List (Link D)) → AreWanted ls → map (set_should_attach true) (forget ls) ≡ ls
  wanted-forget [] h = refl
  wanted-forget (l ∷ ls) (h, hs) =
      ap₂ (λ x xs. x ∷ xs) (sym (ap (λ b. set_should_attach b l) h)) (wanted-forget ls hs)

  wanted_unique :
      (us vs : List (Link D)) → AreWanted us → AreWanted vs → forget us ≡ forget vs → us ≡ vs
  wanted_unique us vs h k same =
      sym (wanted-forget us h) ∙ (ap (map (set_should_attach true)) same ∙ wanted-forget vs k)

  module _ (Holds : D → Type 0) where
    details-forget :
        (ls : List (Link D))
        → All (λ (l : Link D). Holds l.details) ls
        → All (λ (l : Link D). Holds l.details) (forget ls)
    details-forget [] h = tt
    details-forget (l ∷ ls) (h, hs) = (h, details-forget ls hs)

    forget-details :
        (ls : List (Link D))
        → All (λ (l : Link D). Holds l.details) (forget ls)
        → All (λ (l : Link D). Holds l.details) ls
    forget-details [] h = tt
    forget-details (l ∷ ls) (h, hs) = (h, forget-details ls hs)

vacuous :
    {D : Type 0} (ls : List (Link D))
    → All (λ (l : Link D). false ≡ true → l.should_attach ≡ true) ls
vacuous [] = tt
vacuous (l ∷ ls) = (λ h. cc, vacuous ls)

module _ {S A D : Type 0} {source : LinkSource S A D} (m : Matching source) where
  -- Two attach points that one stands for are one.
  abbrev pub IsEuclidean : Type 0
  IsEuclidean = (e d d' : D) → m.same e d ≡ true → m.same e d' ≡ true → m.same d' d ≡ true

  -- Where no link stands for the attach point of `d`, none stands for what `d` stands for.
  others-differ :
      IsEuclidean
      → (e d : D) (ls : List (Link D)) → m.same e d ≡ true
      → All (λ (l : Link D). m.same l.details d ≡ false) ls
      → All (λ (l : Link D). m.same e l.details ≡ false) ls
  others-differ euclid e d [] same h = tt
  others-differ euclid e d (l ∷ ls) same (h, hs) = (
    elim (Bool-cases (m.same e l.details)) [
      | inl k ↦ (let clash : true ≡ false = sym (euclid e d l.details same k) ∙ h in cc)
      | inr k ↦ k
    ],
    others-differ euclid e d ls same hs,
  )

  differ-unwanted :
      (e : D) (ls : List (Link D))
      → All (λ (l : Link D). m.same e l.details ≡ false) ls
      → is_wanted_in m ls e ≡ false
  differ-unwanted e [] h = refl
  differ-unwanted e (l ∷ ls) (h, hs) = rw (h, differ-unwanted e ls hs) (ground arith)

  -- Of distinct links only a marked one stands for an attach point that has a marked link.
  wanted-marks :
      IsEuclidean
      → (e : D) (ls : List (Link D)) → AreDistinct m ls
      → is_wanted_in m ls e ≡ true
      → All (λ (l : Link D). m.same e l.details ≡ true → l.should_attach ≡ true) ls
  wanted-marks euclid e [] h w = tt
  wanted-marks euclid e (l ∷ ls) (h, hs) w = elim (Bool-cases (m.same e l.details)) [
    | inl k ↦
        let differ = others-differ euclid e l.details ls k h in
        let unwanted = differ-unwanted e ls differ in
        (
          λ _. ground (arith, unwanted),
          All-map_lem (λ (l' : Link D). m.same e l'.details ≡ false)
              (λ (l' : Link D). m.same e l'.details ≡ true → l'.should_attach ≡ true) ls
              (λ l' no yes. (let clash : true ≡ false = sym yes ∙ no in cc)) differ,
        )
    | inr k ↦ (
      λ yes. (let clash : true ≡ false = sym yes ∙ k in cc),
      wanted-marks euclid e ls hs (ground (arith, k)),
    )
  ]

  either-marks :
      (e : D) (ds : List D) (ls : List (Link D))
      → All (λ (l : Link D). m.same e l.details ≡ true → l.should_attach ≡ true) ls
      → All (λ (l : Link D). is_expected m l.details ds ≡ true → l.should_attach ≡ true) ls
      → All (λ (l : Link D). is_expected m l.details (e ∷ ds) ≡ true → l.should_attach ≡ true) ls
  either-marks e ds [] h k = tt
  either-marks e ds (l ∷ ls) (h, hs) (k, ks) = (
    λ yes. elim (Bool-cases (m.same e l.details)) [
      | inl here ↦ h here
      | inr there ↦ k (ground (arith, there))
    ],
    either-marks e ds ls hs ks,
  )

  complete-marks :
      IsEuclidean
      → (ds : List D) (ls : List (Link D)) → AreDistinct m ls
      → All (λ d. is_wanted_in m ls d ≡ true) ds
      → All (λ (l : Link D). is_expected m l.details ds ≡ true → l.should_attach ≡ true) ls
  complete-marks euclid [] ls h w = vacuous ls
  complete-marks euclid (e ∷ ds) ls h (w, ws) =
      either-marks e ds ls (wanted-marks euclid e ls h w) (complete-marks euclid ds ls h ws)

  all-marked :
      (ds : List D) (ls : List (Link D))
      → All (λ (l : Link D). is_expected m l.details ds ≡ true → l.should_attach ≡ true) ls
      → All (λ (l : Link D). is_expected m l.details ds ≡ true) ls
      → AreWanted ls
  all-marked ds [] h k = tt
  all-marked ds (l ∷ ls) (h, hs) (k, ks) = (h k, all-marked ds ls hs ks)

  attached-known :
      (ls : List (Link D)) (d : D) → is_attached_in m ls d ≡ true → is_known_in m ls d ≡ true
  attached-known [] d h = cc
  attached-known (l ∷ ls) d h = ground (arith, attached-known ls d)

  -- Links that are as the entries ask for stay as they are, and stay marked.
  pub settled-links :
      IsEuclidean
      → (infos : List A) (ls : List (Link D)) (s : S) → m.Good s
      → AreDistinct m ls
      → AreAttached m (all_expected m infos) ls
      → (update_links source false infos ls s).0 ≡ ls
  settled-links euclid infos ls s g h attached =
      let ds = all_expected m infos in
      let us = (update_links source false infos ls s).0 in
      let same = update_links_known m infos ls s g (
        All-map_lem (λ d. is_attached_in m ls d ≡ true) (λ d. is_known_in m ls d ≡ true) ds
          (attached-known ls) attached.complete) in
      let exact = update_links-IsExact m infos ls s g h in
      let expected =
        forget-details (λ d. is_expected m d ds ≡ true) us
          (subst (All (λ (l : Link D). is_expected m l.details ds ≡ true)) (sym same)
            (details-forget (λ d. is_expected m d ds ≡ true) ls attached.sound)) in
      let marked =
        all-marked ds us (complete-marks euclid ds us exact.distinct exact.complete) expected in
      wanted_unique us ls marked
        (All-map_lem IsAttached (λ (l : Link D). l.should_attach ≡ true) ls (λ l a. a.wanted)
          attached.attached)
        same
