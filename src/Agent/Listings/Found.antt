-- ===== src/Agent/Listings/Found.antt =====
-- Which results ListBpfmanPrograms of controllers/bpfman-agent/internal/bpfman_core.go returns.
use bpfman_operator.Shared.{
  Bool, true, false, ℕ, String, Option, none, some, List, [], ◌∷◌, ◌==◌, string_eq, ◌≡◌, ◌↔◌, ◌⊎◌,
  refl, sym, ap, ◌∙◌, any, Dict, look_up, put, look_up-put, if◌then◌else◌, Bool-cases, inl, inr,
}
use bpfman_operator.Agent.Listings.{
  ListResult, no_uuid, failed, listed, ListClient, uuid_of, results_by_uuid, list_bpfman_programs,
  keyed, or_no_uuid, bpfman_programs_request,
}

-- The last value, if there is one, and otherwise the first.
abbrev or_else {ℓ} : {A : Type ℓ} → Option A → Option A → Option A
or_else (some a) b = some a
or_else none b = b

abbrev has_uuid : String → Option (Option String) → Bool
has_uuid uuid none = false
has_uuid uuid (some none) = false
has_uuid uuid (some (some k)) = k == uuid

-- The last of the results that has the uuid.
abbrev pub last_with : String → List ListResult → Option ListResult
last_with uuid [] = none
last_with uuid (result ∷ results) =
    or_else (last_with uuid results) (if has_uuid uuid (uuid_of result) then some result else none)

-- The result has an `Info`, but no uuid in it.
abbrev lacks : Option (Option String) → Bool
lacks none = false
lacks (some none) = true
lacks (some (some k)) = false

abbrev pub lacks_uuid : ListResult → Bool
lacks_uuid result = lacks (uuid_of result)

uuid_cases :
    (uuid : Option (Option String))
    → ((uuid ≡ none) ⊎ (uuid ≡ some none)) ⊎ ((k : String) × (uuid ≡ some (some k)))
uuid_cases none = inl (inl refl)
uuid_cases (some none) = inl (inr refl)
uuid_cases (some (some k)) = inr (k, refl)

or_else-put :
    (uuid k : String) (result : ListResult) (out : Dict ListResult) (later : Option ListResult)
    → or_else later (look_up uuid (put k result out))
      ≡ or_else (or_else later (if k == uuid then some result else none)) (look_up uuid out)
or_else-put uuid k result out (some r) = refl
or_else-put uuid k result out none =
    look_up-put uuid k result out
    ∙ elim (Bool-cases (k == uuid)) [ inl e ↦ rw e refl | inr e ↦ rw e refl ]

or_else-none : {A : Type 0} (a : Option A) → or_else a none ≡ a
or_else-none none = refl
or_else-none (some a) = refl

-- Under a uuid the loop leaves the last result that has it, or what was there before.
results_by_uuid-look_up :
    (uuid : String) (results : List ListResult) (out m : Dict ListResult)
    → results_by_uuid results out ≡ some m
    → look_up uuid m ≡ or_else (last_with uuid results) (look_up uuid out)
unfolding results_by_uuid
results_by_uuid-look_up uuid [] out m h = (let same : out ≡ m = cc in ap (look_up uuid) (sym same))
results_by_uuid-look_up uuid (result ∷ results) out m h = elim (uuid_cases (uuid_of result)) [
  | inl (inl e) ↦
      let h' : results_by_uuid results out ≡ some m = rw (e, results_by_uuid) at h in
      rw e
        (rw (or_else-none (last_with uuid results)) (results_by_uuid-look_up uuid results out m h'))
  | inl (inr e) ↦ (let clash : none ≡ some m = rw (e, results_by_uuid) at h in cc)
  | inr (k, e) ↦
      let h' : results_by_uuid results (put k result out) ≡ some m = rw (e, results_by_uuid) at h in
      rw e (
        results_by_uuid-look_up uuid results (put k result out) m h'
        ∙ or_else-put uuid k result out (last_with uuid results))
]

-- The loop fails exactly if a result with an `Info` has no uuid.
results_by_uuid-none :
    (results : List ListResult) (out : Dict ListResult)
    → (results_by_uuid results out ≡ none) ↔ (any lacks_uuid results ≡ true)
unfolding results_by_uuid
results_by_uuid-none [] out = (λ h. cc, λ h. cc)
results_by_uuid-none (result ∷ results) out = elim (uuid_cases (uuid_of result)) [
  | inl (inl e) ↦ rw (e, results_by_uuid) (results_by_uuid-none results out)
  | inl (inr e) ↦ rw (e, results_by_uuid) (λ _. refl, λ _. refl)
  | inr (k, e) ↦ rw (e, results_by_uuid) (results_by_uuid-none results (put k result out))
]

failed_iff : (out : Option (Dict ListResult)) → (or_no_uuid out ≡ failed no_uuid) ↔ (out ≡ none)
failed_iff none = (λ _. refl, λ _. refl)
failed_iff (some m) = (λ h. cc, λ h. cc)

listed-inv :
    (out : Option (Dict ListResult)) (m : Dict ListResult)
    → or_no_uuid out ≡ listed m
    → out ≡ some m
listed-inv none m h = cc
listed-inv (some n) m h = cc

module _ (client : ListClient) (program_type : ℕ) (d d' : client.Daemon) (results : List ListResult)
    (answer : client.list (bpfman_programs_request program_type) d ≡ (some results, d')) where
  list-keyed : list_bpfman_programs client program_type d ≡ (keyed (some results), d')
  unfolding list_bpfman_programs
  list-keyed = ap (λ (r : Option (List ListResult) × client.Daemon). (keyed r.0, r.1)) answer

  -- Over results that the daemon lists, ListBpfmanPrograms fails exactly if one with an `Info` has no
  -- uuid.
  list_bpfman_programs_iff :
      ((list_bpfman_programs client program_type d).0 ≡ failed no_uuid)
      ↔ (any lacks_uuid results ≡ true)
  list_bpfman_programs_iff =
      let (forth, back) = failed_iff (results_by_uuid results []) in
      let (forth', back') = results_by_uuid-none results [] in
      rw list-keyed (λ h. forth' (forth h), λ h. back (back' h))

  -- What it returns then has under a uuid exactly the last result that has it.
  list_bpfman_programs-look_up :
      (m : Dict ListResult) (uuid : String)
      → (list_bpfman_programs client program_type d).0 ≡ listed m
      → look_up uuid m ≡ last_with uuid results
  list_bpfman_programs-look_up m uuid h =
      let h' : keyed (some results) ≡ listed m = rw list-keyed at h in
      results_by_uuid-look_up uuid results [] m (listed-inv (results_by_uuid results []) m h')
      ∙ or_else-none (last_with uuid results)
