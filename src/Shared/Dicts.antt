-- ===== src/Shared/Dicts.antt =====
-- Go's maps with text keys: association lists, in which the first entry of a key counts.
use Prim.Native.String.{String}
use mathlib.Core.Path.{◌≡◌, refl, sym, ap, ap₂, ◌∙◌}
use mathlib.Core.Bool.{Bool, true, ◌&&◌}
use mathlib.Core.Option.{Option, none, some}
use mathlib.Core.List.{List, [], ◌∷◌}
use mathlib.Core.Logic.{inl, inr}
use native.Mathlib.Omega.{arith}
use bpfman_operator.Shared.Tests.{Eq, ◌==◌, string_eq, nat_eq, option_eq, if◌then◌else◌, Bool-cases}
use bpfman_operator.Shared.Lists.{length, all}

abbrev pub Dict {ℓ} : Type ℓ → Type ℓ
Dict V = List (String × V)

module _ {ℓ} {V : Type ℓ} where
  -- `m[k]`, with whether it is there
  abbrev pub look_up : String → Dict V → Option V
  look_up k [] = none
  look_up k ((j, v) ∷ m) = let rest = look_up k m in if j == k then some v else rest

  -- `m[k] = v`
  abbrev pub put : String → V → Dict V → Dict V
  put k v [] = (k, v) ∷ []
  put k v ((j, w) ∷ m) = let rest = put k v m in if j == k then (k, v) ∷ m else (j, w) ∷ rest

  -- `maps.Copy(m, entries)`
  abbrev pub put_all : Dict V → Dict V → Dict V
  put_all [] m = m
  put_all ((k, v) ∷ entries) m = put_all entries (put k v m)

  pub look_up-put :
      (j k : String) (v : V) (m : Dict V)
      → look_up j (put k v m) ≡ (if k == j then some v else look_up j m)
  look_up-put j k v [] = refl
  look_up-put j k v ((i, w) ∷ m) = ground (
    arith,
    look_up-put j k v m,
    string_eq.beq_iff i k,
    string_eq.beq_iff i j,
    string_eq.beq_iff k j,
  )

  -- No key stands twice.
  abbrev pub HasDistinctKeys : Dict V → Type ℓ
  HasDistinctKeys [] = Unit
  HasDistinctKeys ((k, v) ∷ m) = (look_up k m ≡ none) × HasDistinctKeys m

  pub put-HasDistinctKeys :
      (k : String) (v : V) (m : Dict V) → HasDistinctKeys m → HasDistinctKeys (put k v m)
  put-HasDistinctKeys k v [] distinct = (refl, tt)
  put-HasDistinctKeys k v ((j, w) ∷ m) (fresh, distinct) = elim (Bool-cases (j == k)) [
    | inl here ↦
        rw (here) (sym (ap (λ i. look_up i m) ((string_eq.beq_iff j k).0 here)) ∙ fresh, distinct)
    | inr there ↦
        let apart = string_eq.beq_iff j k in
        let apart' = string_eq.beq_iff k j in
        rw (there) (
          look_up-put j k v m ∙ ground (arith, apart, apart', there, fresh),
          put-HasDistinctKeys k v m distinct,
        )
  ]

  pub put_all-HasDistinctKeys :
      (entries m : Dict V) → HasDistinctKeys m → HasDistinctKeys (put_all entries m)
  put_all-HasDistinctKeys [] m distinct = distinct
  put_all-HasDistinctKeys ((k, v) ∷ entries) m distinct =
      put_all-HasDistinctKeys entries (put k v m) (put-HasDistinctKeys k v m distinct)

module _ {ℓ} {V : Type ℓ} ⦃e : Eq V⦄ where
  -- `maps.Equal`, and `DeepEqual` on maps
  abbrev pub maps_equal : Dict V → Dict V → Bool
  maps_equal m m' = length m == length m' && all (λ ((k, v) : String × V). look_up k m' == some v) m

  abbrev entry_of : Dict V → String × V → Bool
  entry_of m' (k, v) = look_up k m' == some v

  all-look_up :
      (m m' : Dict V) (k : String) (v : V)
      → all (λ ((j, w) : String × V). look_up j m' == some w) m ≡ true
      → look_up k m ≡ some v
      → look_up k m' ≡ some v
  all-look_up [] m' k v h found = cc
  all-look_up ((j, w) ∷ m) m' k v h found = elim (Bool-cases (j == k)) [
    | inl here ↦
        let value : some w ≡ some v = rw here at found in
        let head = (option_eq.beq_iff (look_up j m') (some w)).0 (ground (arith, h)) in
        ap (λ i. look_up i m') (sym ((string_eq.beq_iff j k).0 here)) ∙ head ∙ value
    | inr there ↦
        let rest : look_up k m ≡ some v = rw there at found in
        all-look_up m m' k v (ground (arith, h)) rest
  ]

  -- Maps that are equal have the same values.
  pub maps_equal-look_up :
      (m m' : Dict V) (k : String) (v : V)
      → maps_equal m m' ≡ true
      → look_up k m ≡ some v
      → look_up k m' ≡ some v
  maps_equal-look_up m m' k v h found = all-look_up m m' k v (ground (arith, h)) found

  all-cons :
      (j : String) (w : V) (m entries : Dict V)
      → look_up j entries ≡ none
      → all (λ ((k, v) : String × V). look_up k m == some v) entries ≡ true
      → all (λ ((k, v) : String × V). look_up k ((j, w) ∷ m) == some v) entries ≡ true
  all-cons j w m [] fresh h = refl
  all-cons j w m ((k, v) ∷ entries) fresh h = elim (Bool-cases (k == j)) [
    | inl here ↦ (let found : some v ≡ none = rw here at fresh in cc)
    | inr there ↦
        let apart = string_eq.beq_iff k j in
        let apart' = string_eq.beq_iff j k in
        let rest : look_up j entries ≡ none = rw there at fresh in
        let ih = all-cons j w m entries rest (ground (arith, h)) in
        ground (arith, apart, apart', there, ih, h)
  ]

  all_self :
      (m : Dict V)
      → HasDistinctKeys m
      → all (λ ((k, v) : String × V). look_up k m == some v) m ≡ true
  all_self [] distinct = refl
  all_self ((k, v) ∷ m) (fresh, distinct) =
      let rest = all-cons k v m m fresh (all_self m distinct) in
      let head = (string_eq.beq_iff k k).1 refl in
      let found : look_up k ((k, v) ∷ m) ≡ some v = rw (head) refl in
      ap₂ (λ a b. a && b) ((option_eq.beq_iff (look_up k ((k, v) ∷ m)) (some v)).1 found) rest

  -- A map equals itself.
  pub maps_equal_refl : (m : Dict V) → HasDistinctKeys m → maps_equal m m ≡ true
  maps_equal_refl m distinct =
      ground (arith, all_self m distinct, nat_eq.beq_iff (length m) (length m))
