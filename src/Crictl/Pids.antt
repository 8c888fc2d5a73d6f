-- ===== src/Crictl/Pids.antt =====
-- What convertPIDValue makes of a value, whatever its type.
use bpfman_operator.Shared.{
  ℤ, int32_of, IsInt32, int32_of-IsInt32, int32_of_same, Option, none, some, ◌≡◌, ◌↔◌, ◌⊎◌, inl,
  inr, subst, refl,
}
use bpfman_operator.Crictl.{
  Json, Value, int64_value, float64_value, int_value, int32_value, string_value, other_value,
  convert_pid_value,
}

module _ (json : Json) (whole : json.Float → Option ℤ) where
  -- The conversion `int32(x)` of a float64: `whole` is the number that a float is, if it has no fraction.
  pub record IsConversion : Type 0 where
    pub in_range : (x : json.Float) → IsInt32 (json.int32_of_float x)
    pub exact : (x : json.Float) (n : ℤ) → whole x ≡ some n → IsInt32 n → json.int32_of_float x ≡ n

  -- The number that a value is, and whether the value is a number at all.
  abbrev pub number_of : Value json.Float json.Rest → Option ℤ
  number_of (int64_value n) = some n
  number_of (float64_value x) = whole x
  number_of (int_value n) = some n
  number_of (int32_value n) = some n
  number_of (string_value s) = none
  number_of (other_value r) = none

  abbrev pub IsNoNumber : Value json.Float json.Rest → Type 0
  IsNoNumber (string_value s) = Unit
  IsNoNumber (other_value r) = Unit
  IsNoNumber (int64_value n) = ⊥
  IsNoNumber (float64_value x) = ⊥
  IsNoNumber (int_value n) = ⊥
  IsNoNumber (int32_value n) = ⊥

  -- An int32 is in the range of its type.
  abbrev pub IsOfItsType : Value json.Float json.Rest → Type 0
  IsOfItsType (int32_value n) = IsInt32 n
  IsOfItsType v = Unit

  -- The pid is the number exactly if that is in the range of an int32.
  abbrev pub Keeps : Option ℤ → ℤ → Type 0
  Keeps none pid = Unit
  Keeps (some n) pid = (pid ≡ n) ↔ IsInt32 n

  kept : (n : ℤ) → Keeps (some n) (int32_of n)
  kept n = (λ same. subst IsInt32 same (int32_of-IsInt32 n), λ small. int32_of_same n small)

  kept_float :
      IsConversion → (x : json.Float) (n : Option ℤ) → whole x ≡ n → Keeps n (json.int32_of_float x)
  kept_float conversion x none h = tt
  kept_float conversion x (some n) h =
      (λ same. subst IsInt32 same (conversion.in_range x), λ small. conversion.exact x n h small)

  -- convertPIDValue fails for a value that is no number, and of a number it gives an int32, which is the
  -- same number exactly if that is in the range of an int32; nothing is said of the number for a float with
  -- a fraction. The conversion of floats gives an int32, and the same number if it is one.
  pub convert_pid_value_bounds :
      IsConversion
      → (v : Value json.Float json.Rest) → IsOfItsType v
      → (IsNoNumber v × (convert_pid_value json v ≡ none))
        ⊎ ((pid : ℤ) × (convert_pid_value json v ≡ some pid)
            × IsInt32 pid
            × Keeps (number_of v) pid)
  unfolding convert_pid_value
  convert_pid_value_bounds conversion (int64_value n) h =
      inr (int32_of n, refl, int32_of-IsInt32 n, kept n)
  convert_pid_value_bounds conversion (int_value n) h =
      inr (int32_of n, refl, int32_of-IsInt32 n, kept n)
  convert_pid_value_bounds conversion (float64_value x) h =
      inr
        (json.int32_of_float x, refl, conversion.in_range x, kept_float conversion x (whole x) refl)
  convert_pid_value_bounds conversion (int32_value n) h = inr (n, refl, h, (λ _. h, λ _. refl))
  convert_pid_value_bounds conversion (string_value s) h = inl (tt, refl)
  convert_pid_value_bounds conversion (other_value r) h = inl (tt, refl)
