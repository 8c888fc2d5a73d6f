-- ===== src/Api/ProgramTypes/Names.antt =====
-- The two tables of names agree.
use bpfman_operator.Shared.{
  ℕ, String, Option, none, some, ◌==◌, string_eq, if◌then◌else◌, ◌≡◌, ap, sym, refl, ◌∙◌,
  Bool-cases, inl, inr, beq→eq,
}
use bpfman_operator.Api.ProgramTypes.{
  kprobe_type, tc_type, xdp_type, tracepoint_type, tracing_type, helper_type_string,
  helper_type_from_string,
}

-- A name that is looked up, or else.
choice :
    (name key : String) (code p : ℕ) (rest : Option ℕ) (string : ℕ → String)
    → string code ≡ key
    → (rest ≡ some p → string p ≡ name)
    → (if name == key then some code else rest) ≡ some p
    → string p ≡ name
choice name key code p rest string known others h = elim (Bool-cases (name == key)) [
  | inl e ↦
      let same : some code ≡ some p = rw e at h in
      let same' : code ≡ p = cc in sym (ap string same') ∙ known ∙ sym (beq→eq name key e)
  | inr e ↦ others (rw e at h)
]

-- Of every name that FromString of pkg/helpers reads, String gives back the name.
pub helper_type_from_string-string :
    (name : String) (p : ℕ) → helper_type_from_string name ≡ some p → helper_type_string p ≡ name
unfolding helper_type_from_string helper_type_string
helper_type_from_string-string name p h =
    choice name "kprobe" kprobe_type p _ helper_type_string refl
      (λ h1.
        choice name "tc" tc_type p _ helper_type_string refl
          (λ h2.
            choice name "xdp" xdp_type p _ helper_type_string refl
              (λ h3.
                choice name "tracepoint" tracepoint_type p _ helper_type_string refl
                  (λ h4.
                    choice name "tracing" tracing_type p none helper_type_string refl (λ h5. cc) h4)
                  h3)
              h2)
          h1)
      h
