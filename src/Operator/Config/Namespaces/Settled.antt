-- ===== src/Operator/Config/Namespaces/Settled.antt =====
-- What reconcileNamespace of controllers/bpfman-operator/config.go makes of a namespace.
use bpfman_operator.Shared.{
  Bool, true, false, ◌&&◌, String, none, some, [], ◌∷◌, ◌++◌, ◌==◌, string_eq, Dict, look_up, put,
  look_up-put, HasDistinctKeys, ◌≡◌, refl, sym, ap, ap₂, ◌∙◌, All, Bool-cases, inl, inr, ◌⊎◌,
}
use bpfman_operator.Operator.Config.{Namespace}
use bpfman_operator.Operator.Config.Namespaces.{
  value_or_empty, psa_labels, monitoring_labels, os_annotations, set_if_differs, set_all,
  required_labels, annotated, joined, labelled,
}

abbrev pub reads : Dict String → String → String
reads m k = value_or_empty (look_up k m)

-- Every entry reads as it should.
abbrev pub HoldsAll : Dict String → Dict String → Type 0
HoldsAll entries m = All (λ ((k, v) : String × String). reads m k ≡ v) entries

set_if_differs-reads :
    (k v : String) (m : Dict String) (changed : Bool)
    → reads (set_if_differs k v (m, changed)).0 k ≡ v
set_if_differs-reads k v m changed = elim (Bool-cases (reads m k == v)) [
  | inl same ↦ rw (same) ((string_eq.beq_iff (reads m k) v).0 same)
  | inr differs ↦ rw (differs, look_up-put, (string_eq.beq_iff k k).1 refl) refl
]

set_if_differs-other :
    (j k v : String) (m : Dict String) (changed : Bool)
    → (k == j) ≡ false
    → look_up j (set_if_differs k v (m, changed)).0 ≡ look_up j m
set_if_differs-other j k v m changed h = elim (Bool-cases (reads m k == v)) [
  | inl same ↦ rw (same) refl
  | inr differs ↦ rw (differs, look_up-put, h) refl
]

set_all-other :
    (entries : Dict String) (j : String) (s : Dict String × Bool)
    → look_up j entries ≡ none
    → look_up j (set_all entries s).0 ≡ look_up j s.0
unfolding set_all
set_all-other [] j s h = refl
set_all-other ((k, v) ∷ entries) j s h = elim (Bool-cases (k == j)) [
  | inl here ↦ (let e : some v ≡ none = rw here at h in cc)
  | inr there ↦
      let rest : look_up j entries ≡ none = rw there at h in
      set_all-other entries j (set_if_differs k v s) rest ∙ set_if_differs-other j k v s.0 s.1 there
]

set_all-HoldsAll :
    (entries : Dict String) (s : Dict String × Bool)
    → HasDistinctKeys entries
    → HoldsAll entries (set_all entries s).0
unfolding set_all
set_all-HoldsAll [] s distinct = tt
set_all-HoldsAll ((k, v) ∷ entries) s (fresh, distinct) = (
  ap value_or_empty (set_all-other entries k (set_if_differs k v s) fresh)
      ∙ set_if_differs-reads k v s.0 s.1,
  set_all-HoldsAll entries (set_if_differs k v s) distinct,
)

set_if_differs-idle :
    (k v : String) (s : Dict String × Bool) → reads s.0 k ≡ v → set_if_differs k v s ≡ s
set_if_differs-idle k v s h = rw ((string_eq.beq_iff (reads s.0 k) v).1 h) refl

set_if_differs-sets :
    (k v : String) (m : Dict String) (changed : Bool)
    → (reads m k == v) ≡ false
    → set_if_differs k v (m, changed) ≡ (put k v m, true)
set_if_differs-sets k v m changed h = rw (h) refl

set_all-idle :
    (entries : Dict String) (s : Dict String × Bool) → HoldsAll entries s.0 → set_all entries s ≡ s
unfolding set_all
set_all-idle [] s holds = refl
set_all-idle ((k, v) ∷ entries) s (here, holds) =
    ap (set_all entries) (set_if_differs-idle k v s here) ∙ set_all-idle entries s holds

set_all-changed : (entries : Dict String) (m : Dict String) → (set_all entries (m, true)).1 ≡ true
unfolding set_all
set_all-changed [] m = refl
set_all-changed ((k, v) ∷ entries) m = elim (Bool-cases (reads m k == v)) [
  | inl same ↦
      let idle = set_if_differs-idle k v (m, true) ((string_eq.beq_iff (reads m k) v).0 same) in
      ap (λ t. (set_all entries t).1) idle ∙ set_all-changed entries m
  | inr differs ↦
      ap (λ t. (set_all entries t).1) (set_if_differs-sets k v m true differs)
      ∙ set_all-changed entries (put k v m)
]

set_all-unchanged :
    (entries : Dict String) (s : Dict String × Bool)
    → (set_all entries s).1 ≡ false
    → set_all entries s ≡ s
unfolding set_all
set_all-unchanged [] s h = refl
set_all-unchanged ((k, v) ∷ entries) s h = elim (Bool-cases (reads s.0 k == v)) [
  | inl same ↦
      let idle = set_if_differs-idle k v s ((string_eq.beq_iff (reads s.0 k) v).0 same) in
      ap (set_all entries) idle
      ∙ set_all-unchanged entries s (sym (ap (λ t. (set_all entries t).1) idle) ∙ h)
  | inr differs ↦
      let sets = set_if_differs-sets k v s.0 s.1 differs in
      let changed : true ≡ false =
        sym (set_all-changed entries (put k v s.0))
        ∙ sym (ap (λ t. (set_all entries t).1) sets)
        ∙ h in
      cc
]

-- A key that is not among the entries, or has its entry's value.
abbrev pub IsKept : Dict String → Dict String → String → Type 0
IsKept entries m j = (look_up j entries ≡ none) ⊎ (look_up j entries ≡ some (reads m j))

set_all-keeps_same :
    (entries : Dict String) (j : String) (s : Dict String × Bool)
    → HasDistinctKeys entries
    → look_up j entries ≡ some (reads s.0 j)
    → look_up j (set_all entries s).0 ≡ look_up j s.0
unfolding set_all
set_all-keeps_same [] j s distinct h = refl
set_all-keeps_same ((k, v) ∷ entries) j s (fresh, distinct) h = elim (Bool-cases (k == j)) [
  | inl here ↦
      let value : some v ≡ some (reads s.0 j) = rw here at h in
      let key = (string_eq.beq_iff k j).0 here in
      let idle = set_if_differs-idle k v s (ap (reads s.0) key ∙ sym (ap value_or_empty value)) in
      set_all-other entries j (set_if_differs k v s) (sym (ap (λ i. look_up i entries) key) ∙ fresh)
      ∙ ap (λ t. look_up j t.0) idle
  | inr there ↦
      let rest : look_up j entries ≡ some (reads s.0 j) = rw there at h in
      let other = set_if_differs-other j k v s.0 s.1 there in
      set_all-keeps_same entries j (set_if_differs k v s) distinct
        (rest ∙ ap some (sym (ap value_or_empty other)))
      ∙ other
]

set_all-keeps :
    (entries : Dict String) (j : String) (s : Dict String × Bool)
    → HasDistinctKeys entries
    → IsKept entries s.0 j
    → look_up j (set_all entries s).0 ≡ look_up j s.0
set_all-keeps entries j s distinct (inl absent) = set_all-other entries j s absent
set_all-keeps entries j s distinct (inr value) = set_all-keeps_same entries j s distinct value

module _ (is_openshift has_monitoring : Bool) where
  labels-HasDistinctKeys : HasDistinctKeys (required_labels is_openshift has_monitoring)
  labels-HasDistinctKeys = distinct (is_openshift && has_monitoring)
    where
      distinct : (b : Bool) → HasDistinctKeys (psa_labels ++ monitoring_labels b)
      distinct true = (refl, (refl, (refl, (refl, tt))))
      distinct false = (refl, (refl, (refl, tt)))

  annotations-HasDistinctKeys : (b : Bool) → HasDistinctKeys (os_annotations b)
  annotations-HasDistinctKeys true = (refl, (refl, (refl, tt)))
  annotations-HasDistinctKeys false = tt

  abbrev after : Namespace → Namespace
  after ns = (labelled is_openshift has_monitoring ns).0

  -- The namespace that is written reads as required at every required label and annotation, and once it
  -- is written it counts as unchanged.
  pub labelled-IsSettled :
      (ns : Namespace)
      → HoldsAll (required_labels is_openshift has_monitoring) (after ns).labels
        × HoldsAll (os_annotations is_openshift) (after ns).annotations
        × (labelled is_openshift has_monitoring (after ns) ≡ (after ns, false))
  unfolding labelled
  labelled-IsSettled ns =
      let s = set_all (required_labels is_openshift has_monitoring) (ns.labels, false) in
      let labels =
        set_all-HoldsAll (required_labels is_openshift has_monitoring) (ns.labels, false)
          labels-HasDistinctKeys in
      let annotations =
        set_all-HoldsAll (os_annotations is_openshift) (ns.annotations, s.1)
          (annotations-HasDistinctKeys is_openshift) in
      (
        labels,
        annotations,
        ap (annotated is_openshift has_monitoring (after ns)) (
              set_all-idle (required_labels is_openshift has_monitoring) ((after ns).labels, false)
                labels)
            ∙ ap (joined is_openshift has_monitoring (after ns) (after ns).labels) (
                set_all-idle (os_annotations is_openshift) ((after ns).annotations, false)
                  annotations),
      )

  -- A namespace that does not count as changed is the one that was read.
  pub labelled-unchanged :
      (ns : Namespace) → (labelled is_openshift has_monitoring ns).1 ≡ false → after ns ≡ ns
  unfolding labelled
  labelled-unchanged ns h =
      let s = set_all (required_labels is_openshift has_monitoring) (ns.labels, false) in
      let annotations = set_all-unchanged (os_annotations is_openshift) (ns.annotations, s.1) h in
      let labels =
        set_all-unchanged (required_labels is_openshift has_monitoring) (ns.labels, false)
          (sym (ap (λ t. t.1) annotations) ∙ h) in
      ap₂ (λ l a. record ns { labels = l; annotations = a }) (ap (λ t. t.0) labels)
        (ap (λ t. t.0) annotations)

  -- A label and an annotation that are not required, or read as required already, keep their entries. To
  -- be missing is to read as "": a missing key for which "" is required stays missing.
  pub labelled-keeps :
      (ns : Namespace) (label annotation : String)
      → IsKept (required_labels is_openshift has_monitoring) ns.labels label
      → IsKept (os_annotations is_openshift) ns.annotations annotation
      → (look_up label (after ns).labels ≡ look_up label ns.labels)
        × (look_up annotation (after ns).annotations ≡ look_up annotation ns.annotations)
  unfolding labelled
  labelled-keeps ns label annotation kept kept' = (
    set_all-keeps (required_labels is_openshift has_monitoring) label (ns.labels, false)
        labels-HasDistinctKeys kept,
    set_all-keeps (os_annotations is_openshift) annotation (ns.annotations, _)
        (annotations-HasDistinctKeys is_openshift) kept',
  )
