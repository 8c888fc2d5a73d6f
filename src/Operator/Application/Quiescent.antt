-- ===== src/Operator/Application/Quiescent.antt =====
-- Reporting a condition a second time writes nothing: updateStatus and updateCondition.
use bpfman_operator.Shared.{
  Bool, true, false, String, none, some, List, [], ◌∷◌, ◌==◌, string_eq, ◌≡◌, refl, inl, inr,
  Option-cases, sym, ap, ◌∙◌, beq_refl, subst, beq→eq, if◌then◌else◌,
}
use bpfman_operator.Api.Conditions.{
  BpfApplicationConditionType, Condition, app_cond_string, app_condition, bpf_app_cond_pending,
  bpf_app_cond_success, bpf_app_cond_error, bpf_app_cond_delete_error,
}
use bpfman_operator.Api.Control.{done, requeue_after}
use bpfman_operator.Operator.Application.{
  App, KubeApi, ClientLib, update_condition, update_status, written, set_condition,
}

-- `meta.SetStatusCondition` adds a condition that the list does not have.
abbrev pub AddsCondition : ClientLib → Type 0
AddsCondition lib =
    (condition : Condition)
    → (c : Condition) × (lib.set_status_condition [] condition ≡ c ∷ []) × (c.type ≡ condition.type)

-- What is read is the object asked for, and has the conditions of the last write that succeeded.
pub record IsConsistentServer (kube : KubeApi) : Type 0 where
  pub right_object :
      (namespace name : String) (app : App) (c : kube.Cluster)
      → kube.get_app namespace name c ≡ some app
      → (app.namespace ≡ namespace) × (app.name ≡ name)
  pub read_back :
      (app : App) (c c' : kube.Cluster)
      → kube.update_status app c ≡ (true, c')
      → (app' : App) × (kube.get_app app.namespace app.name c' ≡ some app')
        × (app'.conditions ≡ app.conditions)

app_condition-type :
    (k : BpfApplicationConditionType) (m : String) → (app_condition k m).type ≡ app_cond_string k
unfolding app_condition
app_condition-type bpf_app_cond_pending m = refl
app_condition-type bpf_app_cond_success m = refl
app_condition-type bpf_app_cond_error m = refl
app_condition-type bpf_app_cond_delete_error m = refl

module _ (kube : KubeApi) (lib : ClientLib) where
  -- The object has the one condition `cond`.
  abbrev Reports : String → String → BpfApplicationConditionType → kube.Cluster → Type 0
  Reports namespace name cond c =
      (app : App) × (old : Condition) × (kube.get_app namespace name c ≡ some app)
      × (app.conditions ≡ old ∷ [])
      × (old.type ≡ app_cond_string cond)

  update_status-Reports :
      (namespace name : String) (cond : BpfApplicationConditionType) (message : String)
      (c : kube.Cluster)
      → Reports namespace name cond c
      → update_status kube lib namespace name cond message c ≡ (done, c)
  unfolding update_status update_condition
  update_status-Reports namespace name cond message c (app, old, hg, ho, ht) =
      rw (update_status, hg, ho, update_condition, ht, beq_refl (app_cond_string cond))

  written-done :
      (r : Bool × kube.Cluster) (c' : kube.Cluster)
      → written kube lib r ≡ (done, c')
      → r ≡ (true, c')
  written-done (true, c) c' h = ap (λ p. (true, p.1)) h
  written-done (false, c) c' h = cc

  Reports-set_condition :
      AddsCondition lib
      → IsConsistentServer kube
      → (app : App) (cond : BpfApplicationConditionType) (m : String) (c c' : kube.Cluster)
      → set_condition kube lib app (app_condition cond m) c ≡ (done, c')
      → Reports app.namespace app.name cond c'
  Reports-set_condition adds server app cond m c c' h =
      let (k, hk, ht) = adds (app_condition cond m) in
      let (app', hg, hc) =
        server.read_back
          (record app { conditions = lib.set_status_condition [] (app_condition cond m) }) c c'
          (written-done _ c' h) in
      (app', k, hg, hc ∙ hk, ht ∙ app_condition-type cond m)

  Reports-kept :
      AddsCondition lib
      → IsConsistentServer kube
      → (app : App) (old : Condition) (same : Bool) (cond : BpfApplicationConditionType)
        (m : String) (c c' : kube.Cluster)
      → kube.get_app app.namespace app.name c ≡ some app
      → app.conditions ≡ old ∷ []
      → (old.type == app_cond_string cond) ≡ same
      → (if same then (done, c) else set_condition kube lib app (app_condition cond m) c)
        ≡ (done, c')
      → Reports app.namespace app.name cond c'
  Reports-kept adds server app old true cond m c c' hg ho hb h = (
    app,
    old,
    subst (λ x. kube.get_app app.namespace app.name x ≡ some app) (ap (λ p. p.1) h) hg,
    ho,
    beq→eq old.type (app_cond_string cond) hb,
  )
  Reports-kept adds server app old false cond m c c' hg ho hb h =
      Reports-set_condition adds server app cond m c c' h

  Reports-update_condition :
      AddsCondition lib
      → IsConsistentServer kube
      → (app : App) (conditions : List Condition) (cond : BpfApplicationConditionType) (m : String)
        (c c' : kube.Cluster)
      → kube.get_app app.namespace app.name c ≡ some app
      → app.conditions ≡ conditions
      → update_condition kube lib app conditions cond m c ≡ (done, c')
      → Reports app.namespace app.name cond c'
  unfolding update_condition
  Reports-update_condition adds server app [] cond m c c' hg ho h =
      Reports-set_condition adds server app cond m c c' h
  Reports-update_condition adds server app (old ∷ []) cond m c c' hg ho h =
      Reports-kept adds server app old _ cond m c c' hg ho refl h
  Reports-update_condition adds server app (old ∷ old' ∷ olds) cond m c c' hg ho h =
      Reports-set_condition adds server app cond m c c' h

  Reports-update_status :
      AddsCondition lib
      → IsConsistentServer kube
      → (namespace name : String) (app : App) (cond : BpfApplicationConditionType) (m : String)
        (c c' : kube.Cluster)
      → kube.get_app namespace name c ≡ some app
      → update_condition kube lib app app.conditions cond m c ≡ (done, c')
      → Reports namespace name cond c'
  Reports-update_status adds server namespace name app cond m c c' hg h =
      let (hn, hm) = server.right_object namespace name app c hg in
      subst (λ n. Reports n name cond c') hn
        (subst (λ n. Reports app.namespace n cond c') hm
          (Reports-update_condition adds server app app.conditions cond m c c'
            (subst (λ n. kube.get_app n app.name c ≡ some app) (sym hn)
              (subst (λ n. kube.get_app namespace n c ≡ some app) (sym hm) hg))
            refl h))

  update_status-found :
      (namespace name : String) (app : App) (cond : BpfApplicationConditionType) (m : String)
      (c : kube.Cluster)
      → kube.get_app namespace name c ≡ some app
      → update_status kube lib namespace name cond m c
        ≡ update_condition kube lib app app.conditions cond m c
  unfolding update_status
  update_status-found namespace name app cond m c hg = rw (update_status, hg)

  update_status-missing :
      (namespace name : String) (cond : BpfApplicationConditionType) (m : String) (c : kube.Cluster)
      → kube.get_app namespace name c ≡ none
      → update_status kube lib namespace name cond m c ≡ (requeue_after 5, c)
  unfolding update_status
  update_status-missing namespace name cond m c hg = rw (update_status, hg)

  -- Once a report of a condition has succeeded, to report the condition again, with any message,
  -- writes nothing and does not requeue. It needs a server that gives back what it stored, and a
  -- library that adds a condition to an empty list.
  update_status-quiescent :
      AddsCondition lib
      → IsConsistentServer kube
      → (namespace name : String) (cond : BpfApplicationConditionType) (m m' : String)
        (c c' : kube.Cluster)
      → update_status kube lib namespace name cond m c ≡ (done, c')
      → update_status kube lib namespace name cond m' c' ≡ (done, c')
  update_status-quiescent adds server namespace name cond m m' c c' h =
      elim (Option-cases (kube.get_app namespace name c)) [
        | inl hg ↦ let e = sym (update_status-missing namespace name cond m c hg) ∙ h in cc
        | inr (app, hg) ↦ update_status-Reports namespace name cond m' c' (
            Reports-update_status adds server namespace name app cond m c c' hg
              (sym (update_status-found namespace name app cond m c hg) ∙ h))
      ]
