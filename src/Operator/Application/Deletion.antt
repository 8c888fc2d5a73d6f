-- ===== src/Operator/Application/Deletion.antt =====
-- A deleted application keeps the operator's finalizer as long as a node's state has the agent's:
-- the branch of reconcileBpfApplication for a deletion timestamp.
use bpfman_operator.Shared.{
  not, ◌&&◌, ◌==◌, string_eq, if◌then◌else◌, ◌⊎◌, subst, sym, beq→eq, Bool, true, false, String,
  some, List, [], ◌∷◌, any, ◌≡◌, refl, inl, inr, Bool-cases, arith, ap, ◌∙◌,
}
use bpfman_operator.Api.Conditions.{Condition, app_condition, bpf_app_cond_delete_error}
use bpfman_operator.Api.Control.{CtrlResult, done, requeue_after}
use bpfman_operator.Operator.Application.Quiescent.{AddsCondition}
use bpfman_operator.Operator.Application.{
  set_condition, update_condition, written, App, AppState, KubeApi, ClientLib, operator_finalizer,
  final_applied, reconcile_bpf_application, update_status, remove_finalizer, deleting, with_lists,
}

-- Whether a node's state still has the agent's finalizer.
abbrev pub is_held : ClientLib → String → List AppState → Bool
is_held lib finalizer states =
    any (λ (s : AppState). lib.contains_finalizer s.finalizers finalizer) states

-- ContainsFinalizer and RemoveFinalizer of controllerutil.
pub record IsFinalizerLib (lib : ClientLib) : Type 0 where
  pub removed :
      (finalizers : List String) (finalizer : String)
      → lib.contains_finalizer finalizers finalizer ≡ true
      → (lib.remove_finalizer finalizers finalizer).0 ≡ true
  pub left :
      (finalizers : List String) (finalizer other : String)
      → lib.contains_finalizer (lib.remove_finalizer finalizers finalizer).1 other
        ≡ (lib.contains_finalizer finalizers other && not (other == finalizer))

-- A status that was written is read back, with the finalizers that the object had.
pub record IsStatusServer (kube : KubeApi) : Type 0 where
  pub read_back :
      (namespace name : String) (app old : App) (c c' : kube.Cluster)
      → kube.get_app namespace name c ≡ some old
      → (app.namespace ≡ old.namespace) × (app.name ≡ old.name)
      → kube.update_status app c ≡ (true, c')
      → (app' : App) × (kube.get_app namespace name c' ≡ some app')
        × (app'.conditions ≡ app.conditions)
        × (app'.finalizers ≡ old.finalizers)

module _ (lib : ClientLib) (finalizer : String) where
  final_applied-free :
      (states : List AppState)
      → is_held lib finalizer states ≡ false
      → final_applied lib finalizer states ≡ []
  unfolding final_applied
  final_applied-free [] h = refl
  final_applied-free (s ∷ states) h = ground (arith, final_applied-free states)

  final_applied-held :
      (states : List AppState)
      → is_held lib finalizer states ≡ true
      → (n : String) × (ns : List String) × (final_applied lib finalizer states ≡ n ∷ ns)
  unfolding final_applied
  final_applied-held [] h = cc
  final_applied-held (s ∷ states) h =
      elim (Bool-cases (lib.contains_finalizer s.finalizers finalizer)) [
        | inl e ↦ (s.name, final_applied lib finalizer states, rw (e))
        | inr e ↦
            let (n, ns, ih) = final_applied-held states (ground (arith, e, h)) in
            (n, ns, ground (arith, e, ih))
      ]

module _ (kube : KubeApi) (lib : ClientLib) (state_finalizer : String) where
  with_lists-deleted :
      (app : App) (states : List AppState) (nodes : List String) (c : kube.Cluster)
      → app.deleted ≡ true
      → with_lists kube lib state_finalizer app states nodes c
        ≡ deleting kube lib app (final_applied lib state_finalizer states) c
  with_lists-deleted app states nodes c hd = simp (hd)

  reconcile_bpf_application-deleted :
      (app : App) (c : kube.Cluster) (states : List AppState) (nodes : List String)
      → lib.contains_finalizer app.finalizers operator_finalizer ≡ true
      → app.deleted ≡ true
      → kube.list_states app.name app.namespace c ≡ some states
      → kube.list_nodes c ≡ some nodes
      → reconcile_bpf_application kube lib state_finalizer app c
        ≡ deleting kube lib app (final_applied lib state_finalizer states) c
  unfolding reconcile_bpf_application
  reconcile_bpf_application-deleted app c states nodes hf hd hs hn =
      let e = with_lists-deleted app states nodes c hd in rw (hf, hs, hn, e)

  -- What a write of the application leads to.
  abbrev pub answered : Bool × kube.Cluster → CtrlResult × kube.Cluster
  answered (succeeded, c) = (if succeeded then done else requeue_after 5, c)

  -- The finalizers without the operator's.
  abbrev pub AreReleased : List String → List String → Type 0
  AreReleased before after =
      (finalizer : String)
      → lib.contains_finalizer after finalizer
        ≡ (lib.contains_finalizer before finalizer && not (finalizer == operator_finalizer))

  written-answered : (r : Bool × kube.Cluster) → written kube lib r ≡ answered r
  written-answered (true, c) = refl
  written-answered (false, c) = refl

  remove_finalizer-writes :
      IsFinalizerLib lib
      → (app : App) (c : kube.Cluster)
      → lib.contains_finalizer app.finalizers operator_finalizer ≡ true
      → (finalizers : List String) × AreReleased app.finalizers finalizers
        × (remove_finalizer kube lib app operator_finalizer c
            ≡ answered (kube.update (record app { finalizers = finalizers }) c))
  unfolding remove_finalizer
  remove_finalizer-writes laws app c has =
      let left = (lib.remove_finalizer app.finalizers operator_finalizer).1 in
      (
        left,
        laws.left app.finalizers operator_finalizer,
        rw (laws.removed app.finalizers operator_finalizer has, remove_finalizer)
            (written-answered (kube.update (record app { finalizers = left }) c)),
      )

  -- A deleted application that has the operator's finalizer, once its states and the nodes are read: if no
  -- state has the agent's finalizer, the one write is that of the application without the operator's
  -- finalizer and with all others; it ends the reconcile, or is tried again if it fails. The library's
  -- helpers on finalizers do what they are documented to do.
  pub reconcile_bpf_application-released :
      IsFinalizerLib lib
      → (app : App) (c : kube.Cluster) (states : List AppState) (nodes : List String)
      → lib.contains_finalizer app.finalizers operator_finalizer ≡ true
      → app.deleted ≡ true
      → kube.list_states app.name app.namespace c ≡ some states
      → kube.list_nodes c ≡ some nodes
      → is_held lib state_finalizer states ≡ false
      → (finalizers : List String) × AreReleased app.finalizers finalizers
        × (reconcile_bpf_application kube lib state_finalizer app c
            ≡ answered (kube.update (record app { finalizers = finalizers }) c))
  reconcile_bpf_application-released laws app c states nodes hf hd hs hn free =
      let (left, released, writes) = remove_finalizer-writes laws app c hf in
      (
        left,
        released,
        reconcile_bpf_application-deleted app c states nodes hf hd hs hn
            ∙ (ap (λ ns. deleting kube lib app ns c)
                  (final_applied-free lib state_finalizer states free)
                ∙ writes),
      )

  -- The application has the one condition DeleteError, and the operator's finalizer.
  abbrev pub IsHeld : (namespace name : String) → kube.Cluster → Type 0
  IsHeld namespace name c =
      (app : App) × (condition : Condition) × (kube.get_app namespace name c ≡ some app)
      × (app.conditions ≡ condition ∷ [])
      × (condition.type ≡ "DeleteError")
      × (lib.contains_finalizer app.finalizers operator_finalizer ≡ true)

  -- The reconcile is done and the application held, or it is tried again, as a status was not written.
  abbrev pub HoldsOrRetries :
      (namespace name : String) → kube.Cluster → CtrlResult × kube.Cluster → Type 0
  HoldsOrRetries namespace name c r =
      ((r.0 ≡ done) × IsHeld namespace name r.1)
      ⊎ ((r.0 ≡ requeue_after 5) × ((app : App) × (kube.update_status app c ≡ (false, r.1))))

  set_condition-holds :
      AddsCondition lib
      → IsStatusServer kube
      → (namespace name : String) (old : App) (m : String) (c : kube.Cluster)
      → kube.get_app namespace name c ≡ some old
      → lib.contains_finalizer old.finalizers operator_finalizer ≡ true
      → HoldsOrRetries namespace name c
          (set_condition kube lib old (app_condition bpf_app_cond_delete_error m) c)
  unfolding app_condition
  set_condition-holds adds server namespace name old m c read has =
      let (k, added, same) = adds (app_condition bpf_app_cond_delete_error m) in
      let w = record old {
        conditions = lib.set_status_condition [] (app_condition bpf_app_cond_delete_error m);
      } in
      let u = kube.update_status w c in
      elim (Bool-cases u.0) [
        | inl e ↦
            let whole : kube.update_status w c ≡ (true, u.1) = ap (λ b. (b, u.1)) e in
            let (app', read', conditions, finalizers) =
              server.read_back namespace name w old c u.1 read (refl, refl) whole in
            rw whole (
              inl (
                refl,
                (
                  app',
                  k,
                  read',
                  conditions ∙ added,
                  same,
                  ap (λ fs. lib.contains_finalizer fs operator_finalizer) finalizers ∙ has,
                ),
              ))
        | inr e ↦
            let whole : kube.update_status w c ≡ (false, u.1) = ap (λ b. (b, u.1)) e in
            rw whole (inr (refl, (w, whole)))
      ]

  update_condition-holds :
      AddsCondition lib
      → IsStatusServer kube
      → (namespace name : String) (old : App) (conditions : List Condition) (m : String)
        (c : kube.Cluster)
      → kube.get_app namespace name c ≡ some old
      → lib.contains_finalizer old.finalizers operator_finalizer ≡ true
      → old.conditions ≡ conditions
      → HoldsOrRetries namespace name c
          (update_condition kube lib old conditions bpf_app_cond_delete_error m c)
  unfolding update_condition
  update_condition-holds adds server namespace name old [] m c read has same =
      set_condition-holds adds server namespace name old m c read has
  update_condition-holds adds server namespace name old (k ∷ k' ∷ ks) m c read has same =
      set_condition-holds adds server namespace name old m c read has
  update_condition-holds adds server namespace name old (k ∷ []) m c read has same =
      elim (Bool-cases (k.type == "DeleteError")) [
        | inl e ↦ rw e (inl (refl, (old, k, read, same, beq→eq k.type "DeleteError" e, has)))
        | inr e ↦ rw e (set_condition-holds adds server namespace name old m c read has)
      ]

  update_status-holds :
      AddsCondition lib
      → IsStatusServer kube
      → (namespace name : String) (old : App) (m : String) (c : kube.Cluster)
      → kube.get_app namespace name c ≡ some old
      → lib.contains_finalizer old.finalizers operator_finalizer ≡ true
      → HoldsOrRetries namespace name c
          (update_status kube lib namespace name bpf_app_cond_delete_error m c)
  unfolding update_status
  update_status-holds adds server namespace name old m c read has =
      rw (read, update_status)
        (update_condition-holds adds server namespace name old old.conditions m c read has refl)

  -- A deleted application that has the operator's finalizer, as reconciled and on the API server, once its
  -- states and the nodes are read: while a state has the agent's finalizer, the reconcile ends with the
  -- operator's finalizer in place and DeleteError the application's only condition, or it is tried again
  -- as the status could not be written. The API server keeps the status and leaves the finalizers with
  -- it, and `meta.SetStatusCondition` adds a condition that the list does not have.
  pub reconcile_bpf_application-held :
      AddsCondition lib
      → IsStatusServer kube
      → (app stored : App) (c : kube.Cluster) (states : List AppState) (nodes : List String)
      → lib.contains_finalizer app.finalizers operator_finalizer ≡ true
      → app.deleted ≡ true
      → kube.list_states app.name app.namespace c ≡ some states
      → kube.list_nodes c ≡ some nodes
      → is_held lib state_finalizer states ≡ true
      → kube.get_app app.namespace app.name c ≡ some stored
      → lib.contains_finalizer stored.finalizers operator_finalizer ≡ true
      → HoldsOrRetries app.namespace app.name c
          (reconcile_bpf_application kube lib state_finalizer app c)
  reconcile_bpf_application-held adds server app stored c states nodes hf hd hs hn held read has =
      let (n, ns, applied) = final_applied-held lib state_finalizer states held in
      let deletes =
        reconcile_bpf_application-deleted app c states nodes hf hd hs hn
        ∙ ap (λ names. deleting kube lib app names c) applied in
      subst (HoldsOrRetries app.namespace app.name c) (sym deletes)
        (update_status-holds adds server app.namespace app.name stored _ c read has)
