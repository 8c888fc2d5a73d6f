-- ===== src/Agent/Discovery/Tracked.antt =====
-- What the agent's map of interfaces holds.
use bpfman_operator.Shared.{
  Bool, true, false, ◌||◌, Option, none, some, List, [], ◌∷◌, Eq, ◌==◌, if◌then◌else◌, ◌≡◌, ap,
  refl, ◌∙◌, arith,
}
use bpfman_operator.Agent.Discovery.{
  InterfaceEvent, event_added, event_deleted, other_event, Outcome, store, remove, handle_event,
  Run, done, closed, received,
}

abbrev pub or_known : Bool → Option Bool → Bool
or_known known none = known
or_known known (some b) = b

module _ {I : Type 0} ⦃e : Eq I⦄ where
  -- Whether the map has the interface.
  abbrev pub has : I → List (I × Bool) → Bool
  has i [] = false
  has i ((j, b) ∷ m) = j == i || has i m

  -- What an event says of an interface, if it is about it.
  abbrev pub says : I → InterfaceEvent I → Option Bool
  says i (event_added j) = if j == i then some true else none
  says i (event_deleted j) = if j == i then some false else none
  says i (other_event j) = none

  -- What the last of the events that say something of it says, and otherwise `known`.
  abbrev pub last_said : I → Bool → List (InterfaceEvent I) → Bool
  last_said i known [] = known
  last_said i known (event ∷ events) = last_said i (or_known known (says i event)) events

  has-store :
      (i j : I) (m : List (I × Bool)) → has i (store j m) ≡ (if j == i then true else has i m)
  unfolding store
  has-store i j [] = ground arith
  has-store i j ((k, b) ∷ m) =
      ground (arith, has-store i j m, e.beq_iff k j, e.beq_iff j i, e.beq_iff k i)

  has-remove :
      (i j : I) (m : List (I × Bool)) → has i (remove j m) ≡ (if j == i then false else has i m)
  unfolding remove
  has-remove i j [] = ground arith
  has-remove i j ((k, b) ∷ m) =
      ground (arith, has-remove i j m, e.beq_iff k j, e.beq_iff j i, e.beq_iff k i)

  handle_event-has :
      (i : I) (event : InterfaceEvent I) (m : List (I × Bool))
      → has i (handle_event event m) ≡ or_known (has i m) (says i event)
  unfolding handle_event
  handle_event-has i (event_added j) m = ground (arith, has-store i j m)
  handle_event-has i (event_deleted j) m = ground (arith, has-remove i j m)
  handle_event-has i (other_event j) m = refl

  -- When run returns, whether by the context or by an error, the map has an interface exactly if the last
  -- event about it was that it was added, or there was none and the map had it before.
  pub Run-has :
      (i : I) (m : List (I × Bool)) (events : List (InterfaceEvent I)) (outcome : Outcome)
      (m' : List (I × Bool))
      → Run m events outcome m'
      → has i m' ≡ last_said i (has i m) events
  unfolding handle_event
  Run-has i _ _ _ _ (done m) = refl
  Run-has i _ _ _ _ (closed m) = refl
  Run-has i _ _ _ _ (received event events outcome m m' rest) =
      Run-has i (handle_event event m) events outcome m' rest
      ∙ ap (λ known. last_said i known events) (handle_event-has i event m)
