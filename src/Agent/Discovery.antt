-- ===== src/Agent/Discovery.antt =====
-- The agent's map of network interfaces: interfaceDiscovery of cmd/bpfman-agent/main.go, which follows the
-- events of the netobserv library. The map is what the selection of interfaces ranges over.
pub mod Tracked
use bpfman_operator.Shared.{Bool, true, false, List, [], ◌∷◌, Eq, ◌==◌, if◌then◌else◌}

-- `ifaces.Event`, with the library's comparable Interface as the type `I`.
pub data InterfaceEvent (I : Type 0) : Type 0 where
  event_added : (iface : I) → InterfaceEvent I
  event_deleted : (iface : I) → InterfaceEvent I
  other_event : (iface : I) → InterfaceEvent I

-- What `run` returns: nil, when the context is cancelled, or an error, when the channel closes.
pub data Outcome : Type 0 where
  cancelled : Outcome
  channel_closed : Outcome

module _ {I : Type 0} ⦃e : Eq I⦄ where
  -- `interfaces.Store(iface, true)`
  unfoldable pub store : I → List (I × Bool) → List (I × Bool)
  store i [] = (i, true) ∷ []
  store i ((j, b) ∷ m) = let rest = store i m in if j == i then (i, true) ∷ m else (j, b) ∷ rest

  -- `interfaces.Delete(iface)`
  unfoldable pub remove : I → List (I × Bool) → List (I × Bool)
  remove i [] = []
  remove i ((j, b) ∷ m) = let rest = remove i m in if j == i then rest else (j, b) ∷ rest

  -- The switch on the event's type.
  unfoldable pub handle_event : InterfaceEvent I → List (I × Bool) → List (I × Bool)
  unfolding store remove
  handle_event (event_added i) m = store i m
  handle_event (event_deleted i) m = remove i m
  handle_event (other_event i) m = m

  -- run: from a map, over the events that it receives, to a map. Which of the select's cases is taken is
  -- up to the context and the channel.
  pub data Run
      : List (I × Bool) → List (InterfaceEvent I) → Outcome → List (I × Bool) → Type 0 where
    done : (m : List (I × Bool)) → Run m [] cancelled m
    closed : (m : List (I × Bool)) → Run m [] channel_closed m
    received :
        (event : InterfaceEvent I) (events : List (InterfaceEvent I)) (outcome : Outcome)
        (m m' : List (I × Bool))
        → Run (handle_event event m) events outcome m'
        → Run m (event ∷ events) outcome m'
