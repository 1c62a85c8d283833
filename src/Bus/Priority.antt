-- ===== src/Bus/Priority.antt =====
-- BoundedEventBus of solutions/solution17_event_bus.go: subscribers in the order of their priority.
-- A priority is an int in the source; it is only compared, and stands here as a natural number. The
-- handlers and filters are code of the caller: the name of a subscriber stands for its handler.
use go_async_practice.Common.{
  ℕ, String, Bool, List, [], ◌∷◌, Option, none, some, ltb, if◌then◌else◌,
}
use go_async_practice.Common.Dict.{Dict, lookup_or, insert}
pub mod Sorted

pub record Subscriber (E : Type 0) : Type 0 where
  pub id : String
  pub priority : ℕ
  pub filter : Option (E → Bool)

module _ {E : Type 0} where
  -- The loop of `Subscribe`, with the append behind it.
  unfoldable pub place : Subscriber E → List (Subscriber E) → List (Subscriber E)
  place subscriber [] = subscriber ∷ []
  place subscriber (existing ∷ rest) =
      if ltb existing.priority subscriber.priority
      then subscriber ∷ existing ∷ rest
      else existing ∷ place subscriber rest

  unfoldable pub subscribe :
      String → Subscriber E → Dict (List (Subscriber E)) → Dict (List (Subscriber E))
  subscribe event_type subscriber subscribers =
      insert event_type (place subscriber (lookup_or event_type [] subscribers)) subscribers

  abbrev passes : Option (E → Bool) → E → Bool
  passes none event = Bool.true
  passes (some filter) event = filter event

  -- The handlers that `processEvent` runs, in order.
  unfoldable pub run_handlers : E → List (Subscriber E) → List String
  run_handlers event [] = []
  run_handlers event (subscriber ∷ rest) =
      if passes subscriber.filter event
      then subscriber.id ∷ run_handlers event rest
      else run_handlers event rest

  unfoldable pub process_event : String → E → Dict (List (Subscriber E)) → List String
  unfolding run_handlers
  process_event event_type event subscribers =
      run_handlers event (lookup_or event_type [] subscribers)
