-- ===== src/Live/EventBus/Order.antt =====
-- In which order a dispatcher of src/live/event_bus.cpp hands out what has been published.
use regime_flow.Base.Table.{values}
use regime_flow.Live.EventBus.{callbacks_for, LiveMessage, EventBus, publish}
use regime_flow.Base.{fold, List, ◌∷◌, []}

abbrev pub newest_first :
    {R : Type 0} → List (LiveMessage R) → List (LiveMessage R) → List (LiveMessage R)
newest_first {R} ms older = fold (λ (l : List (LiveMessage R)) m. m ∷ l) older ms

module _ {R C : Type 0} where
  -- Messages published one after the other.
  unfoldable pub publish_all : List (LiveMessage R) → EventBus R C → EventBus R C
  unfolding publish
  publish_all [] b = b
  publish_all (m ∷ ms) b = publish_all ms (publish m b)

  -- A message with the callbacks that are subscribed to its topic.
  abbrev pub handed : EventBus R C → LiveMessage R → LiveMessage R × List C
  handed b m = (m, callbacks_for m.topic (values b.subscribers))
