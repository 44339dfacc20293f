-- ===== src/Live/EventBus/Tests.antt =====
-- A bus of src/live/event_bus.cpp with a few messages.
use regime_flow.Live.EventBus.Order.{publish_all}
use regime_flow.Live.EventBus.Kept.{Step, Reach, start, Reach-IsKept, IsKept, Traffic}
use regime_flow.Live.EventBus.{
  callbacks_for, dispatch_loop, publish, new_bus, set_running, LiveMessage, subscribe, EventBus,
}
use regime_flow.Base.{◌≡◌, ℕ, String, refl, false, true, ◌∷◌, []}
use regime_flow.Base.Int.{ℤ}
use regime_flow.Base.Table.{values, insert}
use regime_flow.Live.Message.{LiveTopic, Payload}

abbrev system_message : String → LiveMessage ℤ
system_message s = record { topic = LiveTopic.system; payload = Payload.text s; origin = "" }

abbrev running_bus : EventBus ℤ ℕ
running_bus = set_running true (subscribe LiveTopic.system 7 new_bus).1

-- The later message is handed out first.
handed_out_backwards :
    dispatch_loop 2 (publish_all (system_message "a" ∷ system_message "b" ∷ []) running_bus)
    ≡ (system_message "b", 7 ∷ []) ∷ (system_message "a", 7 ∷ []) ∷ []
unfolding subscribe publish_all dispatch_loop callbacks_for values insert
handed_out_backwards = refl

-- A bus that was stopped hands nothing out.
nothing_when_stopped :
    dispatch_loop 2 (publish_all (system_message "a" ∷ []) (set_running false running_bus)) ≡ []
unfolding publish_all dispatch_loop
nothing_when_stopped = refl

abbrev one_published : Traffic ℤ ℕ
one_published = record start {
  bus = publish (system_message "a") new_bus;
  published = system_message "a" ∷ [];
}

Reach-IsKept_example : IsKept one_published
Reach-IsKept_example =
    Reach-IsKept (Reach.next Reach.here (Step.publishes start (system_message "a")))
