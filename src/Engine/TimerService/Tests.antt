-- ===== src/Engine/TimerService/Tests.antt =====
-- Runs of the timers (timer_service.cpp).
use regime_flow.Base.{arith, String, All, List, ◌≡◌, ℕ, refl, some, none, []}
use regime_flow.Base.Int.{◌+ℤ◌, pos, ◌<ℤ◌}
use regime_flow.Base.StringTable.{find, put, remove}
use regime_flow.Events.Event.{Event}
use regime_flow.Events.Queue.{EventQueue, new_queue}
use regime_flow.Engine.TimerService.{TimerEntry, Timers, schedule, cancel, on_time_advance}
use regime_flow.Engine.TimerService.Firing.{Fires, Linked, on_time_advance-Fires}
use regime_flow.Engine.TimerService.Lag.{advances, advances-IsWaiting}

abbrev no_events : EventQueue ℕ ℕ
unfolding new_queue
no_events = new_queue

abbrev two_timers : Timers
unfolding schedule put ◌+ℤ◌
two_timers = schedule "slow" (pos 50) (pos 0) (schedule "quick" (pos 10) (pos 5) [])

-- At 30 the timer of every 10 from 5 on is late by 15, and fires once.
quick_fires :
    find "quick" (on_time_advance (pos 30) two_timers (some no_events)).0
    ≡ some (record { id = "quick"; interval = pos 10; next_fire = pos 25 })
unfolding on_time_advance schedule find put ◌+ℤ◌ new_queue
quick_fires = refl

cancel_slow : find "slow" (cancel "slow" two_timers) ≡ none
unfolding schedule cancel find put remove ◌+ℤ◌
cancel_slow = refl

on_time_advance-Fires_example :
    (events : List (Event ℕ ℕ)) × (u : EventQueue ℕ ℕ) × ((on_time_advance
        (pos 30)
        two_timers
        (some no_events)).1
      ≡ some u)
    × Fires (pos 30) 0 two_timers (on_time_advance (pos 30) two_timers (some no_events)).0 events
    × Linked no_events events u
unfolding schedule put ◌+ℤ◌ new_queue
on_time_advance-Fires_example = on_time_advance-Fires (pos 30) two_timers no_events

advances-IsWaiting_example :
    All
      (λ (t : String × TimerEntry). pos 30 <ℤ t.1.next_fire)
      (advances 2 (pos 30) two_timers (some no_events)).0
unfolding schedule put ◌+ℤ◌ new_queue
advances-IsWaiting_example = advances-IsWaiting 2 (pos 30) two_timers no_events (omega arith)
