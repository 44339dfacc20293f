-- ===== src/Engine/TimerService.antt =====
-- src/engine/timer_service.cpp and include/regimeflow/engine/timer_service.h.
--
-- `queue_` is a pointer to a queue that others use too, and may be null: an optional queue beside the
-- timers. A call goes through the timers in the order in which they stand in the table.
pub mod Firing
pub mod Lag
mod Tests
use regime_flow.Base.{Option, if◌then◌else◌, String, some, none, ◌∷◌, []}
use regime_flow.Base.Int.{leb_ℤ, ◌+ℤ◌, ℤ, pos}
use regime_flow.Base.StringTable.{StringTable, put, remove}
use regime_flow.Events.Event.{Event, SystemEventKind, make_system_event}
use regime_flow.Events.Queue.{EventQueue, push}

pub record TimerEntry : Type 0 where
  pub id : String
  pub interval : ℤ
  pub next_fire : ℤ

abbrev pub Timers : Type 0
Timers = StringTable TimerEntry

unfoldable pub schedule : String → ℤ → ℤ → Timers → Timers
schedule id interval start timers =
    put id (record { id = id; interval = interval; next_fire = start +ℤ interval }) timers

unfoldable pub cancel : String → Timers → Timers
cancel id timers = remove id timers

module _ {D R : Type 0} where
  unfoldable pub timer_event : TimerEntry → Event D R
  timer_event e = make_system_event SystemEventKind.timer e.next_fire (pos 0) e.id

  -- The body of the loop.
  unfoldable pub fire : ℤ → TimerEntry → EventQueue D R → TimerEntry × EventQueue D R
  unfolding timer_event
  fire now e q =
      if leb_ℤ e.next_fire now
      then (record e { next_fire = e.next_fire +ℤ e.interval }, push (timer_event e) q)
      else (e, q)

  unfoldable pub fire_all : ℤ → Timers → EventQueue D R → Timers × EventQueue D R
  unfolding fire
  fire_all now [] q = ([], q)
  fire_all now ((k, e) ∷ timers) q =
      let (e', q1) = fire now e q in
      let (timers', q2) = fire_all now timers q1 in ((k, e') ∷ timers', q2)

  unfoldable pub on_time_advance :
      ℤ → Timers → Option (EventQueue D R) → Timers × Option (EventQueue D R)
  unfolding fire_all
  on_time_advance now timers none = (timers, none)
  on_time_advance now timers (some q) =
      let (timers', q') = fire_all now timers q in (timers', some q')
