-- ===== src/Engine/TimerService/Firing.antt =====
-- What one call of `on_time_advance` puts on the queue (timer_service.cpp).
use regime_flow.Base.{
  arith, fold, Bool-cases, String, ◌≡◌, List, ℕ, suc, refl, inr, inl, some, ◌∷◌, [],
}
use regime_flow.Base.Int.{leb_ℤ, ◌+ℤ◌, ◌≤ℤ◌, ◌<ℤ◌, ℤ, pos}
use regime_flow.Base.Word.{u64}
use regime_flow.Events.Event.{Event, EventType, EventPayload, SystemEventKind, make_system_event}
use regime_flow.Events.Queue.{EventQueue, push}
use regime_flow.Engine.TimerService.{
  TimerEntry, Timers, timer_event, fire, fire_all, on_time_advance,
}

module _ {D R : Type 0} where
  -- The event of timer `e`, with number `n`.
  pub record IsTimer (e : TimerEntry) (n : ℕ) (event : Event D R) : Type 0 where
    pub timestamp : event.timestamp ≡ e.next_fire
    pub type : event.type ≡ EventType.system
    pub payload : event.payload ≡ EventPayload.system_payload SystemEventKind.timer (pos 0) e.id
    pub sequence : event.sequence ≡ n

  -- From the number `n` on, `events` are those of the timers that are due at `now`, each once.
  pub data Fires (now : ℤ) : ℕ → Timers → Timers → List (Event D R) → Type 0 where
    done : {n : ℕ} → Fires now n [] [] []
    early :
        {n : ℕ} {k : String} {e : TimerEntry} {ts us : Timers} {events : List (Event D R)}
        → now <ℤ e.next_fire
        → Fires now n ts us events
        → Fires now n ((k, e) ∷ ts) ((k, e) ∷ us) events
    due :
        {n : ℕ} {k : String} {e : TimerEntry} {ts us : Timers} {event : Event D R}
        {events : List (Event D R)}
        → e.next_fire ≤ℤ now
        → IsTimer e n event
        → Fires now (u64 (suc n)) ts us events
        → Fires now n
            ((k, e) ∷ ts)
            ((k, record e { next_fire = e.next_fire +ℤ e.interval }) ∷ us)
            (event ∷ events)

  -- `q` with `events` linked one after another.
  pub record Linked (q : EventQueue D R) (events : List (Event D R)) (u : EventQueue D R)
      : Type 0 where
    pub pending : u.pending ≡ fold (λ l e. e ∷ l) q.pending events
    pub queue : u.queue ≡ q.queue

  fire_all-Fires :
      (now : ℤ) (timers : Timers) (q : EventQueue D R)
      → (events : List (Event D R)) × Fires now q.next_sequence timers
          (fire_all now timers q).0
          events
        × Linked q events (fire_all now timers q).1
  unfolding fire_all fire timer_event push make_system_event
  fire_all-Fires now [] q = ([], Fires.done, record { pending = refl; queue = refl })
  fire_all-Fires now ((k, e) ∷ timers) q = elim (Bool-cases (leb_ℤ e.next_fire now)) [
    | inl h ↦
        let r = fire_all-Fires now timers (push (timer_event e) q) in
        (
          record (timer_event e) { sequence = q.next_sequence } ∷ r.0,
          rw h (
              Fires.due (ground arith)
                (record { timestamp = refl; type = refl; payload = refl; sequence = refl }) r.1),
          rw h (record { pending = r.2.pending; queue = r.2.queue }),
        )
    | inr h ↦
        let r = fire_all-Fires now timers q in
        (r.0, rw h (Fires.early (ground arith) r.1), rw h r.2)
  ]

  -- One call with a queue: the timers whose time has come have each their event linked, once, stamped with
  -- that time and numbered in turn, and wait for one interval more; the other timers and the rest of the
  -- queue stay as they are.
  pub on_time_advance-Fires :
      (now : ℤ) (timers : Timers) (q : EventQueue D R)
      → (events : List (Event D R)) × (u : EventQueue D R) × ((on_time_advance now timers
            (some q)).1
          ≡ some u)
        × Fires now q.next_sequence timers (on_time_advance now timers (some q)).0 events
        × Linked q events u
  unfolding on_time_advance
  on_time_advance-Fires now timers q =
      let r = fire_all-Fires now timers q in (r.0, (fire_all now timers q).1, refl, r.1, r.2)
