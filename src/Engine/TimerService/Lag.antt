-- ===== src/Engine/TimerService/Lag.antt =====
-- How far a timer may stay behind (timer_service.cpp).
use regime_flow.Base.{
  Bool-cases, ◌∷◌, arith, [], inr, inl, some, ◌*◌, ◌≡◌, ◌<◌, String, ◌+◌, All, Option, ℕ, suc, zero,
}
use regime_flow.Base.Int.{leb_ℤ, +ℤ_parts, ◌+ℤ◌, ◌<ℤ◌, ◌≤ℤ◌, neg_part, pos_part, ℤ}
use regime_flow.Events.Queue.{EventQueue}
use regime_flow.Engine.TimerService.{
  timer_event, push, fire, fire_all, TimerEntry, Timers, on_time_advance,
}

module _ {D R : Type 0} where
  -- `n` calls with one time.
  pub advances : ℕ → ℤ → Timers → Option (EventQueue D R) → Timers × Option (EventQueue D R)
  advances zero now timers q = (timers, q)
  advances (suc n) now timers q =
      let (timers', q') = on_time_advance now timers q in advances n now timers' q'

-- Less than `k` intervals after the time at which it is to fire.
abbrev pub Behind : ℕ → ℤ → TimerEntry → Type 0
Behind k now e =
    pos_part now + neg_part e.next_fire
    < pos_part e.next_fire + neg_part now + k * pos_part e.interval

abbrev pub IsLate : ℕ → ℤ → Timers → Type 0
IsLate k now timers =
    All (λ (t : String × TimerEntry). (neg_part t.1.interval ≡ 0) × Behind k now t.1) timers

-- The bound on the delay falls with each call.
catch_up :
    (k : ℕ) (now : ℤ) (e : TimerEntry)
    → neg_part e.interval ≡ 0
    → Behind (suc k) now e
    → e.next_fire ≤ℤ now
    → Behind k now (record e { next_fire = e.next_fire +ℤ e.interval })
catch_up k now e p b h = omega (arith, p, b, +ℤ_parts e.next_fire e.interval)

Behind-early : (k : ℕ) (now : ℤ) (e : TimerEntry) → now <ℤ e.next_fire → Behind k now e
Behind-early k now e h = omega arith

late_none :
    (now : ℤ) (timers : Timers)
    → IsLate 0 now timers
    → All (λ (t : String × TimerEntry). now <ℤ t.1.next_fire) timers
late_none now [] l = tt
late_none now (t ∷ timers) l = (omega (arith, l.0.1), late_none now timers l.1)

module _ {D R : Type 0} where
  fire_all-IsLate :
      (k : ℕ) (now : ℤ) (timers : Timers) (q : EventQueue D R)
      → IsLate (suc k) now timers
      → IsLate k now (fire_all now timers q).0
  unfolding fire_all fire
  fire_all-IsLate k now [] q l = tt
  fire_all-IsLate k now ((i, e) ∷ timers) q l = elim (Bool-cases (leb_ℤ e.next_fire now)) [
    | inl h ↦ rw h (
      (l.0.0, catch_up k now e l.0.0 l.0.1 (ground arith)),
      fire_all-IsLate k now timers (push (timer_event e) q) l.1,
    )
    | inr h ↦
        rw h ((l.0.0, Behind-early k now e (ground arith)), fire_all-IsLate k now timers q l.1)
  ]

  -- A call lets a timer fire once at most, but timers whose intervals are not negative and that are all
  -- less than `k` intervals late have after `k` calls with the same time no more that is due.
  pub advances-IsWaiting :
      (k : ℕ) (now : ℤ) (timers : Timers) (q : EventQueue D R)
      → IsLate k now timers
      → All (λ (t : String × TimerEntry). now <ℤ t.1.next_fire) (advances k now timers (some q)).0
  unfolding advances on_time_advance
  advances-IsWaiting zero now timers q l = late_none now timers l
  advances-IsWaiting (suc k) now timers q l =
      advances-IsWaiting k now (fire_all now timers q).0 (fire_all now timers q).1
        (fire_all-IsLate k now timers q l)
