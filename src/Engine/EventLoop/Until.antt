-- ===== src/Engine/EventLoop/Until.antt =====
-- `run_until` of src/engine/event_loop.cpp leaves no event that is due.
use regime_flow.Base.Int.{◌<ℤ◌}
use regime_flow.Engine.EventLoop.{
  ℤ, Event, EventLoop, LoopState, step, stop, until_loop, run_until, is_due, process_event,
  process_popped,
}
use regime_flow.Engine.EventLoop.Runs.{IsQuiet, IsProgress, step-IsProgress}
use regime_flow.Events.Queue.{EventQueue, pop, peek, pop_first, drain_pending_locked}
use regime_flow.Events.Queue.Order.{contents, drain-perm}
use regime_flow.Base.Perm.{length-perm}
use regime_flow.Base.{
  Bool-cases, sym, ◌<◌, if◌then◌else◌, subst, arith, Bool, ℕ, Option, length, ◌≡◌, List, suc, zero,
  refl, inr, inl, false, true, some, none, ◌∷◌, [],
}

module _ {D R : Type 0} where
  pop_first-head :
      (es : List (Event D R)) (q : EventQueue D R)
      → (pop_first es q).0 ≡ elim es [ [] ↦ none | e ∷ _ ↦ some e ]
  unfolding pop_first
  pop_first-head [] q = refl
  pop_first-head (e ∷ es) q = refl

  -- A pop after a peek takes out what the peek saw.
  pop-peek : (q : EventQueue D R) → (pop (peek q).1).0 ≡ (peek q).0
  unfolding pop peek drain_pending_locked
  pop-peek q = pop_first-head (drain_pending_locked q).queue (drain_pending_locked q)

  peek-peek : (q : EventQueue D R) → (peek (peek q).1).0 ≡ (peek q).0
  unfolding peek drain_pending_locked
  peek-peek q = refl

  peek-length : (q : EventQueue D R) → length (contents (peek q).1) ≡ length (contents q)
  unfolding peek
  peek-length q = unfold drain_pending_locked in length-perm (drain-perm q)

  -- The event, if there is one, is after `end_time`.
  abbrev pub IsLater : ℤ → Option (Event D R) → Type 0
  IsLater end_time none = Unit
  IsLater end_time (some e) = end_time <ℤ e.timestamp

  not_due-IsLater :
      (end_time : ℤ) (first : Option (Event D R))
      → is_due end_time first ≡ false
      → IsLater end_time first
  unfolding is_due
  not_due-IsLater end_time none h = tt
  not_due-IsLater end_time (some e) h = ground (arith, h)

module _ {D R W : Type 0} where
  -- Nothing that processes an event stops the loop.
  abbrev pub GoesOn : EventLoop D R W → Type 0
  GoesOn loop =
      (e : Event D R) (s : LoopState D R W)
      → s.running ≡ true
      → (process_event loop e s).running ≡ true

  -- The loop has ended, and a pop would give no event up to `end_time`.
  abbrev pub IsDone : ℤ → Option (LoopState D R W) → Type 0
  IsDone end_time none = ⊥
  IsDone end_time (some s) = (s.running ≡ false) × IsLater end_time (peek s.queue).0

  popped-more :
      (loop : EventLoop D R W) (end_time : ℤ) (first : Option (Event D R)) (s : LoopState D R W)
      → is_due end_time first ≡ true
      → (process_popped loop first s).0 ≡ true
  unfolding process_popped is_due
  popped-more loop end_time none s h = absurd (grind (arith, h))
  popped-more loop end_time (some e) s h = refl

  popped-running :
      (loop : EventLoop D R W) (first : Option (Event D R)) (s : LoopState D R W)
      → GoesOn loop
      → s.running ≡ true
      → (process_popped loop first s).1.running ≡ true
  unfolding process_popped
  popped-running loop none s g h = h
  popped-running loop (some e) s g h = g e s h

  -- A step on a queue that was peeked into, with an event that is due.
  step-more :
      (loop : EventLoop D R W) (end_time : ℤ) (s : LoopState D R W)
      → is_due end_time (peek s.queue).0 ≡ true
      → (step loop (record s { queue = (peek s.queue).1 })).0 ≡ true
  unfolding step
  step-more loop end_time s h =
      let q = (peek s.queue).1 in
      popped-more loop end_time (pop q).0 (record s { queue = (pop q).1 })
        (subst (λ f. is_due end_time f ≡ true) (sym (pop-peek s.queue)) h)

  step-running :
      (loop : EventLoop D R W) (s : LoopState D R W)
      → GoesOn loop
      → s.running ≡ true
      → (step loop s).1.running ≡ true
  unfolding step
  step-running loop s g h =
      popped-running loop (pop s.queue).0 (record s { queue = (pop s.queue).1 }) g h

  turn-IsDone :
      (k : ℕ) (end_time : ℤ) (loop : EventLoop D R W) (s0 : LoopState D R W)
      (first : Option (Event D R)) (more : Bool) (n : LoopState D R W)
      → (peek s0.queue).0 ≡ first
      → (is_due end_time first ≡ true → more ≡ true)
      → (more ≡ true → IsDone end_time (until_loop k end_time loop n))
      → IsDone end_time (
          if is_due end_time first
          then (if more then until_loop k end_time loop n else some (stop n))
          else some (stop s0))
  unfolding stop
  turn-IsDone k end_time loop s0 first more n p m ih = elim (Bool-cases (is_due end_time first)) [
    | inl e ↦ rw (e, m e) (ih (m e))
    | inr e ↦ rw e (refl, subst (IsLater end_time) (sym p) (not_due-IsLater end_time first e))
  ]

  shorter :
      (s : LoopState D R W) (more : Bool) (n : LoopState D R W)
      → more ≡ true
      → IsProgress s (more, n)
      → length (contents n.queue) < length (contents s.queue)
  shorter s true n e p = p
  shorter s false n e p = absurd (grind (arith, e))

  when_running :
      (end_time : ℤ) (running : Bool) (x y : Option (LoopState D R W))
      → running ≡ true
      → IsDone end_time x
      → IsDone end_time (if running then x else y)
  when_running end_time true x y e d = d
  when_running end_time false x y e d = absurd (grind (arith, e))

  until_loop-IsDone :
      (k : ℕ) (end_time : ℤ) (loop : EventLoop D R W) (s : LoopState D R W)
      → IsQuiet loop
      → GoesOn loop
      → s.running ≡ true
      → length (contents s.queue) < k
      → IsDone end_time (until_loop k end_time loop s)
  unfolding until_loop
  until_loop-IsDone zero end_time loop s quiet g r h = absurd (omega arith)
  until_loop-IsDone (suc k) end_time loop s quiet g r h =
      let s0 = record s { queue = (peek s.queue).1 } in
      let (more, n) = step loop s0 in
      when_running end_time s.running _ (some (stop s)) r (
        turn-IsDone k end_time loop s0 (peek s.queue).0 more n (peek-peek s.queue)
          (step-more loop end_time s)
          (λ e. until_loop-IsDone k end_time loop n quiet g (step-running loop s0 g r) (
            omega (
              arith,
              shorter s0 more n e (step-IsProgress loop s0 quiet),
              peek-length s.queue,
              h,
            ))))

  -- If processing an event neither leaves more events than there were nor stops the loop, `run_until` ends,
  -- with `running_` cleared, and the next event, if one is left, is after `end_time`.
  pub run_until-IsDone :
      (k : ℕ) (end_time : ℤ) (loop : EventLoop D R W) (s : LoopState D R W)
      → IsQuiet loop
      → GoesOn loop
      → length (contents s.queue) < k
      → IsDone end_time (run_until k end_time loop s)
  unfolding run_until
  run_until-IsDone k end_time loop s quiet g h =
      until_loop-IsDone k end_time loop (record s { running = true }) quiet g refl h
