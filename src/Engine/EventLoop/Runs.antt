-- ===== src/Engine/EventLoop/Runs.antt =====
-- What the loops of src/engine/event_loop.cpp do where the handlers let them end.
use regime_flow.Engine.EventLoop.{
  Event, EventLoop, LoopState, step, stop, run, run_loop, process_event, process_popped,
}
use regime_flow.Events.Queue.{EventQueue, pop, pop_first, drain_pending_locked}
use regime_flow.Events.Queue.Order.{contents, drain-perm}
use regime_flow.Base.Perm.{length-perm}
use regime_flow.Base.{
  Bool-cases, if◌then◌else◌, ap, ◌<◌, ◌++◌, ◌≤◌, arith, ◌≡◌, length, ℕ, Bool, List, Option, suc,
  zero, refl, inr, inl, false, true, some, none, ◌∷◌, [],
}

module _ {D R : Type 0} where
  abbrev Shrinks : EventQueue D R → Option (Event D R) × EventQueue D R → Type 0
  Shrinks q (none, n) = length (contents n) ≤ length (contents q)
  Shrinks q (some e, n) = suc (length (contents n)) ≡ length (contents q)

  pop_first-Shrinks :
      (q : EventQueue D R) (es : List (Event D R)) (n : EventQueue D R)
      → n.pending ≡ []
      → length es ≡ length (contents q)
      → Shrinks q (pop_first es (record n { queue = es }))
  unfolding pop_first
  pop_first-Shrinks q [] n d h =
      let c : n.pending ++ [] ≡ [] = ap (λ l. l ++ []) d in omega (arith, ap length c)
  pop_first-Shrinks q (e ∷ es) n d h =
      let c : n.pending ++ es ≡ es = ap (λ l. l ++ es) d in omega (arith, ap length c, h)

  -- A pop takes one event off the queue, or none is there.
  pop-Shrinks : (q : EventQueue D R) → Shrinks q (pop q)
  unfolding pop
  pop-Shrinks q =
      pop_first-Shrinks q (drain_pending_locked q).queue (drain_pending_locked q)
        (unfold drain_pending_locked in refl) (length-perm (drain-perm q))

module _ {D R W : Type 0} where
  -- No processing of an event leaves more events than there were, so that nothing is pushed in a circle.
  abbrev pub IsQuiet : EventLoop D R W → Type 0
  IsQuiet loop =
      (e : Event D R) (s : LoopState D R W)
      → length (contents (process_event loop e s).queue) ≤ length (contents s.queue)

  abbrev pub IsProgress : LoopState D R W → Bool × LoopState D R W → Type 0
  IsProgress s (true, n) = length (contents n.queue) < length (contents s.queue)
  IsProgress s (false, n) = Unit

  popped-IsProgress :
      (loop : EventLoop D R W) (s : LoopState D R W) (first : Option (Event D R))
      (q : EventQueue D R)
      → IsQuiet loop
      → Shrinks s.queue (first, q)
      → IsProgress s (process_popped loop first (record s { queue = q }))
  unfolding process_popped
  popped-IsProgress loop s none q quiet h = tt
  popped-IsProgress loop s (some e) q quiet h = omega (arith, quiet e (record s { queue = q }), h)

  pub step-IsProgress :
      (loop : EventLoop D R W) (s : LoopState D R W) → IsQuiet loop → IsProgress s (step loop s)
  unfolding step
  step-IsProgress loop s quiet =
      popped-IsProgress loop s (pop s.queue).0 (pop s.queue).1 quiet (pop-Shrinks s.queue)

  -- A loop that has ended, with `running_` cleared.
  abbrev pub HasEnded : Option (LoopState D R W) → Type 0
  HasEnded none = ⊥
  HasEnded (some s) = s.running ≡ false

  turn-HasEnded :
      (k : ℕ) (loop : EventLoop D R W) (s : LoopState D R W) (more : Bool) (n : LoopState D R W)
      → length (contents s.queue) ≤ k
      → IsProgress s (more, n)
      → (length (contents n.queue) < k → HasEnded (run_loop k loop n))
      → HasEnded
          (if s.running then (if more then run_loop k loop n else some (stop n)) else some (stop s))
  unfolding stop
  turn-HasEnded k loop s true n h p ih = elim (Bool-cases s.running) [
    | inl e ↦ rw e (ih (omega (arith, p, h)))
    | inr e ↦ rw e refl
  ]
  turn-HasEnded k loop s false n h p ih = elim (Bool-cases s.running) [
    | inl e ↦ rw e refl
    | inr e ↦ rw e refl
  ]

  run_loop-HasEnded :
      (k : ℕ) (loop : EventLoop D R W) (s : LoopState D R W)
      → IsQuiet loop
      → length (contents s.queue) < k
      → HasEnded (run_loop k loop s)
  unfolding run_loop
  run_loop-HasEnded zero loop s quiet h = absurd (omega arith)
  run_loop-HasEnded (suc k) loop s quiet h =
      let (more, n) = step loop s in
      turn-HasEnded k loop s more n (omega arith) (step-IsProgress loop s quiet)
        (λ h'. run_loop-HasEnded k loop n quiet h')

  -- If no processing of an event leaves more events than there were, `run` ends, after at most one turn
  -- more than there are events, and leaves `running_` cleared.
  pub run-HasEnded :
      (k : ℕ) (loop : EventLoop D R W) (s : LoopState D R W)
      → IsQuiet loop
      → length (contents s.queue) < k
      → HasEnded (run k loop s)
  unfolding run
  run-HasEnded k loop s quiet h =
      run_loop-HasEnded k loop (record s { running = true; processed = 0 }) quiet h
