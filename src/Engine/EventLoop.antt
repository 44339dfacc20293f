-- ===== src/Engine/EventLoop.antt =====
-- src/engine/event_loop.cpp and include/regimeflow/engine/event_loop.h.
--
-- Hooks, handlers and the progress callback are functions on a state `S` that holds what they change: the
-- event queue, `running_` (they may call `stop`) and a rest `W`. The queue and the dispatcher are set.
pub mod Runs
pub mod Until
mod Tests
use regime_flow.Base.Int.{ltb_ℤ, ℤ}
use regime_flow.Base.Word.{u64}
use regime_flow.Base.{
  not, if◌then◌else◌, ◌∷◌, ℕ, Option, List, Bool, suc, zero, [], false, true, some, none,
}
use regime_flow.Events.Event.{Event, EventDispatcher, dispatch}
use regime_flow.Events.Queue.{EventQueue, pop, peek, size}

pub record LoopState (D R W : Type 0) : Type 0 where
  pub queue : EventQueue D R
  pub running : Bool
  pub current_time : ℤ
  pub processed : ℕ
  pub world : W

pub record EventLoop (D R W : Type 0) : Type 0 where
  pub dispatcher : EventDispatcher D R (LoopState D R W)
  pub pre_hooks : List (Event D R → LoopState D R W → LoopState D R W)
  pub post_hooks : List (Event D R → LoopState D R W → LoopState D R W)
  pub progress_callback : Option (ℕ → ℕ → LoopState D R W → LoopState D R W)

module _ {D R : Type 0} where
  -- Whether the loop of `run_until` goes on with the event that is seen first.
  unfoldable pub is_due : ℤ → Option (Event D R) → Bool
  is_due end_time none = false
  is_due end_time (some e) = not (ltb_ℤ end_time e.timestamp)

module _ {D R W : Type 0} where
  -- `for (const auto& hook : hooks) hook(event);`
  unfoldable pub run_hooks :
      List (Event D R → LoopState D R W → LoopState D R W)
      → Event D R
      → LoopState D R W
      → LoopState D R W
  run_hooks [] e s = s
  run_hooks (h ∷ hs) e s = run_hooks hs e (h e s)

  unfoldable pub report_progress :
      Option (ℕ → ℕ → LoopState D R W → LoopState D R W) → LoopState D R W → LoopState D R W
  report_progress none s = s
  report_progress (some callback) s =
      let (remaining, q) = size s.queue in callback s.processed remaining (record s { queue = q })

  -- What `run` and `step` do with an event that was popped.
  unfoldable pub process_event : EventLoop D R W → Event D R → LoopState D R W → LoopState D R W
  unfolding run_hooks report_progress
  process_event loop e s =
      let s1 = run_hooks loop.pre_hooks e (record s { current_time = e.timestamp }) in
      let s2 = run_hooks loop.post_hooks e (dispatch loop.dispatcher e s1) in
      report_progress loop.progress_callback (record s2 { processed = u64 (suc s2.processed) })

  unfoldable pub process_popped :
      EventLoop D R W → Option (Event D R) → LoopState D R W → Bool × LoopState D R W
  unfolding process_event
  process_popped loop none s = (false, s)
  process_popped loop (some e) s = (true, process_event loop e s)

  -- `step`: whether an event was processed.
  unfoldable pub step : EventLoop D R W → LoopState D R W → Bool × LoopState D R W
  unfolding process_popped
  step loop s = let (first, q) = pop s.queue in process_popped loop first (record s { queue = q })

  unfoldable pub stop : LoopState D R W → LoopState D R W
  stop s = record s { running = false }

  -- The loop of `run`, on fuel: no result if it runs out, since a handler may push events forever.
  unfoldable pub run_loop : ℕ → EventLoop D R W → LoopState D R W → Option (LoopState D R W)
  unfolding step stop
  run_loop zero loop s = if s.running then none else some (stop s)
  run_loop (suc k) loop s =
      let (more, s') = step loop s in
      let rest = run_loop k loop s' in
      if s.running then (if more then rest else some (stop s')) else some (stop s)

  unfoldable pub run : ℕ → EventLoop D R W → LoopState D R W → Option (LoopState D R W)
  unfolding run_loop
  run k loop s = run_loop k loop (record s { running = true; processed = 0 })

  unfoldable pub until_loop : ℕ → ℤ → EventLoop D R W → LoopState D R W → Option (LoopState D R W)
  unfolding step stop is_due
  until_loop zero end_time loop s = if s.running then none else some (stop s)
  until_loop (suc k) end_time loop s =
      let (first, q) = peek s.queue in
      let s0 = record s { queue = q } in
      let (more, s') = step loop s0 in
      let rest = until_loop k end_time loop s' in
      if s.running
      then (if is_due end_time first
          then (if more then rest else some (stop s'))
          else some (stop s0))
      else some (stop s)

  unfoldable pub run_until : ℕ → ℤ → EventLoop D R W → LoopState D R W → Option (LoopState D R W)
  unfolding until_loop
  run_until k end_time loop s = until_loop k end_time loop (record s { running = true })
