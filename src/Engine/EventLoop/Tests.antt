-- ===== src/Engine/EventLoop/Tests.antt =====
-- Runs of the event loop of src/engine/event_loop.cpp on small inputs.
use regime_flow.Events.Queue.{pop}
use regime_flow.Events.Queue.Order.{contents}
use regime_flow.Events.Queue.{is_after}
use regime_flow.Engine.EventLoop.{
  EventQueue, ℤ, EventLoop, LoopState, run, run_until, process_event,
}
use regime_flow.Engine.EventLoop.Runs.{run-HasEnded, HasEnded, IsQuiet}
use regime_flow.Engine.EventLoop.Until.{run_until-IsDone, IsDone, GoesOn}
use regime_flow.Events.Event.{handler_for, handle, Event, EventType, monostate, dispatch}
use regime_flow.Base.Int.{pos}
use regime_flow.Base.{Option, length, ◌≡◌, ◌∙◌, ap, refl, ◌+◌, arith, ℕ, false, some, none, ◌∷◌, []}

abbrev at : ℤ → ℕ → Event ℕ ℕ
at timestamp sequence = record {
  timestamp = timestamp;
  type = EventType.market;
  priority = 10;
  sequence = sequence;
  symbol = 1;
  payload = monostate;
}

-- A handler of market events that counts them.
abbrev counting : EventLoop ℕ ℕ ℕ
counting = record {
  dispatcher = record {
    market_handler = some (λ e s. record s { world = s.world + 1 });
    order_handler = none;
    system_handler = none;
    user_handler = none;
  };
  pre_hooks = [];
  post_hooks = [];
  progress_callback = none;
}

abbrev two_events : LoopState ℕ ℕ ℕ
two_events = record {
  queue = record { queue = at (pos 3) 0 ∷ []; pending = at (pos 8) 1 ∷ []; next_sequence = 2 };
  running = false;
  current_time = pos 0;
  processed = 0;
  world = 0;
}

handled-keeps :
    (type : EventType) (e : Event ℕ ℕ) (s : LoopState ℕ ℕ ℕ)
    → let s' = handle (handler_for counting.dispatcher type) e s in
      (s'.queue ≡ s.queue) × (s'.running ≡ s.running)
unfolding handle handler_for
handled-keeps EventType.market e s = (refl, refl)
handled-keeps EventType.order e s = (refl, refl)
handled-keeps EventType.system e s = (refl, refl)
handled-keeps EventType.user e s = (refl, refl)

counting-IsQuiet : IsQuiet counting
unfolding process_event dispatch
counting-IsQuiet e s =
    let kept = handled-keeps e.type e (record s { current_time = e.timestamp }) in
    omega (arith, ap (λ (q : EventQueue ℕ ℕ). length (contents q)) kept.0)

counting-GoesOn : GoesOn counting
unfolding process_event dispatch
counting-GoesOn e s r = (handled-keeps e.type e (record s { current_time = e.timestamp })).1 ∙ r

abbrev counted : Option (LoopState ℕ ℕ ℕ) → ℕ
counted none = 0
counted (some s) = s.world

-- Both events are counted, the one that is pending second.
both_are_counted : counted (run 3 counting two_events) ≡ 2
unfolding run is_after pop dispatch
both_are_counted = refl

run-HasEnded_example : HasEnded (run 3 counting two_events)
run-HasEnded_example = run-HasEnded 3 counting two_events counting-IsQuiet (omega arith)

run_until-IsDone_example : IsDone (pos 5) (run_until 3 (pos 5) counting two_events)
run_until-IsDone_example =
    run_until-IsDone 3 (pos 5) counting two_events counting-IsQuiet counting-GoesOn (omega arith)
