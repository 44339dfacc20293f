-- ===== src/Events/Queue/Tests.antt =====
-- The event queue of include/regimeflow/events/event_queue.h on small inputs.
use regime_flow.Events.Queue.Order.{is_after-Later_iff, Later}
use regime_flow.Events.Queue.Threads.{
  Step, Reach, IsNumbered, Reach-IsNumbered, start, System, Differ,
}
use regime_flow.Events.Queue.Laws.{pop-Pops, pop_all-Sorts, Pops, Sorts, pop_all}
use regime_flow.Events.Queue.{is_after, enqueue, pop, absorb, EventQueue, claim, new_queue}
use regime_flow.Events.Event.{EventType, Event, monostate}
use regime_flow.Base.Perm.{All-mem}
use regime_flow.Base.Int.{pos, ℤ}
use regime_flow.Base.{◌↔◌, true, ◌^◌, ◌<◌, ◌+◌, ◌≡◌, ◌≢◌, arith, ◌∷◌, ℕ, [], refl}
use mathlib.Core.List.{Pairwise, Pairwise-cons}

abbrev at : ℤ → ℕ → ℕ → Event ℕ ℕ
at timestamp priority sequence = record {
  timestamp = timestamp;
  type = EventType.market;
  priority = priority;
  sequence = sequence;
  symbol = 1;
  payload = monostate;
}

abbrev three : EventQueue ℕ ℕ
three = record {
  queue = at (pos 5) 10 0 ∷ [];
  pending = at (pos 4) 20 2 ∷ at (pos 4) 10 1 ∷ [];
  next_sequence = 3;
}

three_in_order : pop_all 3 three ≡ at (pos 4) 10 1 ∷ at (pos 4) 20 2 ∷ at (pos 5) 10 0 ∷ []
unfolding pop_all pop enqueue is_after absorb
three_in_order = refl

pop_all-Sorts_example : Sorts three (pop_all 3 three)
pop_all-Sorts_example = pop_all-Sorts 3 three (omega arith) (tt, tt)

pop-Pops_example : Pops three (pop three)
pop-Pops_example = pop-Pops three (tt, tt)

pair-Differ : (a b : Event ℕ ℕ) → a.sequence ≢ b.sequence → Pairwise Differ (a ∷ b ∷ [])
pair-Differ a b n = Pairwise-cons.1 (
  λ c m. All-mem (λ (x : Event ℕ ℕ). a.sequence ≢ x.sequence) (λ x. hlevel) m (n, tt),
  Pairwise-cons.1 (
    λ c m. All-mem (λ (x : Event ℕ ℕ). b.sequence ≢ x.sequence) (λ x. hlevel) m tt,
    Pairwise.nil,
  ),
)

abbrev one_claimed : System ℕ ℕ
one_claimed = record {
  shared = (claim (at (pos 5) 10 0) new_queue).1;
  in_flight = (claim (at (pos 5) 10 0) new_queue).0 ∷ [];
}

abbrev nothing : System ℕ ℕ
nothing = start

one_claimed-lt : nothing.shared.next_sequence + 1 < 2 ^ 64
unfolding new_queue
one_claimed-lt = omega arith

Reach-IsNumbered_example : IsNumbered one_claimed
Reach-IsNumbered_example =
    Reach-IsNumbered (Reach.next Reach.here (Step.claims nothing (at (pos 5) 10 0) one_claimed-lt))

is_after-Later_iff_example :
    (is_after (at (pos 4) 20 2) (at (pos 4) 10 1) ≡ true)
    ↔ Later (at (pos 4) 20 2) (at (pos 4) 10 1)
is_after-Later_iff_example = is_after-Later_iff (at (pos 4) 20 2) (at (pos 4) 10 1)
