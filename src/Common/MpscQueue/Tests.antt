-- ===== src/Common/MpscQueue/Tests.antt =====
-- Runs of the linked queue (mpsc_queue.h).
use regime_flow.Base.{List, ℕ, ◌≡◌, Option, refl, some, none, ◌∷◌, []}
use regime_flow.Common.MpscQueue.{MpscQueue, new_queue, push, pop, claim}
use regime_flow.Common.MpscQueue.Threads.{System, Reach, Step, start, Producer, assign}
use regime_flow.Common.MpscQueue.Linked.{IsQueue, Reach-IsQueue}

abbrev popped : Option (Option ℕ × MpscQueue ℕ) → Option (Option ℕ)
popped none = none
popped (some (v, _)) = some v

abbrev pushed : Option (MpscQueue ℕ)
unfolding push new_queue
pushed = push 7 (new_queue 0)

pop-push_run : (elim pushed [ none ↦ none | some q ↦ popped (pop q) ]) ≡ some (some 7)
unfolding push pop new_queue
pop-push_run = refl

abbrev one_claimed : System ℕ
unfolding start new_queue claim
one_claimed = record (start {T = ℕ} 0) {
  queue = (claim 7 (start {T = ℕ} 0).queue).2;
  producers = assign 4 (Producer.claimed 0 1) (start {T = ℕ} 0).producers;
  sent = 7 ∷ [];
}

-- Between the two halves of a push there is nothing to be popped.
pop_claimed : popped (pop one_claimed.queue) ≡ some none
unfolding start new_queue claim pop
pop_claimed = refl

one_claimed_Reach : Reach 0 one_claimed
unfolding start new_queue claim
one_claimed_Reach = Reach.step Reach.begun (Step.push_claim 4 7 refl refl)

Reach-IsQueue_example : (rest : List ℕ) × IsQueue rest one_claimed
Reach-IsQueue_example = Reach-IsQueue one_claimed_Reach
