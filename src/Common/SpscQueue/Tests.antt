-- ===== src/Common/SpscQueue/Tests.antt =====
-- Runs of the ring buffer (spsc_queue.h).
use regime_flow.Base.{Bool, arith, List, ℕ, ◌≡◌, refl, false, some, ◌∷◌, []}
use regime_flow.Common.SpscQueue.{
  read, has_item, publish, write, has_room, SpscQueue, new_queue, push, pop,
}
use regime_flow.Common.SpscQueue.Threads.{Consumer, Producer, System, Reach, Step, start}
use regime_flow.Common.SpscQueue.Fifo.{IsFifo, Reach-IsFifo}

abbrev one_pushed : Bool × SpscQueue ℕ
unfolding push new_queue
one_pushed = push 2 7 (new_queue 2 0)

-- A ring of two takes one value.
push_full : (push 2 8 one_pushed.1).0 ≡ false
unfolding push new_queue
push_full = refl

pop-push_run : (pop 2 0 one_pushed.1).0 ≡ some 7
unfolding push pop new_queue
pop-push_run = refl

abbrev one_taken : System ℕ
unfolding start new_queue
one_taken = record {
  queue = record { buffer = 7 ∷ 0 ∷ []; head = 1; tail = 0 };
  producer = Producer.outside;
  consumer = Consumer.taken 7;
  sent = 7 ∷ [];
  received = [];
}

one_taken_Reach : Reach 2 0 one_taken
unfolding start new_queue has_room write publish has_item read
one_taken_Reach =
    Reach.step
      (Reach.step
        (Reach.step
          (Reach.step (Reach.step Reach.begun (Step.push_test 7 refl refl refl))
            (Step.push_write 7 refl refl))
          (Step.push_return 7 refl refl))
        (Step.pop_test refl refl refl))
      (Step.pop_read refl refl)

Reach-IsFifo_example : (rest : List ℕ) × IsFifo 2 rest one_taken
Reach-IsFifo_example = Reach-IsFifo (omega arith) one_taken_Reach
