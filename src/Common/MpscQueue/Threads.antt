-- ===== src/Common/MpscQueue/Threads.antt =====
-- Producers, each in the middle of its call or not, and one consumer (mpsc_queue.h).
use regime_flow.Base.{◌++◌, ◌==◌, ◌≡◌, if◌then◌else◌, List, ℕ, some, ◌∷◌, []}
use regime_flow.Common.MpscQueue.{MpscQueue, new_queue, claim, link, first, advance}

pub data Producer : Type 0 where
  outside : Producer
  claimed : ℕ → ℕ → Producer

pub data Consumer (T : Type 0) : Type 0 where
  outside : Consumer T
  taken : ℕ → T → Consumer T

-- `sent` are the values in the order of the exchanges, `received` those whose `pop` returned true.
pub record System (T : Type 0) : Type 0 where
  pub queue : MpscQueue T
  pub producers : ℕ → Producer
  pub consumer : Consumer T
  pub sent : List T
  pub received : List T

abbrev pub assign : ℕ → Producer → (ℕ → Producer) → ℕ → Producer
assign k p producers j = if k == j then p else producers j

module _ {T : Type 0} where
  unfoldable pub start : T → System T
  start blank = record {
    queue = new_queue blank;
    producers = λ _. Producer.outside;
    consumer = Consumer.outside;
    sent = [];
    received = [];
  }

  pub data Step (s u : System T) : Type 0 where
    push_claim :
        (k : ℕ) (v : T)
        → s.producers k ≡ Producer.outside
        → u ≡ record s {
          queue = (claim v s.queue).2;
          producers =
              assign k (Producer.claimed (claim v s.queue).0 (claim v s.queue).1) s.producers;
          sent = s.sent ++ v ∷ [];
        }
        → Step s u
    push_link :
        (k prev node : ℕ) (q : MpscQueue T)
        → s.producers k ≡ Producer.claimed prev node
        → link prev node s.queue ≡ some q
        → u ≡ record s { queue = q; producers = assign k Producer.outside s.producers }
        → Step s u
    pop_read :
        (next : ℕ) (v : T)
        → s.consumer ≡ Consumer.outside
        → first s.queue ≡ some (some (next, v))
        → u ≡ record s { consumer = Consumer.taken next v }
        → Step s u
    pop_return :
        (next : ℕ) (v : T)
        → s.consumer ≡ Consumer.taken next v
        → u ≡ record s {
          queue = advance next s.queue;
          consumer = Consumer.outside;
          received = s.received ++ v ∷ [];
        }
        → Step s u

  pub data Reach (blank : T) : System T → Type 0 where
    begun : Reach blank (start blank)
    step : {s u : System T} → Reach blank s → Step s u → Reach blank u
