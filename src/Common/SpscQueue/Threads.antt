-- ===== src/Common/SpscQueue/Threads.antt =====
-- One producer and one consumer, each in the middle of its call or not (spsc_queue.h).
use regime_flow.Base.{◌++◌, ◌≡◌, ℕ, List, true, ◌∷◌, []}
use regime_flow.Common.SpscQueue.{
  SpscQueue, new_queue, has_room, write, publish, has_item, read, release,
}

pub data Producer (T : Type 0) : Type 0 where
  outside : Producer T
  tested : T → Producer T
  written : T → Producer T

pub data Consumer (T : Type 0) : Type 0 where
  outside : Consumer T
  tested : Consumer T
  taken : T → Consumer T

-- `sent` are the values whose `push` has returned true, `received` those whose `pop` has.
pub record System (T : Type 0) : Type 0 where
  pub queue : SpscQueue T
  pub producer : Producer T
  pub consumer : Consumer T
  pub sent : List T
  pub received : List T

module _ {T : Type 0} where
  unfoldable pub start : ℕ → T → System T
  start capacity blank = record {
    queue = new_queue capacity blank;
    producer = Producer.outside;
    consumer = Consumer.outside;
    sent = [];
    received = [];
  }

  -- A part of `push` or of `pop`; one that returns false changes nothing.
  pub data Step (capacity : ℕ) (blank : T) (s u : System T) : Type 0 where
    push_test :
        (v : T)
        → s.producer ≡ Producer.outside
        → has_room capacity s.queue ≡ true
        → u ≡ record s { producer = Producer.tested v }
        → Step capacity blank s u
    push_write :
        (v : T)
        → s.producer ≡ Producer.tested v
        → u ≡ record s { queue = write v s.queue; producer = Producer.written v }
        → Step capacity blank s u
    push_return :
        (v : T)
        → s.producer ≡ Producer.written v
        → u ≡ record s {
          queue = publish capacity s.queue;
          producer = Producer.outside;
          sent = s.sent ++ v ∷ [];
        }
        → Step capacity blank s u
    pop_test :
        s.consumer ≡ Consumer.outside
        → has_item s.queue ≡ true
        → u ≡ record s { consumer = Consumer.tested }
        → Step capacity blank s u
    pop_read :
        s.consumer ≡ Consumer.tested
        → u ≡ record s { consumer = Consumer.taken (read blank s.queue) }
        → Step capacity blank s u
    pop_return :
        (v : T)
        → s.consumer ≡ Consumer.taken v
        → u ≡ record s {
          queue = release capacity s.queue;
          consumer = Consumer.outside;
          received = s.received ++ v ∷ [];
        }
        → Step capacity blank s u

  pub data Reach (capacity : ℕ) (blank : T) : System T → Type 0 where
    begun : Reach capacity blank (start capacity blank)
    step :
        {s u : System T} → Reach capacity blank s → Step capacity blank s u → Reach capacity blank u
