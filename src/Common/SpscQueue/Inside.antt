-- ===== src/Common/SpscQueue/Inside.antt =====
-- Of the threads that use the queue at once (spsc_queue.h): what is in the buffer between any two steps.
use mathlib.Core.List.{append_assoc}
use regime_flow.Base.{
  length-set, get_or-set, ◌∙◌, ◌≤◌, ◌+◌, ◌==◌, arith, length, suc, ◌-◌, not, ltb, ◌++◌, ◌<◌, ◌≡◌,
  get_or, ℕ, ◌∷◌, [],
}
use regime_flow.Common.SpscQueue.{increment, SpscQueue, has_room, write, publish, has_item, release}
use regime_flow.Common.SpscQueue.Threads.{System, Producer, Consumer}
use regime_flow.Common.SpscQueue.Ring.{
  ring_first, ring-suc, Spans, increment_lem, ring, ring-set, shrink, grow,
}

module _ {T : Type 0} where
  abbrev pub reserved : Producer T → ℕ
  reserved Producer.outside = 0
  reserved (Producer.tested v) = 1
  reserved (Producer.written v) = 1

  abbrev pub wanted : Consumer T → ℕ
  wanted Consumer.outside = 0
  wanted Consumer.tested = 1
  wanted (Consumer.taken v) = 1

  -- A value that was written is behind the last item.
  abbrev pub Holds : T → SpscQueue T → Producer T → Type 0
  Holds d q Producer.outside = Unit
  Holds d q (Producer.tested v) = Unit
  Holds d q (Producer.written v) = get_or q.buffer q.head d ≡ v

  -- A value that was read is the first item.
  abbrev pub Reads : T → SpscQueue T → Consumer T → Type 0
  Reads d q Consumer.outside = Unit
  Reads d q Consumer.tested = Unit
  Reads d q (Consumer.taken v) = get_or q.buffer q.tail d ≡ v

  pub record IsRing (capacity : ℕ) (d : T) (n : ℕ) (s : System T) : Type 0 where
    pub contents : s.sent ≡ s.received ++ ring capacity d s.queue.buffer n s.queue.tail
    pub spans : Spans capacity s.queue.tail n s.queue.head
    pub size : length s.queue.buffer ≡ capacity
    pub in_head : s.queue.head < capacity
    pub in_tail : s.queue.tail < capacity
    pub fits : n + reserved s.producer < capacity
    pub enough : wanted s.consumer ≤ n
    pub holds : Holds d s.queue s.producer
    pub reads : Reads d s.queue s.consumer

  pub has_room_lem :
      (capacity n : ℕ) (q : SpscQueue T)
      → q.head < capacity
      → q.tail < capacity
      → n < capacity
      → Spans capacity q.tail n q.head
      → has_room capacity q ≡ ltb (suc n) capacity
  unfolding has_room
  has_room_lem capacity n q h t f s = ground (arith, increment_lem capacity q.head)

  pub has_item_lem :
      (capacity n : ℕ) (q : SpscQueue T)
      → q.head < capacity
      → q.tail < capacity
      → n < capacity
      → Spans capacity q.tail n q.head
      → has_item q ≡ not (n == 0)
  unfolding has_item
  has_item_lem capacity n q h t f s = ground arith

  write-Reads :
      (capacity n : ℕ) (d v : T) (q : SpscQueue T) (c : Consumer T)
      → length q.buffer ≡ capacity
      → q.head < capacity
      → n < capacity
      → Spans capacity q.tail n q.head
      → wanted c ≤ n
      → Reads d q c
      → Reads d (write v q) c
  unfolding write
  write-Reads capacity n d v q Consumer.outside l h f s w r = tt
  write-Reads capacity n d v q Consumer.tested l h f s w r = tt
  write-Reads capacity n d v q (Consumer.taken x) l h f s w r =
      ground (arith, get_or-set q.buffer q.head q.tail v d)

  pub write-IsRing :
      (capacity n : ℕ) (d v : T) (s : System T)
      → IsRing capacity d n s
      → s.producer ≡ Producer.tested v
      → IsRing capacity d n (record s { queue = write v s.queue; producer = Producer.written v })
  unfolding write
  write-IsRing capacity n d v s r p = record {
    contents =
        rw
          (ring-set capacity d s.queue.buffer n s.queue.tail s.queue.head v r.size r.in_tail
            r.in_head (omega (arith, r.fits)) r.spans)
          r.contents;
    spans = r.spans;
    size = length-set s.queue.buffer s.queue.head v ∙ r.size;
    in_head = r.in_head;
    in_tail = r.in_tail;
    fits = ground (arith, r.fits);
    enough = r.enough;
    holds =
        ground (arith, get_or-set s.queue.buffer s.queue.head s.queue.head v d, r.size, r.in_head);
    reads =
        write-Reads capacity n d v s.queue s.consumer r.size r.in_head (omega (arith, r.fits))
          r.spans r.enough r.reads;
  }

  pub return-IsRing :
      (capacity n : ℕ) (d v : T) (s : System T)
      → IsRing capacity d n s
      → s.producer ≡ Producer.written v
      → IsRing capacity d (suc n) (record s {
        queue = publish capacity s.queue;
        producer = Producer.outside;
        sent = s.sent ++ v ∷ [];
      })
  unfolding publish
  return-IsRing capacity n d v s r p =
      let g =
        grow capacity n s.queue.tail s.queue.head r.in_tail r.in_head (ground (arith, r.fits))
          r.spans in
      record {
        contents = ground (
          arith,
          r.contents,
          r.holds,
          ring-suc capacity d s.queue.buffer n s.queue.tail s.queue.head r.in_tail r.in_head
              r.spans,
          append_assoc s.received (ring capacity d s.queue.buffer n s.queue.tail) (v ∷ []),
        );
        spans = g.0;
        size = r.size;
        in_head = g.1;
        in_tail = r.in_tail;
        fits = ground (arith, r.fits);
        enough = omega (arith, r.enough);
        holds = tt;
        reads = r.reads;
      }

  pub release-IsRing :
      (capacity n : ℕ) (d v : T) (s : System T)
      → IsRing capacity d n s
      → s.consumer ≡ Consumer.taken v
      → IsRing capacity d (n - 1) (record s {
        queue = release capacity s.queue;
        consumer = Consumer.outside;
        received = s.received ++ v ∷ [];
      })
  unfolding release
  release-IsRing capacity n d v s r c =
      let more : 0 < n = ground (arith, r.enough) in
      let h = shrink capacity n s.queue.tail s.queue.head r.in_tail r.in_head more r.spans in
      record {
        contents = ground (
          arith,
          r.contents,
          ring_first capacity n d s.queue.buffer s.queue.tail more,
          append_assoc s.received (v ∷ [])
              (ring capacity d s.queue.buffer (n - 1) (increment capacity s.queue.tail)),
        );
        spans = h.0;
        size = r.size;
        in_head = r.in_head;
        in_tail = h.1;
        fits = omega (arith, r.fits);
        enough = omega arith;
        holds = r.holds;
        reads = tt;
      }
