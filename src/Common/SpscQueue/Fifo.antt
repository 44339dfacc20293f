-- ===== src/Common/SpscQueue/Fifo.antt =====
-- Of the threads that use the queue at once (spsc_queue.h): which values are sent, waiting and received.
use regime_flow.Base.{
  zero, sym, ap, length-replicate, is_empty, List, refl, inl, ◌∙◌, ◌==◌, arith, length, suc, ◌-◌,
  not, ltb, ◌++◌, ◌<◌, ◌≡◌, ℕ, ◌∷◌,
}
use regime_flow.Common.SpscQueue.{increment, read, new_queue, has_room, has_item}
use regime_flow.Common.SpscQueue.Threads.{Reach, start, System, Step, Consumer}
use regime_flow.Common.SpscQueue.Ring.{length-ring, ring_first, ring}
use regime_flow.Common.SpscQueue.Inside.{
  IsRing, has_room_lem, has_item_lem, write-IsRing, return-IsRing, release-IsRing,
}

module _ {T : Type 0} where
  Step-IsRing :
      {capacity : ℕ} {d : T} {s u : System T} (n : ℕ)
      → Step capacity d s u
      → IsRing capacity d n s
      → (m : ℕ) × IsRing capacity d m u
  unfolding read
  Step-IsRing {capacity} {d} {s} n (Step.push_test v p h e) r = rw e (
    n,
    record {
      contents = r.contents;
      spans = r.spans;
      size = r.size;
      in_head = r.in_head;
      in_tail = r.in_tail;
      fits = ground (
        arith,
        has_room_lem capacity n s.queue r.in_head r.in_tail (omega (arith, r.fits)) r.spans,
      );
      enough = r.enough;
      holds = tt;
      reads = r.reads;
    },
  )
  Step-IsRing {capacity} {d} {s} n (Step.push_write v p e) r =
      rw e (n, write-IsRing capacity n d v s r p)
  Step-IsRing {capacity} {d} {s} n (Step.push_return v p e) r =
      rw e (suc n, return-IsRing capacity n d v s r p)
  Step-IsRing {capacity} {d} {s} n (Step.pop_test c h e) r = rw e (
    n,
    record {
      contents = r.contents;
      spans = r.spans;
      size = r.size;
      in_head = r.in_head;
      in_tail = r.in_tail;
      fits = r.fits;
      enough = ground (
        arith,
        has_item_lem capacity n s.queue r.in_head r.in_tail (omega (arith, r.fits)) r.spans,
      );
      holds = r.holds;
      reads = tt;
    },
  )
  Step-IsRing {capacity} {d} {s} n (Step.pop_read c e) r = rw e (
    n,
    record {
      contents = r.contents;
      spans = r.spans;
      size = r.size;
      in_head = r.in_head;
      in_tail = r.in_tail;
      fits = r.fits;
      enough = ground (arith, r.enough);
      holds = r.holds;
      reads = refl;
    },
  )
  Step-IsRing {capacity} {d} {s} n (Step.pop_return v c e) r =
      rw e (n - 1, release-IsRing capacity n d v s r c)

  start-IsRing : (capacity : ℕ) (d : T) → 0 < capacity → IsRing capacity d 0 (start capacity d)
  unfolding start new_queue
  start-IsRing capacity d h = record {
    contents = refl;
    spans = inl refl;
    size = length-replicate capacity d;
    in_head = h;
    in_tail = h;
    fits = h;
    enough = omega arith;
    holds = tt;
    reads = tt;
  }

  Reach-IsRing :
      {capacity : ℕ} {d : T} {s : System T}
      → Reach capacity d s
      → 0 < capacity
      → (n : ℕ) × IsRing capacity d n s
  Reach-IsRing {capacity} {d} Reach.begun h = (0, start-IsRing capacity d h)
  Reach-IsRing (Reach.step r st) h = let k = Reach-IsRing r h in Step-IsRing k.0 st k.1

  is_empty-ring :
      (capacity : ℕ) (d : T) (b : List T) (n tail : ℕ)
      → is_empty (ring capacity d b n tail) ≡ (n == 0)
  is_empty-ring capacity d b zero tail = refl
  is_empty-ring capacity d b (suc n) tail = ground arith

  -- `rest` waits in the queue: what was sent and not received, in its order and less than the
  -- capacity. The two tests answer for it.
  pub record IsFifo (capacity : ℕ) (rest : List T) (s : System T) : Type 0 where
    pub contents : s.sent ≡ s.received ++ rest
    pub fits : length rest < capacity
    pub room : has_room capacity s.queue ≡ ltb (suc (length rest)) capacity
    pub item : has_item s.queue ≡ not (is_empty rest)
    pub first : (v : T) → s.consumer ≡ Consumer.taken v → (l : List T) × (rest ≡ v ∷ l)

  -- Whatever the steps of a producer and a consumer and in whatever order they were taken: the values
  -- whose `push` returned true are those whose `pop` did, followed by a list of less than `capacity`
  -- values, in the order of the pushes. With it the test of `push` says whether one more than this list
  -- is less than `capacity`, that of `pop` whether the list has an element, and a value that `pop` has
  -- read is the first one.
  pub Reach-IsFifo :
      {capacity : ℕ} {d : T} {s : System T}
      → 0 < capacity
      → Reach capacity d s
      → (rest : List T) × IsFifo capacity rest s
  Reach-IsFifo {capacity} {d} {s} h r =
      let k = Reach-IsRing r h in
      let b = s.queue.buffer in
      let t = s.queue.tail in
      let f : k.0 < capacity = omega (arith, k.1.fits) in
      (
        ring capacity d b k.0 t,
        record {
          contents = k.1.contents;
          fits = omega (arith, length-ring capacity d b k.0 t);
          room =
              has_room_lem capacity k.0 s.queue k.1.in_head k.1.in_tail f k.1.spans
              ∙ ap (λ (m : ℕ). ltb (suc m) capacity) (sym (length-ring capacity d b k.0 t));
          item =
              has_item_lem capacity k.0 s.queue k.1.in_head k.1.in_tail f k.1.spans
              ∙ ap not (sym (is_empty-ring capacity d b k.0 t));
          first = λ v c.
              let p : 0 < k.0 = ground (arith, k.1.enough) in
              (
                ring capacity d b (k.0 - 1) (increment capacity t),
                ground (arith, k.1.reads, ring_first capacity k.0 d b t p),
              );
        },
      )
