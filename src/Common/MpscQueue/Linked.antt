-- ===== src/Common/MpscQueue/Linked.antt =====
-- Of any number of producers and the consumer of the linked queue (mpsc_queue.h).
use regime_flow.Base.{
  ◌++◌, ◌==◌, ◌≤◌, is_some, List, Bool-cases, Option-cases, zero, inr, inl, true, ◌<◌, ◌-◌, ◌≡◌,
  arith, ℕ, Option, suc, refl, some, none, ◌∷◌, [],
}
use regime_flow.Common.MpscQueue.{read_next, MpscQueue, Node, new_queue, link, read, first}
use regime_flow.Common.MpscQueue.Threads.{System, Step, Reach, Producer, Consumer, start}
use regime_flow.Common.MpscQueue.Chain.{Alive, next_of, value_of, values, Reads, IsChain}
use regime_flow.Common.MpscQueue.Claim.{claim-IsChain}
use regime_flow.Common.MpscQueue.Link.{values_first, link-IsChain, advance-IsChain, Reads-subst}

module _ {T : Type 0} where
  -- What `first` finds is in the list, and it finds nothing only when the first link is missing.
  pub data Finds (d : T) (s : System T) : Option (Option (ℕ × T)) → Type 0 where
    nothing : next_of (s.queue.nodes s.queue.head) ≡ none → Finds d s (some none)
    found :
        (v : T)
        → next_of (s.queue.nodes s.queue.head) ≡ some (suc s.queue.head)
        → s.queue.head < s.queue.tail
        → value_of d (s.queue.nodes (suc s.queue.head)) ≡ v
        → Finds d s (some (some (suc s.queue.head, v)))

  read_Finds :
      (d : T) (s : System T)
      → next_of (s.queue.nodes s.queue.head) ≡ some (suc s.queue.head)
      → s.queue.head < s.queue.tail
      → Alive s.queue.tail (suc s.queue.head) (s.queue.nodes (suc s.queue.head))
      → Finds d s (read (suc s.queue.head) s.queue)
  unfolding read
  read_Finds d s e lt a = elim (Option-cases (s.queue.nodes (suc s.queue.head))) [
    | inl o ↦ absurd (rw o at a)
    | inr (y, o) ↦ rw (o, read) (Finds.found y.value e lt (rw o refl))
  ]

  next_Finds :
      (d : T) (s : System T) (x : Node T)
      → s.queue.nodes s.queue.head ≡ some x
      → Alive s.queue.tail s.queue.head (some x)
      → (suc s.queue.head ≤ s.queue.tail
          → Alive s.queue.tail (suc s.queue.head) (s.queue.nodes (suc s.queue.head)))
      → Finds d s (read_next x.next s.queue)
  unfolding read_next
  next_Finds d s x e (inl o) a = rw o (Finds.nothing (rw e o))
  next_Finds d s x e (inr o) a = rw o.0 (read_Finds d s (rw e o.0) o.1 (a (omega (arith, o.1))))

  first-Finds : (d : T) (n : ℕ) (s : System T) → IsChain d n s → Finds d s (first s.queue)
  unfolding first read
  first-Finds d n s r = elim (Option-cases (s.queue.nodes s.queue.head)) [
    | inl e ↦
        let a = r.alive s.queue.head (omega arith) (omega (arith, r.last)) in absurd (rw e at a)
    | inr (x, e) ↦
        rw (e, first)
          (next_Finds d s x e
            (let a = r.alive s.queue.head (omega arith) (omega (arith, r.last)) in rw e at a)
            (r.alive (suc s.queue.head) (omega arith)))
  ]

  found_Reads :
      (d : T) (s : System T) (next : ℕ) (v : T)
      → Finds d s (some (some (next, v)))
      → Reads d s.queue (Consumer.taken next v)
  found_Reads d s next v (Finds.found _ e lt o) = (refl, e, lt, o)

  Step-IsChain :
      {d : T} {s u : System T} (n : ℕ) → Step s u → IsChain d n s → (m : ℕ) × IsChain d m u
  Step-IsChain {d} {s} n (Step.push_claim k v p e) r = rw e (suc n, claim-IsChain d v n k s p r)
  Step-IsChain {d} {s} n (Step.push_link k prev node q p l e) r =
      rw e (n, link-IsChain d n k prev node s q p l r)
  Step-IsChain {d} {s} n (Step.pop_read next v c f e) r = rw e (
    n,
    record {
      last = r.last;
      fresh = r.fresh;
      alive = r.alive;
      owns = r.owns;
      apart = r.apart;
      owner = r.owner;
      contents = r.contents;
      reads = found_Reads d s next v (let a = first-Finds d n s r in rw f at a);
    },
  )
  Step-IsChain {d} {s} n (Step.pop_return next v c e) r =
      rw e (n - 1, advance-IsChain d v n next s c r)

  start-IsChain : (d : T) → IsChain d 0 (start d)
  unfolding start new_queue
  start-IsChain d = record {
    last = refl;
    fresh = refl;
    alive = λ i lo hi. elim (Bool-cases (0 == i)) [
      | inl e ↦ rw e (inl refl)
      | inr e ↦ absurd (ground arith)
    ];
    owns = λ k p m h. absurd (cc);
    apart = λ j k p m o a b. absurd (cc);
    owner = λ i lo hi h. absurd (omega arith);
    contents = refl;
    reads = tt;
  }

  Reach-IsChain : {d : T} {s : System T} → Reach d s → (n : ℕ) × IsChain d n s
  Reach-IsChain {d} Reach.begun = (0, start-IsChain d)
  Reach-IsChain (Reach.step r st) = let k = Reach-IsChain r in Step-IsChain k.0 st k.1

  -- The answers that `first` may give when `rest` waits in the queue.
  pub data Answers (rest : List T) (s : System T) : Option (Option (ℕ × T)) → Type 0 where
    drained : rest ≡ [] → Answers rest s (some none)
    unlinked :
        (k node : ℕ)
        → s.producers k ≡ Producer.claimed s.queue.head node
        → Answers rest s (some none)
    item : (next : ℕ) (v : T) (l : List T) → rest ≡ v ∷ l → Answers rest s (some (some (next, v)))

  pub record IsQueue (rest : List T) (s : System T) : Type 0 where
    pub contents : s.sent ≡ s.received ++ rest
    pub linked :
        (k prev node : ℕ)
        → s.producers k ≡ Producer.claimed prev node
        → is_some (link prev node s.queue) ≡ true
    pub answers : Answers rest s (first s.queue)
    pub taken :
        (next : ℕ) (v : T) → s.consumer ≡ Consumer.taken next v → (l : List T) × (rest ≡ v ∷ l)

  answer :
      (d : T) (n : ℕ) (s : System T) {o : Option (Option (ℕ × T))}
      → IsChain d n s
      → Finds d s o
      → Answers (values d s.queue.nodes n (suc s.queue.head)) s o
  answer d zero s r (Finds.nothing e) = Answers.drained refl
  answer d (suc n) s r (Finds.nothing e) =
      let k = r.owner s.queue.head (omega arith) (omega (arith, r.last)) e in
      Answers.unlinked k.0 (suc s.queue.head) k.1
  answer d n s r (Finds.found v e lt o) =
      Answers.item (suc s.queue.head) v (values d s.queue.nodes (n - 1) (suc (suc s.queue.head)))
        (ground (arith, o, values_first d s.queue.nodes n (suc s.queue.head), r.last))

  link_lem :
      (prev node t : ℕ) (q : MpscQueue T)
      → Alive t prev (q.nodes prev)
      → is_some (link prev node q) ≡ true
  unfolding link
  link_lem prev node t q a = elim (Option-cases (q.nodes prev)) [
    | inl e ↦ absurd (rw e at a)
    | inr (x, e) ↦ rw (e, link)
  ]

  -- Whatever the steps of any number of producers and one consumer and in whatever order they were
  -- taken: the values in the order of the exchanges are those received, in their order, and a list `rest`.
  -- No step reaches for a deleted node: every producer between its exchange and its store can store, and
  -- the test of `pop` has a result. This is that there is nothing only if `rest` is empty or a producer
  -- has still to link the node behind the head, else it is the first value of `rest`, as is the value that a
  -- `pop` has read.
  pub Reach-IsQueue : {d : T} {s : System T} → Reach d s → (rest : List T) × IsQueue rest s
  Reach-IsQueue {d} {s} reach =
      let (n, r) = Reach-IsChain reach in
      (
        values d s.queue.nodes n (suc s.queue.head),
        record {
          contents = r.contents;
          linked = λ k prev node h.
              let o = r.owns k prev node h in
              link_lem prev node s.queue.tail s.queue
                (r.alive prev o.low (omega (arith, o.after, o.high)));
          answers = answer d n s r (first-Finds d n s r);
          taken = λ next v c.
              let t = Reads-subst d s.queue s.consumer next v c r.reads in
              (
                values d s.queue.nodes (n - 1) (suc next),
                ground (
                  arith,
                  t.0,
                  t.2,
                  t.3,
                  r.last,
                  values_first d s.queue.nodes n (suc s.queue.head),
                ),
              );
        },
      )
