-- ===== src/Common/MpscQueue/Link.antt =====
-- The second half of `push`, and `pop`: the list of nodes after them (mpsc_queue.h).
use mathlib.Core.List.{append_assoc}
use regime_flow.Base.{
  ◌∷◌, ◌++◌, ◌-◌, ◌<◌, Option, zero, [], ◌≢◌, suc, ap, arith, Option-cases, ◌≡◌, ℕ, inr, inl, some,
  none,
}
use regime_flow.Common.MpscQueue.{advance, MpscQueue, Node, store, link}
use regime_flow.Common.MpscQueue.Threads.{System, Producer, Consumer, assign}
use regime_flow.Common.MpscQueue.Chain.{
  values-store, value_of, values, Owns-intro, Reads, IsChain, values-same, store-Alive,
}

module _ {T : Type 0} where
  link-some :
      (prev node : ℕ) (q u : MpscQueue T)
      → link prev node q ≡ some u
      → (n : Node T) × (q.nodes prev ≡ some n)
        × (u ≡ record q { nodes = store prev (some (record n { next = some node })) q.nodes })
  unfolding link
  link-some prev node q u h = elim (Option-cases (q.nodes prev)) [
    | inl e ↦ absurd (ground arith)
    | inr (n, e) ↦ (n, e, ground arith)
  ]

  link-Reads :
      (d : T) (q : MpscQueue T) (c : Consumer T) (prev node : ℕ) (n : Node T)
      → q.nodes prev ≡ some n
      → n.next ≡ none
      → Reads d q c
      → Reads d (record q { nodes = store prev (some (record n { next = some node })) q.nodes }) c
  link-Reads d q Consumer.outside prev node n e o r = tt
  link-Reads d q (Consumer.taken next w) prev node n e o r =
      ground (arith, r.0, r.1, r.2, r.3, ap (λ (j : ℕ). q.nodes j))

  pub link-IsChain :
      (d : T) (n k prev node : ℕ) (s : System T) (q : MpscQueue T)
      → s.producers k ≡ Producer.claimed prev node
      → link prev node s.queue ≡ some q
      → IsChain d n s
      → IsChain d n (record s { queue = q; producers = assign k Producer.outside s.producers })
  link-IsChain d n k prev node s q h l r =
      let o = r.owns k prev node h in
      let (x, e, same) = link-some prev node s.queue q l in
      rw same (record {
        last = r.last;
        fresh = r.fresh;
        alive = λ i lo hi.
            store-Alive s.queue.tail i prev _ s.queue.nodes
              (λ at. inr (ground (arith, o.after), omega (arith, o.after, o.high)))
              (λ _. r.alive i lo hi);
        owns = λ j p m g.
            let w = r.owns j p m (ground arith) in
            let ne : prev ≢ p = λ (at : prev ≡ p). ground (arith, r.apart j k p m node) in
            Owns-intro _ p m (w.after, w.low, w.high, ground (arith, w.open_end));
        apart = λ i j p m other a b. ground (arith, r.apart i j p m other);
        owner = λ i lo hi g.
            let w = r.owner i lo hi (ground arith) in
            (w.0, ground (arith, w.1, r.apart k w.0 prev node (suc i)));
        contents = ground (
          arith,
          r.contents,
          o.after,
          values-same d s.queue.nodes (some (record x { next = some node })) prev n
              (suc s.queue.head),
        );
        reads = link-Reads d s.queue s.consumer prev node x e (ground (arith, o.open_end)) r.reads;
      })

  pub values_first :
      (d : T) (nodes : ℕ → Option (Node T)) (n i : ℕ)
      → 0 < n
      → values d nodes n i ≡ value_of d (nodes i) ∷ values d nodes (n - 1) (suc i)
  values_first d nodes zero i h = absurd (omega arith)
  values_first d nodes (suc n) i h = ground arith

  pub Reads-subst :
      (d : T) (q : MpscQueue T) (c : Consumer T) (next : ℕ) (v : T)
      → c ≡ Consumer.taken next v
      → Reads d q c
      → Reads d q (Consumer.taken next v)
  Reads-subst d q c next v e r = rw e at r

  pub advance-IsChain :
      (d v : T) (n next : ℕ) (s : System T)
      → s.consumer ≡ Consumer.taken next v
      → IsChain d n s
      → IsChain d (n - 1) (record s {
        queue = advance next s.queue;
        consumer = Consumer.outside;
        received = s.received ++ v ∷ [];
      })
  unfolding advance
  advance-IsChain d v n next s c r =
      let t = Reads-subst d s.queue s.consumer next v c r.reads in
      record {
        last = omega (arith, r.last, t.0, t.2);
        fresh = r.fresh;
        alive = λ i lo hi.
            store-Alive s.queue.tail i s.queue.head none s.queue.nodes
              (λ at. absurd (omega (arith, t.0))) (λ _. r.alive i (omega (arith, t.0)) hi);
        owns = λ j p m g.
            let w = r.owns j p m g in
            let ne : s.queue.head ≢ p =
              λ (at : s.queue.head ≡ p). ground (arith, w.open_end, t.1) in
            Owns-intro _ p m
              (w.after, omega (arith, w.low, t.0), w.high, ground (arith, w.open_end));
        apart = r.apart;
        owner = λ i lo hi g. r.owner i (omega (arith, t.0)) hi (ground (arith, t.0));
        contents = ground (
          arith,
          r.contents,
          r.last,
          t.0,
          t.2,
          t.3,
          values_first d s.queue.nodes n (suc s.queue.head),
          values-store d s.queue.nodes none s.queue.head (n - 1) (suc next),
          append_assoc s.received (v ∷ []) (values d s.queue.nodes (n - 1) (suc next)),
        );
        reads = tt;
      }
