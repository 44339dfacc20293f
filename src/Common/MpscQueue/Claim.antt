-- ===== src/Common/MpscQueue/Claim.antt =====
-- The first half of `push`: the list of nodes after it (mpsc_queue.h).
use mathlib.Core.List.{append_assoc}
use regime_flow.Base.{
  ◌==◌, Bool-cases, inr, inl, ◌++◌, arith, ◌+◌, ◌<◌, ◌≡◌, Option, ℕ, suc, refl, some, none, ◌∷◌, [],
}
use regime_flow.Common.MpscQueue.{claim, MpscQueue, Node, store}
use regime_flow.Common.MpscQueue.Threads.{assign, System, Producer, Consumer}
use regime_flow.Common.MpscQueue.Chain.{
  Alive, next_of, values, Reads, Owns, IsChain, values-store, values-suc, Alive-mono, store-Alive,
  Owns-intro,
}

module _ {T : Type 0} where
  claim-Reads :
      (d : T) (q : MpscQueue T) (c : Consumer T) (v : T)
      → q.fresh ≡ suc q.tail
      → Reads d q c
      → Reads d (claim v q).2 c
  unfolding claim
  claim-Reads d q Consumer.outside v f r = tt
  claim-Reads d q (Consumer.taken next w) v f r = ground (arith, r.0, r.1, r.2, r.3)

  last_open :
      (d : T) (n : ℕ) (s : System T) → IsChain d n s → next_of (s.queue.nodes s.queue.tail) ≡ none
  last_open d n s r =
      from (s.queue.nodes s.queue.tail) (r.alive s.queue.tail (omega (arith, r.last)) (omega arith))
    where
      from : (x : Option (Node T)) → Alive s.queue.tail s.queue.tail x → next_of x ≡ none
      from none a = refl
      from (some x) (inl e) = e
      from (some x) (inr e) = absurd (omega (arith, e.1))

  claim-Owns :
      (v : T) (s : System T) (k j n prev node : ℕ)
      → s.queue.head + n ≡ s.queue.tail
      → s.queue.fresh ≡ suc s.queue.tail
      → next_of (s.queue.nodes s.queue.tail) ≡ none
      → (s.producers j ≡ Producer.claimed prev node → Owns s.queue prev node)
      → assign k (Producer.claimed (claim v s.queue).0 (claim v s.queue).1) s.producers j
        ≡ Producer.claimed prev node
      → Owns (claim v s.queue).2 prev node
  unfolding claim
  claim-Owns v s k j n prev node l f e o h = elim (Bool-cases (k == j)) [
    | inl same ↦ Owns-intro (claim v s.queue).2 prev node (ground arith)
    | inr other ↦
        let w = o (ground arith) in
        Owns-intro (claim v s.queue).2 prev node
          (ground (arith, w.after, w.low, w.high, w.open_end))
  ]

  claim_owner :
      (v : T) (s : System T) (k i : ℕ)
      → s.producers k ≡ Producer.outside
      → s.queue.fresh ≡ suc s.queue.tail
      → (i < s.queue.tail
          → next_of (s.queue.nodes i) ≡ none
          → (j : ℕ) × (s.producers j ≡ Producer.claimed i (suc i)))
      → i < s.queue.fresh
      → next_of ((claim v s.queue).2.nodes i) ≡ none
      → (j : ℕ) × (assign k (Producer.claimed (claim v s.queue).0 (claim v s.queue).1) s.producers j
          ≡ Producer.claimed i (suc i))
  unfolding claim
  claim_owner v s k i p f o hi h = elim (Bool-cases (i == s.queue.tail)) [
    | inl e ↦ (k, ground arith)
    | inr e ↦ let w = o (ground arith) (ground arith) in (w.0, ground (arith, w.1, p))
  ]

  pub claim-IsChain :
      (d v : T) (n k : ℕ) (s : System T)
      → s.producers k ≡ Producer.outside
      → IsChain d n s
      → IsChain d (suc n) (record s {
        queue = (claim v s.queue).2;
        producers = assign k (Producer.claimed (claim v s.queue).0 (claim v s.queue).1) s.producers;
        sent = s.sent ++ v ∷ [];
      })
  unfolding claim
  claim-IsChain d v n k s p r = record {
    last = omega (arith, r.last, r.fresh);
    fresh = refl;
    alive = λ i lo hi.
        store-Alive s.queue.fresh i s.queue.fresh _ s.queue.nodes (λ _. inl refl)
          (λ ne.
            Alive-mono s.queue.tail s.queue.fresh i _ (omega (arith, r.fresh))
              (r.alive i lo (omega (arith, r.fresh))));
    owns = λ j prev node h.
        claim-Owns v s k j n prev node r.last r.fresh (last_open d n s r) (r.owns j prev node) h;
    apart = λ i j prev node other a b.
        ground (arith, r.apart i j prev node other, r.owns i prev node, r.owns j prev other);
    owner = λ i lo hi h. claim_owner v s k i p r.fresh (r.owner i lo) hi h;
    contents = ground (
      arith,
      r.contents,
      r.last,
      r.fresh,
      values-suc d (store s.queue.fresh (some (record { value = v; next = none })) s.queue.nodes) n
          (suc s.queue.head),
      values-store d s.queue.nodes (some (record { value = v; next = none })) s.queue.fresh n
          (suc s.queue.head),
      append_assoc s.received (values d s.queue.nodes n (suc s.queue.head)) (v ∷ []),
    );
    reads = claim-Reads d s.queue s.consumer v r.fresh r.reads;
  }
