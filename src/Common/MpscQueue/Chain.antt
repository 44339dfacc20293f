-- ===== src/Common/MpscQueue/Chain.antt =====
-- What holds of the list of nodes between any two steps (mpsc_queue.h).
use regime_flow.Base.{
  ==_iff, ◌==◌, Bool-cases, ◌≢◌, inr, inl, ap, ◌++◌, arith, ◌+◌, ◌≤◌, ◌<◌, List, ◌⊎◌, ◌≡◌, Option,
  ℕ, suc, zero, refl, some, none, ◌∷◌, [],
}
use regime_flow.Common.MpscQueue.{MpscQueue, Node, store}
use regime_flow.Common.MpscQueue.Threads.{System, Producer, Consumer}

module _ {T : Type 0} where
  -- A node before the last one either has its successor or waits for it.
  abbrev pub Alive : ℕ → ℕ → Option (Node T) → Type 0
  Alive tail i none = ⊥
  Alive tail i (some n) = (n.next ≡ none) ⊎ ((n.next ≡ some (suc i)) × (i < tail))

  abbrev pub next_of : Option (Node T) → Option ℕ
  next_of none = none
  next_of (some n) = n.next

  abbrev pub value_of : T → Option (Node T) → T
  value_of d none = d
  value_of d (some n) = n.value

  -- The values of the `n` nodes from address `i` on.
  abbrev pub values : T → (ℕ → Option (Node T)) → ℕ → ℕ → List T
  values d nodes zero i = []
  values d nodes (suc n) i = value_of d (nodes i) ∷ values d nodes n (suc i)

  abbrev pub Reads : T → MpscQueue T → Consumer T → Type 0
  Reads d q Consumer.outside = Unit
  Reads d q (Consumer.taken next v) =
      (next ≡ suc q.head)
      × (next_of (q.nodes q.head) ≡ some next)
      × (q.head < q.tail)
      × (value_of d (q.nodes next) ≡ v)

  pub record Owns (q : MpscQueue T) (prev node : ℕ) : Type 0 where
    pub after : node ≡ suc prev
    pub low : q.head ≤ prev
    pub high : node ≤ q.tail
    pub open_end : next_of (q.nodes prev) ≡ none

  -- `n` nodes are behind the one at the head.
  pub record IsChain (d : T) (n : ℕ) (s : System T) : Type 0 where
    pub last : s.queue.head + n ≡ s.queue.tail
    pub fresh : s.queue.fresh ≡ suc s.queue.tail
    pub alive :
        (i : ℕ) → s.queue.head ≤ i → i ≤ s.queue.tail → Alive s.queue.tail i (s.queue.nodes i)
    pub owns :
        (k prev node : ℕ) → s.producers k ≡ Producer.claimed prev node → Owns s.queue prev node
    pub apart :
        (j k prev node other : ℕ)
        → s.producers j ≡ Producer.claimed prev node
        → s.producers k ≡ Producer.claimed prev other
        → j ≡ k
    pub owner :
        (i : ℕ)
        → s.queue.head ≤ i
        → i < s.queue.tail
        → next_of (s.queue.nodes i) ≡ none
        → (k : ℕ) × (s.producers k ≡ Producer.claimed i (suc i))
    pub contents : s.sent ≡ s.received ++ values d s.queue.nodes n (suc s.queue.head)
    pub reads : Reads d s.queue s.consumer

  pub values-store :
      (d : T) (nodes : ℕ → Option (Node T)) (x : Option (Node T)) (a n i : ℕ)
      → (a < i) ⊎ (i + n ≤ a)
      → values d (store a x nodes) n i ≡ values d nodes n i
  values-store d nodes x a zero i h = refl
  values-store d nodes x a (suc n) i h = ground (arith, values-store d nodes x a n (suc i))

  pub values-same :
      (d : T) (nodes : ℕ → Option (Node T)) (x : Option (Node T)) (a n i : ℕ)
      → value_of d x ≡ value_of d (nodes a)
      → values d (store a x nodes) n i ≡ values d nodes n i
  values-same d nodes x a zero i h = refl
  values-same d nodes x a (suc n) i h =
      ground (arith, values-same d nodes x a n (suc i), ap (λ (j : ℕ). value_of d (nodes j)))

  pub values-suc :
      (d : T) (nodes : ℕ → Option (Node T)) (n i : ℕ)
      → values d nodes (suc n) i ≡ values d nodes n i ++ value_of d (nodes (i + n)) ∷ []
  values-suc d nodes zero i = ground arith
  values-suc d nodes (suc n) i = ground (arith, values-suc d nodes n (suc i))

  pub Alive-mono : (t u i : ℕ) (x : Option (Node T)) → t ≤ u → Alive t i x → Alive u i x
  Alive-mono t u i none h a = a
  Alive-mono t u i (some n) h (inl e) = inl e
  Alive-mono t u i (some n) h (inr e) = inr (e.0, omega (arith, e.1))

  -- What `store` leaves at an address.
  pub store-Alive :
      (t i a : ℕ) (x : Option (Node T)) (nodes : ℕ → Option (Node T))
      → (a ≡ i → Alive t i x)
      → (a ≢ i → Alive t i (nodes i))
      → Alive t i (store a x nodes i)
  store-Alive t i a x nodes yes_ no_ = elim (Bool-cases (a == i)) [
    | inl e ↦ rw e (yes_ ((==_iff a i).0 e))
    | inr e ↦ rw e (no_ (λ h. ground arith))
  ]

  pub Owns-intro :
      (q : MpscQueue T) (prev node : ℕ)
      → (node ≡ suc prev) × (q.head ≤ prev) × (node ≤ q.tail) × (next_of (q.nodes prev) ≡ none)
      → Owns q prev node
  Owns-intro q prev node h = record { after = h.0; low = h.1; high = h.2; open_end = h.3 }
