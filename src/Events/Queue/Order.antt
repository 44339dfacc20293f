-- ===== src/Events/Queue/Order.antt =====
-- The order of events that `EventComparator` of include/regimeflow/events/event_queue.h gives, and the
-- sorted list that the priority queue keeps.
use regime_flow.Base.Int.{eqb_ℤ, ◌<ℤ◌}
use regime_flow.Events.Queue.{drain_pending_locked, EventQueue, absorb, enqueue, is_after}
use regime_flow.Events.Event.{Event}
use regime_flow.Base.{
  ◌<◌, ◌↔◌, ◌⊎◌, ◌≢◌, Bool-cases, ◌++◌, All, arith, ◌≡◌, [], inr, inl, false, true,
}
use mathlib.Core.List.Perm
use mathlib.Core.List.{perm_middle, ◌∷◌, List, Perm}

module _ {D R : Type 0} where
  -- `a` need not wait for `b`.
  abbrev pub Precedes : Event D R → Event D R → Type 0
  Precedes a b = is_after a b ≡ false

  pub Precedes-self : (a : Event D R) → Precedes a a
  unfolding is_after
  Precedes-self a = ground arith

  pub Precedes-of_after : (a b : Event D R) → is_after a b ≡ true → Precedes b a
  unfolding is_after
  Precedes-of_after a b h = ground arith

  pub Precedes-trans : (a b c : Event D R) → Precedes a b → Precedes b c → Precedes a c
  unfolding is_after
  Precedes-trans a b c h k = ground arith

  -- Two events that wait for neither of each other agree in all that is compared.
  pub Precedes-antisymm :
      (a b : Event D R)
      → Precedes a b
      → Precedes b a
      → (a.timestamp ≡ b.timestamp) × (a.priority ≡ b.priority) × (a.sequence ≡ b.sequence)
  unfolding is_after
  Precedes-antisymm a b h k = ground arith

  abbrev pub IsSorted : List (Event D R) → Type 0
  IsSorted [] = Unit
  IsSorted (x ∷ xs) = All (Precedes x) xs × IsSorted xs

  All-enqueue :
      (a e : Event D R) (xs : List (Event D R))
      → Precedes a e
      → All (Precedes a) xs
      → All (Precedes a) (enqueue e xs)
  unfolding enqueue
  All-enqueue a e [] h k = (h, tt)
  All-enqueue a e (x ∷ xs) h k = ground (arith, All-enqueue a e xs h k.1)

  All-trans :
      (a b : Event D R) (xs : List (Event D R))
      → Precedes a b
      → All (Precedes b) xs
      → All (Precedes a) xs
  All-trans a b [] h k = tt
  All-trans a b (x ∷ xs) h k = (Precedes-trans a b x h k.0, All-trans a b xs h k.1)

  pub enqueue-IsSorted :
      (e : Event D R) (xs : List (Event D R)) → IsSorted xs → IsSorted (enqueue e xs)
  unfolding enqueue
  enqueue-IsSorted e [] s = (tt, tt)
  enqueue-IsSorted e (x ∷ xs) s = elim (Bool-cases (is_after x e)) [
    | inl h ↦ rw h ((Precedes-of_after x e h, All-trans e x xs (Precedes-of_after x e h) s.0), s)
    | inr h ↦ rw h (All-enqueue x e xs h s.0, enqueue-IsSorted e xs s.1)
  ]

  pub enqueue-perm : (e : Event D R) (xs : List (Event D R)) → Perm (enqueue e xs) (e ∷ xs)
  unfolding enqueue
  enqueue-perm e [] = Perm.refl (e ∷ [])
  enqueue-perm e (x ∷ xs) = elim (Bool-cases (is_after x e)) [
    | inl h ↦ rw h (Perm.refl (e ∷ x ∷ xs))
    | inr h ↦ rw h (Perm.trans (Perm.cons x (enqueue-perm e xs)) (Perm.swap e x xs))
  ]

  pub absorb-IsSorted : (es xs : List (Event D R)) → IsSorted xs → IsSorted (absorb es xs)
  unfolding absorb
  absorb-IsSorted [] xs s = s
  absorb-IsSorted (e ∷ es) xs s = absorb-IsSorted es (enqueue e xs) (enqueue-IsSorted e xs s)

  pub absorb-perm : (es xs : List (Event D R)) → Perm (absorb es xs) (es ++ xs)
  unfolding absorb
  absorb-perm [] xs = Perm.refl xs
  absorb-perm (e ∷ es) xs =
      Perm.trans (absorb-perm es (enqueue e xs))
        (Perm.trans (Perm.append_left es (enqueue-perm e xs)) (perm_middle es xs))

  after_total :
      (a b : Event D R)
      → a.sequence ≢ b.sequence
      → ((is_after a b ≡ true) × (is_after b a ≡ false))
        ⊎ ((is_after b a ≡ true) × (is_after a b ≡ false))
  unfolding is_after
  after_total a b h = ground arith

  -- Two events of which one is after the other may be enqueued in either order.
  pub enqueue_comm :
      (a b : Event D R) (xs : List (Event D R))
      → a.sequence ≢ b.sequence
      → enqueue a (enqueue b xs) ≡ enqueue b (enqueue a xs)
  unfolding enqueue
  enqueue_comm a b [] h = ground (arith, after_total a b h)
  enqueue_comm a b (x ∷ xs) h = ground (
    arith,
    after_total a b h,
    Precedes-trans a x b,
    Precedes-trans b x a,
    Precedes-of_after x a,
    Precedes-of_after x b,
    enqueue_comm a b xs h,
  )

  -- The events that are still to come: those that are pending and those in the priority queue.
  abbrev pub contents : EventQueue D R → List (Event D R)
  contents q = q.pending ++ q.queue

  pub drain-perm : (q : EventQueue D R) → Perm (drain_pending_locked q).queue (contents q)
  unfolding drain_pending_locked
  drain-perm q = absorb-perm q.pending q.queue

  pub drain-IsSorted :
      (q : EventQueue D R) → IsSorted q.queue → IsSorted (drain_pending_locked q).queue
  unfolding drain_pending_locked
  drain-IsSorted q s = absorb-IsSorted q.pending q.queue s

  -- In time, then in priority, then in number.
  abbrev pub Later : Event D R → Event D R → Type 0
  Later a b =
      (b.timestamp <ℤ a.timestamp)
      ⊎ (eqb_ℤ b.timestamp a.timestamp ≡ true)
        × ((b.priority < a.priority) ⊎ (b.priority ≡ a.priority) × (b.sequence < a.sequence))

  -- One event is popped after another exactly if it is later in time or, at the same time, has the greater
  -- priority number or, that being the same too, has the greater sequence number.
  pub is_after-Later_iff : (a b : Event D R) → (is_after a b ≡ true) ↔ Later a b
  unfolding is_after
  is_after-Later_iff a b = (λ h. ground arith, λ h. ground arith)
