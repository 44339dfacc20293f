-- ===== src/Events/Queue.antt =====
-- include/regimeflow/events/event_queue.h.
--
-- `push` numbers its event by `fetch_add` and then puts it on the list of pending events by a
-- compare-and-swap; between the two other threads may run, so `claim` and `publish` are steps of their
-- own. What a consumer does under `queue_mutex_` is one step. Of the nodes' pool allocator nothing is
-- modelled. `std::priority_queue` is its elements in the order in which it gives them back.
pub mod Order
pub mod Laws
pub mod Threads
mod Tests
use regime_flow.Base.Int.{ltb_ℤ, eqb_ℤ}
use regime_flow.Base.Word.{u64}
use regime_flow.Events.Event.{Event}
use regime_flow.Base.{
  ltb, ◌==◌, not, length, is_empty, ◌∷◌, if◌then◌else◌, ℕ, Bool, Option, List, suc, [], some, none,
}

pub record EventQueue (D R : Type 0) : Type 0 where
  pub queue : List (Event D R)
  pub pending : List (Event D R)
  pub next_sequence : ℕ

module _ {D R : Type 0} where
  -- `EventComparator`: whether `a` comes after `b`.
  unfoldable pub is_after : Event D R → Event D R → Bool
  is_after a b =
      if not (eqb_ℤ a.timestamp b.timestamp)
      then ltb_ℤ b.timestamp a.timestamp
      else if not (a.priority == b.priority)
      then ltb b.priority a.priority
      else ltb b.sequence a.sequence

  -- `std::priority_queue::push`
  unfoldable pub enqueue : Event D R → List (Event D R) → List (Event D R)
  enqueue e [] = e ∷ []
  enqueue e (x ∷ xs) = if is_after x e then e ∷ x ∷ xs else x ∷ enqueue e xs

  unfoldable pub new_queue : EventQueue D R
  new_queue = record { queue = []; pending = []; next_sequence = 0 }

  -- The first half of `push`.
  unfoldable pub claim : Event D R → EventQueue D R → Event D R × EventQueue D R
  claim e q = (
    record e { sequence = q.next_sequence },
    record q { next_sequence = u64 (suc q.next_sequence) },
  )

  -- The second half of `push`.
  unfoldable pub publish : Event D R → EventQueue D R → EventQueue D R
  publish e q = record q { pending = e ∷ q.pending }

  unfoldable pub push : Event D R → EventQueue D R → EventQueue D R
  unfolding claim publish
  push e q = let (e', q') = claim e q in publish e' q'

  unfoldable pub absorb : List (Event D R) → List (Event D R) → List (Event D R)
  unfolding enqueue
  absorb [] xs = xs
  absorb (e ∷ es) xs = absorb es (enqueue e xs)

  -- `drain_pending_locked`
  unfoldable pub drain_pending_locked : EventQueue D R → EventQueue D R
  unfolding absorb
  drain_pending_locked q = record q { queue = absorb q.pending q.queue; pending = [] }

  unfoldable pub pop_first : List (Event D R) → EventQueue D R → Option (Event D R) × EventQueue D R
  pop_first [] q = (none, q)
  pop_first (e ∷ es) q = (some e, record q { queue = es })

  unfoldable pub pop : EventQueue D R → Option (Event D R) × EventQueue D R
  unfolding drain_pending_locked pop_first
  pop q = let q' = drain_pending_locked q in pop_first q'.queue q'

  unfoldable pub peek : EventQueue D R → Option (Event D R) × EventQueue D R
  unfolding drain_pending_locked
  peek q = let q' = drain_pending_locked q in (elim q'.queue [ [] ↦ none | e ∷ _ ↦ some e ], q')

  unfoldable pub empty : EventQueue D R → Bool × EventQueue D R
  unfolding drain_pending_locked
  empty q = let q' = drain_pending_locked q in (is_empty q'.queue, q')

  unfoldable pub size : EventQueue D R → ℕ × EventQueue D R
  unfolding drain_pending_locked
  size q = let q' = drain_pending_locked q in (length q'.queue, q')

  unfoldable pub clear : EventQueue D R → EventQueue D R
  unfolding drain_pending_locked
  clear q = record (drain_pending_locked q) { queue = [] }
