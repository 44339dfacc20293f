-- ===== src/Common/MpscQueue.antt =====
-- include/regimeflow/common/mpsc_queue.h: a linked queue for many producers and one consumer.
--
-- The nodes that `new` has given and `delete` has not taken back stand under their addresses, which are
-- numbered in the order in which the nodes get into the queue. Other threads may run between `claim`, the
-- exchange of the tail, and `link`, and between the two parts of `pop`. An operation that reaches
-- for a node that is not there is undefined behaviour: it has no result. `blank` is `T{}`.
pub mod Threads
pub mod Chain
pub mod Claim
pub mod Link
pub mod Linked
mod Tests
use regime_flow.Base.{is_some, not, ◌==◌, Bool, if◌then◌else◌, ℕ, Option, suc, some, none}

pub record Node (T : Type 0) : Type 0 where
  pub value : T
  pub next : Option ℕ

pub record MpscQueue (T : Type 0) : Type 0 where
  pub nodes : ℕ → Option (Node T)
  pub fresh : ℕ
  pub head : ℕ
  pub tail : ℕ

module _ {T : Type 0} where
  abbrev pub store : ℕ → Option (Node T) → (ℕ → Option (Node T)) → ℕ → Option (Node T)
  store i n nodes j = if i == j then n else nodes j

  unfoldable pub new_queue : T → MpscQueue T
  new_queue blank = record {
    nodes = store 0 (some (record { value = blank; next = none })) (λ _. none);
    fresh = 1;
    head = 0;
    tail = 0;
  }

  -- `new Node(value)` and `tail_.exchange(node)`: the address before, the own address and the queue.
  unfoldable pub claim : T → MpscQueue T → ℕ × ℕ × MpscQueue T
  claim v q = (
    q.tail,
    q.fresh,
    record q {
      nodes = store q.fresh (some (record { value = v; next = none })) q.nodes;
      fresh = suc q.fresh;
      tail = q.fresh;
    },
  )

  -- `prev->next.store(node)`
  unfoldable pub link : ℕ → ℕ → MpscQueue T → Option (MpscQueue T)
  link prev node q = elim (q.nodes prev) [
    | none ↦ none
    | some n ↦ some (record q { nodes = store prev (some (record n { next = some node })) q.nodes })
  ]

  unfoldable pub push : T → MpscQueue T → Option (MpscQueue T)
  unfolding claim link
  push v q = let (prev, node, q') = claim v q in link prev node q'

  unfoldable pub read : ℕ → MpscQueue T → Option (Option (ℕ × T))
  read next q = elim (q.nodes next) [ none ↦ none | some n ↦ some (some (next, n.value)) ]

  unfoldable pub read_next : Option ℕ → MpscQueue T → Option (Option (ℕ × T))
  unfolding read
  read_next none q = some none
  read_next (some next) q = read next q

  -- `head->next` and the value there, when there is one.
  unfoldable pub first : MpscQueue T → Option (Option (ℕ × T))
  unfolding read_next
  first q = elim (q.nodes q.head) [ none ↦ none | some n ↦ read_next n.next q ]

  -- `head_.store(next); delete head;`
  unfoldable pub advance : ℕ → MpscQueue T → MpscQueue T
  advance next q = record q { head = next; nodes = store q.head none q.nodes }

  unfoldable pub pop_first : Option (ℕ × T) → MpscQueue T → Option T × MpscQueue T
  unfolding advance
  pop_first none q = (none, q)
  pop_first (some (next, v)) q = (some v, advance next q)

  unfoldable pub pop : MpscQueue T → Option (Option T × MpscQueue T)
  unfolding first pop_first
  pop q = elim (first q) [ none ↦ none | some found ↦ some (pop_first found q) ]

  unfoldable pub empty : MpscQueue T → Option Bool
  empty q = elim (q.nodes q.head) [ none ↦ none | some n ↦ some (not (is_some n.next)) ]
