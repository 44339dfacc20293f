-- ===== src/Common/SpscQueue.antt =====
-- include/regimeflow/common/spsc_queue.h: a ring buffer for one producer and one consumer.
--
-- `push` and `pop` are made of the parts between which the other thread may run: the test, the access to
-- the buffer, and the store of the own index. `blank` is `T{}`. The atomic operations are taken one after
-- another, which their acquire and release order allows.
pub mod Ring
pub mod Threads
pub mod Inside
pub mod Fifo
mod Tests
use regime_flow.Base.{
  ◌%◌, ◌==◌, Option, if◌then◌else◌, not, replicate, ◌+◌, get_or, Bool, set, ℕ, List, false, true,
  some, none,
}

pub record SpscQueue (T : Type 0) : Type 0 where
  pub buffer : List T
  pub head : ℕ
  pub tail : ℕ

unfoldable pub increment : ℕ → ℕ → ℕ
increment capacity value = (value + 1) % capacity

module _ {T : Type 0} where
  unfoldable pub new_queue : ℕ → T → SpscQueue T
  new_queue capacity blank = record { buffer = replicate capacity blank; head = 0; tail = 0 }

  -- `next != tail_`
  unfoldable pub has_room : ℕ → SpscQueue T → Bool
  unfolding increment
  has_room capacity q = not (increment capacity q.head == q.tail)

  -- `buffer_[head] = value`
  unfoldable pub write : T → SpscQueue T → SpscQueue T
  write v q = record q { buffer = set q.buffer q.head v }

  -- `head_.store(next)`
  unfoldable pub publish : ℕ → SpscQueue T → SpscQueue T
  unfolding increment
  publish capacity q = record q { head = increment capacity q.head }

  unfoldable pub push : ℕ → T → SpscQueue T → Bool × SpscQueue T
  unfolding has_room write publish
  push capacity v q =
      if has_room capacity q then (true, publish capacity (write v q)) else (false, q)

  -- `tail != head_`
  unfoldable pub has_item : SpscQueue T → Bool
  has_item q = not (q.tail == q.head)

  -- `buffer_[tail]`
  unfoldable pub read : T → SpscQueue T → T
  read blank q = get_or q.buffer q.tail blank

  -- `tail_.store(increment(tail))`
  unfoldable pub release : ℕ → SpscQueue T → SpscQueue T
  unfolding increment
  release capacity q = record q { tail = increment capacity q.tail }

  unfoldable pub pop : ℕ → T → SpscQueue T → Option T × SpscQueue T
  unfolding has_item read release
  pop capacity blank q = if has_item q then (some (read blank q), release capacity q) else (none, q)

  unfoldable pub empty : SpscQueue T → Bool
  empty q = q.head == q.tail
