-- ===== src/Live/EventBus.antt =====
-- `EventBus` of src/live/event_bus.cpp and include/regimeflow/live/event_bus.h.
--
-- The lock-free list of published messages is a list with the newest first, and an exchange of its head is one
-- step. A callback is a value of the type `C`; which callbacks get which message is what a turn of the
-- dispatcher gives. The pool of nodes and the notifications of the condition variable are left out: a wait
-- ends when its condition holds.
pub mod Kept
pub mod Order
mod Tests
use regime_flow.Base.Word.{u64}
use regime_flow.Base.Table.{insert, values, erase, Table}
use regime_flow.Base.{
  ◌==◌, ◌+◌, if◌then◌else◌, ◌++◌, ℕ, zero, suc, List, Bool, false, true, ◌∷◌, [],
}
use regime_flow.Live.Message.{LiveTopic, LiveMessage}

pub record EventBus (R C : Type 0) : Type 0 where
  pub running : Bool
  pub queue : List (LiveMessage R)
  pub pending : List (LiveMessage R)
  pub next_id : ℕ
  pub subscribers : Table (LiveTopic × C)

-- How a turn of the loop of `dispatch_loop` goes: it waits on, or it leaves the loop, or a message is handed
-- to these callbacks.
pub data Turn (R C : Type 0) : Type 0 where
  waits : Turn R C
  breaks : EventBus R C → Turn R C
  calls : LiveMessage R → List C → EventBus R C → Turn R C

abbrev pub topic_code : LiveTopic → ℕ
topic_code LiveTopic.market_data = 0
topic_code LiveTopic.execution_report = 1
topic_code LiveTopic.position_update = 2
topic_code LiveTopic.account_update = 3
topic_code LiveTopic.system = 4

unfoldable pub callbacks_for : {C : Type 0} → LiveTopic → List (LiveTopic × C) → List C
callbacks_for topic [] = []
callbacks_for topic ((t, callback) ∷ subscribers) =
    let rest = callbacks_for topic subscribers in
    if topic_code t == topic_code topic then callback ∷ rest else rest

module _ {R C : Type 0} where
  abbrev pub new_bus : EventBus R C
  new_bus = record { running = false; queue = []; pending = []; next_id = 1; subscribers = [] }

  unfoldable pub subscribe : LiveTopic → C → EventBus R C → ℕ × EventBus R C
  subscribe topic callback b = (
    b.next_id,
    record b {
      next_id = u64 (b.next_id + 1);
      subscribers = insert b.next_id (topic, callback) b.subscribers;
    },
  )

  unfoldable pub unsubscribe : ℕ → EventBus R C → EventBus R C
  unsubscribe id b = record b { subscribers = erase id b.subscribers }

  unfoldable pub publish : LiveMessage R → EventBus R C → EventBus R C
  publish m b = record b { pending = m ∷ b.pending }

  unfoldable pub drain_pending : EventBus R C → EventBus R C
  drain_pending b = record b { queue = b.queue ++ b.pending; pending = [] }

  -- `running_.exchange`
  abbrev pub set_running : Bool → EventBus R C → EventBus R C
  set_running running b = record b { running = running }

  unfoldable pub take_front : List (LiveMessage R) → EventBus R C → Turn R C
  unfolding callbacks_for
  take_front [] b = if b.running then waits else breaks b
  take_front (m ∷ queue) b =
      calls m (callbacks_for m.topic (values b.subscribers)) (record b { queue = queue })

  -- A turn of the loop, from the wait on.
  unfoldable pub dispatch_turn : EventBus R C → Turn R C
  unfolding take_front drain_pending
  dispatch_turn b = take_front (drain_pending b).queue (drain_pending b)

  -- What `dispatch_loop` does while nothing else happens, in `k` turns at most: the messages, each with the
  -- callbacks that get it. Nothing is left to wait for once a turn would wait.
  unfoldable pub dispatch_loop : ℕ → EventBus R C → List (LiveMessage R × List C)
  unfolding dispatch_turn
  dispatch_loop zero b = []
  dispatch_loop (suc k) b = elim b.running [
    | false ↦ []
    | true ↦ elim (dispatch_turn b) [
      | Turn.waits ↦ []
      | Turn.breaks _ ↦ []
      | Turn.calls m callbacks b' ↦ (m, callbacks) ∷ dispatch_loop k b'
    ]
  ]
