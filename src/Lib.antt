-- ===== src/Lib.antt =====
-- A model of the core of RegimeFlow, and what it does: orders and events, the portfolio and its risk limits,
-- market data, and the messages of live trading.
--
-- The order manager (include/regimeflow/engine/order_manager.h, src/engine/order_manager.cpp) keeps the
-- orders of a backtest and their fills, routes an order into children and follows the children's ends. The
-- event queue (include/regimeflow/events/event_queue.h) takes events from many threads and gives them to one
-- consumer in order; the dispatcher (include/regimeflow/events/dispatcher.h) hands each to the handler of its
-- type. In live trading LiveOrderManager (src/live/live_order_manager.cpp) sends orders to a broker adapter and
-- follows the reports that come back; its state is apart from the backtest's order manager. Fills change the
-- portfolio (src/engine/portfolio.cpp), which the risk limits (src/risk/risk_limits.cpp) look at before an order is
-- sent; the stop losses (src/risk/stop_loss.cpp) watch prices and send orders that close a position, which no limit
-- stops. Market regimes are followed by a state manager (src/regime/state_manager.cpp). Timers
-- (src/engine/timer_service.cpp) put their events on the event queue. Market data is merged (src/data/merged_iterator.cpp) and made into bars (src/data/bar_builder.cpp). Live
-- messages go over a bus (src/live/event_bus.cpp) and, as lines of text, over a message queue
-- (src/live/mq_codec.cpp). src/common has the hash, the parser of JSON texts and the registry of symbols,
-- and include/regimeflow/common the two lock-free queues that the live engine has between its threads.
--
-- Files and the code they model:
--   Result.antt: include/regimeflow/common/result.h, errors as values.
--   Engine/Order.antt: include/regimeflow/engine/order.h and order_routing.h, src/engine/order.cpp.
--   Engine/OrderManager/State.antt: the fields of OrderManager as a record `Manager`, with the callbacks'
--     calls recorded in a log. Routing: handle_child_terminal, handle_child_fill and
--     finalize_parent_if_complete. Validation: validate_order. Status: update_order_status,
--     submit_order_internal and submit_child_order. Operations: the other public methods that
--     change state. Queries: those that do not. The other files beside them are proofs.
--   Engine/EventLoop.antt: src/engine/event_loop.cpp.
--   Engine/TimerService.antt: src/engine/timer_service.cpp; Firing and Lag are proofs.
--   Events/Event.antt: include/regimeflow/events/event.h and dispatcher.h.
--   Events/Queue.antt: the event queue. Events/Queue/Threads.antt: its interleavings, as a step relation.
--   Live/Order.antt: the live order and its status machine (is_valid_transition, update_order_state).
--   Live/OrderManager/State.antt: the fields of LiveOrderManager, and the broker adapter as functions on a
--     state of its own. Draft and Submission: submit_order. Operations: cancelling, changing and
--     reading. Reports: handle_execution_report, reconcile_with_broker, restore_order. The other
--     files beside them are proofs.
--   Live/Message.antt: the messages (include/regimeflow/live/event_bus.h and types.h). Live/EventBus.antt: the bus;
--     Live/EventBus/Kept.antt: its threads, as a step relation. Live/Codec: encode and decode.
--   Engine/Portfolio.antt: the state and the values computed from it. Engine/Portfolio/Updates and Accounts: the
--     methods that change it.
--   Risk/Limits.antt: the limits. Risk/Manager.antt: RiskManager. Holdings: the checks
--     of a whole portfolio. Decision and Exposure are proofs.
--   Risk/StopLoss.antt: the stops of src/risk/stop_loss.cpp and what a position does to them. Risk/StopLoss/Price: what
--     prices do, and the exit orders. Exits and Once are proofs.
--   Regime/StateManager.antt: src/regime/state_manager.cpp. Regime/StateManager/Statistics: what it works out
--     from the transitions. Newest, History and Matrix are proofs.
--   Data/Merged.antt: the merged iterators and the vector iterators of src/data/memory_data_source.cpp, each with
--     its own comparison. Order says what the two comparisons mean.
--   Data/Bars.antt: BarBuilder and MultiSymbolBarBuilder.
--   Common/Sha256.antt and Common/Sha256/Compress.antt: src/common/sha256.cpp.
--   Common/SpscQueue.antt and Common/MpscQueue.antt: include/regimeflow/common/spsc_queue.h and mpsc_queue.h. Their
--     Threads: the steps of the threads. The other files there are proofs.
--   Common/Json.antt: the values of include/regimeflow/common/json.h. Common/Json/Strings and Values: the parser of
--     src/common/json.cpp. The other files there are proofs; Written says how a value is written, which no code does.
--   Common/Symbols.antt: the symbol registry of src/common/types.cpp.
--   Base: lists, integers, maps, machine words and permutations that the parts share.
--
-- The atomic operations of the lock-free queues are taken one after another. Of the linked queue the nodes stand
-- under numbers, and what would reach for a deleted node has no result.
--
-- A method takes the state and gives a result and the new state. A mutex that a method holds makes it one
-- step. What is locked and unlocked between two callbacks is still one step, so that a callback that calls
-- back into its object is not modelled. Maps are association lists, since the order in which an
-- unordered_map is gone through is open: here it is the order of first insertion. Identifiers and counters
-- wrap round at 64 bits. A double is a value of a type with the operations that the code uses and no law
-- about them (Base/Double.antt); its instance for tests is the integers. What a theorem needs of the order of
-- doubles is a hypothesis of it. The library's number formats and the broker are arguments, and so are the names of
-- symbols in the live order manager. Events carry data of an abstract type.
--
-- Fuel: update_order_status and submit_child_order call each other, once for each child that is handed
-- out. A call takes a pending child out of the state for good, so that the number of pending children, with
-- a margin of two or three for the call itself, is enough; this is proved, and not assumed. The event loop has as
-- much fuel as one turn for each event that is in the queue and one more; that this is enough is proved for handlers
-- that push nothing in a circle.
--
-- The JSON parser has four units of fuel for each byte of the text and one more, since each of its calls that calls
-- another leaves less text or is one of four in a row.
--
-- The loop of the hash's update has a turn for each byte at most; a merged iterator is taken to its end in as many
-- calls as there are items, and a bus in as many turns as there are messages.
--
-- Not modelled: the backtest engine, execution and slippage models, the router's own choice of venues,
-- data files and feeds, configuration, the models that detect regimes, position sizes, the risk limits on sectors, industries and correlations,
-- metrics, the execution-quality tracker (its calls are logged), broker protocols and
-- the bindings.
pub mod Base
pub mod Result
pub mod Common
pub mod Events
pub mod Engine
pub mod Live
pub mod Regime
pub mod Risk
pub mod Data
