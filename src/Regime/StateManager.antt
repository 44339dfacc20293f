-- ===== src/Regime/StateManager.antt =====
-- src/regime/state_manager.cpp, include/regimeflow/regime/state_manager.h and the types of types.h there.
--
-- Doubles are in `num`, and `cast` makes one of an integer. What the callbacks change is of a type `W`; the
-- present time, which `Timestamp::now` gives, is an argument.
pub mod Statistics
pub mod Newest
pub mod History
pub mod Matrix
mod Tests
use regime_flow.Base.{
  ◌-◌, ◌||◌, drop, ◌&&◌, is_empty, not, replicate, length, ltb, ◌==◌, if◌then◌else◌, Option, ◌++◌,
  List, Bool, ℕ, false, true, some, none, ◌∷◌, [],
}
use regime_flow.Base.Double.{Double}
use regime_flow.Base.Int.{ℤ, pos, ◌-ℤ◌, quot_ℤ}

pub data RegimeType : Type 0 where
  bull neutral bear crisis custom : RegimeType

-- The numbers of the enumeration.
unfoldable pub code : RegimeType → ℕ
code RegimeType.bull = 0
code RegimeType.neutral = 1
code RegimeType.bear = 2
code RegimeType.crisis = 3
code RegimeType.custom = 255

unfoldable pub same_regime : RegimeType → RegimeType → Bool
unfolding code
same_regime a b = code a == code b

pub record RegimeState (R : Type 0) : Type 0 where
  pub regime : RegimeType
  pub confidence : R
  pub probabilities : List R
  pub probabilities_all : List R
  pub state_count : ℕ
  pub timestamp : ℤ

pub record RegimeTransition (R : Type 0) : Type 0 where
  pub source : RegimeType
  pub target : RegimeType
  pub timestamp : ℤ
  pub confidence : R
  pub duration_in_from : R

pub record RegimeStateManager (R W : Type 0) : Type 0 where
  pub current_state : RegimeState R
  pub has_state : Bool
  pub history_size : ℕ
  pub transition_history : List (RegimeTransition R)
  pub callbacks : List (RegimeTransition R → W → W)

unfoldable pub to_index : RegimeType → ℕ
to_index RegimeType.bull = 0
to_index RegimeType.neutral = 1
to_index RegimeType.bear = 2
to_index _ = 3

-- `total_seconds` of the time from `earlier` on.
unfoldable pub seconds_between : ℤ → ℤ → ℤ
seconds_between later earlier = quot_ℤ (later -ℤ earlier) (pos 1000000)

module _ {R W : Type 0} where
  unfoldable pub record_transition :
      RegimeTransition R → RegimeStateManager R W → RegimeStateManager R W
  record_transition t m =
      let history = m.transition_history ++ t ∷ [] in
      record m {
        transition_history =
            if ltb 0 m.history_size && ltb m.history_size (length history)
            then drop 1 history
            else history;
      }

  unfoldable pub run_callbacks : List (RegimeTransition R → W → W) → RegimeTransition R → W → W
  run_callbacks [] t w = w
  run_callbacks (callback ∷ cs) t w = run_callbacks cs t (callback t w)

  -- A callback that is not empty.
  unfoldable pub register_transition_callback :
      Option (RegimeTransition R → W → W) → RegimeStateManager R W → RegimeStateManager R W
  register_transition_callback none m = m
  register_transition_callback (some callback) m = record m {
    callbacks = m.callbacks ++ callback ∷ [];
  }

  unfoldable pub current_regime : RegimeStateManager R W → RegimeType
  current_regime m = m.current_state.regime

  unfoldable pub recent_transitions : ℕ → RegimeStateManager R W → List (RegimeTransition R)
  recent_transitions n m =
      let size = length m.transition_history in
      if (n == 0) || is_empty m.transition_history
      then []
      else drop (if ltb n size then size - n else 0) m.transition_history

module _ (num : Double) {W : Type 0} where
  open num use {Real, nil}

  unfoldable pub new_manager : ℕ → RegimeStateManager Real W
  new_manager history_size = record {
    current_state = record {
      regime = RegimeType.neutral;
      confidence = nil;
      probabilities = replicate 4 nil;
      probabilities_all = [];
      state_count = 0;
      timestamp = pos 0;
    };
    has_state = false;
    history_size = history_size;
    transition_history = [];
    callbacks = [];
  }

module _ (num : Double) (cast : ℤ → num.Real) where
  open num use {Real, nil}

  unfoldable pub transition_to : RegimeState Real → RegimeState Real → RegimeTransition Real
  unfolding seconds_between
  transition_to current state = record {
    source = current.regime;
    target = state.regime;
    timestamp = state.timestamp;
    confidence = state.confidence;
    duration_in_from = cast (seconds_between state.timestamp current.timestamp);
  }

module _ (num : Double) (cast : ℤ → num.Real) {W : Type 0} where
  open num use {Real, nil}

  unfoldable pub update :
      RegimeState Real → RegimeStateManager Real W → W → RegimeStateManager Real W × W
  unfolding same_regime transition_to record_transition run_callbacks
  update state m w =
      if not m.has_state
      then (record m { current_state = state; has_state = true }, w)
      else if same_regime state.regime m.current_state.regime
      then (record m { current_state = state }, w)
      else let t = transition_to num cast m.current_state state in
        (
          record (record_transition t m) { current_state = state },
          run_callbacks (record_transition t m).callbacks t w,
        )

  unfoldable pub time_in_current_regime : ℤ → RegimeStateManager Real W → Real
  unfolding seconds_between
  time_in_current_regime now m =
      if not m.has_state then nil else cast (seconds_between now m.current_state.timestamp)
