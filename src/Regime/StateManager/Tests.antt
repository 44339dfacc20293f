-- ===== src/Regime/StateManager/Tests.antt =====
-- Runs of the regime manager (state_manager.cpp), in whole numbers.
use regime_flow.Base.{arith, ◌≡◌, drop, ◌*◌, List, ℕ, suc, refl, ◌∷◌, []}
use regime_flow.Base.Double.{whole}
use regime_flow.Base.Int.{◌+ℤ◌, ◌-ℤ◌, quot_ℤ, ℤ, pos}
use regime_flow.Regime.StateManager.{
  to_index, RegimeType, RegimeState, RegimeTransition, RegimeStateManager, update, new_manager,
}
use regime_flow.Regime.StateManager.Statistics.{
  empirical_transition_matrix, regime_frequencies, avg_regime_duration,
}
use regime_flow.Regime.StateManager.Matrix.{entry, empirical_transition_matrix-entry}
use regime_flow.Regime.StateManager.History.{
  updates, changes_from, last_state, call_all, IsHistory, updates-IsHistory,
}

abbrev seen_at : RegimeType → ℕ → RegimeState ℤ
seen_at regime seconds = record {
  regime = regime;
  confidence = pos 1;
  probabilities = [];
  probabilities_all = [];
  state_count = 4;
  timestamp = pos (1000000 * seconds);
}

abbrev count_calls : List (RegimeTransition ℤ → ℕ → ℕ)
count_calls = (λ _ n. suc n) ∷ []

abbrev four_states : List (RegimeState ℤ)
four_states =
    seen_at RegimeType.bull 10
    ∷ seen_at RegimeType.bear 30
    ∷ seen_at RegimeType.bear 50
    ∷ seen_at RegimeType.crisis 60
    ∷ []

abbrev after_four : RegimeStateManager ℤ ℕ × ℕ
unfolding new_manager update quot_ℤ ◌-ℤ◌ drop
after_four =
    updates whole (λ n. n) (seen_at RegimeType.bull 0 ∷ four_states)
      (record (new_manager whole 1) { callbacks = count_calls }) 0

-- The bear regime lasted from 30 to 60; what is on record is the time since the state at 50.
bear_lasts :
    after_four.0.transition_history
    ≡ record {
      source = RegimeType.bear;
      target = RegimeType.crisis;
      timestamp = pos 60000000;
      confidence = pos 1;
      duration_in_from = pos 10;
    }
      ∷ []
unfolding new_manager update quot_ℤ ◌-ℤ◌ drop
bear_lasts = refl

calls_two : after_four.1 ≡ 2
unfolding new_manager update quot_ℤ ◌-ℤ◌ drop
calls_two = refl

frequencies : regime_frequencies whole after_four.0 ≡ (2, pos 0) ∷ (3, pos 0) ∷ []
unfolding new_manager update quot_ℤ ◌-ℤ◌ drop regime_frequencies ◌+ℤ◌
frequencies = refl

crisis_lasts :
    avg_regime_duration whole (λ n. n) RegimeType.crisis (pos 90000000) after_four.0 ≡ pos 30
unfolding new_manager update quot_ℤ ◌-ℤ◌ drop avg_regime_duration ◌+ℤ◌
crisis_lasts = refl

updates-IsHistory_example :
    IsHistory whole
      (λ n. n)
      1
      count_calls
      (changes_from whole (λ n. n) (seen_at RegimeType.bull 0) four_states)
      (last_state whole (λ n. n) (seen_at RegimeType.bull 0) four_states)
      (call_all whole
        (λ n. n)
        count_calls
        (changes_from whole (λ n. n) (seen_at RegimeType.bull 0) four_states)
        0)
      (updates whole
        (λ n. n)
        (seen_at RegimeType.bull 0 ∷ four_states)
        (record (new_manager whole 1) { callbacks = count_calls })
        0)
updates-IsHistory_example =
    updates-IsHistory whole (λ n. n) 1 count_calls 0 (seen_at RegimeType.bull 0) four_states

abbrev some_transitions : RegimeStateManager ℤ ℕ
unfolding new_manager
some_transitions = record (new_manager whole 256) {
  transition_history =
      record {
        source = RegimeType.bear;
        target = RegimeType.crisis;
        timestamp = pos 60;
        confidence = pos 1;
        duration_in_from = pos 10;
      }
      ∷ [];
}

-- From bear the one transition on record goes to crisis.
empirical_transition_matrix-entry_example :
    entry whole 2 3 (empirical_transition_matrix whole some_transitions) ≡ pos 1
unfolding new_manager ◌+ℤ◌ to_index quot_ℤ
empirical_transition_matrix-entry_example =
    empirical_transition_matrix-entry whole some_transitions 2 3 (omega arith) (omega arith)
