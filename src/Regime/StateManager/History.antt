-- ===== src/Regime/StateManager/History.antt =====
-- The transitions on record after any sequence of updates (state_manager.cpp).
use mathlib.Core.List.{append_assoc, append-nil}
use mathlib.Core.Logic.{ite, if_pos, if_neg}
use regime_flow.Base.{sym, ap, ◌≢◌, fold, ◌++◌, ◌∙◌, List, ℕ, ◌≡◌, refl, true, ◌∷◌, []}
use regime_flow.Base.Double.{Double}
use regime_flow.Base.Int.{ℤ, pos, ◌-ℤ◌, quot_ℤ}
use regime_flow.Regime.StateManager.{
  new_manager, RegimeState, RegimeTransition, RegimeStateManager, same_regime, update,
  record_transition, run_callbacks, transition_to, seconds_between,
}
use regime_flow.Regime.StateManager.Newest.{
  RegimeType-discrete, newest, newest_snoc, newest_nil, not_same, same_regime_self,
}

module _ (num : Double) (cast : ℤ → num.Real) where
  open num use {Real}

  -- Where the regimes of successive states differ.
  abbrev pub changes_from :
      RegimeState Real → List (RegimeState Real) → List (RegimeTransition Real)
  changes_from s [] = []
  changes_from s (t ∷ ts) = ite (RegimeType-discrete s.regime t.regime) (changes_from t ts) (
      record {
        source = s.regime;
        target = t.regime;
        timestamp = t.timestamp;
        confidence = t.confidence;
        duration_in_from = cast (quot_ℤ (t.timestamp -ℤ s.timestamp) (pos 1000000));
      }
      ∷ changes_from t ts)

  abbrev pub last_state : RegimeState Real → List (RegimeState Real) → RegimeState Real
  last_state s [] = s
  last_state s (t ∷ ts) = last_state t ts

module _ (num : Double) (cast : ℤ → num.Real) {W : Type 0} where
  open num use {Real}

  abbrev pub updates :
      List (RegimeState Real) → RegimeStateManager Real W → W → RegimeStateManager Real W × W
  updates [] m w = (m, w)
  updates (s ∷ ss) m w = let (m', w') = update num cast s m w in updates ss m' w'

  -- The manager has seen the transitions `past`, and `m.current_state` last.
  record Has (size : ℕ) (callbacks : List (RegimeTransition Real → W → W))
      (past : List (RegimeTransition Real)) (m : RegimeStateManager Real W) : Type 0 where
    seen : m.has_state ≡ true
    size_same : m.history_size ≡ size
    callbacks_same : m.callbacks ≡ callbacks
    history : m.transition_history ≡ newest size past

  abbrev pub call_all : List (RegimeTransition Real → W → W) → List (RegimeTransition Real) → W → W
  call_all callbacks ts w = fold (λ w t. fold (λ v callback. callback t v) w callbacks) w ts

  run_callbacks-fold :
      (cs : List (RegimeTransition Real → W → W)) (t : RegimeTransition Real) (w : W)
      → run_callbacks cs t w ≡ fold (λ v callback. callback t v) w cs
  unfolding run_callbacks
  run_callbacks-fold [] t w = refl
  run_callbacks-fold (c ∷ cs) t w = run_callbacks-fold cs t (c t w)

  record_transition-Has :
      (size : ℕ) (cs : List (RegimeTransition Real → W → W)) (past : List (RegimeTransition Real))
      (m : RegimeStateManager Real W) (t : RegimeTransition Real)
      → Has size cs past m
      → Has size cs (past ++ t ∷ []) (record_transition t m)
  unfolding record_transition
  record_transition-Has size cs past m t h = record {
    seen = h.seen;
    size_same = h.size_same;
    callbacks_same = h.callbacks_same;
    history = rw (h.history, h.size_same) (newest_snoc size past t);
  }

  update_same :
      (m : RegimeStateManager Real W) (w : W) (s : RegimeState Real)
      → m.has_state ≡ true
      → m.current_state.regime ≡ s.regime
      → update num cast s m w ≡ (record m { current_state = s }, w)
  unfolding update
  update_same m w s h e =
      let same : same_regime s.regime m.current_state.regime ≡ true =
        rw e (same_regime_self s.regime) in
      rw (h, same)

  update_change :
      (m : RegimeStateManager Real W) (w : W) (s : RegimeState Real)
      → m.has_state ≡ true
      → m.current_state.regime ≢ s.regime
      → update num cast s m w ≡ (
          let t = transition_to num cast m.current_state s in
          (
            record (record_transition t m) { current_state = s },
            run_callbacks (record_transition t m).callbacks t w,
          ))
  unfolding update
  update_change m w s h ne = rw (h, not_same s.regime m.current_state.regime ne)

  -- What `m` has become after the updates.
  pub record IsHistory (size : ℕ) (callbacks : List (RegimeTransition Real → W → W))
      (past : List (RegimeTransition Real)) (current : RegimeState Real) (w : W)
      (after : RegimeStateManager Real W × W) : Type 0 where
    pub history : after.0.transition_history ≡ newest size past
    pub current_lem : after.0.current_state ≡ current
    pub told : after.1 ≡ w

  updates-IsHistory_from :
      (size : ℕ) (cs : List (RegimeTransition Real → W → W)) (past : List (RegimeTransition Real))
      (m : RegimeStateManager Real W) (w : W) (ss : List (RegimeState Real))
      → Has size cs past m
      → let ts = changes_from num cast m.current_state ss in
        IsHistory size cs
          (past ++ ts)
          (last_state num cast m.current_state ss)
          (call_all cs ts w)
          (updates ss m w)
  unfolding transition_to seconds_between
  updates-IsHistory_from size cs past m w [] h = record {
    history = h.history ∙ ap (newest size) (sym (append-nil past));
    current_lem = refl;
    told = refl;
  }
  updates-IsHistory_from size cs past m w (s ∷ ss) h =
      elim (RegimeType-discrete m.current_state.regime s.regime) [
        | yes e ↦
            rw
              (
                update_same m w s h.seen e,
                if_pos (RegimeType-discrete m.current_state.regime s.regime) e,
              )
              (updates-IsHistory_from size cs past (record m { current_state = s }) w ss
                (record {
                  seen = h.seen;
                  size_same = h.size_same;
                  callbacks_same = h.callbacks_same;
                  history = h.history;
                }))
        | no ne ↦
            let t = transition_to num cast m.current_state s in
            let k = record_transition-Has size cs past m t h in
            rw
              (
                update_change m w s h.seen ne,
                if_neg (RegimeType-discrete m.current_state.regime s.regime) ne,
              )
              (let r =
                  updates-IsHistory_from size cs (past ++ t ∷ [])
                    (record (record_transition t m) { current_state = s })
                    (run_callbacks (record_transition t m).callbacks t w) ss
                    (record {
                      seen = k.seen;
                      size_same = k.size_same;
                      callbacks_same = k.callbacks_same;
                      history = k.history;
                    }) in
                let ts = changes_from num cast s ss in
                record {
                  history = r.history ∙ ap (newest size) (append_assoc past (t ∷ []) ts);
                  current_lem = r.current_lem;
                  told =
                      r.told
                      ∙ ap (call_all cs ts) (
                          ap (λ (c : List (RegimeTransition Real → W → W)). run_callbacks c t w)
                            k.callbacks_same
                          ∙ run_callbacks-fold cs t w);
                })
      ]

  -- From a new manager with any callbacks, after any updates of which `s` is the first: the state is the
  -- last of them; on record are the places where the regimes of successive states differ, the newest
  -- `size` or all when `size` is zero, each with the time since the state just before it; and the callbacks
  -- were all called with each of these places, in order.
  pub updates-IsHistory :
      (size : ℕ) (cs : List (RegimeTransition Real → W → W)) (w : W) (s : RegimeState Real)
      (ss : List (RegimeState Real))
      → IsHistory size cs
          (changes_from num cast s ss)
          (last_state num cast s ss)
          (call_all cs (changes_from num cast s ss) w)
          (updates (s ∷ ss) (record (new_manager num size) { callbacks = cs }) w)
  unfolding new_manager update
  updates-IsHistory size cs w s ss =
      updates-IsHistory_from size cs []
        (record (new_manager num size) { callbacks = cs; current_state = s; has_state = true }) w ss
        (record { seen = refl; size_same = refl; callbacks_same = refl; history = newest_nil size })
