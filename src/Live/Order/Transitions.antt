-- ===== src/Live/Order/Transitions.antt =====
-- The life of a live order under the reports that come in (src/live/live_order_manager.cpp).
use regime_flow.Base.{not, ◌&&◌, ◌||◌, ◌∙◌, Bool, refl, inl, arith, ◌⊎◌, ◌∷◌, ◌≡◌, List, [], true}
use regime_flow.Live.Order.{
  same_status, is_listed, Double, accept_report, LiveOrder, LiveOrderStatus, ExecutionReport,
  is_valid_transition, is_terminal_status, update_order_state,
}

module _ (num : Double) where
  open num use {Real}

  -- The order after a run of reports.
  unfoldable pub reports : List (ExecutionReport Real) → LiveOrder Real → LiveOrder Real
  reports [] o = o
  reports (r ∷ rs) o = reports rs (update_order_state num r o)

  -- `to` is `from` again or an error.
  abbrev pub IsKept : LiveOrderStatus → LiveOrderStatus → Type 0
  IsKept from to = (to ≡ from) ⊎ (to ≡ LiveOrderStatus.error)

  accept_report-status :
      (r : ExecutionReport Real) (o : LiveOrder Real) → (accept_report num r o).status ≡ r.status
  unfolding accept_report
  accept_report-status r o = ground arith

  update-IsKept :
      (r : ExecutionReport Real) (o : LiveOrder Real)
      → is_terminal_status o.status ≡ true
      → IsKept o.status (update_order_state num r o).status
  unfolding update_order_state is_terminal_status is_valid_transition
  update-IsKept r o h = ground (arith, accept_report-status r o)

  IsKept-trans : (s t u : LiveOrderStatus) → IsKept s t → IsKept t u → IsKept s u
  IsKept-trans s t u h k = grind arith

  kept-terminal :
      (s t : LiveOrderStatus)
      → is_terminal_status s ≡ true
      → IsKept s t
      → is_terminal_status t ≡ true
  unfolding is_terminal_status
  kept-terminal s t h k = grind arith

  -- However many reports come in, and in whatever order, a live order whose status is terminal keeps it or
  -- gets the status of an error.
  pub reports-IsKept :
      (rs : List (ExecutionReport Real)) (o : LiveOrder Real)
      → is_terminal_status o.status ≡ true
      → IsKept o.status (reports rs o).status
  unfolding reports
  reports-IsKept [] o h = inl refl
  reports-IsKept (r ∷ rs) o h =
      let o' = update_order_state num r o in
      let k = update-IsKept r o h in
      IsKept-trans o.status o'.status (reports rs o').status k
        (reports-IsKept rs o' (kept-terminal o.status o'.status h k))

  -- The cancellation of the order is asked for, or the order has ended otherwise than by its last fill.
  abbrev pub is_closing : LiveOrderStatus → Bool
  is_closing s =
      same_status s LiveOrderStatus.pending_cancel
      || is_terminal_status s && not (same_status s LiveOrderStatus.filled)

  abbrev pub IsUnfilled : LiveOrder Real → LiveOrder Real → Type 0
  IsUnfilled o o' =
      (is_closing o'.status ≡ true)
      × (o'.filled_quantity ≡ o.filled_quantity)
      × (o'.avg_fill_price ≡ o.avg_fill_price)

  update-IsUnfilled :
      (r : ExecutionReport Real) (o : LiveOrder Real)
      → is_closing o.status ≡ true
      → IsUnfilled o (update_order_state num r o)
  unfolding update_order_state is_terminal_status is_valid_transition is_listed accept_report
  update-IsUnfilled r o h = ground arith

  -- Once the cancellation of a live order is asked for, and once it has ended otherwise than by its last
  -- fill, no run of reports fills it any further: what is filled and the average price stay.
  pub reports-IsUnfilled :
      (rs : List (ExecutionReport Real)) (o : LiveOrder Real)
      → is_closing o.status ≡ true
      → IsUnfilled o (reports rs o)
  unfolding reports
  reports-IsUnfilled [] o h = (h, refl, refl)
  reports-IsUnfilled (r ∷ rs) o h =
      let u = update-IsUnfilled r o h in
      let v = reports-IsUnfilled rs (update_order_state num r o) u.0 in (v.0, v.1 ∙ u.1, v.2 ∙ u.2)
