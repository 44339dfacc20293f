-- ===== src/Engine/OrderManager/Open.antt =====
-- Which orders are open (`is_open_status` of src/engine/order_manager.cpp).
use regime_flow.Engine.OrderManager.Validation.{is_open_status}
use regime_flow.Engine.Order.{OrderStatus}
use regime_flow.Base.{◌⊎◌, ◌≡◌, inl, inr, refl, true, false}

-- An open order has been created, or is pending, or has been filled in part.
abbrev pub IsOpen : OrderStatus → Type 0
IsOpen s =
    (s ≡ OrderStatus.created) ⊎ (s ≡ OrderStatus.pending) ⊎ (s ≡ OrderStatus.partially_filled)

pub is_open_status-IsOpen : (s : OrderStatus) → is_open_status s ≡ true → IsOpen s
unfolding is_open_status
is_open_status-IsOpen OrderStatus.created h = inl refl
is_open_status-IsOpen OrderStatus.pending h = inr (inl refl)
is_open_status-IsOpen OrderStatus.partially_filled h = inr (inr refl)
is_open_status-IsOpen OrderStatus.filled h = cc
is_open_status-IsOpen OrderStatus.cancelled h = cc
is_open_status-IsOpen OrderStatus.rejected h = cc
is_open_status-IsOpen OrderStatus.invalid h = cc

pub is_open_status-not_IsOpen : (s : OrderStatus) → is_open_status s ≡ false → ¬ IsOpen s
unfolding is_open_status
is_open_status-not_IsOpen s h (inl e) = cc (rw e at h)
is_open_status-not_IsOpen s h (inr (inl e)) = cc (rw e at h)
is_open_status-not_IsOpen s h (inr (inr e)) = cc (rw e at h)
