-- ===== src/Engine/OrderManager/Modification.antt =====
-- `modify_order` of src/engine/order_manager.cpp, on every branch.
use regime_flow.Engine.OrderManager.Open.{IsOpen, is_open_status-IsOpen, is_open_status-not_IsOpen}
use regime_flow.Engine.OrderManager.Validation.{validate_order, is_open_status}
use regime_flow.Base.Table.{insert, lookup}
use regime_flow.Engine.Order.{Order}
use regime_flow.Engine.OrderManager.State.{order_update, Manager}
use regime_flow.Engine.OrderManager.Operations.{
  apply_modification, modify_order, modify_found, modify_checked, OrderModification,
}
use regime_flow.Base.Int.{ℤ}
use regime_flow.Base.Double.{Double}
use regime_flow.Result.{ErrorCode, fail, Void, Result, err, ok}
use regime_flow.Base.{
  value_or, is_some, if◌then◌else◌, ◌⊎◌, ◌≡◌, ◌++◌, map, Bool-cases, Option, ℕ, suc, refl, inr, inl,
  some, none,
}

-- A field is set to what a change asks for, and stays if it asks for nothing.
abbrev pub Sets {ℓ} : {A : Type ℓ} → Option A → A → A → Type ℓ
Sets none old new = new ≡ old
Sets (some v) old new = new ≡ v

abbrev pub SetsDate : Option ℤ → Option ℤ → Option ℤ → Type 0
SetsDate none old new = new ≡ old
SetsDate (some t) old new = new ≡ some t

apply-Sets : {A : Type 0} (x : Option A) (old new : A) → new ≡ value_or x old → Sets x old new
apply-Sets none old new e = e
apply-Sets (some v) old new e = e

apply-SetsDate : (x old : Option ℤ) → SetsDate x old (if is_some x then x else old)
apply-SetsDate none old = refl
apply-SetsDate (some t) old = refl

module _ {R : Type 0} where
  -- `new` is `old` with the fields changed that the modification asks for, and those only.
  pub record Changes (change : OrderModification R) (old new : Order R) : Type 0 where
    pub quantity : Sets change.quantity old.quantity new.quantity
    pub limit_price : Sets change.limit_price old.limit_price new.limit_price
    pub stop_price : Sets change.stop_price old.stop_price new.stop_price
    pub tif : Sets change.tif old.tif new.tif
    pub expire_at : SetsDate change.expire_at old.expire_at new.expire_at
    pub others_kept : old ≡ record new {
      quantity = old.quantity;
      limit_price = old.limit_price;
      stop_price = old.stop_price;
      tif = old.tif;
      expire_at = old.expire_at;
    }

  apply_modification-Changes :
      (change : OrderModification R) (o : Order R) → Changes change o (apply_modification change o)
  unfolding apply_modification
  apply_modification-Changes change o = record {
    quantity = apply-Sets change.quantity o.quantity (value_or change.quantity o.quantity) refl;
    limit_price =
        apply-Sets change.limit_price o.limit_price (value_or change.limit_price o.limit_price)
          refl;
    stop_price =
        apply-Sets change.stop_price o.stop_price (value_or change.stop_price o.stop_price) refl;
    tif = apply-Sets change.tif o.tif (value_or change.tif o.tif) refl;
    expire_at = apply-SetsDate change.expire_at o.expire_at;
    others_kept = refl;
  }

module _ (num : Double) (clock : ℕ → ℤ) where
  open num use {Real}

  -- The order with the time of its change.
  abbrev pub stamped_copy : Order Real → Manager Real → Order Real
  stamped_copy o m = record o { updated_at = clock m.clock_reads }

  -- How a change to `o'` ends, by what its validation says.
  abbrev pub Decided :
      ℕ → Manager Real → Order Real → Result Void → Option (Result Void) × Manager Real → Type 0
  Decided id m o' (err e) (r, n) =
      (r ≡ some (err e)) × (n ≡ record m { orders = insert id o' m.orders })
  Decided id m o' (ok _) (r, n) =
      (r ≡ some (ok tt))
      × (n ≡ record m {
        orders = insert id (stamped_copy o' m) m.orders;
        clock_reads = suc m.clock_reads;
        log = m.log ++ map (λ cb. order_update cb (stamped_copy o' m)) m.order_callbacks;
      })

  -- What a change of `id` does, by the order that is stored under it.
  abbrev pub Modifies :
      ℕ
      → OrderModification Real
      → Manager Real
      → Option (Order Real)
      → Option (Result Void) × Manager Real
      → Type 0
  Modifies id change m none (r, n) =
      (r ≡ some (fail ErrorCode.not_found "Order not found")) × (n ≡ m)
  Modifies id change m (some o) (r, n) =
      ((¬ IsOpen o.status) × (r ≡ some (fail ErrorCode.invalid_state "Order not open")) × (n ≡ m))
      ⊎ (IsOpen o.status
          × ((o' : Order Real) × Changes change o o'
              × Decided id m o' (validate_order num o') (r, n)))

  modify_checked-Decided :
      (id : ℕ) (m : Manager Real) (o' : Order Real) (v : Result Void)
      → Decided id m o' v (modify_checked num clock id o' v m)
  unfolding modify_checked
  modify_checked-Decided id m o' (err e) = (refl, refl)
  modify_checked-Decided id m o' (ok _) = (refl, refl)

  modify_found-Modifies :
      (id : ℕ) (change : OrderModification Real) (m : Manager Real) (o : Option (Order Real))
      → Modifies id change m o (modify_found num clock id change o m)
  unfolding modify_found
  modify_found-Modifies id change m none = (refl, refl)
  modify_found-Modifies id change m (some o) =
      let o' = apply_modification change o in
      elim (Bool-cases (is_open_status o.status)) [
        | inl h ↦
            rw (h, modify_found)
              (inr (
                is_open_status-IsOpen o.status h,
                (
                  o',
                  apply_modification-Changes change o,
                  modify_checked-Decided id m o' (validate_order num o'),
                ),
              ))
        | inr h ↦ rw (h, modify_found) (inl (is_open_status-not_IsOpen o.status h, refl, refl))
      ]

  -- A change of an order that is unknown, or neither created, pending nor filled in part, fails and changes
  -- nothing. In any other order the fields that the change asks for are set, and no others. If the validation
  -- passes, the order is stored with the next reading of the clock as the time of its change, and each callback
  -- is told; if not, its error is returned and the changed order stays in the store all the same, with no
  -- callback told. Nothing else happens.
  pub modify_order-Modifies :
      (id : ℕ) (change : OrderModification Real) (m : Manager Real)
      → Modifies id change m (lookup id m.orders) (modify_order num clock id change m)
  unfolding modify_order
  modify_order-Modifies id change m = modify_found-Modifies id change m (lookup id m.orders)
