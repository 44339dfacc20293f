-- ===== src/Live/OrderManager/Numbers.antt =====
-- The identifiers that src/live/live_order_manager.cpp gives to orders: `next_order_id_` stays above all
-- that are in use, so that an identifier it gives is new.
use regime_flow.Base.Double.{Double}
use regime_flow.Base.{◌∷◌, [], arith, Option, ◌≡◌, ◌≤◌, All, ◌<◌, ℕ, [], refl, some, none}
use regime_flow.Live.Order.{LiveOrder, ExecutionReport, update_order_state, accept_report}
use regime_flow.Live.OrderManager.Reports.{update_first, keep_entry}
use regime_flow.Base.Table.{Table, insert, lookup}

module _ {R : Type 0} where
  -- Stored under its own identifier, which is below `n`.
  abbrev pub IsBelow : ℕ → ℕ × LiveOrder R → Type 0
  IsBelow n (id, o) = (id < n) × (o.internal_id ≡ id)

  abbrev pub AreBelow : ℕ → Table (LiveOrder R) → Type 0
  AreBelow n t = All (IsBelow n) t

  pub AreBelow-mono : (m n : ℕ) → m ≤ n → (t : Table (LiveOrder R)) → AreBelow m t → AreBelow n t
  AreBelow-mono m n h [] a = tt
  AreBelow-mono m n h ((id, o) ∷ t) a = ((omega (arith, a.0.0), a.0.1), AreBelow-mono m n h t a.1)

  pub AreBelow-insert :
      (n id : ℕ) (o : LiveOrder R) (t : Table (LiveOrder R))
      → id < n
      → o.internal_id ≡ id
      → AreBelow n t
      → AreBelow n (insert id o t)
  unfolding insert
  AreBelow-insert n id o [] h e a = ((h, e), tt)
  AreBelow-insert n id o ((j, p) ∷ t) h e a = ground (arith, AreBelow-insert n id o t h e a.1)

  -- Nothing is stored under a number that is not below.
  pub lookup-fresh :
      (n id : ℕ) (t : Table (LiveOrder R)) → n ≤ id → AreBelow n t → lookup id t ≡ none
  unfolding lookup
  lookup-fresh n id [] h a = refl
  lookup-fresh n id ((j, p) ∷ t) h a = ground (arith, lookup-fresh n id t h a.1)

module _ (num : Double) where
  open num use {Real}

  pub update_order_state-id :
      (r : ExecutionReport Real) (o : LiveOrder Real)
      → ((update_order_state num r o).internal_id ≡ o.internal_id)
        × ((update_order_state num r o).broker_order_id ≡ o.broker_order_id)
  unfolding update_order_state accept_report
  update_order_state-id r o = ground arith

  abbrev pub Keeps : ℕ → Option (LiveOrder Real × Table (LiveOrder Real)) → Type 0
  Keeps n none = Unit
  Keeps n (some (o, t)) = AreBelow n t

  keep_entry-Keeps :
      (n id : ℕ) (o : LiveOrder Real) (rest : Option (LiveOrder Real × Table (LiveOrder Real)))
      → IsBelow n (id, o)
      → Keeps n rest
      → Keeps n (keep_entry (id, o) rest)
  unfolding keep_entry
  keep_entry-Keeps n id o none h k = tt
  keep_entry-Keeps n id o (some (p, t)) h k = (h, k)

  pub update_first-Keeps :
      (n : ℕ) (r : ExecutionReport Real) (t : Table (LiveOrder Real))
      → AreBelow n t
      → Keeps n (update_first num r t)
  unfolding update_first
  update_first-Keeps n r [] a = tt
  update_first-Keeps n r ((id, o) ∷ t) a = ground (
    arith,
    update_order_state-id r o,
    keep_entry-Keeps n id o (update_first num r t) a.0 (update_first-Keeps n r t a.1),
  )
