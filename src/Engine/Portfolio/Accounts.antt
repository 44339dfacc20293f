-- ===== src/Engine/Portfolio/Accounts.antt =====
-- The methods of `Portfolio` that set its cash, its positions, its margin profile and its snapshots
-- (src/engine/portfolio.cpp).
use regime_flow.Engine.Portfolio.{Position, Portfolio, snapshot, MarginProfile}
use regime_flow.Base.Table.{values, insert, Table}
use regime_flow.Base.Int.{ℤ}
use regime_flow.Engine.Portfolio.Updates.{notify_positions, notify_position, notify_equity}
use regime_flow.Base.Double.{Double}
use regime_flow.Base.{not, ◌++◌, ℕ, ◌==◌, if◌then◌else◌, List, ◌∷◌, []}

abbrev pub update_last : {A : Type 0} → (A → A) → List A → List A
update_last f [] = []
update_last f (x ∷ []) = f x ∷ []
update_last f (x ∷ y ∷ xs) = x ∷ update_last f (y ∷ xs)

module _ (num : Double) where
  open num use {Real, nil, add, lt, eq}

  -- The last snapshot, if there is one, is made again.
  unfoldable pub set_cash : Real → ℤ → Portfolio Real → Portfolio Real
  unfolding notify_equity snapshot
  set_cash cash timestamp p =
      let q = notify_equity num (record p { cash = cash }) in
      record q { snapshots = update_last (λ _. snapshot num timestamp q) q.snapshots }

  unfoldable pub adjust_cash : Real → ℤ → Portfolio Real → Portfolio Real
  unfolding set_cash
  adjust_cash delta timestamp p = set_cash (add p.cash delta) timestamp p

  unfoldable pub set_position : Position Real → Portfolio Real → Portfolio Real
  unfolding notify_position notify_equity
  set_position q p =
      if q.symbol == 0
      then p
      else notify_equity num
          (notify_position q (record p { positions = insert q.symbol q p.positions }))

  unfoldable pub stamped : ℤ → Table (Position Real) → Table (Position Real)
  stamped timestamp [] = []
  stamped timestamp ((symbol, q) ∷ positions) =
      insert symbol (record q { last_update = timestamp }) (stamped timestamp positions)

  unfoldable pub replace_positions : Table (Position Real) → ℤ → Portfolio Real → Portfolio Real
  unfolding stamped notify_positions notify_equity
  replace_positions positions timestamp p =
      let updated = stamped timestamp positions in
      notify_equity num (notify_positions (values updated) (record p { positions = updated }))

  unfoldable pub get_held_symbols : Table (Position Real) → List ℕ
  get_held_symbols [] = []
  get_held_symbols ((symbol, q) ∷ positions) =
      let rest = get_held_symbols positions in
      if not (eq q.quantity nil) then symbol ∷ rest else rest

  abbrev not_negative : Real → Real
  not_negative x = if lt x nil then nil else x

  unfoldable pub configure_margin : MarginProfile Real → Portfolio Real → Portfolio Real
  configure_margin profile p = record p {
    margin_profile = record {
      initial_margin_ratio = not_negative profile.initial_margin_ratio;
      maintenance_margin_ratio = not_negative profile.maintenance_margin_ratio;
      stop_out_margin_level = not_negative profile.stop_out_margin_level;
    };
  }

  unfoldable pub record_snapshot : ℤ → Portfolio Real → Portfolio Real
  unfolding snapshot
  record_snapshot timestamp p = record p {
    snapshots = p.snapshots ++ snapshot num timestamp p ∷ [];
  }
