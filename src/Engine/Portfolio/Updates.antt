-- ===== src/Engine/Portfolio/Updates.antt =====
-- The methods of `Portfolio` that change it, and the lookups (src/engine/portfolio.cpp).
use regime_flow.Base.Table.{contains, insert, values, Table, lookup}
use regime_flow.Engine.Order.{Fill}
use regime_flow.Base.Double.{Double}
use regime_flow.Base.{
  ◌==◌, ◌&&◌, not, ◌||◌, select, map, if◌then◌else◌, Bool, value_or, Option, ◌++◌, ℕ, List, some,
  none, ◌∷◌, [],
}
use regime_flow.Base.Int.{leb_ℤ, ℤ, pos}
use regime_flow.Engine.Portfolio.{smaller, equity, Portfolio, Position, PortfolioNotice}

module _ {R : Type 0} where
  unfoldable pub notify_position : Position R → Portfolio R → Portfolio R
  notify_position q p = record p {
    log = p.log ++ map (λ cb. PortfolioNotice.position_change cb q) p.position_callbacks;
  }

  unfoldable pub notify_positions : List (Position R) → Portfolio R → Portfolio R
  unfolding notify_position
  notify_positions [] p = p
  notify_positions (q ∷ qs) p = notify_positions qs (notify_position q p)

  unfoldable pub notify_value : R → Portfolio R → Portfolio R
  notify_value v p = record p {
    log = p.log ++ map (λ cb. PortfolioNotice.equity_change cb v) p.equity_callbacks;
  }

  abbrev pub get_position : ℕ → Portfolio R → Option (Position R)
  get_position symbol p = lookup symbol p.positions

  abbrev pub get_all_positions : Portfolio R → List (Position R)
  get_all_positions p = values p.positions

  -- `get_fills(symbol)`
  abbrev pub get_fills : ℕ → Portfolio R → List (Fill R)
  get_fills symbol p = select (λ f. f.symbol == symbol) p.all_fills

  -- `get_fills(range)`
  abbrev pub get_fills_in : ℤ → ℤ → Portfolio R → List (Fill R)
  get_fills_in start end p =
      select (λ f. leb_ℤ start f.timestamp && leb_ℤ f.timestamp end) p.all_fills

  -- `on_position_change`
  abbrev pub on_position_change : ℕ → Portfolio R → Portfolio R
  on_position_change cb p = record p { position_callbacks = p.position_callbacks ++ cb ∷ [] }

  abbrev pub on_equity_change : ℕ → Portfolio R → Portfolio R
  on_equity_change cb p = record p { equity_callbacks = p.equity_callbacks ++ cb ∷ [] }

module _ (num : Double) where
  open num use {Real, nil, one, add, sub, mul, div, abs, lt, eq}

  -- `notify_equity(equity())`
  unfoldable pub notify_equity : Portfolio Real → Portfolio Real
  unfolding equity notify_value
  notify_equity p = notify_value (equity num p) p

  -- `Position position;`
  abbrev pub blank_position : Position Real
  blank_position = record {
    symbol = 0;
    quantity = nil;
    avg_cost = nil;
    current_price = nil;
    last_update = pos 0;
  }

  -- Whether the fill makes the position larger, or opens it.
  abbrev pub is_opening : Real → Real → Bool
  is_opening old_qty qty_delta =
      eq old_qty nil || (lt nil old_qty && lt nil qty_delta) || (lt old_qty nil && lt qty_delta nil)

  -- The position and the realized profit after a fill that makes the position larger.
  unfoldable pub open_position : Fill Real → Position Real → Position Real
  open_position fill q =
      let new_qty = add q.quantity fill.quantity in
      let total_cost = add (mul q.avg_cost q.quantity) (mul fill.price fill.quantity) in
      record q {
        quantity = new_qty;
        avg_cost = if not (eq new_qty nil) then div total_cost new_qty else nil;
      }

  -- The average cost after a fill that makes the position smaller or turns it round.
  unfoldable pub closing_cost : Real → Real → Fill Real → Position Real → Real
  closing_cost old_qty new_qty fill q =
      if eq new_qty nil
      then nil
      else if (lt nil old_qty && lt new_qty nil) || (lt old_qty nil && lt nil new_qty)
      then fill.price
      else q.avg_cost

  unfoldable pub realize : Fill Real → Position Real → Real → Real
  realize fill q realized_pnl =
      let closing_qty = smaller num (abs fill.quantity) (abs q.quantity) in
      let sign = if lt nil q.quantity then one else sub nil one in
      add realized_pnl (mul (mul closing_qty (sub fill.price q.avg_cost)) sign)

  -- `apply_fill`: the position and `realized_pnl_`.
  unfoldable pub apply_fill : Fill Real → Position Real → Real → Position Real × Real
  unfolding open_position closing_cost realize
  apply_fill fill q realized_pnl =
      let new_qty = add q.quantity fill.quantity in
      if is_opening q.quantity fill.quantity then (open_position fill q, realized_pnl) else (
        record q { quantity = new_qty; avg_cost = closing_cost q.quantity new_qty fill q },
        realize fill q realized_pnl,
      )

  -- `positions_[fill.symbol]`, with its symbol set
  abbrev pub position_for : Fill Real → Portfolio Real → Position Real
  position_for fill p =
      let q = value_or (lookup fill.symbol p.positions) blank_position in
      if q.symbol == 0 then record q { symbol = fill.symbol } else q

  unfoldable pub book_fill : Fill Real → Portfolio Real → Portfolio Real
  unfolding apply_fill notify_position notify_equity
  book_fill fill p =
      let (q, realized_pnl) = apply_fill fill (position_for fill p) p.realized_pnl in
      let q' = record q { current_price = fill.price; last_update = fill.timestamp } in
      let cash =
        sub (sub (sub p.cash (mul fill.price fill.quantity)) fill.commission)
          fill.transaction_cost in
      notify_equity (
        notify_position q' (record p {
          cash = cash;
          positions = insert fill.symbol q' p.positions;
          realized_pnl = realized_pnl;
          all_fills = p.all_fills ++ fill ∷ [];
        }))

  -- `if (fill.symbol == 0 || fill.quantity == 0) return;`
  abbrev pub is_void : Fill Real → Bool
  is_void fill = (fill.symbol == 0) || eq fill.quantity nil

  unfoldable pub update_position : Fill Real → Portfolio Real → Portfolio Real
  unfolding book_fill
  update_position fill p = if is_void fill then p else book_fill fill p

  -- The price of a position, with its callbacks; nothing happens to a symbol that has none.
  unfoldable pub mark_price : ℕ → Real → ℤ → Portfolio Real → Portfolio Real
  unfolding notify_position
  mark_price symbol price timestamp p = elim (lookup symbol p.positions) [
    | none ↦ p
    | some q ↦
        let q' = record q { current_price = price; last_update = timestamp } in
        notify_position q' (record p { positions = insert symbol q' p.positions })
  ]

  -- `mark_to_market` of one symbol
  unfoldable pub mark_to_market : ℕ → Real → ℤ → Portfolio Real → Portfolio Real
  unfolding mark_price notify_equity
  mark_to_market symbol price timestamp p =
      if contains symbol p.positions then notify_equity (mark_price symbol price timestamp p) else p

  unfoldable pub mark_prices : Table Real → ℤ → Portfolio Real → Portfolio Real
  unfolding mark_price
  mark_prices [] timestamp p = p
  mark_prices ((symbol, price) ∷ prices) timestamp p =
      mark_prices prices timestamp (mark_price symbol price timestamp p)

  -- `mark_to_market` of several
  unfoldable pub mark_all_to_market : Table Real → ℤ → Portfolio Real → Portfolio Real
  unfolding mark_prices notify_equity
  mark_all_to_market prices timestamp p = notify_equity (mark_prices prices timestamp p)
