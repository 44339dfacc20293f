-- ===== src/Engine/Portfolio/Tests.antt =====
-- A portfolio of src/engine/portfolio.cpp after a few fills.
use regime_flow.Base.Table.{insert, lookup}
use regime_flow.Engine.Portfolio.Updates.{update_position}
use regime_flow.Base.Double.{whole}
use regime_flow.Engine.Portfolio.Positions.{update_all-IsBooked, IsBooked, update_all}
use regime_flow.Engine.Portfolio.{new_portfolio, Fill, Portfolio}
use regime_flow.Base.{◌≡◌, List, ℕ, refl, false, ◌∷◌, []}
use regime_flow.Base.Int.{quot_ℤ, ◌*ℤ◌, ◌-ℤ◌, ◌+ℤ◌, ℤ, pos, negsuc}

abbrev a_fill : ℕ → ℤ → ℕ → Fill ℤ
a_fill symbol quantity price = record {
  id = 1;
  order_id = 1;
  parent_order_id = 0;
  symbol = symbol;
  quantity = quantity;
  price = pos price;
  timestamp = pos 0;
  commission = pos 1;
  transaction_cost = pos 0;
  slippage = pos 0;
  is_maker = false;
  venue = "";
}

-- Ten are bought at 5 and at 7, and fifteen are sold at 8; the third fill has no quantity.
abbrev some_fills : List (Fill ℤ)
some_fills =
    a_fill 1 (pos 10) 5 ∷ a_fill 1 (pos 10) 7 ∷ a_fill 1 (pos 0) 9 ∷ a_fill 1 (negsuc 14) 8 ∷ []

abbrev after_fills : Portfolio ℤ
after_fills = update_all whole some_fills (new_portfolio whole (pos 1000) "USD")

cash_after : after_fills.cash ≡ pos 997
unfolding update_all new_portfolio update_position ◌+ℤ◌ ◌-ℤ◌ ◌*ℤ◌ quot_ℤ lookup insert
cash_after = refl

profit_after : after_fills.realized_pnl ≡ pos 30
unfolding update_all new_portfolio update_position ◌+ℤ◌ ◌-ℤ◌ ◌*ℤ◌ quot_ℤ lookup insert
profit_after = refl

update_all-IsBooked_example :
    IsBooked whole some_fills (new_portfolio whole (pos 1000) "USD") after_fills
update_all-IsBooked_example =
    update_all-IsBooked whole some_fills (new_portfolio whole (pos 1000) "USD")
