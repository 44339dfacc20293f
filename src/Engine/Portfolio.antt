-- ===== src/Engine/Portfolio.antt =====
-- The state of `Portfolio` (include/regimeflow/engine/portfolio.h) and what src/engine/portfolio.cpp computes
-- from it. The callbacks' calls are recorded in a log.
pub mod Updates
pub mod Accounts
pub mod Positions
mod Tests
use regime_flow.Engine.Order.{Fill}
use regime_flow.Base.Table.{values, Table}
use regime_flow.Base.Double.{Double}
use regime_flow.Base.Int.{ℤ}
use regime_flow.Base.{not, fold, List, if◌then◌else◌, String, ℕ, Bool, false, []}

pub record MarginProfile (R : Type 0) : Type 0 where
  pub initial_margin_ratio : R
  pub maintenance_margin_ratio : R
  pub stop_out_margin_level : R

pub record MarginSnapshot (R : Type 0) : Type 0 where
  pub initial_margin : R
  pub maintenance_margin : R
  pub available_funds : R
  pub margin_excess : R
  pub buying_power : R
  pub margin_call : Bool
  pub stop_out : Bool

pub record Position (R : Type 0) : Type 0 where
  pub symbol : ℕ
  pub quantity : R
  pub avg_cost : R
  pub current_price : R
  pub last_update : ℤ

pub record PortfolioSnapshot (R : Type 0) : Type 0 where
  pub timestamp : ℤ
  pub cash : R
  pub equity : R
  pub gross_exposure : R
  pub net_exposure : R
  pub leverage : R
  pub margin : MarginSnapshot R
  pub positions : Table (Position R)

-- A call of the callback with this number.
pub data PortfolioNotice (R : Type 0) : Type 0 where
  position_change : ℕ → Position R → PortfolioNotice R
  equity_change : ℕ → R → PortfolioNotice R

pub record Portfolio (R : Type 0) : Type 0 where
  pub initial_capital : R
  pub cash : R
  pub currency : String
  pub positions : Table (Position R)
  pub all_fills : List (Fill R)
  pub snapshots : List (PortfolioSnapshot R)
  pub realized_pnl : R
  pub margin_profile : MarginProfile R
  pub position_callbacks : List ℕ
  pub equity_callbacks : List ℕ
  pub log : List (PortfolioNotice R)

module _ (num : Double) where
  open num use {Real, nil, one, add, sub, mul, div, abs, lt, le, eq}

  -- `Portfolio::Portfolio`
  unfoldable pub new_portfolio : Real → String → Portfolio Real
  new_portfolio initial_capital currency = record {
    initial_capital = initial_capital;
    cash = initial_capital;
    currency = currency;
    positions = [];
    all_fills = [];
    snapshots = [];
    realized_pnl = nil;
    margin_profile = record {
      initial_margin_ratio = one;
      maintenance_margin_ratio = one;
      stop_out_margin_level = div one (add one one);
    };
    position_callbacks = [];
    equity_callbacks = [];
    log = [];
  }

  -- `std::min` and `std::max`
  abbrev pub smaller : Real → Real → Real
  smaller a b = if lt b a then b else a

  abbrev pub larger : Real → Real → Real
  larger a b = if lt a b then b else a

  abbrev pub market_value : Position Real → Real
  market_value p = mul p.quantity p.current_price

  abbrev pub unrealized_pnl : Position Real → Real
  unrealized_pnl p = mul p.quantity (sub p.current_price p.avg_cost)

  -- The loops that add up a value of each position.
  unfoldable pub total_of : (Position Real → Real) → Real → Table (Position Real) → Real
  total_of f total positions = fold (λ (t : Real) p. add t (f p)) total (values positions)

  unfoldable pub equity : Portfolio Real → Real
  unfolding total_of
  equity p = total_of market_value p.cash p.positions

  unfoldable pub gross_exposure : Portfolio Real → Real
  unfolding total_of
  gross_exposure p = total_of (λ q. abs (market_value q)) nil p.positions

  unfoldable pub net_exposure : Portfolio Real → Real
  unfolding total_of
  net_exposure p = total_of market_value nil p.positions

  unfoldable pub leverage : Portfolio Real → Real
  unfolding equity gross_exposure
  leverage p = if eq (equity p) nil then nil else div (gross_exposure p) (equity p)

  unfoldable pub total_unrealized_pnl : Portfolio Real → Real
  unfolding total_of
  total_unrealized_pnl p = total_of unrealized_pnl nil p.positions

  unfoldable pub build_margin_snapshot : MarginProfile Real → Real → Real → MarginSnapshot Real
  build_margin_snapshot profile equity_value gross_exposure_value =
      let initial = mul gross_exposure_value profile.initial_margin_ratio in
      let maintenance = mul gross_exposure_value profile.maintenance_margin_ratio in
      let available = sub equity_value initial in
      let excess = sub equity_value maintenance in
      record {
        initial_margin = initial;
        maintenance_margin = maintenance;
        available_funds = available;
        margin_excess = excess;
        buying_power =
            if lt nil profile.initial_margin_ratio
            then larger (div available profile.initial_margin_ratio) nil
            else larger available nil;
        margin_call = lt excess nil;
        stop_out =
            if lt nil maintenance
            then le (div equity_value maintenance) profile.stop_out_margin_level
            else false;
      }

  unfoldable pub margin_snapshot : Portfolio Real → MarginSnapshot Real
  unfolding equity gross_exposure build_margin_snapshot
  margin_snapshot p = build_margin_snapshot p.margin_profile (equity p) (gross_exposure p)

  -- A snapshot with the fields of `apply_snapshot_fields`.
  unfoldable pub snapshot : ℤ → Portfolio Real → PortfolioSnapshot Real
  unfolding equity gross_exposure net_exposure build_margin_snapshot
  snapshot timestamp p = record {
    timestamp = timestamp;
    cash = p.cash;
    equity = equity p;
    gross_exposure = gross_exposure p;
    net_exposure = net_exposure p;
    leverage = if not (eq (equity p) nil) then div (gross_exposure p) (equity p) else nil;
    margin = build_margin_snapshot p.margin_profile (equity p) (gross_exposure p);
    positions = p.positions;
  }
