-- ===== src/Data/Bars.antt =====
-- src/data/bar_builder.cpp, with the bar of include/regimeflow/data/bar.h and the tick of tick.h.
--
-- `BarNumbers` has what the code takes from the language beside arithmetic: the limits of a double and the
-- conversions between doubles and integers of 64 bits.
pub mod Runs
pub mod Steps
pub mod Splits
pub mod Ranges
pub mod Multi
mod Tests
use regime_flow.Base.Word.{u64}
use regime_flow.Base.Table.{insert, lookup, Table}
use regime_flow.Base.Double.{Double}
use regime_flow.Base.{
  ◌+◌, ◌==◌, List, value_or, not, ltb, Option, if◌then◌else◌, leb, Bool, ℕ, false, true, some, none,
  ◌∷◌, [],
}
use regime_flow.Base.Int.{leb_ℤ, ◌-ℤ◌, quot_ℤ, ℤ, pos}

pub data BarType : Type 0 where
  time_1min time_5min time_15min time_30min time_1hour time_4hour time_1day volume tick dollar :
      BarType

pub record Tick (R : Type 0) : Type 0 where
  pub timestamp : ℤ
  pub symbol : ℕ
  pub price : R
  pub quantity : R
  pub flags : ℕ

pub record Bar (R : Type 0) : Type 0 where
  pub timestamp : ℤ
  pub symbol : ℕ
  pub open_price : R
  pub high : R
  pub low : R
  pub close : R
  pub volume : ℕ
  pub trade_count : ℕ
  pub vwap : R

-- `BarBuilder::Config`
pub record Config (R : Type 0) : Type 0 where
  pub type : BarType
  pub time_interval_ms : ℤ
  pub volume_threshold : ℕ
  pub tick_threshold : ℕ
  pub dollar_threshold : R

pub record BarNumbers (R : Type 0) : Type 0 where
  pub quiet_nan : R
  pub lowest : R
  pub max : R
  pub to_volume : R → ℕ
  pub of_volume : ℕ → R

pub record BarBuilder (R : Type 0) : Type 0 where
  pub config : Config R
  pub symbol : ℕ
  pub bar_start : ℤ
  pub open_price : R
  pub high : R
  pub low : R
  pub close : R
  pub volume : ℕ
  pub tick_count : ℕ
  pub dollar_volume : R
  pub has_state : Bool

-- The first group of the switch of `process`.
abbrev pub is_timed : BarType → Bool
is_timed BarType.volume = false
is_timed BarType.tick = false
is_timed BarType.dollar = false
is_timed _ = true

-- `(to - from).total_milliseconds()`
unfoldable pub elapsed_ms : ℤ → ℤ → ℤ
elapsed_ms from to = quot_ℤ (to -ℤ from) (pos 1000)

module _ (num : Double) where
  open num use {Real, nil, mul, div, add, lt, le}

  unfoldable pub is_bar_complete : Tick Real → BarBuilder Real → Bool
  unfolding elapsed_ms
  is_bar_complete t b = elim b.config.type [
    | BarType.volume ↦ leb b.config.volume_threshold b.volume
    | BarType.tick ↦ leb b.config.tick_threshold b.tick_count
    | BarType.dollar ↦ le b.config.dollar_threshold b.dollar_volume
    | _ ↦ leb_ℤ b.config.time_interval_ms (elapsed_ms b.bar_start t.timestamp)
  ]

  module _ (numbers : BarNumbers Real) where
    open numbers use {quiet_nan, lowest, max, to_volume, of_volume}

    -- `reset`
    unfoldable pub reset : BarBuilder Real → BarBuilder Real
    reset b = record b {
      symbol = 0;
      bar_start = pos 0;
      open_price = quiet_nan;
      high = lowest;
      low = max;
      close = nil;
      volume = 0;
      tick_count = 0;
      dollar_volume = nil;
      has_state = false;
    }

    -- `BarBuilder::BarBuilder`
    unfoldable pub new_builder : Config Real → BarBuilder Real
    new_builder config = record {
      config = config;
      symbol = 0;
      bar_start = pos 0;
      open_price = quiet_nan;
      high = lowest;
      low = max;
      close = nil;
      volume = 0;
      tick_count = 0;
      dollar_volume = nil;
      has_state = false;
    }

    unfoldable pub build_bar : BarBuilder Real → Bar Real
    build_bar b = record {
      timestamp = b.bar_start;
      symbol = b.symbol;
      open_price = b.open_price;
      high = b.high;
      low = b.low;
      close = b.close;
      volume = b.volume;
      trade_count = b.tick_count;
      vwap = if ltb 0 b.volume then div b.dollar_volume (of_volume b.volume) else nil;
    }

    unfoldable pub reset_state : Tick Real → BarBuilder Real → BarBuilder Real
    reset_state t b = record b {
      symbol = t.symbol;
      bar_start = t.timestamp;
      open_price = t.price;
      high = t.price;
      low = t.price;
      close = t.price;
      volume = to_volume t.quantity;
      tick_count = 1;
      dollar_volume = mul t.price t.quantity;
      has_state = true;
    }

    unfoldable pub update_state : Tick Real → BarBuilder Real → BarBuilder Real
    unfolding reset_state
    update_state t b = if not b.has_state then reset_state t b else record b {
      close = t.price;
      high = if lt b.high t.price then t.price else b.high;
      low = if lt t.price b.low then t.price else b.low;
      volume = u64 (b.volume + to_volume t.quantity);
      tick_count = u64 (b.tick_count + 1);
      dollar_volume = add b.dollar_volume (mul t.price t.quantity);
    }

    -- The first group of the switch of `process`.
    unfoldable pub process_timed : Tick Real → BarBuilder Real → Option (Bar Real) × BarBuilder Real
    unfolding is_bar_complete build_bar reset_state update_state
    process_timed t b =
        if is_bar_complete t b
        then (some (build_bar b), reset_state t b)
        else (none, update_state t b)

    -- The second group.
    unfoldable pub process_sized : Tick Real → BarBuilder Real → Option (Bar Real) × BarBuilder Real
    unfolding is_bar_complete build_bar reset update_state
    process_sized t b =
        let b' = update_state t b in
        if is_bar_complete t b' then (some (build_bar b'), reset b') else (none, b')

    unfoldable pub process : Tick Real → BarBuilder Real → Option (Bar Real) × BarBuilder Real
    unfolding build_bar reset_state process_timed process_sized
    process t b =
        if not b.has_state
        then (none, reset_state t b)
        else if not (t.symbol == b.symbol)
        then (some (build_bar b), reset_state t b)
        else if is_timed b.config.type
        then process_timed t b
        else process_sized t b

    unfoldable pub flush : BarBuilder Real → Option (Bar Real) × BarBuilder Real
    unfolding build_bar reset
    flush b = if not b.has_state then (none, b) else (some (build_bar b), reset b)

    -- `MultiSymbolBarBuilder::process`, on `builders_`
    unfoldable pub process_multi :
        Config Real
        → Tick Real
        → Table (BarBuilder Real)
        → Option (Bar Real) × Table (BarBuilder Real)
    unfolding process new_builder
    process_multi config t builders =
        let b = value_or (lookup t.symbol builders) (new_builder config) in
        let (bar, b') = process t b in (bar, insert t.symbol b' builders)

    -- `MultiSymbolBarBuilder::flush_all`
    unfoldable pub flush_all : Table (BarBuilder Real) → List (Bar Real) × Table (BarBuilder Real)
    unfolding flush
    flush_all [] = ([], [])
    flush_all ((symbol, b) ∷ builders) =
        let (bar, b') = flush b in
        let (bars, builders') = flush_all builders in
        (elim bar [ none ↦ bars | some x ↦ x ∷ bars ], (symbol, b') ∷ builders')
