-- ===== src/Data/Bars/Tests.antt =====
-- Bars of small sequences of ticks (src/data/bar_builder.cpp).
use regime_flow.Data.Bars.Ranges.{aggregate-IsRanged, IsRanged}
use regime_flow.Base.Double.{whole}
use regime_flow.Data.Bars.Splits.{aggregate-Splits, Splits, aggregate}
use regime_flow.Data.Bars.{new_builder, BarType, Tick, Bar, Config, BarNumbers}
use regime_flow.Base.{arith, ◌≡◌, map, All, List, ℕ, refl, false, true, ◌∷◌, []}
use regime_flow.Base.Int.{◌-ℤ◌, quot_ℤ, pos_part, ltb_ℤ, negsuc, ℤ, pos}

abbrev whole_numbers : BarNumbers ℤ
whole_numbers = record {
  quiet_nan = pos 0;
  lowest = negsuc 1000000;
  max = pos 1000000;
  to_volume = λ q. pos_part q;
  of_volume = λ n. pos n;
}

abbrev tick_at : ℕ → ℕ → ℕ → ℕ → Tick ℤ
tick_at time symbol price quantity = record {
  timestamp = pos time;
  symbol = symbol;
  price = pos price;
  quantity = pos quantity;
  flags = 0;
}

abbrev minute_bars : Config ℤ
minute_bars = record {
  type = BarType.time_1min;
  time_interval_ms = pos 60000;
  volume_threshold = 0;
  tick_threshold = 0;
  dollar_threshold = pos 0;
}

abbrev tick_bars : Config ℤ
tick_bars = record minute_bars { type = BarType.tick; tick_threshold = 2 }

abbrev some_ticks : List (Tick ℤ)
some_ticks =
    tick_at 0 1 10 5
    ∷ tick_at 1000000 1 12 1
    ∷ tick_at 70000000 1 11 2
    ∷ tick_at 70000000 2 30 1
    ∷ []

abbrev shape : Bar ℤ → ℤ × ℤ × ℤ × ℤ × ℕ × ℕ
shape b = (b.open_price, b.high, b.low, b.close, b.volume, b.trade_count)

shapes_of_bars :
    map shape
      (aggregate whole whole_numbers some_ticks (new_builder whole whole_numbers minute_bars))
    ≡ (pos 10, pos 12, pos 10, pos 12, 6, 2)
      ∷ (pos 11, pos 11, pos 11, pos 11, 2, 1)
      ∷ (pos 30, pos 30, pos 30, pos 30, 1, 1)
      ∷ []
unfolding aggregate new_builder quot_ℤ ◌-ℤ◌
shapes_of_bars = refl

aggregate-Splits_example :
    Splits whole whole_numbers tick_bars
      (aggregate whole whole_numbers some_ticks (new_builder whole whole_numbers tick_bars))
      some_ticks
aggregate-Splits_example = aggregate-Splits whole whole_numbers tick_bars some_ticks

ltb_ℤ-irrefl : (a : ℤ) → ltb_ℤ a a ≡ false
ltb_ℤ-irrefl a = ground arith

ltb_ℤ-trans : (a b c : ℤ) → ltb_ℤ a b ≡ true → ltb_ℤ b c ≡ true → ltb_ℤ a c ≡ true
ltb_ℤ-trans a b c h k = ground (arith, h, k)

aggregate-IsRanged_example :
    All
      (IsRanged whole)
      (aggregate whole whole_numbers some_ticks (new_builder whole whole_numbers minute_bars))
aggregate-IsRanged_example =
    aggregate-IsRanged whole ltb_ℤ-irrefl ltb_ℤ-trans whole_numbers minute_bars some_ticks
