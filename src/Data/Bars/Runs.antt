-- ===== src/Data/Bars/Runs.antt =====
-- What a bar of src/data/bar_builder.cpp says of the ticks that it is made of, without the builder, and that
-- the builder's state says it of the ticks since the last bar.
use regime_flow.Data.Bars.{
  elapsed_ms, leb_ℤ, is_timed, update_state, u64, build_bar, BarBuilder, Bar, BarNumbers, Config,
  Tick,
}
use regime_flow.Base.Double.{Double}
use regime_flow.Base.{
  ◌||◌, fold-snoc, length-append, sym, arith, not, ◌++◌, ltb, ◌&&◌, length, ◌+◌, ◌≡◌, ◌==◌, ℕ, All,
  Bool, fold, if◌then◌else◌, List, suc, refl, true, ◌∷◌, [],
}

module _ (num : Double) where
  open num use {Real, nil, mul, div, add, lt}

  abbrev raise : Real → Tick Real → Real
  raise p t = if lt p t.price then t.price else p

  abbrev lower : Real → Tick Real → Real
  lower p t = if lt t.price p then t.price else p

  abbrev pub highest : Real → List (Tick Real) → Real
  highest p ts = fold raise p ts

  abbrev pub lowest_price : Real → List (Tick Real) → Real
  lowest_price p ts = fold lower p ts

  abbrev pub last_price : Real → List (Tick Real) → Real
  last_price p ts = fold (λ q t. t.price) p ts

  abbrev pub value_traded : Tick Real → List (Tick Real) → Real
  value_traded t ts = fold (λ v x. add v (mul x.price x.quantity)) (mul t.price t.quantity) ts

  -- Whether `x` may be in a bar that began with `t`: it has the same symbol and, if bars are timed, comes
  -- before the interval is over.
  abbrev pub belongs : Config Real → Tick Real → Tick Real → Bool
  belongs c t x =
      (x.symbol == t.symbol)
      && (not (is_timed c.type)
          || not (leb_ℤ c.time_interval_ms (elapsed_ms t.timestamp x.timestamp)))

  abbrev pub IsRun : Config Real → Tick Real × List (Tick Real) → Type 0
  IsRun c (t, ts) = All (λ x. belongs c t x ≡ true) ts

  module _ (numbers : BarNumbers Real) where
    open numbers use {to_volume, of_volume}

    abbrev pub volume_traded : Tick Real → List (Tick Real) → ℕ
    volume_traded t ts = fold (λ n x. u64 (n + to_volume x.quantity)) (to_volume t.quantity) ts

    -- The bar of a run of ticks that begins with `t`.
    abbrev pub summary : Tick Real × List (Tick Real) → Bar Real
    summary (t, ts) = record {
      timestamp = t.timestamp;
      symbol = t.symbol;
      open_price = t.price;
      high = highest t.price ts;
      low = lowest_price t.price ts;
      close = last_price t.price ts;
      volume = volume_traded t ts;
      trade_count = u64 (suc (length ts));
      vwap =
          if ltb 0 (volume_traded t ts)
          then div (value_traded t ts) (of_volume (volume_traded t ts))
          else nil;
    }

    -- The builder in the middle of this run.
    abbrev pub open_state : Config Real → Tick Real → List (Tick Real) → BarBuilder Real
    open_state c t ts = record {
      config = c;
      symbol = t.symbol;
      bar_start = t.timestamp;
      open_price = t.price;
      high = highest t.price ts;
      low = lowest_price t.price ts;
      close = last_price t.price ts;
      volume = volume_traded t ts;
      tick_count = u64 (suc (length ts));
      dollar_volume = value_traded t ts;
      has_state = true;
    }

    pub build_bar-open_state :
        (c : Config Real) (t : Tick Real) (ts : List (Tick Real))
        → build_bar num numbers (open_state c t ts) ≡ summary (t, ts)
    unfolding build_bar
    build_bar-open_state c t ts = refl

    count-snoc :
        (x : Tick Real) (ts : List (Tick Real))
        → u64 (u64 (suc (length ts)) + 1) ≡ u64 (suc (length (ts ++ x ∷ [])))
    count-snoc x ts = omega (arith, length-append ts (x ∷ []))

    pub update_state-open_state :
        (c : Config Real) (t x : Tick Real) (ts : List (Tick Real))
        → update_state num numbers x (open_state c t ts) ≡ open_state c t (ts ++ x ∷ [])
    unfolding update_state
    update_state-open_state c t x ts =
        rw
          (
            sym (count-snoc x ts),
            fold-snoc raise t.price ts x,
            fold-snoc lower t.price ts x,
            fold-snoc (λ (q : Real) (y : Tick Real). y.price) t.price ts x,
            fold-snoc (λ n (y : Tick Real). u64 (n + to_volume y.quantity)) (to_volume t.quantity)
                ts x,
            fold-snoc (λ v (y : Tick Real). add v (mul y.price y.quantity)) (mul t.price t.quantity)
                ts x,
          )
          refl
