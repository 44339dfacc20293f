-- ===== src/Data/Bars/Splits.antt =====
-- The bars that a builder of src/data/bar_builder.cpp gives for a sequence of ticks, with a flush at its end.
use regime_flow.Data.Bars.Steps.{process-Processed, Processed, Holds}
use regime_flow.Data.Bars.Runs.{summary, IsRun}
use regime_flow.Data.Bars.{BarBuilder, new_builder, flush, Config, process, BarNumbers, Tick, Bar}
use regime_flow.Base.Double.{Double}
use regime_flow.Base.{
  sym, subst, ap, All, map, ◌≡◌, ◌++◌, List, Option, refl, inr, inl, some, none, ◌∷◌, [],
}
use mathlib.Core.List.{append_assoc}

module _ {R : Type 0} where
  -- A bar, if there is one, before others.
  abbrev pub prepend : Option (Bar R) → List (Bar R) → List (Bar R)
  prepend none bars = bars
  prepend (some bar) bars = bar ∷ bars

  abbrev pub ticks_of : List (Tick R × List (Tick R)) → List (Tick R)
  ticks_of [] = []
  ticks_of ((t, ts) ∷ runs) = t ∷ ts ++ ticks_of runs

module _ (num : Double) (numbers : BarNumbers num.Real) where
  open num use {Real}

  unfoldable pub aggregate : List (Tick Real) → BarBuilder Real → List (Bar Real)
  unfolding process flush
  aggregate [] b = prepend (flush num numbers b).0 []
  aggregate (x ∷ ts) b = let (bar, b') = process num numbers x b in prepend bar (aggregate ts b')

  -- The ticks are cut into runs of one symbol, in their order and with none left out; each bar is that of
  -- its run.
  abbrev pub Splits : Config Real → List (Bar Real) → List (Tick Real) → Type 0
  Splits c bars ticks =
      (runs : List (Tick Real × List (Tick Real))) × (ticks_of runs ≡ ticks)
      × (bars ≡ map (summary num numbers) runs)
      × All (IsRun num c) runs

  Splits-cons :
      {bars : List (Bar Real)} (c : Config Real) (t : Tick Real) (ts ticks : List (Tick Real))
      → IsRun num c (t, ts)
      → Splits c bars ticks
      → Splits c (summary num numbers (t, ts) ∷ bars) (t ∷ ts ++ ticks)
  Splits-cons c t ts ticks r (runs, e, f, a) = (
    (t, ts) ∷ runs,
    ap (λ (l : List (Tick Real)). t ∷ ts ++ l) e,
    ap (λ (l : List (Bar Real)). summary num numbers (t, ts) ∷ l) f,
    (r, a),
  )

  flush-Splits :
      (c : Config Real) (run : List (Tick Real)) (b : BarBuilder Real)
      → Holds num numbers c b run
      → Splits c (prepend (flush num numbers b).0 []) (run ++ [])
  unfolding flush
  flush-Splits c [] b h = rw (h.1) ([], refl, refl, tt)
  flush-Splits c (t ∷ ts) b h =
      subst (λ d. Splits c (prepend (flush num numbers d).0 []) (t ∷ ts ++ [])) (sym h.0)
        (Splits-cons c t ts [] h.1 ([], refl, refl, tt))

  aggregate-cons :
      (c : Config Real) (run ticks : List (Tick Real)) (x : Tick Real)
      (r : Option (Bar Real) × BarBuilder Real)
      → ((b : BarBuilder Real) (run : List (Tick Real))
          → Holds num numbers c b run
          → Splits c (aggregate ticks b) (run ++ ticks))
      → Processed num numbers c run x r
      → Splits c (prepend r.0 (aggregate ticks r.1)) (run ++ x ∷ ticks)
  aggregate-cons c run ticks x (none, b) rest h =
      subst (Splits c (aggregate ticks b)) (append_assoc run (x ∷ []) ticks)
        (rest b (run ++ x ∷ []) h)
  aggregate-cons c [] ticks x (some bar, b) rest h = absurd h
  aggregate-cons c (t ∷ ts) ticks x (some bar, b) rest (inl (e, a, h)) =
      rw e (Splits-cons c t ts (x ∷ ticks) a (rest b (x ∷ []) h))
  aggregate-cons c (t ∷ ts) ticks x (some bar, b) rest (inr (e, a, h)) =
      subst (λ l. Splits c (bar ∷ aggregate ticks b) (t ∷ l)) (append_assoc ts (x ∷ []) ticks)
        (rw e (Splits-cons c t (ts ++ x ∷ []) ticks a (rest b [] h)))

  Holds-Splits :
      (c : Config Real) (ticks : List (Tick Real)) (b : BarBuilder Real) (run : List (Tick Real))
      → Holds num numbers c b run
      → Splits c (aggregate ticks b) (run ++ ticks)
  unfolding aggregate
  Holds-Splits c [] b run h = flush-Splits c run b h
  Holds-Splits c (x ∷ ticks) b run h =
      aggregate-cons c run ticks x (process num numbers x b) (Holds-Splits c ticks)
        (process-Processed num numbers c run x b h)

  -- The bars of any ticks, the flushed one included, are the summaries of runs into which the ticks are cut,
  -- in their order and with none left out or counted twice. A run has one symbol and, if bars are timed, no
  -- tick of it comes when the interval since its first is over.
  pub aggregate-Splits :
      (c : Config Real) (ticks : List (Tick Real))
      → Splits c (aggregate ticks (new_builder num numbers c)) ticks
  unfolding new_builder
  aggregate-Splits c ticks = Holds-Splits c ticks (new_builder num numbers c) [] (refl, refl)
