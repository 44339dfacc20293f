-- ===== src/Data/Bars/Steps.antt =====
-- What `BarBuilder::process` of src/data/bar_builder.cpp does with a tick, by the ticks that the builder has
-- taken since its last bar.
use regime_flow.Data.Bars.Runs.{update_state-open_state, summary, belongs, open_state, IsRun}
use regime_flow.Data.Bars.{
  update_state, reset, reset_state, build_bar, elapsed_ms, leb_ℤ, Bar, is_timed, Tick, BarBuilder,
  process_sized, process_timed, is_bar_complete, process, Config, BarNumbers,
}
use regime_flow.Base.Double.{Double}
use regime_flow.Base.{
  ◌∙◌, ap, ◌||◌, ◌⊎◌, if◌then◌else◌, not, arith, Bool, ◌++◌, sym, subst, ◌==◌, Option, ◌≡◌, List,
  refl, inr, inl, false, true, some, none, ◌∷◌, [],
}

module _ (num : Double) (numbers : BarNumbers num.Real) where
  open num use {Real}

  -- The builder has taken these ticks since its last bar.
  abbrev pub Holds : Config Real → BarBuilder Real → List (Tick Real) → Type 0
  Holds c b [] = (b.config ≡ c) × (b.has_state ≡ false)
  Holds c b (t ∷ ts) = (b ≡ open_state num numbers c t ts) × IsRun num c (t, ts)

  -- How `process` of `x` ends: the run goes on, or it ends before `x`, or with it.
  abbrev pub Processed :
      Config Real → List (Tick Real) → Tick Real → Option (Bar Real) × BarBuilder Real → Type 0
  Processed c run x (none, b) = Holds c b (run ++ x ∷ [])
  Processed c [] x (some bar, b) = ⊥
  Processed c (t ∷ ts) x (some bar, b) =
      ((bar ≡ summary num numbers (t, ts)) × IsRun num c (t, ts) × Holds c b (x ∷ []))
      ⊎ ((bar ≡ summary num numbers (t, ts ++ x ∷ []))
          × IsRun num c (t, ts ++ x ∷ [])
          × Holds c b [])

  All-snoc :
      (c : Config Real) (t x : Tick Real) (ts : List (Tick Real))
      → IsRun num c (t, ts)
      → belongs num c t x ≡ true
      → IsRun num c (t, ts ++ x ∷ [])
  All-snoc c t x [] a h = (h, tt)
  All-snoc c t x (y ∷ ts) a h = (a.0, All-snoc c t x ts a.1 h)

  process-first :
      (c : Config Real) (x : Tick Real) (b : BarBuilder Real)
      → (b.config ≡ c)
      → (b.has_state ≡ false)
      → Processed c [] x (process num numbers x b)
  unfolding process
  process-first c x b e f =
      subst (λ d. Processed d [] x (process num numbers x b)) e (rw f (refl, tt))

  timed_complete :
      (x : Tick Real) (b : BarBuilder Real)
      → is_timed b.config.type ≡ true
      → is_bar_complete num x b
        ≡ leb_ℤ b.config.time_interval_ms (elapsed_ms b.bar_start x.timestamp)
  unfolding is_bar_complete
  timed_complete x b k = ground (arith, k)

  timed-belongs :
      (c : Config Real) (t x : Tick Real)
      → (x.symbol == t.symbol) ≡ true
      → leb_ℤ c.time_interval_ms (elapsed_ms t.timestamp x.timestamp) ≡ false
      → belongs num c t x ≡ true
  timed-belongs c t x e h = rw (e, h) (cases (is_timed c.type))
    where
      cases : (b : Bool) → (not b || true) ≡ true
      cases true = refl
      cases false = refl

  process-timed :
      (c : Config Real) (t x : Tick Real) (ts : List (Tick Real))
      → IsRun num c (t, ts)
      → (x.symbol == t.symbol) ≡ true
      → is_timed c.type ≡ true
      → Processed c (t ∷ ts) x (process_timed num numbers x (open_state num numbers c t ts))
  unfolding process_timed
  process-timed c t x ts a e k = ends (is_bar_complete num x b) refl
    where
      b : BarBuilder Real
      b = open_state num numbers c t ts

      ends :
          (d : Bool)
          → is_bar_complete num x b ≡ d
          → Processed c (t ∷ ts) x (
              if d
              then (some (build_bar num numbers b), reset_state num numbers x b)
              else (none, update_state num numbers x b))
      ends true h = inl (refl, a, (refl, tt))
      ends false h = (
        update_state-open_state num numbers c t x ts,
        All-snoc c t x ts a (timed-belongs c t x e (sym (timed_complete x b k) ∙ h)),
      )

  process-sized :
      (c : Config Real) (t x : Tick Real) (ts : List (Tick Real))
      → IsRun num c (t, ts)
      → (x.symbol == t.symbol) ≡ true
      → is_timed c.type ≡ false
      → Processed c (t ∷ ts) x (process_sized num numbers x (open_state num numbers c t ts))
  unfolding process_sized
  process-sized c t x ts a e k =
      ends (update_state num numbers x (open_state num numbers c t ts))
        (update_state-open_state num numbers c t x ts)
        (is_bar_complete num x (update_state num numbers x (open_state num numbers c t ts)))
    where
      r : IsRun num c (t, ts ++ x ∷ [])
      r = All-snoc c t x ts a (rw (e, k) refl)

      ends :
          (b : BarBuilder Real)
          → b ≡ open_state num numbers c t (ts ++ x ∷ [])
          → (d : Bool)
          → Processed c
              (t ∷ ts)
              x
              (if d then (some (build_bar num numbers b), reset num numbers b) else (none, b))
      ends b h true =
          inr (ap (build_bar num numbers) h, r, (ap (λ (y : BarBuilder Real). y.config) h, refl))
      ends b h false = (h, r)

  process-open :
      (c : Config Real) (t x : Tick Real) (ts : List (Tick Real))
      → IsRun num c (t, ts)
      → Processed c (t ∷ ts) x (process num numbers x (open_state num numbers c t ts))
  unfolding process
  process-open c t x ts a = same (x.symbol == t.symbol) refl (is_timed c.type) refl
    where
      b : BarBuilder Real
      b = open_state num numbers c t ts

      same :
          (d : Bool)
          → (x.symbol == t.symbol) ≡ d
          → (k : Bool) → is_timed c.type ≡ k
          → Processed c (t ∷ ts) x (
              if not d
              then (some (build_bar num numbers b), reset_state num numbers x b)
              else if k
              then process_timed num numbers x b
              else process_sized num numbers x b)
      same false e k f = inl (refl, a, (refl, tt))
      same true e true f = process-timed c t x ts a e f
      same true e false f = process-sized c t x ts a e f

  pub process-Processed :
      (c : Config Real) (run : List (Tick Real)) (x : Tick Real) (b : BarBuilder Real)
      → Holds c b run
      → Processed c run x (process num numbers x b)
  process-Processed c [] x b h = process-first c x b h.0 h.1
  process-Processed c (t ∷ ts) x b h =
      subst (λ d. Processed c (t ∷ ts) x (process num numbers x d)) (sym h.0)
        (process-open c t x ts h.1)
