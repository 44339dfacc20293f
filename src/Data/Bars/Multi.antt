-- ===== src/Data/Bars/Multi.antt =====
-- The builders that `MultiSymbolBarBuilder` of src/data/bar_builder.cpp keeps.
use regime_flow.Base.Table.{lookup-insert}
use regime_flow.Data.Bars.{
  new_builder, process, process_multi, lookup, Bar, insert, BarBuilder, Table, Tick, Config,
  BarNumbers,
}
use regime_flow.Base.Double.{Double}
use regime_flow.Base.{
  arith, ◌∙◌, ap, subst, if◌then◌else◌, ◌≡◌, ◌==◌, select, value_or, Option, Bool, List, ℕ, refl,
  false, true, some, ◌∷◌, [],
}

abbrev pub has_symbol : {R : Type 0} → ℕ → Tick R → Bool
has_symbol s t = t.symbol == s

module _ (num : Double) (numbers : BarNumbers num.Real) where
  open num use {Real}

  -- Each tick with the bar that it completes.
  unfoldable pub answers_multi :
      Config Real
      → List (Tick Real)
      → Table (BarBuilder Real)
      → List (Tick Real × Option (Bar Real)) × Table (BarBuilder Real)
  answers_multi c [] builders = ([], builders)
  answers_multi c (x ∷ ts) builders =
      let (bar, builders') = process_multi num numbers c x builders in
      let (rest, last) = answers_multi c ts builders' in ((x, bar) ∷ rest, last)

  unfoldable pub answers :
      List (Tick Real) → BarBuilder Real → List (Tick Real × Option (Bar Real)) × BarBuilder Real
  answers [] b = ([], b)
  answers (x ∷ ts) b =
      let (bar, b') = process num numbers x b in
      let (rest, last) = answers ts b' in ((x, bar) ∷ rest, last)

  abbrev pub builder_of : Config Real → ℕ → Table (BarBuilder Real) → BarBuilder Real
  builder_of c s builders = value_or (lookup s builders) (new_builder num numbers c)

  builder_of-insert :
      (c : Config Real) (k s : ℕ) (b : BarBuilder Real) (builders : Table (BarBuilder Real))
      → builder_of c s (insert k b builders) ≡ (if k == s then b else builder_of c s builders)
  builder_of-insert c k s b builders = rw (lookup-insert k s b builders) (cases (k == s))
    where
      cases :
          (d : Bool)
          → value_or (if d then some b else lookup s builders) (new_builder num numbers c)
            ≡ (if d then b else builder_of c s builders)
      cases true = refl
      cases false = refl

  -- That the two runs agree, for the answers to this symbol and its builder.
  abbrev Agrees :
      List (Tick Real × Option (Bar Real))
      → BarBuilder Real
      → List (Tick Real × Option (Bar Real)) × BarBuilder Real
      → Type 0
  Agrees some_answers b one = (some_answers ≡ one.0) × (b ≡ one.1)

  Agrees-step :
      (x : Tick Real) (ticks : List (Tick Real)) (rest : List (Tick Real × Option (Bar Real)))
      (b used old new last : BarBuilder Real) (bar : Option (Bar Real)) (d : Bool)
      → (d ≡ true → used ≡ old)
      → process num numbers x used ≡ (bar, b)
      → new ≡ (if d then b else old)
      → Agrees rest last (answers ticks new)
      → Agrees
          (if d then (x, bar) ∷ rest else rest)
          last
          (answers (if d then x ∷ ticks else ticks) old)
  unfolding answers
  Agrees-step x ticks rest b used old new last bar true same p e h =
      subst (λ o. Agrees ((x, bar) ∷ rest) last (answers (x ∷ ticks) o)) (same refl)
        (rw p (
          ap (λ (l : List (Tick Real × Option (Bar Real))). (x, bar) ∷ l)
              (h.0 ∙ ap (λ o. (answers ticks o).0) e),
          h.1 ∙ ap (λ o. (answers ticks o).1) e,
        ))
  Agrees-step x ticks rest b used old new last bar false same p e h =
      subst (λ o. Agrees rest last (answers ticks o)) e h

  -- What the builders of several symbols answer to the ticks of one, and the builder that they end with for
  -- it, are what one builder has that gets the ticks of this symbol alone.
  pub answers_multi-select :
      (c : Config Real) (s : ℕ) (ticks : List (Tick Real)) (builders : Table (BarBuilder Real))
      → let r = answers_multi c ticks builders in
        let one = answers (select (has_symbol s) ticks) (builder_of c s builders) in
        (select (λ (a : Tick Real × Option (Bar Real)). has_symbol s a.0) r.0 ≡ one.0)
        × (builder_of c s r.1 ≡ one.1)
  unfolding answers_multi answers process_multi
  answers_multi-select c s [] builders = (refl, refl)
  answers_multi-select c s (x ∷ ticks) builders =
      let used = builder_of c x.symbol builders in
      let (bar, b) = process num numbers x used in
      let builders' = insert x.symbol b builders in
      let (rest, last) = answers_multi c ticks builders' in
      Agrees-step x (select (has_symbol s) ticks)
        (select (λ (a : Tick Real × Option (Bar Real)). has_symbol s a.0) rest) b used
        (builder_of c s builders) (builder_of c s builders') (builder_of c s last) bar
        (x.symbol == s) (λ e. ap (λ k. builder_of c k builders) (ground (arith, e))) refl
        (builder_of-insert c x.symbol s b builders) (answers_multi-select c s ticks builders')
