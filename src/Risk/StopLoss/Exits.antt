-- ===== src/Risk/StopLoss/Exits.antt =====
-- What one bar or tick may do to the stops and to the orders (src/risk/stop_loss.cpp).
use regime_flow.Engine.OrderManager.Operations.{submit_order}
use regime_flow.Base.StringTable.{find}
use regime_flow.Engine.OrderManager.State.{Manager}
use regime_flow.Data.Bars.{Bar}
use regime_flow.Engine.Order.{OrderSide, market_order, OrderType, Order}
use regime_flow.Risk.Manager.{validate, RiskManager}
use regime_flow.Risk.StopLoss.Price.{
  is_triggered, update_from_price, see_price, maybe_exit, exit_with, exit_order, atr_state,
  update_atr,
}
use regime_flow.Engine.Portfolio.{Portfolio}
use regime_flow.Result.{ok}
use regime_flow.Base.{
  sym, ap, ◌||◌, if◌then◌else◌, Option-cases, subst, arith, true, ◌==◌, Bool-cases, ◌≡◌, ◌∙◌, ℕ,
  refl, inr, inl, false, some,
}
use regime_flow.Base.Table.{lookup-insert, Table, lookup, insert}
use regime_flow.Risk.StopLoss.{StopLossManager, ℤ, Double, StopState}

module _ {R : Type 0} where
  -- The stops that were there go on for the same quantities, and no exit is forgotten.
  pub record Follows (before after : Table (StopState R)) : Type 0 where
    pub kept :
        (k : ℕ) (u : StopState R)
        → lookup k after ≡ some u
        → (s : StopState R) × (lookup k before ≡ some s)
          × (u.last_qty ≡ s.last_qty)
          × (u.exit_requested ≡ false → s.exit_requested ≡ false)

  pub Follows-refl : (t : Table (StopState R)) → Follows t t
  Follows-refl t = record { kept = λ k u e. (u, e, refl, λ h. h) }

  pub Follows-trans : {t u v : Table (StopState R)} → Follows t u → Follows u v → Follows t v
  Follows-trans f g = record {
    kept = λ k x e.
        let (y, ey, qy, ry) = g.kept k x e in
        let (z, ez, qz, rz) = f.kept k y ey in (z, ez, qy ∙ qz, λ h. rz (ry h));
  }

  pub insert-Follows :
      (k : ℕ) (s u : StopState R) (t : Table (StopState R))
      → lookup k t ≡ some s
      → u.last_qty ≡ s.last_qty
      → (u.exit_requested ≡ false → s.exit_requested ≡ false)
      → Follows t (insert k u t)
  insert-Follows k s u t e q r = record {
    kept = λ j x f. elim (Bool-cases (k == j)) [
      | inl same ↦
          let ux : u ≡ x = ground (arith, lookup-insert k j u t) in
          (
            s,
            ground arith,
            subst (λ (y : StopState R). y.last_qty ≡ s.last_qty) ux q,
            subst (λ (y : StopState R). y.exit_requested ≡ false → s.exit_requested ≡ false) ux r,
          )
      | inr other ↦ (x, ground (arith, lookup-insert k j u t), refl, λ h. h)
    ];
  }

requested :
    {R : Type 0}
    → (symbol : ℕ) (s : StopState R) (t : Table (StopState R)) (u : StopState R)
    → lookup symbol (insert symbol (record s { exit_requested = true }) t) ≡ some u
    → u.exit_requested ≡ true
requested {R} symbol s t u f =
    let su : record s { exit_requested = true } ≡ u =
      ground (arith, lookup-insert symbol symbol (record s { exit_requested = true }) t) in
    ap (λ (y : StopState R). y.exit_requested) (sym su)

module _ (num : Double) (clock : ℕ → ℤ) (p : Portfolio num.Real) (r : RiskManager num.Real) where
  open num use {Real, nil, abs, lt, eq}

  -- A market order for the whole of a position that has no exit yet, on the other side. No limit of `r`
  -- stops it.
  pub record IsExit (states : Table (StopState Real)) (o : Order Real) : Type 0 where
    pub state : StopState Real
    pub known : lookup o.symbol states ≡ some state
    pub held : eq state.last_qty nil ≡ false
    pub first : state.exit_requested ≡ false
    pub type : o.type ≡ OrderType.market
    pub quantity : o.quantity ≡ abs state.last_qty
    pub side : o.side ≡ (if lt nil state.last_qty then OrderSide.sell else OrderSide.buy)
    pub passes : validate num o p r ≡ (ok tt, r)

  -- The manager `m` and the orders, after a bar or tick.
  pub data Outcome (m : StopLossManager Real) (orders : Manager Real)
      : StopLossManager Real × Manager Real → Type 0 where
    quiet : {n : StopLossManager Real} → Follows m.states n.states → Outcome m orders (n, orders)
    exits :
        {n : StopLossManager Real} (o : Order Real)
        → IsExit m.states o
        → Follows m.states n.states
        → ((u : StopState Real) → lookup o.symbol n.states ≡ some u → u.exit_requested ≡ true)
        → Outcome m orders (n, (submit_order num clock o orders).1)

  exit_order-IsExit :
      (symbol : ℕ) (ts : ℤ) (s : StopState Real) (states : Table (StopState Real))
      → lookup symbol states ≡ some s
      → eq s.last_qty nil ≡ false
      → s.exit_requested ≡ false
      → IsExit states (exit_order num symbol ts s)
  unfolding exit_order market_order validate find
  exit_order-IsExit symbol ts s states e h n = record {
    state = s;
    known = e;
    held = h;
    first = n;
    type = refl;
    quantity = refl;
    side = refl;
    passes = refl;
  }

  exit_with-Outcome :
      (symbol : ℕ) (price : Real) (ts : ℤ) (s : StopState Real) (m : StopLossManager Real)
      (orders : Manager Real)
      → lookup symbol m.states ≡ some s
      → Outcome m orders (exit_with num clock symbol price ts s m orders)
  unfolding exit_with
  exit_with-Outcome symbol price ts s m orders e =
      elim (Bool-cases (s.exit_requested || eq s.last_qty nil)) [
        | inl h ↦ rw h (Outcome.quiet (Follows-refl m.states))
        | inr h ↦ elim (Bool-cases (is_triggered num m.config s price ts)) [
          | inl t ↦
              rw (h, t)
                (Outcome.exits (exit_order num symbol ts s)
                  (exit_order-IsExit symbol ts s m.states e (ground arith) (ground arith))
                  (insert-Follows symbol s (record s { exit_requested = true }) m.states e refl
                    (λ x. ground arith))
                  (λ u f. requested symbol s m.states u f))
          | inr t ↦ rw (h, t) (Outcome.quiet (Follows-refl m.states))
        ]
      ]

  maybe_exit-Outcome :
      (symbol : ℕ) (price : Real) (ts : ℤ) (m : StopLossManager Real) (orders : Manager Real)
      → Outcome m orders (maybe_exit num clock symbol price ts m orders)
  unfolding maybe_exit
  maybe_exit-Outcome symbol price ts m orders = elim (Option-cases (lookup symbol m.states)) [
    | inl e ↦ rw (e, maybe_exit) (Outcome.quiet (Follows-refl m.states))
    | inr (s, e) ↦ rw (e, maybe_exit) (exit_with-Outcome symbol price ts s m orders e)
  ]

  pub IsExit-before :
      {t u : Table (StopState Real)} {o : Order Real} → Follows t u → IsExit u o → IsExit t o
  IsExit-before {o} f e =
      let (s, known, q, first) = f.kept o.symbol e.state e.known in
      record {
        state = s;
        known = known;
        held = ap (λ (x : Real). eq x nil) (sym q) ∙ e.held;
        first = first e.first;
        type = e.type;
        quantity = e.quantity ∙ ap abs q;
        side = e.side ∙ ap (λ (x : Real). if lt nil x then OrderSide.sell else OrderSide.buy) q;
        passes = e.passes;
      }

  -- An outcome from the stops `n`, which follow those of `m`.
  pub Outcome-before :
      {m n : StopLossManager Real} {orders : Manager Real} {x : StopLossManager Real × Manager Real}
      → Follows m.states n.states
      → Outcome n orders x
      → Outcome m orders x
  Outcome-before f (Outcome.quiet g) = Outcome.quiet (Follows-trans f g)
  Outcome-before f (Outcome.exits o e g h) =
      Outcome.exits o (IsExit-before f e) (Follows-trans f g) h

  see_price-Follows :
      (symbol : ℕ) (price : Real) (s : StopState Real) (t : Table (StopState Real))
      → lookup symbol t ≡ some s
      → Follows t (insert symbol (see_price num price s) t)
  unfolding see_price
  see_price-Follows symbol price s t e = elim (Bool-cases (lt nil price)) [
    | inl h ↦ rw h (insert-Follows symbol s _ t e refl (λ x. x))
    | inr h ↦ rw h (insert-Follows symbol s _ t e refl (λ x. x))
  ]

  pub update_from_price-Outcome :
      (symbol : ℕ) (price : Real) (ts : ℤ) (m : StopLossManager Real) (orders : Manager Real)
      → Outcome m orders (update_from_price num clock symbol price ts m orders)
  unfolding update_from_price
  update_from_price-Outcome symbol price ts m orders =
      elim (Option-cases (lookup symbol m.states)) [
        | inl e ↦ rw (e, update_from_price) (Outcome.quiet (Follows-refl m.states))
        | inr (s, e) ↦ elim (Bool-cases (eq s.last_qty nil)) [
          | inl h ↦ rw (e, update_from_price, h) (Outcome.quiet (Follows-refl m.states))
          | inr h ↦
              rw (e, update_from_price, h)
                (Outcome-before (see_price-Follows symbol price s m.states e) (
                  maybe_exit-Outcome symbol price ts
                    (record m { states = insert symbol (see_price num price s) m.states }) orders))
        ]
      ]

module _ (num : Double) (cast : ℤ → num.Real) where
  open num use {Real}

  pub update_atr-Follows :
      (bar : Bar Real) (m : StopLossManager Real)
      → Follows m.states (update_atr num cast bar m).states
  unfolding update_atr atr_state
  update_atr-Follows bar m = elim (Option-cases (lookup bar.symbol m.states)) [
    | inl e ↦ rw (e, update_atr) (Follows-refl m.states)
    | inr (s, e) ↦ rw (e, update_atr) (insert-Follows bar.symbol s _ m.states e refl (λ x. x))
  ]
