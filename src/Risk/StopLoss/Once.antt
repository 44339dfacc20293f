-- ===== src/Risk/StopLoss/Once.antt =====
-- Of any bars and ticks between two updates of positions (src/risk/stop_loss.cpp).
use regime_flow.Engine.OrderManager.Operations.{submit_order}
use regime_flow.Base.{◌∙◌, ap, arith, ◌≢◌, ◌≡◌, All, ℕ, List, true, some, ◌∷◌, []}
use regime_flow.Base.Double.{Double}
use regime_flow.Base.Int.{ℤ}
use regime_flow.Base.Table.{Table, lookup}
use regime_flow.Data.Bars.{Bar, Tick}
use regime_flow.Engine.Order.{Order}
use regime_flow.Engine.OrderManager.State.{Manager}
use regime_flow.Engine.Portfolio.{Portfolio}
use regime_flow.Risk.Manager.{RiskManager}
use regime_flow.Risk.StopLoss.{StopState, StopLossManager}
use regime_flow.Risk.StopLoss.Price.{update_atr, on_tick, on_bar}
use regime_flow.Risk.StopLoss.Exits.{
  Follows, IsExit, IsExit-before, Outcome, Outcome-before, update_from_price-Outcome,
  update_atr-Follows,
}

pub data Update (R : Type 0) : Type 0 where
  bar : Bar R → Update R
  tick : Tick R → Update R

-- No two are for one symbol.
abbrev pub Distinct : {R : Type 0} → List (Order R) → Type 0
Distinct [] = Unit
Distinct (o ∷ os) = All (λ x. o.symbol ≢ x.symbol) os × Distinct os

module _ (num : Double) (clock : ℕ → ℤ) where
  open num use {Real}

  -- The manager after these orders and no other were submitted, in turn.
  pub data Submits : List (Order Real) → Manager Real → Manager Real → Type 0 where
    none : {m : Manager Real} → Submits [] m m
    next :
        {o : Order Real} {os : List (Order Real)} {m n : Manager Real}
        → Submits os (submit_order num clock o m).1 n
        → Submits (o ∷ os) m n

module _ (num : Double) (cast : ℤ → num.Real) (clock : ℕ → ℤ) where
  open num use {Real}

  abbrev pub observe :
      Update Real → StopLossManager Real → Manager Real → StopLossManager Real × Manager Real
  observe (Update.bar b) m orders = on_bar num cast clock b m orders
  observe (Update.tick t) m orders = on_tick num clock t m orders

  abbrev pub observe_all :
      List (Update Real) → StopLossManager Real → Manager Real → StopLossManager Real × Manager Real
  observe_all [] m orders = (m, orders)
  observe_all (u ∷ us) m orders =
      let (m', orders') = observe u m orders in observe_all us m' orders'

module _ (num : Double) (cast : ℤ → num.Real) (clock : ℕ → ℤ) (p : Portfolio num.Real)
    (r : RiskManager num.Real) where
  open num use {Real}

  observe-Outcome :
      (u : Update Real) (m : StopLossManager Real) (orders : Manager Real)
      → Outcome num clock p r m orders (observe num cast clock u m orders)
  unfolding on_bar on_tick
  observe-Outcome (Update.bar b) m orders =
      Outcome-before num clock p r (update_atr-Follows num cast b m) (
        update_from_price-Outcome num clock p r b.symbol b.close b.timestamp
          (update_atr num cast b m) orders)
  observe-Outcome (Update.tick t) m orders =
      update_from_price-Outcome num clock p r t.symbol t.price t.timestamp m orders

  exits_before :
      {t u : Table (StopState Real)} (os : List (Order Real))
      → Follows t u
      → All (IsExit num clock p r u) os
      → All (IsExit num clock p r t) os
  exits_before [] f h = tt
  exits_before (o ∷ os) f h = (IsExit-before num clock p r f h.0, exits_before os f h.1)

  others :
      (o : Order Real) (t : Table (StopState Real)) (os : List (Order Real))
      → ((u : StopState Real) → lookup o.symbol t ≡ some u → u.exit_requested ≡ true)
      → All (IsExit num clock p r t) os
      → All (λ x. o.symbol ≢ x.symbol) os
  others o t [] h e = tt
  others o t (x ∷ os) h e = (
    λ (same : o.symbol ≡ x.symbol).
        ground (arith, h e.0.state (ap (λ (k : ℕ). lookup k t) same ∙ e.0.known), e.0.first),
    others o t os h e.1,
  )

  -- What bars and ticks have led to: the orders `os`, at most one for a symbol.
  abbrev pub Exited : StopLossManager Real → Manager Real → List (Update Real) → Type 0
  Exited m orders us =
      (os : List (Order Real)) × Submits num clock os orders
        (observe_all num cast clock us m orders).1
      × All (IsExit num clock p r m.states) os
      × Distinct os

  Exited-step :
      (us : List (Update Real)) (m : StopLossManager Real) (orders : Manager Real)
      {x : StopLossManager Real × Manager Real}
      → Outcome num clock p r m orders x
      → Exited x.0 x.1 us
      → (os : List (Order Real)) × Submits num clock os orders
          (observe_all num cast clock us x.0 x.1).1
        × All (IsExit num clock p r m.states) os
        × Distinct os
  Exited-step us m orders (Outcome.quiet f) (os, s, e, d) = (os, s, exits_before os f e, d)
  Exited-step us m orders (Outcome.exits {n} o x f h) (os, s, e, d) =
      (o ∷ os, Submits.next s, (x, exits_before os f e), (others o n.states os h e, d))

  -- Whatever bars and ticks come between two updates of positions: the order manager is as if certain orders
  -- and no other were submitted to it in turn, at most one for a symbol, each of them a market order for
  -- the whole of a position that is not zero and had no exit requested at the start, to the side that closes
  -- it. The risk manager lets each of them pass, whatever its limits are.
  pub observe_all-Exited :
      (us : List (Update Real)) (m : StopLossManager Real) (orders : Manager Real)
      → Exited m orders us
  observe_all-Exited [] m orders = ([], Submits.none, tt, tt)
  observe_all-Exited (u ∷ us) m orders =
      let x = observe num cast clock u m orders in
      Exited-step us m orders (observe-Outcome u m orders) (observe_all-Exited us x.0 x.1)
