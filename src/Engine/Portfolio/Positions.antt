-- ===== src/Engine/Portfolio/Positions.antt =====
-- What a run of fills leaves in a portfolio (src/engine/portfolio.cpp).
use regime_flow.Base.Table.{lookup-insert, lookup}
use regime_flow.Engine.Portfolio.{Position, Portfolio}
use regime_flow.Engine.Order.{Fill}
use regime_flow.Engine.Portfolio.Updates.{
  blank_position, is_opening, is_void, position_for, open_position, apply_fill, book_fill,
  update_position,
}
use regime_flow.Base.Double.{Double}
use mathlib.Core.List.{append_assoc, append-nil}
use regime_flow.Base.{
  arith, ap, sym, ◌∙◌, value_or, true, fold, select, Bool-cases, ◌++◌, ◌==◌, ◌≡◌, if◌then◌else◌,
  not, Bool, List, Option, ℕ, refl, inr, inl, false, some, none, ◌∷◌, [],
}

module _ (num : Double) where
  open num use {Real, nil, add, sub, mul, eq}

  unfoldable pub update_all : List (Fill Real) → Portfolio Real → Portfolio Real
  unfolding update_position
  update_all [] p = p
  update_all (f ∷ fs) p = update_all fs (update_position num f p)

  abbrev pub counts : Fill Real → Bool
  counts f = not (is_void num f)

  abbrev pub counts_for : ℕ → Fill Real → Bool
  counts_for symbol f = if counts f then f.symbol == symbol else false

  abbrev pub quantity_in : Option (Position Real) → Real
  quantity_in none = nil
  quantity_in (some q) = q.quantity

  abbrev pub quantity_of : ℕ → Portfolio Real → Real
  quantity_of symbol p = quantity_in (lookup symbol p.positions)

  -- The cash that is left after a fill.
  abbrev pub pay : Real → Fill Real → Real
  pay cash f = sub (sub (sub cash (mul f.price f.quantity)) f.commission) f.transaction_cost

  -- That `q` is `p` after these fills: the fills are on record, each is paid for, and each position has the
  -- quantities of its fills added up, all in the order of the fills.
  pub record IsBooked (fs : List (Fill Real)) (p q : Portfolio Real) : Type 0 where
    pub recorded : q.all_fills ≡ p.all_fills ++ select counts fs
    pub paid : q.cash ≡ fold pay p.cash (select counts fs)
    pub held :
        (symbol : ℕ)
        → quantity_of symbol q
          ≡ fold
              (λ (n : Real) (f : Fill Real). add n f.quantity)
              (quantity_of symbol p)
              (select (counts_for symbol) fs)

  quantity-apply_fill :
      (f : Fill Real) (q : Position Real) (r : Real)
      → (apply_fill num f q r).0.quantity ≡ add q.quantity f.quantity
  unfolding apply_fill open_position
  quantity-apply_fill f q r = elim (Bool-cases (is_opening num q.quantity f.quantity)) [
    | inl e ↦ rw e refl
    | inr e ↦ rw e refl
  ]

  quantity-position_for :
      (f : Fill Real) (p : Portfolio Real)
      → (position_for num f p).quantity ≡ quantity_of f.symbol p
  quantity-position_for f p = cases (lookup f.symbol p.positions)
    where
      cases :
          (o : Option (Position Real))
          → (let q = value_or o (blank_position num) in
              if q.symbol == 0 then record q { symbol = f.symbol } else q).quantity
            ≡ quantity_in o
      cases none = refl
      cases (some q) = elim (Bool-cases (q.symbol == 0)) [ inl e ↦ rw e refl | inr e ↦ rw e refl ]

  pub quantity-book_fill :
      (f : Fill Real) (symbol : ℕ) (p : Portfolio Real)
      → quantity_of symbol (book_fill num f p) ≡ (
          if f.symbol == symbol
          then add (quantity_of symbol p) f.quantity
          else quantity_of symbol p)
  unfolding book_fill
  quantity-book_fill f symbol p =
      let (q, r) = apply_fill num f (position_for num f p) p.realized_pnl in
      let q' = record q { current_price = f.price; last_update = f.timestamp } in
      ap quantity_in (lookup-insert f.symbol symbol q' p.positions)
      ∙ cases (f.symbol == symbol) refl q' (
          quantity-apply_fill f (position_for num f p) p.realized_pnl
          ∙ ap (λ n. add n f.quantity) (quantity-position_for f p))
    where
      cases :
          (d : Bool)
          → (f.symbol == symbol) ≡ d
          → (q : Position Real) → q.quantity ≡ add (quantity_of f.symbol p) f.quantity
          → quantity_in (if d then some q else lookup symbol p.positions)
            ≡ (if d then add (quantity_of symbol p) f.quantity else quantity_of symbol p)
      cases true e q h =
          h
          ∙ ap (λ s. add (quantity_of s p) f.quantity)
              (let same : f.symbol ≡ symbol = ground (arith, e) in same)
      cases false e q h = refl

  -- A fill that does not count is in no sum, and one that does is in front.
  first_counts :
      (f : Fill Real) (fs : List (Fill Real)) (p q : Portfolio Real)
      → is_void num f ≡ false
      → IsBooked fs (book_fill num f p) q
      → IsBooked (f ∷ fs) p q
  first_counts f fs p q e b = record {
    recorded =
        rw e
          (b.recorded ∙ unfold book_fill in append_assoc p.all_fills (f ∷ []) (select counts fs));
    paid = rw e (b.paid ∙ unfold book_fill in refl);
    held = λ symbol. rw e (
        b.held symbol
        ∙ ap (λ n. fold plus n (select (counts_for symbol) fs)) (quantity-book_fill f symbol p)
        ∙ cases symbol (f.symbol == symbol));
  }
    where
      plus : Real → Fill Real → Real
      plus n g = add n g.quantity

      cases :
          (symbol : ℕ) (d : Bool)
          → (let rest = select (counts_for symbol) fs in
              fold plus
                (if d then add (quantity_of symbol p) f.quantity else quantity_of symbol p)
                rest
              ≡ fold plus (quantity_of symbol p) (if d then f ∷ rest else rest))
      cases symbol true = refl
      cases symbol false = refl

  first_void :
      (f : Fill Real) (fs : List (Fill Real)) (p q : Portfolio Real)
      → is_void num f ≡ true
      → IsBooked fs p q
      → IsBooked (f ∷ fs) p q
  first_void f fs p q e b = record {
    recorded = rw e b.recorded;
    paid = rw e b.paid;
    held = λ symbol. rw e (b.held symbol);
  }

  -- After any fills the portfolio has on record those that count, has paid for each, and holds in each symbol
  -- the old quantity with the quantities of its fills added, whatever the arithmetic is. A fill of no symbol
  -- or of no quantity does not count.
  pub update_all-IsBooked :
      (fs : List (Fill Real)) (p : Portfolio Real) → IsBooked fs p (update_all fs p)
  unfolding update_all
  update_all-IsBooked [] p = record {
    recorded = sym (append-nil p.all_fills);
    paid = refl;
    held = λ symbol. refl;
  }
  update_all-IsBooked (f ∷ fs) p = elim (Bool-cases (is_void num f)) [
    | inl e ↦
        rw (e, update_position) (first_void f fs p (update_all fs p) e (update_all-IsBooked fs p))
    | inr e ↦
        rw (e, update_position)
          (first_counts f fs p (update_all fs (book_fill num f p)) e
            (update_all-IsBooked fs (book_fill num f p)))
  ]
