-- ===== src/Risk/Decision.antt =====
-- Which orders `RiskManager::validate` of src/risk/risk_limits.cpp lets pass.
use regime_flow.Base.StringTable.{put, find}
use regime_flow.Risk.Limits.{RiskLimit}
use regime_flow.Engine.Portfolio.{Portfolio}
use regime_flow.Risk.Manager.{
  unless_err, ask_limit, ask_general, RiskManager, validate, ask_regime, ask_all,
}
use regime_flow.Engine.Order.{Order}
use regime_flow.Base.Double.{Double}
use regime_flow.Base.{
  Option-cases, ap, inr, inl, sym, ◌∙◌, value_or, map, is_some, if◌then◌else◌, String, ◌≡◌, ◌++◌,
  List, refl, some, none, ◌∷◌, [],
}
use regime_flow.Result.{Result, Void, ok, err}

-- The first error among answers.
abbrev pub first_error : List (Result Void) → Result Void
first_error [] = ok tt
first_error (ok _ ∷ rs) = first_error rs
first_error (err e ∷ rs) = err e

-- The second answer, unless the first is an error.
abbrev both : Result Void → Result Void → Result Void
both (ok _) s = s
both (err e) s = err e

first_error-append :
    (rs ss : List (Result Void)) → first_error (rs ++ ss) ≡ both (first_error rs) (first_error ss)
first_error-append [] ss = refl
first_error-append (ok _ ∷ rs) ss = first_error-append rs ss
first_error-append (err e ∷ rs) ss = refl

first_error-both :
    (r : Result Void) (rs : List (Result Void)) → both r (first_error rs) ≡ first_error (r ∷ rs)
first_error-both (ok _) rs = refl
first_error-both (err e) rs = refl

answer_unless_err :
    {S : Type 0} (r : Result Void) (next : Result Void × S) (left : S)
    → (unless_err r next left).0 ≡ both r next.0
answer_unless_err (ok _) next left = refl
answer_unless_err (err e) next left = refl

module _ (num : Double) where
  open num use {Real}

  -- What each limit answers.
  abbrev pub answers_of : Order Real → Portfolio Real → List (RiskLimit Real) → List (Result Void)
  answers_of o p ls = map (λ l. (ask_limit num o p l).0) ls

  -- The limits of the order's regime, if there are any.
  abbrev pub regime_limits_of : Order Real → RiskManager Real → List (RiskLimit Real)
  regime_limits_of o m = elim (find "regime" o.metadata) [
    | none ↦ []
    | some regime ↦ value_or (find regime m.regime_limits) []
  ]

  ask_all-first_error :
      (o : Order Real) (p : Portfolio Real) (ls : List (RiskLimit Real))
      → (ask_all num o p ls).0 ≡ first_error (answers_of o p ls)
  unfolding ask_all
  ask_all-first_error o p [] = refl
  ask_all-first_error o p (l ∷ ls) =
      let (answer, l') = ask_limit num o p l in
      let (rest, ls') = ask_all num o p ls in
      answer_unless_err answer (rest, l' ∷ ls') (l' ∷ ls)
      ∙ ap (both answer) (ask_all-first_error o p ls)
      ∙ first_error-both answer (answers_of o p ls)

  ask_regime-first_error :
      (regime : String) (o : Order Real) (p : Portfolio Real) (ls : List (RiskLimit Real))
      (m : RiskManager Real)
      → (ask_regime num regime o p ls m).0
        ≡ first_error (answers_of o p ls ++ answers_of o p m.limits)
  unfolding ask_regime ask_general
  ask_regime-first_error regime o p ls m =
      let (answer, ls') = ask_all num o p ls in
      let m' = record m { regime_limits = put regime ls' m.regime_limits } in
      answer_unless_err answer (ask_general num o p m') m'
      ∙ ap (λ r. both r (ask_all num o p m.limits).0) (ask_all-first_error o p ls)
      ∙ ap (both (first_error (answers_of o p ls))) (ask_all-first_error o p m.limits)
      ∙ sym (first_error-append (answers_of o p ls) (answers_of o p m.limits))

  ask_general-first_error :
      (o : Order Real) (p : Portfolio Real) (m : RiskManager Real)
      → (ask_general num o p m).0 ≡ first_error (answers_of o p m.limits)
  unfolding ask_general
  ask_general-first_error o p m = ask_all-first_error o p m.limits

  no_regime :
      (o : Order Real) (m : RiskManager Real)
      → find "regime" o.metadata ≡ none
      → regime_limits_of o m ≡ []
  no_regime o m f = rw (f, regime_limits_of) refl

  some_regime :
      (regime : String) (o : Order Real) (m : RiskManager Real)
      → find "regime" o.metadata ≡ some regime
      → regime_limits_of o m ≡ value_or (find regime m.regime_limits) []
  some_regime regime o m f = rw (f, regime_limits_of) refl

  -- An order that is marked as a risk exit passes. Any other gets the first error that a limit of its regime
  -- or, after these, a general limit answers with, and passes if there is none.
  pub validate-first_error :
      (o : Order Real) (p : Portfolio Real) (m : RiskManager Real)
      → (validate num o p m).0 ≡ (
          if is_some (find "risk_exit" o.metadata)
          then ok tt
          else first_error (answers_of o p (regime_limits_of o m) ++ answers_of o p m.limits))
  unfolding validate
  validate-first_error o p m = elim (Option-cases (find "risk_exit" o.metadata)) [
    | inr (x, e) ↦ rw (e, validate) refl
    | inl e ↦ elim (Option-cases (find "regime" o.metadata)) [
      | inl f ↦ rw (e, validate, f, no_regime o m f) (ask_general-first_error o p m)
      | inr (regime, f) ↦ elim (Option-cases (find regime m.regime_limits)) [
        | inl g ↦ rw (e, validate, f, some_regime regime o m f, g) (ask_general-first_error o p m)
        | inr (ls, g) ↦
            rw (e, validate, f, some_regime regime o m f, g)
              (ask_regime-first_error regime o p ls m)
      ]
    ]
  ]
