-- ===== src/Base/Double.antt =====
-- The `double` of the program, which the kernel has no model of: a type with the operations that the
-- code calls. No law is assumed here; a theorem that needs one states it as a hypothesis.
use regime_flow.Base.{Bool, if◌then◌else◌}
use regime_flow.Base.Int.{ℤ, pos, ◌+ℤ◌, ◌-ℤ◌, ◌*ℤ◌, quot_ℤ, ltb_ℤ, leb_ℤ, eqb_ℤ}

pub record Double : Type 1 where
  pub Real : Type 0
  pub nil : Real
  pub one : Real
  pub add : Real → Real → Real
  pub sub : Real → Real → Real
  pub mul : Real → Real → Real
  pub div : Real → Real → Real
  pub abs : Real → Real
  pub lt : Real → Real → Bool
  pub le : Real → Real → Bool
  pub eq : Real → Real → Bool

-- Whole numbers of units, for the tests; a quotient is cut towards zero.
abbrev pub whole : Double
whole = record {
  Real = ℤ;
  nil = pos 0;
  one = pos 1;
  add = ◌+ℤ◌;
  sub = ◌-ℤ◌;
  mul = ◌*ℤ◌;
  div = quot_ℤ;
  abs = λ a. if ltb_ℤ a (pos 0) then pos 0 -ℤ a else a;
  lt = ltb_ℤ;
  le = leb_ℤ;
  eq = eqb_ℤ;
}
