-- ===== src/Float.antt =====
-- Double-precision numbers, as far as the statistics use them: their type and operations are a
-- parameter.
use pg_retest.Prelude.{ℕ, suc, ◌≤◌, Bool}

pub record F64 : Type 1 where
  pub F : Type 0
  -- `as f64` of an unsigned number, and `as u64` of a float.
  pub of_nat : ℕ → F
  pub to_nat : F → ℕ
  pub sub : F → F → F
  pub mul : F → F → F
  pub div : F → F → F
  pub neg : F → F
  pub round : F → F
  pub gt : F → F → Bool
  pub le : F → F → Bool

-- Where no operand is NaN, these operations are monotone: a quotient by a hundred, a product with a
-- number less one that is not below zero, the rounding and the conversions.
module _ (f : F64) where
  open f use {F, of_nat, to_nat, sub, mul, div, round}

  pub record IsMonotone : Type 1 where
    pub AtMost : F → F → Type 0
    pub of_nat-le : (a b : ℕ) → a ≤ b → AtMost (of_nat a) (of_nat b)
    pub div-le : (a b : F) → AtMost a b → AtMost (div a (of_nat 100)) (div b (of_nat 100))
    pub mul-le :
        (a b : F) (m : ℕ)
        → AtMost a b
        → AtMost (mul a (sub (of_nat (suc m)) (of_nat 1))) (mul b (sub (of_nat (suc m)) (of_nat 1)))
    pub round-le : (a b : F) → AtMost a b → AtMost (round a) (round b)
    pub to_nat-le : (a b : F) → AtMost a b → to_nat a ≤ to_nat b
