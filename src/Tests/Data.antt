-- ===== src/Tests/Data.antt =====
-- Unicode tables without letters or case beyond ASCII, and deciders for conditions on all bytes.
use native.Mathlib.Nat.{mul-le-mul_right}
use pg_retest.Prelude.{
  ℕ, suc, ◌+◌, ◌-◌, ◌*◌, ◌/◌, ◌≤◌, ◌≡◌, ◌≢◌, true, false, not, List, [], ◌∷◌, all, All, ◌==◌, ltb,
  leb, if◌then◌else◌, arith,
}
use pg_retest.Float.{F64, IsMonotone}
use pg_retest.Sql.Lex.Scan.{Unicode}
use pg_retest.Sql.Lex.Widths.{LetterLaw}

abbrev pub ascii : Unicode
ascii = record {
  alphabetic = λ c. false;
  alphanumeric = λ c. false;
  upper = λ c. [];
  lower = λ c. [];
}

pub ascii-LetterLaw : LetterLaw ascii
ascii-LetterLaw c h = h

-- A byte occurs nowhere in a text.
pub all_differ : (n : ℕ) (s : List ℕ) → all (λ b. not (b == n)) s ≡ true → All (λ b. b ≢ n) s
all_differ n [] h = tt
all_differ n (b ∷ s) h =
    (λ e. (let no : ⊥ = ground (arith, h, e) in no), all_differ n s (ground (arith, h)))

-- Hundredths in place of floating-point numbers.
abbrev pub hundredths : F64
hundredths = record {
  F = ℕ;
  of_nat = λ n. n * 100;
  to_nat = λ a. a / 100;
  sub = λ a b. a - b;
  mul = λ a b. a * b / 100;
  div = λ a b. if b == 0 then 0 else a * 100 / b;
  neg = λ a. a;
  round = λ a. (a + 50) / 100 * 100;
  gt = λ a b. ltb b a;
  le = λ a b. leb a b;
}

pub hundredths-IsMonotone : IsMonotone hundredths
hundredths-IsMonotone = record {
  AtMost = λ a b. a ≤ b;
  of_nat-le = λ a b h. omega arith;
  div-le = λ a b h. omega arith;
  mul-le = λ a b m h. let p = mul-le-mul_right (suc m * 100 - 1 * 100) h in omega arith;
  round-le = λ a b h. omega arith;
  to_nat-le = λ a b h. omega arith;
}
