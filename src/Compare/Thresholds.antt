-- ===== src/Compare/Thresholds.antt =====
-- src/compare/threshold.rs: the limits that a report is held against. The texts of the messages are
-- left out.
use pg_retest.Prelude.{
  ℕ, Bool, Option, none, some, List, [], ◌∷◌, ◌++◌, codes, all, length, leb, ltb, if◌then◌else◌,
}
use pg_retest.Float.{F64}
use pg_retest.Compare.{ComparisonReport}

module _ (f : F64) where
  open f use {F, of_nat, mul, div, le}

  -- src/config/mod.rs
  pub record ThresholdConfig : Type 0 where
    pub p95_max_ms : Option F
    pub p99_max_ms : Option F
    pub error_rate_max_pct : Option F
    pub regression_max_count : Option ℕ

  pub record ThresholdResult : Type 0 where
    pub name : List ℕ
    pub passed : Bool
    pub actual : F
    pub limit : F

  unfoldable pub millis : ℕ → F
  millis us = div (of_nat us) (of_nat 1000)

  unfoldable pub error_rate : ComparisonReport f → F
  error_rate report =
      if ltb 0 report.total_queries_replayed
      then mul (div (of_nat report.total_errors) (of_nat report.total_queries_replayed))
          (of_nat 100)
      else of_nat 0

  abbrev pub float_check : List ℕ → F → Option F → List ThresholdResult
  float_check name actual none = []
  float_check name actual (some limit) =
      record { name = name; passed = le actual limit; actual = actual; limit = limit } ∷ []

  abbrev pub count_check : List ℕ → ℕ → Option ℕ → List ThresholdResult
  count_check name actual none = []
  count_check name actual (some limit) =
      record {
        name = name;
        passed = leb actual limit;
        actual = of_nat actual;
        limit = of_nat limit;
      }
      ∷ []

  unfoldable pub evaluate_thresholds : ComparisonReport f → ThresholdConfig → List ThresholdResult
  unfolding millis error_rate
  evaluate_thresholds report config =
      float_check (codes "p95_latency") (millis report.replay_p95_latency_us) config.p95_max_ms
      ++ (float_check (codes "p99_latency") (millis report.replay_p99_latency_us) config.p99_max_ms
          ++ (float_check (codes "error_rate") (error_rate report) config.error_rate_max_pct
              ++ count_check (codes "regression_count") (length report.regressions)
                  config.regression_max_count))

  unfoldable pub all_passed : List ThresholdResult → Bool
  all_passed = all (λ r. r.passed)
