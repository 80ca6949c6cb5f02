-- ===== src/Compare.antt =====
-- src/compare/mod.rs: the durations of a workload and of its replay, their averages and percentiles,
-- and the regressions.
pub mod Statistics
pub mod Reports
pub mod Thresholds
use pg_retest.Prelude.{
  ℕ, zero, ◌+◌, ◌-◌, ◌%◌, ◌^◌, Bool, true, false, ◌&&◌, not, Option, none, some, List, [], ◌∷◌,
  ◌++◌, length, get_elem?, ltb, if◌then◌else◌, sort_by, sort_by_key, map,
}
use pg_retest.Float.{F64}
use pg_retest.Profile.{Query, Session, WorkloadProfile}
use pg_retest.Replay.Session.{ReplayMode, should_replay, QueryResult, ReplayResults}

-- `iter().sum()` in 64 bits, from a first value on.
abbrev pub sum_from : ℕ → List ℕ → ℕ
sum_from n [] = n
sum_from n (x ∷ xs) = sum_from ((n + x) % 2 ^ 64) xs

unfoldable pub sort_durations : List ℕ → List ℕ
unfolding sort_by_key
sort_durations = sort_by_key (λ n. n)

abbrev pub get_or_zero : Option ℕ → ℕ
get_or_zero none = 0
get_or_zero (some n) = n

abbrev pub min : ℕ → ℕ → ℕ
min a b = if ltb b a then b else a

-- Whether a query takes part; without a mode all do.
abbrev pub takes_part : Option ReplayMode → Query → Bool
takes_part none q = true
takes_part (some m) q = should_replay m q

-- The durations of the queries of a session that take part, and the number of the others.
unfoldable pub session_durations : Option ReplayMode → List Query → List ℕ × ℕ
unfolding should_replay
session_durations mode [] = ([], 0)
session_durations mode (q ∷ qs) =
    let (ds, filtered) = session_durations mode qs in
    if takes_part mode q then (q.duration_us ∷ ds, filtered) else (ds, filtered + 1)

unfoldable pub source_durations : Option ReplayMode → List Session → List ℕ × ℕ
unfolding session_durations
source_durations mode [] = ([], 0)
source_durations mode (s ∷ ss) =
    let (ds, filtered) = session_durations mode s.queries in
    let (es, filtered2) = source_durations mode ss in (ds ++ es, filtered + filtered2)

-- The results of all sessions, one after the other.
abbrev pub all_results : List ReplayResults → List QueryResult
all_results [] = []
all_results (r ∷ rs) = r.query_results ++ all_results rs

abbrev pub count_errors : List QueryResult → ℕ
count_errors [] = 0
count_errors (r ∷ rs) = if r.success then count_errors rs else count_errors rs + 1

pub data CompareOutcome : Type 0 where
  pass regressed errors : CompareOutcome

abbrev pub exit_code : CompareOutcome → ℕ
exit_code pass = 0
exit_code regressed = 1
exit_code errors = 2

module _ (f : F64) where
  open f use {F, of_nat, to_nat, sub, mul, div, round, gt}

  pub record Regression : Type 0 where
    pub sql : List ℕ
    pub original_us : ℕ
    pub replay_us : ℕ
    pub change_pct : F

  pub record ComparisonReport : Type 0 where
    pub total_queries_source : ℕ
    pub total_queries_replayed : ℕ
    pub total_queries_filtered : ℕ
    pub total_errors : ℕ
    pub source_avg_latency_us : ℕ
    pub replay_avg_latency_us : ℕ
    pub source_p50_latency_us : ℕ
    pub replay_p50_latency_us : ℕ
    pub source_p95_latency_us : ℕ
    pub replay_p95_latency_us : ℕ
    pub source_p99_latency_us : ℕ
    pub replay_p99_latency_us : ℕ
    pub regressions : List Regression

  unfoldable pub avg : List ℕ → ℕ
  avg [] = 0
  avg (v ∷ vs) = to_nat (round (div (of_nat (sum_from 0 (v ∷ vs))) (of_nat (length (v ∷ vs)))))

  -- The place of a percentile among `n` values, before it is cut to the last place.
  unfoldable pub percentile_index : (pct n : ℕ) → ℕ
  percentile_index pct n =
      to_nat (round (mul (div (of_nat pct) (of_nat 100)) (sub (of_nat n) (of_nat 1))))

  unfoldable pub percentile : List ℕ → ℕ → ℕ
  unfolding percentile_index
  percentile [] pct = 0
  percentile (v ∷ vs) pct =
      let n = length (v ∷ vs) in
      get_or_zero (get_elem? (v ∷ vs) (min (percentile_index pct n) (n - 1)))

  -- The change in per cent of the captured duration.
  unfoldable pub change_pct : QueryResult → F
  change_pct r =
      mul
        (div (sub (of_nat r.replay_duration_us) (of_nat r.original_duration_us))
          (of_nat r.original_duration_us))
        (of_nat 100)

  unfoldable pub is_regression : F → QueryResult → Bool
  unfolding change_pct
  is_regression threshold_pct r = ltb 0 r.original_duration_us && gt (change_pct r) threshold_pct

  unfoldable pub regression_of : QueryResult → Regression
  unfolding change_pct
  regression_of r = record {
    sql = r.sql;
    original_us = r.original_duration_us;
    replay_us = r.replay_duration_us;
    change_pct = change_pct r;
  }

  unfoldable pub find_regressions : F → List QueryResult → List Regression
  unfolding is_regression regression_of
  find_regressions threshold_pct [] = []
  find_regressions threshold_pct (r ∷ rs) =
      let rest = find_regressions threshold_pct rs in
      if is_regression threshold_pct r then regression_of r ∷ rest else rest

  -- The worst first. No change that exceeds a threshold is NaN, so that any two can be compared.
  unfoldable pub sort_regressions : List Regression → List Regression
  unfolding sort_by
  sort_regressions = sort_by (λ a b. not (gt b.change_pct a.change_pct))

  unfoldable pub compute_comparison :
      WorkloadProfile → List ReplayResults → F → Option ReplayMode → ComparisonReport
  unfolding source_durations sort_durations avg percentile find_regressions sort_regressions
  compute_comparison source results threshold_pct mode =
      let (durations, filtered) = source_durations mode source.sessions in
      let rs = all_results results in
      let ds = sort_durations durations in
      let es = sort_durations (map (λ (r : QueryResult). r.replay_duration_us) rs) in
      record {
        total_queries_source = length ds;
        total_queries_replayed = length es;
        total_queries_filtered = filtered;
        total_errors = count_errors rs;
        source_avg_latency_us = avg ds;
        replay_avg_latency_us = avg es;
        source_p50_latency_us = percentile ds 50;
        replay_p50_latency_us = percentile es 50;
        source_p95_latency_us = percentile ds 95;
        replay_p95_latency_us = percentile es 95;
        source_p99_latency_us = percentile ds 99;
        replay_p99_latency_us = percentile es 99;
        regressions = sort_regressions (find_regressions threshold_pct rs);
      }

  abbrev is_empty : List Regression → Bool
  is_empty [] = true
  is_empty (r ∷ rs) = false

  unfoldable pub evaluate_outcome :
      ComparisonReport → (fail_on_regression fail_on_error : Bool) → CompareOutcome
  evaluate_outcome report fail_on_regression fail_on_error =
      if fail_on_error && ltb 0 report.total_errors
      then errors
      else if fail_on_regression && not (is_empty report.regressions)
      then regressed
      else pass
