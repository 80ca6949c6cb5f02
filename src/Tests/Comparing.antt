-- ===== src/Tests/Comparing.antt =====
-- Reports on a small workload.
use mathlib.Core.List.{Perm}
use pg_retest.Prelude.{ℕ, ◌+◌, ◌≡◌, refl, true, false, none, some, List, [], ◌∷◌, codes}
use pg_retest.Profile.{Query, QueryKind, select, insert, Session, WorkloadProfile, postgres}
use pg_retest.Correlate.Map.Store.{assoc}
use pg_retest.Replay.Session.{
  read_only, QueryResult, ReplayResults, Response, rows, World, replay_session,
}
use pg_retest.Compare.{
  compute_comparison, all_results, find_regressions, evaluate_outcome, exit_code,
}
use pg_retest.Compare.Reports.{
  IsOrdered, compute_comparison-IsOrdered, compute_comparison-balanced, count_queries,
}
use pg_retest.Compare.Thresholds.{evaluate_thresholds, all_passed}
use pg_retest.Tests.Data.{ascii, hundredths, hundredths-IsMonotone}

abbrev query : QueryKind → ℕ → Query
query k duration = record {
  sql = codes "q";
  start_offset_us = 0;
  duration_us = duration;
  kind = k;
  transaction_id = none;
  response_values = none;
  original_sql = none;
}

abbrev session : Session
session = record {
  id = 1;
  user = [];
  database = [];
  queries = query select 3 ∷ query insert 5 ∷ query select 2 ∷ [];
}

abbrev profile : WorkloadProfile
profile = record {
  version = 2;
  source_host = [];
  pg_version = [];
  capture_method = [];
  sessions = session ∷ [];
  metadata = record { total_queries = 3; total_sessions = 1; capture_duration_us = 0 };
  source_dialect = postgres;
}

-- Each statement takes 4 microseconds more than the last one.
abbrev slower : List ℕ → ℕ → Response × ℕ × ℕ
slower sql n = (rows [], n, n + 4)

abbrev world : ℕ → World assoc ℕ slower
world n = record { db = n; ids = none }

abbrev result : ℕ → ℕ → QueryResult
result original replayed = record {
  sql = codes "q";
  original_duration_us = original;
  replay_duration_us = replayed;
  success = true;
  error = none;
  id_substitution_count = 0;
}

abbrev results : List ReplayResults
results = record { session_id = 1; query_results = result 3 1 ∷ result 2 5 ∷ [] } ∷ []

compute_comparison-IsOrdered_example :
    IsOrdered hundredths (compute_comparison hundredths profile results 2000 none)
compute_comparison-IsOrdered_example =
    compute_comparison-IsOrdered hundredths hundredths-IsMonotone profile results 2000 none

compute_comparison-balanced_example :
    let report = compute_comparison hundredths profile results 2000 (some read_only) in
    (report.total_queries_replayed ≡ report.total_queries_source)
    × (report.total_queries_source + report.total_queries_filtered ≡ count_queries profile.sessions)
    × Perm report.regressions (find_regressions hundredths 2000 (all_results results))
unfolding replay_session
compute_comparison-balanced_example =
    compute_comparison-balanced hundredths assoc ℕ slower ascii profile results 2000 read_only
      ((world 1, world 9, refl), tt)

-- The slower query is a regression of 150 per cent.
report_run :
    (compute_comparison hundredths profile results 2000 (some read_only)).replay_p95_latency_us ≡ 5
unfolding compute_comparison
report_run = refl

outcome_run :
    exit_code (
      evaluate_outcome hundredths
        (compute_comparison hundredths profile results 2000 (some read_only))
        true
        true)
    ≡ 1
unfolding compute_comparison evaluate_outcome
outcome_run = refl

thresholds_run :
    all_passed hundredths (
      evaluate_thresholds hundredths
        (compute_comparison hundredths profile results 2000 (some read_only))
        (record {
          p95_max_ms = some 1;
          p99_max_ms = none;
          error_rate_max_pct = some 0;
          regression_max_count = some 0;
        }))
    ≡ false
unfolding compute_comparison evaluate_thresholds all_passed
thresholds_run = refl
