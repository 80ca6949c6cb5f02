-- ===== src/Tests/Scaling.antt =====
-- Scaling by class.
use pg_retest.Prelude.{ℕ, ◌*◌, ◌%◌, ◌≡◌, refl, none, some, List, [], ◌∷◌, codes, map, Option, arith}
use pg_retest.Profile.{Query, QueryKind, select, insert, Session, WorkloadProfile, postgres}
use pg_retest.Classify.{
  WorkloadClass, analytical, transactional, mixed, bulk, classify_session, classify_workload,
}
use pg_retest.Replay.Scaling.ByClass.{scale_sessions_by_class, group}
use pg_retest.Replay.Scaling.ByClass.Result.{Scaled, scale_sessions_by_class-Scaled}
use pg_retest.Tests.Data.{hundredths}

abbrev query : QueryKind → (start duration : ℕ) → Query
query k start duration = record {
  sql = codes "q";
  start_offset_us = start;
  duration_us = duration;
  kind = k;
  transaction_id = none;
  response_values = none;
  original_sql = none;
}

abbrev session : ℕ → List Query → Session
session id queries = record { id = id; user = []; database = []; queries = queries }

-- A bulk session and an analytical one, with ids that are no range.
abbrev profile : WorkloadProfile
profile = record {
  version = 2;
  source_host = [];
  pg_version = [];
  capture_method = [];
  sessions = session 7 (query insert 0 100 ∷ []) ∷ session 3 (query select 500 20000 ∷ []) ∷ [];
  metadata = record { total_queries = 2; total_sessions = 2; capture_duration_us = 0 };
  source_dialect = postgres;
}

-- Bulk sessions three times, the others as they are.
abbrev scales : WorkloadClass → Option ℕ
scales bulk = some 3
scales _ = none

abbrev order : List WorkloadClass
order = mixed ∷ bulk ∷ transactional ∷ analytical ∷ []

scale_sessions_by_class-Scaled_example :
    Scaled
      (λ s. (classify_session hundredths s).class)
      scales
      ((1 * 1000) % 18446744073709551616)
      profile.sessions
      order
      (scale_sessions_by_class hundredths order profile scales 1)
unfolding classify_session group
scale_sessions_by_class-Scaled_example =
    scale_sessions_by_class-Scaled hundredths order profile scales 1
      ((refl, (refl, (refl, tt))), ((refl, (refl, tt)), ((refl, tt), (tt, tt))))
      ((λ e. omega arith, tt), (tt, tt)) (omega arith)

scaled_run :
    map (λ (s : Session). s.id) (scale_sessions_by_class hundredths order profile scales 1)
    ≡ 7 ∷ 3 ∷ 8 ∷ 9 ∷ []
unfolding scale_sessions_by_class
scaled_run = refl

classify_run : (classify_workload hundredths profile).overall_class ≡ bulk
unfolding classify_workload
classify_run = refl
