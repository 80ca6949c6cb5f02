-- ===== src/Tests/Collecting.antt =====
-- The collector and the profile.
use mathlib.Core.List.{Mem}
use pg_retest.Prelude.{ℕ, ◌≡◌, refl, false, none, some, List, [], ◌∷◌, map, foldl, codes, lookup}
use pg_retest.Profile.{WorkloadProfile, Query, postgres, select, from_sql, assign_transaction_ids}
use pg_retest.Proxy.Collector.{
  CaptureEvent, session_start, query_start, query_complete, query_error, session_end,
  CapturedSession, handle, run_collector,
}
use pg_retest.Proxy.Collector.Interleaving.{observe, events_of, handle-events_of}
use pg_retest.Proxy.Collector.Trace.{Statement, captured, run_collector-trace}
use pg_retest.Proxy.Collector.Build.{build_profile}
use pg_retest.Proxy.Collector.Totals.{Describes, build_profile-Describes}
use pg_retest.Tests.Data.{ascii}

-- Two sessions, one of which runs two statements, the second with an error.
abbrev events : List CaptureEvent
events =
    session_start 1 (codes "eve") (codes "shop") 1000
    ∷ query_start 2 (codes "SELECT 2") 1500
    ∷ query_start 1 (codes "SELECT 1") 3000
    ∷ query_complete 2 4000
    ∷ query_complete 1 9000
    ∷ query_start 1 (codes "SELECT x") 10000
    ∷ session_end 2
    ∷ query_error 1 (codes "no x") 12000
    ∷ []

abbrev statement : Statement
statement = record { sql = codes "SELECT 1"; sent = 3000; answered = 9000; error = none }

abbrev failing : Statement
failing = record {
  sql = codes "SELECT x";
  sent = 10000;
  answered = 12000;
  error = some (codes "no x");
}

handle-events_of_example :
    lookup 1 (foldl handle [] events) ≡ foldl observe none (events_of 1 events)
handle-events_of_example = handle-events_of 1 events

run_collector-trace_example :
    Mem
      (record {
        session_id = 1;
        user = codes "eve";
        database = codes "shop";
        queries = map (captured 1000) (statement ∷ failing ∷ []);
      })
      (run_collector events)
run_collector-trace_example =
    run_collector-trace events 1 (codes "eve") (codes "shop") 1000 statement (failing ∷ []) refl

abbrev sessions : List CapturedSession
sessions =
    record { session_id = 4; user = []; database = []; queries = captured 1000 statement ∷ [] }
    ∷ record { session_id = 3; user = []; database = []; queries = captured 1000 failing ∷ [] }
    ∷ []

abbrev query : List ℕ → ℕ → ℕ → Query
query sql start duration = record {
  sql = sql;
  start_offset_us = start;
  duration_us = duration;
  kind = select;
  transaction_id = none;
  response_values = none;
  original_sql = none;
}

abbrev profile : WorkloadProfile
profile = record {
  version = 2;
  source_host = codes "db";
  pg_version = codes "unknown";
  capture_method = codes "proxy";
  sessions =
      record { id = 3; user = []; database = []; queries = query (codes "SELECT x") 9 2 ∷ [] }
      ∷ record { id = 4; user = []; database = []; queries = query (codes "SELECT 1") 2 6 ∷ [] }
      ∷ [];
  metadata = record { total_queries = 2; total_sessions = 2; capture_duration_us = 11 };
  source_dialect = postgres;
}

profile_run : build_profile ascii false sessions (codes "db") ≡ some profile
unfolding build_profile from_sql assign_transaction_ids
profile_run = refl

build_profile-Describes_example : Describes ascii false sessions profile
build_profile-Describes_example =
    build_profile-Describes ascii false sessions (codes "db") profile profile_run
