-- ===== src/Tests/Compiling.antt =====
-- The compilation of a small workload.
use pg_retest.Prelude.{ℕ, ◌+◌, ◌≡◌, refl, none, some, List, [], ◌∷◌, codes, Option}
use pg_retest.Profile.{Query, select, ResponseRow, WorkloadProfile, postgres}
use pg_retest.Correlate.Map.Store.{assoc}
use pg_retest.Correlate.Compile.{
  compiled, no_responses, panicked, CompileStats, compile_workload, strip_profile, known_ids,
}
use pg_retest.Correlate.Compile.Stripped.{SameReplays, compile_workload-SameReplays}
use pg_retest.Correlate.Compile.Panics.{compile_workload-panics}
use pg_retest.Replay.Session.{Response, rows}
use pg_retest.Tests.Data.{ascii}

abbrev query : List ℕ → Option (List ResponseRow) → Query
query sql values = record {
  sql = sql;
  start_offset_us = 0;
  duration_us = 3;
  kind = select;
  transaction_id = none;
  response_values = values;
  original_sql = none;
}

abbrev profile_of : List Query → WorkloadProfile
profile_of qs = record {
  version = 2;
  source_host = [];
  pg_version = [];
  capture_method = codes "proxy";
  sessions = record { id = 1; user = []; database = []; queries = qs } ∷ [];
  metadata = record { total_queries = 2; total_sessions = 1; capture_duration_us = 6 };
  source_dialect = postgres;
}

abbrev returned : List ℕ → Option (List ResponseRow)
returned val = some (record { columns = (codes "id", val) ∷ [] } ∷ [])

-- The id 42 is returned, and used twice; 420 and x_42 are other words.
abbrev profile : WorkloadProfile
profile = profile_of (
    query (codes "INSERT") (returned (codes "42"))
    ∷ query (codes "a = 42 or b = 420 or x_42 or 42") none
    ∷ [])

abbrev expected_stats : CompileStats
expected_stats = record {
  queries_with_responses = 1;
  unique_captured_ids = 1;
  queries_referencing_ids = 1;
  total_id_references = 2;
}

compile_run : compile_workload profile ≡ compiled (strip_profile profile) expected_stats
unfolding compile_workload
compile_run = refl

abbrev count_statements : List ℕ → ℕ → Response × ℕ × ℕ
count_statements sql n = (rows [], 5, n + 1)

compile_workload-SameReplays_example :
    SameReplays assoc ℕ count_statements ascii (strip_profile profile).sessions profile.sessions
    × (compile_workload (strip_profile profile) ≡ no_responses)
unfolding strip_profile
compile_workload-SameReplays_example =
    compile_workload-SameReplays assoc ℕ count_statements ascii profile (strip_profile profile)
      expected_stats compile_run

-- An empty value, and a statement that begins with a letter of two bytes.
abbrev wide_profile : WorkloadProfile
wide_profile =
    profile_of (query (codes "INSERT") (returned []) ∷ query (0xC3 ∷ 0xA9 ∷ codes " = 1") none ∷ [])

compile_workload-panics_example : compile_workload wide_profile ≡ panicked
unfolding known_ids
compile_workload-panics_example = compile_workload-panics wide_profile refl refl refl
