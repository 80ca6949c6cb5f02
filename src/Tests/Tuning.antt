-- ===== src/Tests/Tuning.antt =====
-- The tuner on a database with one setting.
use mathlib.Core.Option
use pg_retest.Prelude.{
  ℕ, ◌+◌, ◌≡◌, refl, subst, Bool, true, false, Option, none, some, List, [], ◌∷◌, codes, bytes_eq,
  if◌then◌else◌, All,
}
use pg_retest.Text.{to_lowercase}
use pg_retest.Profile.{WorkloadProfile, postgres}
use pg_retest.Compare.{ComparisonReport, compute_comparison}
use pg_retest.Replay.Session.{ReplayMode, ReplayResults}
use pg_retest.Tuner.Safety.{Recommendation, config_change, schema_change, validate_recommendations}
use pg_retest.Tuner.Apply.{
  apply_all, rollback_all, set_sql, reload_sql, extract_index_name, statements, escape_pg_value,
}
use pg_retest.Tuner.Apply.Rollback.{
  Sets, Described, rollback_all-restores, rollback_all-reload_failed,
}
use pg_retest.Tuner.Tuning.{
  TuningConfig, TuningIteration, State, iterate, state_of, first_state, report_of, run_tuning,
}
use pg_retest.Tuner.Apply.Permitted.{IsSingle}
use pg_retest.Tuner.Tuning.Guarded.{Keeping, run_tuning-keeps}
use pg_retest.Tuner.Tuning.Reverting.{IsQuiet, Leaves, iterate-restores}
use pg_retest.Tests.Data.{ascii, hundredths}

work_mem-escaped : escape_pg_value (codes "it's") ≡ codes "it''s"
unfolding escape_pg_value
work_mem-escaped = refl

index-named :
    extract_index_name ascii (codes "create unique index if not exists idx_u on t (c)")
    ≡ some (codes "idx_u")
unfolding extract_index_name
index-named = refl

index-unnamed : extract_index_name ascii (codes "CREATE INDEX ON t (c)") ≡ none
unfolding extract_index_name
index-unnamed = refl

-- A quoted name with a space is cut.
index-quoted :
    extract_index_name ascii (codes "CREATE INDEX \"my idx\" ON t (c)") ≡ some (codes "\"my")
unfolding extract_index_name
index-quoted = refl

analyze-split :
    statements (codes "ANALYZE; DROP TABLE users ;")
    ≡ codes "ANALYZE" ∷ codes "DROP TABLE users" ∷ []
unfolding statements
analyze-split = refl

abbrev name : List ℕ
name = codes "work_mem"

abbrev old : List ℕ
old = codes "4MB"

abbrev new : List ℕ
new = codes "64MB"

-- The state is the value of the setting.
abbrev batch_execute : List ℕ → List ℕ → Option (List ℕ) × List ℕ
unfolding set_sql
batch_execute sql db =
    if bytes_eq sql (set_sql name new)
    then (none, new)
    else if bytes_eq sql (set_sql name old)
    then (none, old)
    else (none, db)

abbrev value : List ℕ → List ℕ → List ℕ
value db k = if bytes_eq k name then db else []

abbrev advice : List Recommendation
advice = config_change name old new [] ∷ config_change name old new [] ∷ []

two_ifs :
    (b : Bool) (x y z : List ℕ) → (if b then x else z) ≡ (if b then x else (if b then y else z))
two_ifs true x y z = refl
two_ifs false x y z = refl

Sets-new : Sets ascii (List ℕ) batch_execute value name new
unfolding set_sql to_lowercase
Sets-new db k = two_ifs (bytes_eq k name) new db []

Sets-old : Sets ascii (List ℕ) batch_execute value name old
unfolding set_sql to_lowercase
Sets-old db k = two_ifs (bytes_eq k name) old db []

rollback_all-restores_example :
    value
      (rollback_all ascii
        (List ℕ)
        batch_execute
        (apply_all ascii (List ℕ) batch_execute advice old).0
        (apply_all ascii (List ℕ) batch_execute advice old).1).1
      name
    ≡ value old name
unfolding set_sql apply_all rollback_all to_lowercase
rollback_all-restores_example =
    rollback_all-restores ascii (List ℕ) batch_execute value advice old
      (apply_all ascii (List ℕ) batch_execute advice old).1 (λ db k. refl, λ db. refl)
      ((Sets-new, Sets-old, refl), ((Sets-new, Sets-old, refl), tt)) (λ k. refl) (refl, (refl, tt))
      name

-- The same, but a reload fails.
abbrev no_reload : List ℕ → List ℕ → Option (List ℕ) × List ℕ
unfolding set_sql
no_reload sql db =
    if bytes_eq sql (set_sql name new)
    then (none, new)
    else if bytes_eq sql reload_sql
    then (some (codes "no"), db)
    else (none, db)

Sets-no_reload : Sets ascii (List ℕ) no_reload value name new
unfolding set_sql to_lowercase
Sets-no_reload db k = two_ifs (bytes_eq k name) new db []

rollback_all-reload_failed_example :
    let changed = apply_all ascii (List ℕ) no_reload (config_change name old new [] ∷ []) old in
    let undone = rollback_all ascii (List ℕ) no_reload changed.0 changed.1 in
    (undone.0 ≡ []) × (value undone.1 (to_lowercase ascii name) ≡ new)
unfolding set_sql
rollback_all-reload_failed_example =
    rollback_all-reload_failed ascii (List ℕ) no_reload value name old new [] (codes "no") old
      Sets-no_reload (λ db k. refl) refl refl

-- A replay is slow where the setting is new, and the model recommends it whatever it hears.
abbrev results_in : ℕ → List ReplayResults
results_in duration =
    record {
      session_id = 1;
      query_results =
          record {
            sql = codes "SELECT 1";
            original_duration_us = 100;
            replay_duration_us = duration;
            success = true;
            error = none;
            id_substitution_count = 0;
          }
          ∷ [];
    }
    ∷ []

abbrev run_replay : ReplayMode → List ℕ → Option (List ReplayResults) × List ℕ
run_replay mode db = (some (results_in (if bytes_eq db new then 200 else 100)), db)

abbrev collect_context : List ℕ → Option ℕ × List ℕ
collect_context db = (some 0, db)

abbrev print : ℕ → List ℕ
print n = []

abbrev profile : WorkloadProfile
profile = record {
  version = 2;
  source_host = [];
  pg_version = [];
  capture_method = [];
  sessions = [];
  metadata = record { total_queries = 0; total_sessions = 0; capture_duration_us = 0 };
  source_dialect = postgres;
}

abbrev config : TuningConfig
config = record {
  target = codes "host=localhost";
  max_iterations = 3;
  apply = true;
  force = false;
  is_read_only = false;
}

abbrev recommend : ℕ → List (TuningIteration hundredths) → Option (List Recommendation)
recommend c its = some advice

abbrev baseline : ComparisonReport hundredths
unfolding compute_comparison
baseline =
    report_of hundredths (List ℕ) ascii batch_execute run_replay ℕ collect_context recommend print
      profile config (results_in 100)

abbrev begun : State hundredths (List ℕ)
begun =
    first_state hundredths (List ℕ) ascii batch_execute run_replay ℕ collect_context recommend print
      profile config old

abbrev ended : State hundredths (List ℕ)
unfolding iterate compute_comparison set_sql
ended = state_of hundredths (List ℕ) (
    iterate hundredths (List ℕ) ascii batch_execute run_replay ℕ collect_context recommend print
      profile config baseline 1 begun)

answered :
    (b c : Bool) (db : List ℕ)
    → (if b
        then (let x : Option (List ℕ) × List ℕ = (none, new) in x)
        else if c
        then (none, old)
        else (none, db)).0
      ≡ none
answered true c db = refl
answered false true db = refl
answered false false db = refl

quiet :
    IsQuiet hundredths
      (List ℕ)
      ascii
      batch_execute
      run_replay
      ℕ
      collect_context
      recommend
      print
      profile
      config
      value
unfolding set_sql
quiet = record {
  never = λ sql db. answered (bytes_eq sql (set_sql name new)) (bytes_eq sql (set_sql name old)) db;
  reloads = λ db k. refl;
  replays = λ m db k. refl;
  contexts = λ db k. refl;
}

iterate-restores_example :
    Leaves hundredths
      (List ℕ)
      ascii
      batch_execute
      run_replay
      ℕ
      collect_context
      recommend
      print
      profile
      config
      value
      (value begun.db)
      (iterate hundredths
        (List ℕ)
        ascii
        batch_execute
        run_replay
        ℕ
        collect_context
        recommend
        print
        profile
        config
        baseline
        1
        begun)
unfolding set_sql validate_recommendations to_lowercase
iterate-restores_example =
    iterate-restores hundredths (List ℕ) ascii batch_execute run_replay ℕ collect_context recommend
      print profile config value quiet baseline 1 begun
      (λ c recs e.
        subst
          (λ rs.
            All (Described ascii (List ℕ) batch_execute value (value old))
              (validate_recommendations ascii rs).0)
          (Option.some-injective _ recs e)
          ((Sets-new, Sets-old, refl), ((Sets-new, Sets-old, refl), tt)))

-- The iteration ends the loop, with the setting as it was.
ended-old : ended.db ≡ old
unfolding iterate compute_comparison set_sql validate_recommendations
ended-old = refl

-- Where the replay of an iteration fails, the setting stays as it was applied.
abbrev no_replay : ReplayMode → List ℕ → Option (List ReplayResults) × List ℕ
no_replay mode db = (none, db)

replay_fails-new :
    (state_of hundredths (List ℕ) (
      iterate hundredths
        (List ℕ)
        ascii
        batch_execute
        no_replay
        ℕ
        collect_context
        recommend
        print
        profile
        config
        baseline
        1
        begun)).db
    ≡ new
unfolding iterate compute_comparison set_sql validate_recommendations
replay_fails-new = refl

-- A schema that no permitted statement touches here: the database counts what it is sent.
abbrev count_statements : List ℕ → ℕ × ℕ → Option (List ℕ) × (ℕ × ℕ)
count_statements sql (version, sent) = (none, (version, sent + 1))

abbrev replay_nothing : ReplayMode → ℕ × ℕ → Option (List ReplayResults) × (ℕ × ℕ)
replay_nothing mode db = (some [], db)

abbrev look : ℕ × ℕ → Option ℕ × (ℕ × ℕ)
look db = (some 0, db)

abbrev advise : ℕ → List (TuningIteration hundredths) → Option (List Recommendation)
advise c its = some (schema_change (codes "ANALYZE t;") [] [] ∷ advice)

one_statement : statements (codes "ANALYZE t;") ≡ codes "ANALYZE t" ∷ []
unfolding statements
one_statement = refl

kept :
    Keeping hundredths
      (ℕ × ℕ)
      ascii
      count_statements
      replay_nothing
      ℕ
      look
      advise
      print
      profile
      config
      (λ db. db.0 ≡ 5)
kept = record {
  singles = λ c past recs e.
      subst (All (IsSingle ascii)) (Option.some-injective _ recs e)
        ((codes "ANALYZE t", one_statement), (tt, (tt, tt)));
  replays = λ checked db h. h;
  contexts = λ checked db h. h;
  permitted = λ checked applied sql db p h. h;
}

run_tuning-keeps_example :
    (run_tuning hundredths
      (ℕ × ℕ)
      ascii
      count_statements
      replay_nothing
      ℕ
      look
      advise
      print
      profile
      config
      (5, 0)).0.db.0
    ≡ 5
run_tuning-keeps_example =
    run_tuning-keeps hundredths (ℕ × ℕ) ascii count_statements replay_nothing ℕ look advise print
      profile config (λ db. db.0 ≡ 5) kept (5, 0) refl

-- Three iterations, each of which sends the schema change and two statements of each setting.
tuning_sent :
    (run_tuning hundredths
      (ℕ × ℕ)
      ascii
      count_statements
      replay_nothing
      ℕ
      look
      advise
      print
      profile
      config
      (5, 0)).0.db
    ≡ (5, 15)
unfolding run_tuning
tuning_sent = refl

-- A dry run sends none.
dry_run_sent :
    (run_tuning hundredths
      (ℕ × ℕ)
      ascii
      count_statements
      replay_nothing
      ℕ
      look
      advise
      print
      profile
      (record config { apply = false })
      (5, 0)).0.db
    ≡ (5, 0)
unfolding run_tuning
dry_run_sent = refl
