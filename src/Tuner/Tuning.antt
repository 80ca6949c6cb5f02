-- ===== src/Tuner/Tuning.antt =====
-- src/tuner/mod.rs: the tuning loop. The replay of the workload, the context that is collected, the
-- advice and the database are parameters: each sees the state of the database, and may fail. The
-- analysis of the workload, the connection and what is logged are left out; `print` is how a float
-- is printed with a sign and one decimal place.
pub mod Guarded
pub mod Reverting
use pg_retest.Prelude.{
  ℕ, zero, suc, ◌+◌, ◌==◌, Bool, true, false, Option, none, some, List, [], ◌∷◌, ◌++◌, map, codes,
  length, ℤ, pos, negate, add_nat, if◌then◌else◌,
}
use pg_retest.Sql.Lex.Scan.{Unicode}
use pg_retest.Text.Decimal.{decimal, signed_decimal}
use pg_retest.Float.{F64}
use pg_retest.Profile.{WorkloadProfile}
use pg_retest.Replay.Session.{ReplayMode, read_write, read_only, ReplayResults}
use pg_retest.Compare.{compute_comparison, ComparisonReport}
use pg_retest.Tuner.Safety.{Recommendation, check_production_hostname, validate_recommendations}
use pg_retest.Tuner.Apply.{AppliedChange, RollbackResult, apply_all, rollback_all, reload_sql}

-- What of the configuration the loop looks at.
pub record TuningConfig : Type 0 where
  pub target : List ℕ
  pub max_iterations : ℕ
  pub apply : Bool
  pub force : Bool
  pub is_read_only : Bool

abbrev pub replay_mode : TuningConfig → ReplayMode
replay_mode config = if config.is_read_only then read_only else read_write

abbrev pub count_successes : List AppliedChange → ℕ
count_successes [] = 0
count_successes (c ∷ cs) = if c.success then count_successes cs + 1 else count_successes cs

abbrev pub count_rolled_back : List RollbackResult → ℕ
count_rolled_back [] = 0
count_rolled_back (r ∷ rs) = if r.success then count_rolled_back rs + 1 else count_rolled_back rs

abbrev pub count_failed : List RollbackResult → ℕ
count_failed [] = 0
count_failed (r ∷ rs) = if r.success then count_failed rs else count_failed rs + 1

-- The dash of the texts.
abbrev pub dash : List ℕ
dash = 0xE2 ∷ 0x80 ∷ 0x94 ∷ []

abbrev pub is_empty {ℓ} : {A : Type ℓ} → List A → Bool
is_empty [] = true
is_empty (x ∷ xs) = false

module _ (f : F64) where
  open f use {F, of_nat, sub, mul, div, neg, gt}

  pub record ComparisonSummary : Type 0 where
    pub p50_change_pct : F
    pub p95_change_pct : F
    pub p99_change_pct : F
    pub regressions : ℕ
    pub improvements : ℕ
    pub errors_delta : ℤ

  pub record TuningIteration : Type 0 where
    pub iteration : ℕ
    pub recommendations : List Recommendation
    pub applied : List AppliedChange
    pub comparison : Option ComparisonSummary
    pub llm_feedback : List ℕ

  pub data TuningEvent : Type 0 where
    baseline_started : TuningEvent
    iteration_started : (iteration max_iterations : ℕ) → TuningEvent
    recommendations_received : ℕ → List Recommendation → TuningEvent
    change_applied : ℕ → AppliedChange → TuningEvent
    replay_completed : ℕ → ComparisonSummary → TuningEvent
    rollback_started : ℕ → TuningEvent
    rollback_completed : (iteration rolled_back failed : ℕ) → TuningEvent

  unfoldable pub pct_change : (baseline current : ℕ) → F
  pct_change baseline current =
      if baseline == 0
      then of_nat 0
      else mul (div (sub (of_nat current) (of_nat baseline)) (of_nat baseline)) (of_nat 100)

  -- The numbers of errors are below 2^63.
  unfoldable pub summary_of : (baseline report : ComparisonReport f) → ComparisonSummary
  unfolding pct_change
  summary_of baseline report = record {
    p50_change_pct = pct_change baseline.replay_p50_latency_us report.replay_p50_latency_us;
    p95_change_pct = pct_change baseline.replay_p95_latency_us report.replay_p95_latency_us;
    p99_change_pct = pct_change baseline.replay_p99_latency_us report.replay_p99_latency_us;
    regressions = length report.regressions;
    improvements = 0;
    errors_delta = add_nat (negate (pos baseline.total_errors)) report.total_errors;
  }

  unfoldable pub feedback_of : (F → List ℕ) → ComparisonSummary → List ℕ
  unfolding decimal signed_decimal
  feedback_of print c =
      codes "p50: "
      ++ (print c.p50_change_pct
          ++ (codes "%, p95: "
              ++ (print c.p95_change_pct
                  ++ (codes "%, p99: "
                      ++ (print c.p99_change_pct
                          ++ (codes "%, "
                              ++ (decimal c.regressions
                                  ++ (codes " regressions, "
                                      ++ (signed_decimal c.errors_delta
                                          ++ codes " errors delta.")))))))))

  abbrev last_change : List TuningIteration → Option ComparisonSummary
  last_change [] = none
  last_change (i ∷ []) = i.comparison
  last_change (i ∷ j ∷ is) = last_change (j ∷ is)

  abbrev improvement : Option ComparisonSummary → F
  improvement none = of_nat 0
  improvement (some c) = neg c.p95_change_pct

  unfoldable pub total_improvement_pct : List TuningIteration → F
  total_improvement_pct its = improvement (last_change its)

  module _ (D : Type 0) where
    pub record State : Type 0 where
      pub db : D
      pub iterations : List TuningIteration
      pub all_changes : List AppliedChange
      pub events : List TuningEvent

    -- How an iteration ends: the loop goes on, it is left, or an error is returned.
    pub data Next : Type 0 where
      continue : State → Next
      stop : State → Next
      fail : State → Next

    abbrev pub state_of : Next → State
    state_of (continue st) = st
    state_of (stop st) = st
    state_of (fail st) = st

    abbrev pub note : List TuningEvent → State → State
    note es st = record st { events = st.events ++ es }

    abbrev pub finish_iteration : TuningIteration → State → State
    finish_iteration it st = record st { iterations = st.iterations ++ it ∷ [] }

    abbrev pub move : D → State → State
    move db st = record st { db = db }

    module _ (u : Unicode) (batch_execute : List ℕ → D → Option (List ℕ) × D)
        (run_replay : ReplayMode → D → Option (List ReplayResults) × D) (Context : Type 0)
        (collect_context : D → Option Context × D)
        (recommend : Context → List TuningIteration → Option (List Recommendation))
        (print : F → List ℕ) (profile : WorkloadProfile) (config : TuningConfig) where
      abbrev pub report_of : List ReplayResults → ComparisonReport f
      report_of results =
          compute_comparison f profile results (of_nat 20) (some (replay_mode config))

      -- A regression: the changes of the iteration are rolled back, and the loop is left.
      unfoldable pub roll_back :
          ℕ → List Recommendation → List AppliedChange → ComparisonSummary → State → State
      unfolding rollback_all feedback_of
      roll_back i recs applied c st =
          let (results, db) = rollback_all u D batch_execute applied st.db in
          let st1 =
            note
              (rollback_started i
                ∷ rollback_completed i (count_rolled_back results) (count_failed results)
                ∷ [])
              (move (batch_execute reload_sql db).1 st) in
          finish_iteration
            (record {
              iteration = i;
              recommendations = recs;
              applied = applied;
              comparison = some c;
              llm_feedback =
                  feedback_of print c
                  ++ (codes " " ++ (dash ++ codes " ROLLED BACK due to regression."));
            })
            st1

      -- The replay behind the changes has ended.
      unfoldable pub judge :
          ℕ → List Recommendation → List AppliedChange → ComparisonSummary → State → Next
      unfolding roll_back feedback_of
      judge i recs applied c st =
          let st1 = note (replay_completed i c ∷ []) st in
          if gt c.p95_change_pct (of_nat 5)
          then stop (roll_back i recs applied c st1)
          else continue (
              finish_iteration
                (record {
                  iteration = i;
                  recommendations = recs;
                  applied = applied;
                  comparison = some c;
                  llm_feedback = feedback_of print c;
                })
                st1)

      unfoldable pub measure :
          ComparisonReport f → ℕ → List Recommendation → List AppliedChange → State → Next
      unfolding judge summary_of compute_comparison
      measure baseline i recs applied st =
          let (results, db) = run_replay (replay_mode config) st.db in
          elim results [
            | none ↦ fail (move db st)
            | some rs ↦ judge i recs applied (summary_of baseline (report_of rs)) (move db st)
          ]

      -- An iteration that changes nothing, with the reason.
      abbrev pub unchanged : ℕ → List Recommendation → List AppliedChange → List ℕ → TuningIteration
      unchanged i recs applied reason = record {
        iteration = i;
        recommendations = recs;
        applied = applied;
        comparison = none;
        llm_feedback = reason;
      }

      unfoldable pub apply_safe :
          ComparisonReport f → ℕ → (recs safe : List Recommendation) → State → Next
      unfolding measure apply_all
      apply_safe baseline i recs safe st =
          let (applied, db) = apply_all u D batch_execute safe st.db in
          let st1 = note (map (change_applied i) applied) (move db st) in
          let st2 = record st1 { all_changes = st1.all_changes ++ applied } in
          elim (count_successes applied == 0) [
            | true ↦ stop (
                finish_iteration
                  (unchanged i recs applied (codes "No changes applied successfully.")) st2)
            | false ↦ measure baseline i recs applied st2
          ]

      unfoldable pub advised : ComparisonReport f → ℕ → List Recommendation → State → Next
      unfolding apply_safe validate_recommendations
      advised baseline i recs st =
          let st1 = note (recommendations_received i recs ∷ []) st in
          let safe = (validate_recommendations u recs).0 in
          if is_empty safe
          then stop (
              finish_iteration
                (unchanged i recs [] (codes "All recommendations rejected by safety layer.")) st1)
          else if config.apply
          then apply_safe baseline i recs safe st1
          else stop (
              finish_iteration
                (unchanged i recs [] (codes "Dry-run " ++ (dash ++ codes " not applied."))) st1)

      abbrev pub ask : ComparisonReport f → ℕ → Option (List Recommendation) → State → Next
      ask baseline i none st = fail st
      ask baseline i (some []) st = stop st
      ask baseline i (some (r ∷ recs)) st = advised baseline i (r ∷ recs) st

      -- The body of the loop.
      unfoldable pub iterate : ComparisonReport f → ℕ → State → Next
      unfolding advised
      iterate baseline i st =
          let st1 = note (iteration_started i config.max_iterations ∷ []) st in
          let (context, db) = collect_context st1.db in
          let st2 = move db st1 in
          elim context [ none ↦ fail st2 | some c ↦ ask baseline i (recommend c st.iterations) st2 ]

      -- The state at the end, and whether there was no error.
      unfoldable pub iterations_from : ComparisonReport f → (remaining i : ℕ) → State → State × Bool
      unfolding iterate
      iterations_from baseline zero i st = (st, true)
      iterations_from baseline (suc k) i st = elim (iterate baseline i st) [
        | continue st1 ↦ iterations_from baseline k (i + 1) st1
        | stop st1 ↦ (st1, true)
        | fail st1 ↦ (st1, false)
      ]

      abbrev pub first_state : D → State
      first_state db = record {
        db = db;
        iterations = [];
        all_changes = [];
        events = baseline_started ∷ [];
      }

      -- The workload is replayed twice, and the second pass measured.
      unfoldable pub run_tuning : D → State × Bool
      unfolding iterations_from check_production_hostname compute_comparison
      run_tuning db = elim (check_production_hostname u config.target config.force) [
        | false ↦ (record (first_state db) { events = [] }, false)
        | true ↦
            let (warmup, db1) = run_replay (replay_mode config) db in
            elim warmup [
              | none ↦ (first_state db1, false)
              | some _ ↦
                  let (results, db2) = run_replay (replay_mode config) db1 in
                  elim results [
                    | none ↦ (first_state db2, false)
                    | some rs ↦
                        iterations_from (report_of rs) config.max_iterations 1 (first_state db2)
                  ]
            ]
      ]
