-- ===== src/Tuner/Tuning/Guarded.antt =====
-- What a whole run of the tuner may do to the database.
use pg_retest.Prelude.{
  ℕ, zero, suc, ◌+◌, ◌==◌, ◌≡◌, refl, inl, inr, Bool, true, false, Option, none, some, List, [],
  ◌∷◌, Bool-cases, Option-cases, All,
}
use pg_retest.Sql.Lex.Scan.{Unicode}
use pg_retest.Float.{F64}
use pg_retest.Profile.{WorkloadProfile}
use pg_retest.Replay.Session.{ReplayMode, ReplayResults}
use pg_retest.Compare.{ComparisonReport}
use pg_retest.Tuner.Safety.{Recommendation, check_production_hostname, validate_recommendations}
use pg_retest.Tuner.Apply.{AppliedChange, apply_all, reload_sql}
use pg_retest.Tuner.Apply.Permitted.{
  Permitted, reloading, Accepted, IsSingle, Undo, validate_recommendations-Accepted,
  apply_all-keeps, rollback_all-keeps,
}
use pg_retest.Tuner.Tuning.{
  TuningConfig, TuningIteration, ComparisonSummary, State, Next, continue, stop, fail, state_of,
  run_tuning, iterations_from, iterate, ask, advised, apply_safe, measure, judge, roll_back,
  replay_mode, is_empty, count_successes, note, replay_completed, report_of, first_state,
}

module _ (f : F64) (D : Type 0) (u : Unicode) (batch_execute : List ℕ → D → Option (List ℕ) × D)
    (run_replay : ReplayMode → D → Option (List ReplayResults) × D) (Context : Type 0)
    (collect_context : D → Option Context × D)
    (recommend : Context → List (TuningIteration f) → Option (List Recommendation))
    (print : f.F → List ℕ) (profile : WorkloadProfile) (config : TuningConfig)
    (I : D → Type 0) where
  -- The text of each index and schema change that is recommended is one statement. What the replay in the mode of the configuration, the collection of the context and, if the
  -- configuration has changes applied, the permitted statements keep. Nothing is asked where the
  -- target looks like production and is not forced.
  pub record Keeping : Type 0 where
    pub singles :
        (c : Context) (past : List (TuningIteration f)) (recs : List Recommendation)
        → recommend c past ≡ some recs
        → All (IsSingle u) recs
    pub replays :
        check_production_hostname u config.target config.force ≡ true
        → (db : D) → I db
        → I (run_replay (replay_mode config) db).1
    pub contexts :
        check_production_hostname u config.target config.force ≡ true
        → (db : D) → I db
        → I (collect_context db).1
    pub permitted :
        check_production_hostname u config.target config.force ≡ true
        → config.apply ≡ true
        → (sql : List ℕ) (db : D) → Permitted u sql
        → I db
        → I (batch_execute sql db).1

  module _ (k : Keeping)
      (checked : check_production_hostname u config.target config.force ≡ true) where
    roll_back-keeps :
        (i : ℕ) (recs : List Recommendation) (applied : List AppliedChange)
        (c : ComparisonSummary f) (st : State f D)
        → config.apply ≡ true
        → All (Undo u) applied
        → I st.db
        → I
            (roll_back f D u batch_execute run_replay Context collect_context recommend print
              profile config i recs applied c st).db
    unfolding roll_back
    roll_back-keeps i recs applied c st a undo h =
        k.permitted checked a reload_sql _ (reloading refl)
          (rollback_all-keeps u D batch_execute I (k.permitted checked a) applied st.db undo h)

    judge-keeps :
        (i : ℕ) (recs : List Recommendation) (applied : List AppliedChange)
        (c : ComparisonSummary f) (st : State f D)
        → config.apply ≡ true
        → All (Undo u) applied
        → I st.db
        → I
            (state_of f D (
              judge f D u batch_execute run_replay Context collect_context recommend print profile
                config i recs applied c st)).db
    unfolding judge
    judge-keeps i recs applied c st a undo h =
        elim (Bool-cases (f.gt c.p95_change_pct (f.of_nat 5))) [
          | inl worse ↦
              rw (worse, judge)
                (roll_back-keeps i recs applied c (note f D (replay_completed i c ∷ []) st) a undo
                  h)
          | inr better ↦ rw (better, judge) h
        ]

    measure-keeps :
        (baseline : ComparisonReport f) (i : ℕ) (recs : List Recommendation)
        (applied : List AppliedChange) (st : State f D)
        → config.apply ≡ true
        → All (Undo u) applied
        → I st.db
        → I
            (state_of f D (
              measure f D u batch_execute run_replay Context collect_context recommend print profile
                config baseline i recs applied st)).db
    unfolding measure
    measure-keeps baseline i recs applied st a undo h =
        let j = k.replays checked st.db h in
        elim (Option-cases (run_replay (replay_mode config) st.db).0) [
          | inl fails ↦ rw (fails, measure) j
          | inr (rs, ok) ↦ rw (ok, measure) (judge-keeps i recs applied _ _ a undo j)
        ]

    apply_safe-keeps :
        (baseline : ComparisonReport f) (i : ℕ) (recs safe : List Recommendation) (st : State f D)
        → config.apply ≡ true
        → All (Accepted u) safe
        → I st.db
        → I
            (state_of f D (
              apply_safe f D u batch_execute run_replay Context collect_context recommend print
                profile config baseline i recs safe st)).db
    unfolding apply_safe
    apply_safe-keeps baseline i recs safe st a accepted h =
        let (j, undo) =
          apply_all-keeps u D batch_execute I (k.permitted checked a) safe st.db accepted h in
        elim (Bool-cases (count_successes (apply_all u D batch_execute safe st.db).0 == 0)) [
          | inl none_done ↦ rw (none_done, apply_safe) j
          | inr done ↦ rw (done, apply_safe) (measure-keeps baseline i recs _ _ a undo j)
        ]

    advised-keeps :
        (baseline : ComparisonReport f) (i : ℕ) (recs : List Recommendation) (st : State f D)
        → All (IsSingle u) recs
        → I st.db
        → I
            (state_of f D (
              advised f D u batch_execute run_replay Context collect_context recommend print profile
                config baseline i recs st)).db
    unfolding advised
    advised-keeps baseline i recs st single h =
        elim (Bool-cases (is_empty (validate_recommendations u recs).0)) [
          | inl rejected ↦ rw (rejected, advised) h
          | inr some_left ↦ elim (Bool-cases config.apply) [
            | inl a ↦
                rw (some_left, a, advised)
                  (apply_safe-keeps baseline i recs _ _ a
                    (validate_recommendations-Accepted u recs single) h)
            | inr dry ↦ rw (some_left, dry, advised) h
          ]
        ]

    ask-keeps :
        (baseline : ComparisonReport f) (i : ℕ) (o : Option (List Recommendation)) (st : State f D)
        → ((recs : List Recommendation) → o ≡ some recs → All (IsSingle u) recs)
        → I st.db
        → I
            (state_of f D (
              ask f D u batch_execute run_replay Context collect_context recommend print profile
                config baseline i o st)).db
    ask-keeps baseline i none st single h = h
    ask-keeps baseline i (some []) st single h = h
    ask-keeps baseline i (some (r ∷ recs)) st single h =
        advised-keeps baseline i (r ∷ recs) st (single (r ∷ recs) refl) h

    iterate-keeps :
        (baseline : ComparisonReport f) (i : ℕ) (st : State f D)
        → I st.db
        → I
            (state_of f D (
              iterate f D u batch_execute run_replay Context collect_context recommend print profile
                config baseline i st)).db
    unfolding iterate
    iterate-keeps baseline i st h =
        let j = k.contexts checked st.db h in
        elim (Option-cases (collect_context st.db).0) [
          | inl fails ↦ rw (fails, iterate) j
          | inr (c, ok) ↦
              rw (ok, iterate)
                (ask-keeps baseline i (recommend c st.iterations) _
                  (λ recs e. k.singles c st.iterations recs e) j)
        ]

    loop_on :
        (n : Next f D) (rest : State f D → State f D × Bool)
        → I (state_of f D n).db
        → ((st : State f D) → I st.db → I (rest st).0.db)
        → I
            (elim n as (λ _. State f D × Bool) [
              | continue st ↦ rest st
              | stop st ↦ (st, true)
              | fail st ↦ (st, false)
            ]).0.db
    loop_on (continue st) rest h go = go st h
    loop_on (stop st) rest h go = h
    loop_on (fail st) rest h go = h

    iterations_from-keeps :
        (baseline : ComparisonReport f) (remaining i : ℕ) (st : State f D)
        → I st.db
        → I
            (iterations_from f D u batch_execute run_replay Context collect_context recommend print
              profile config baseline remaining i st).0.db
    unfolding iterations_from
    iterations_from-keeps baseline zero i st h = h
    iterations_from-keeps baseline (suc n) i st h =
        loop_on
          (iterate f D u batch_execute run_replay Context collect_context recommend print profile
            config baseline i st)
          _ (iterate-keeps baseline i st h)
          (λ st1 h1. iterations_from-keeps baseline n (i + 1) st1 h1)

    run-keeps :
        (db : D)
        → I db
        → I
            (run_tuning f D u batch_execute run_replay Context collect_context recommend print
              profile config db).0.db
    unfolding run_tuning
    run-keeps db h =
        let db1 = (run_replay (replay_mode config) db).1 in
        let h1 = k.replays checked db h in
        let db2 = (run_replay (replay_mode config) db1).1 in
        let h2 = k.replays checked db1 h1 in
        elim (Option-cases (run_replay (replay_mode config) db).0) [
          | inl fails ↦ rw (checked, run_tuning, fails) h1
          | inr (ws, ok) ↦ elim (Option-cases (run_replay (replay_mode config) db1).0) [
            | inl fails ↦ rw (checked, run_tuning, ok, fails) h2
            | inr (rs, ok2) ↦
                rw (checked, run_tuning, ok, ok2)
                  (iterations_from-keeps
                    (report_of f D u batch_execute run_replay Context collect_context recommend
                      print profile config rs)
                    config.max_iterations 1
                    (first_state f D u batch_execute run_replay Context collect_context recommend
                      print profile config db2)
                    h2)
          ]
        ]

  -- Whatever a language model recommends, if the text of each index and schema change is one statement, and whatever fails:
  -- what the replays, the collection of the context and the permitted statements keep, a run of the
  -- tuner keeps. Permitted are just the settings of the list, the reload, statements that begin as
  -- the list of schema changes allows, and the drop of an index that one of these names. In a dry run nothing is
  -- asked of the statements, and nothing at all where the target looks like production and is not
  -- forced.
  pub run_tuning-keeps :
      (k : Keeping) (db : D)
      → I db
      → I
          (run_tuning f D u batch_execute run_replay Context collect_context recommend print profile
            config db).0.db
  unfolding run_tuning
  run_tuning-keeps k db h =
      elim (Bool-cases (check_production_hostname u config.target config.force)) [
        | inl checked ↦ run-keeps k checked db h
        | inr refused ↦ rw (refused, run_tuning) h
      ]
