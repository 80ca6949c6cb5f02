-- ===== src/Tuner/Tuning/Reverting.antt =====
-- Where the loop is left, the settings are those that the iteration found.
use mathlib.Core.List.{reverse}
use mathlib.Core.Logic.{◌⊎◌}
use mathlib.Core.Path.{fun_ext}
use pg_retest.Prelude.{
  ℕ, ◌==◌, ◌≡◌, refl, sym, ◌∙◌, subst, inl, inr, Bool, true, false, Option, none, some, List, [],
  ◌∷◌, ◌++◌, Bool-cases, Option-cases, All, arith,
}
use pg_retest.Sql.Lex.Scan.{Unicode}
use pg_retest.Float.{F64}
use pg_retest.Profile.{WorkloadProfile}
use pg_retest.Replay.Session.{ReplayMode, ReplayResults}
use pg_retest.Compare.{ComparisonReport}
use pg_retest.Tuner.Safety.{
  Recommendation, config_change, create_index, query_rewrite, schema_change,
  validate_recommendations,
}
use pg_retest.Tuner.Apply.{
  AppliedChange, RollbackResult, apply_recommendation, apply_all, execute_each, reload,
  rollback_one, rollback_from, rollback_all, rollback_result, reload_sql, set_sql, undo_sql,
  statements,
}
use pg_retest.Tuner.Apply.Rollback.{Keeps, Described, Succeeded, rollback_all-restores}
use pg_retest.Tuner.Tuning.{
  TuningConfig, TuningIteration, ComparisonSummary, State, Next, continue, stop, fail, iterate, ask,
  advised, apply_safe, measure, judge, roll_back, replay_mode, is_empty, count_successes, note,
  iteration_started, move,
}

Succeeded-append :
    (xs ys : List RollbackResult) → Succeeded xs → Succeeded ys → Succeeded (xs ++ ys)
Succeeded-append [] ys h k = k
Succeeded-append (x ∷ xs) ys (h, hs) k = (h, Succeeded-append xs ys hs k)

module _ (u : Unicode) (D : Type 0) (batch_execute : List ℕ → D → Option (List ℕ) × D)
    (never : (sql : List ℕ) (db : D) → (batch_execute sql db).0 ≡ none) where
  execute_each-none :
      (stmts : List (List ℕ)) (db : D) → (execute_each u D batch_execute stmts db).0 ≡ []
  unfolding execute_each
  execute_each-none [] db = refl
  execute_each-none (s ∷ stmts) db =
      rw (never s db, execute_each) (execute_each-none stmts (batch_execute s db).1)

  apply_recommendation-success :
      (rec : Recommendation) (db : D)
      → (apply_recommendation u D batch_execute rec db).0.success ≡ true
  unfolding apply_recommendation reload
  apply_recommendation-success (config_change p c r why) db =
      rw (never (set_sql p r) db, apply_recommendation, never reload_sql _) refl
  apply_recommendation-success (create_index t cs k sql why) db = rw (never sql db) refl
  apply_recommendation-success (query_rewrite o r why) db = refl
  apply_recommendation-success (schema_change sql what why) db =
      rw (execute_each-none (statements sql) db) refl

  apply_all-success :
      (recs : List Recommendation) (db : D)
      → is_empty recs ≡ false
      → (count_successes (apply_all u D batch_execute recs db).0 == 0) ≡ false
  unfolding apply_all
  apply_all-success [] db h = cc
  apply_all-success (rec ∷ recs) db h =
      rw (apply_recommendation-success rec db, count_successes) (ground arith)

  rollback_one-Succeeded :
      (c : AppliedChange) (o : Option (List ℕ)) (needs_reload : Bool) (db : D)
      → Succeeded (rollback_one u D batch_execute c o needs_reload db).0
  unfolding rollback_one rollback_result
  rollback_one-Succeeded c none needs_reload db = tt
  rollback_one-Succeeded c (some sql) needs_reload db = (rw (never sql db) refl, tt)

  rollback_from-Succeeded :
      (cs : List AppliedChange) (needs_reload : Bool) (db : D)
      → Succeeded (rollback_from u D batch_execute cs needs_reload db).0
  unfolding rollback_from
  rollback_from-Succeeded [] needs_reload db = tt
  rollback_from-Succeeded (c ∷ cs) needs_reload db =
      Succeeded-append _ _ (rollback_one-Succeeded c (undo_sql c) needs_reload db)
        (rollback_from-Succeeded cs _ _)

  rollback_all-Succeeded :
      (cs : List AppliedChange) (db : D) → Succeeded (rollback_all u D batch_execute cs db).0
  unfolding rollback_all
  rollback_all-Succeeded cs db = rollback_from-Succeeded (reverse cs) false db

module _ (f : F64) (D : Type 0) (u : Unicode) (batch_execute : List ℕ → D → Option (List ℕ) × D)
    (run_replay : ReplayMode → D → Option (List ReplayResults) × D) (Context : Type 0)
    (collect_context : D → Option Context × D)
    (recommend : Context → List (TuningIteration f) → Option (List Recommendation))
    (print : f.F → List ℕ) (profile : WorkloadProfile) (config : TuningConfig)
    (value : D → List ℕ → List ℕ) where
  -- No statement fails, and neither a reload nor a replay nor the collection of the context changes
  -- a setting.
  pub record IsQuiet : Type 0 where
    pub never : (sql : List ℕ) (db : D) → (batch_execute sql db).0 ≡ none
    pub reloads : Keeps u D batch_execute value reload_sql
    pub replays : (m : ReplayMode) (db : D) (k : List ℕ) → value (run_replay m db).1 k ≡ value db k
    pub contexts : (db : D) (k : List ℕ) → value (collect_context db).1 k ≡ value db k

  -- The settings are those of some state of the database with the settings `base`, in which accepted
  -- recommendations have been applied.
  abbrev LeftApplied : (List ℕ → List ℕ) → D → Type 0
  LeftApplied base end =
      (db : D) × (recs : List Recommendation) × ((k : List ℕ) → value db k ≡ base k)
      × ((k : List ℕ)
          → value end k
            ≡ value (apply_all u D batch_execute (validate_recommendations u recs).0 db).1 k)

  -- If the loop is left, the settings are `base`; on an error they may be those that were applied.
  abbrev pub Leaves : (List ℕ → List ℕ) → Next f D → Type 0
  Leaves base (stop st) = (k : List ℕ) → value st.db k ≡ base k
  Leaves base (fail st) = ((k : List ℕ) → value st.db k ≡ base k) ⊎ LeftApplied base st.db
  Leaves base (continue st) = Unit

  module _ (quiet : IsQuiet) where
    judge-Leaves :
        (i : ℕ) (recs safe : List Recommendation) (c : ComparisonSummary f) (st : State f D)
        (db : D)
        → All (Described u D batch_execute value (value db)) safe
        → ((k : List ℕ) → value st.db k ≡ value (apply_all u D batch_execute safe db).1 k)
        → Leaves (value db) (
            judge f D u batch_execute run_replay Context collect_context recommend print profile
              config i recs
              (apply_all u D batch_execute safe db).0
              c
              st)
    unfolding judge roll_back
    judge-Leaves i recs safe c st db described same =
        let changes = (apply_all u D batch_execute safe db).0 in
        elim (Bool-cases (f.gt c.p95_change_pct (f.of_nat 5))) [
          | inl worse ↦
              rw (worse, judge)
                (λ k.
                  quiet.reloads _ k
                  ∙ rollback_all-restores u D batch_execute value safe db st.db
                      (quiet.reloads, λ d. quiet.never reload_sql d) described same
                      (rollback_all-Succeeded u D batch_execute quiet.never changes st.db) k)
          | inr better ↦ rw (better, judge) tt
        ]

    apply_safe-Leaves :
        (baseline : ComparisonReport f) (i : ℕ) (recs : List Recommendation) (st : State f D)
        → let safe = (validate_recommendations u recs).0 in
          is_empty safe ≡ false
          → All (Described u D batch_execute value (value st.db)) safe
          → Leaves (value st.db) (
              apply_safe f D u batch_execute run_replay Context collect_context recommend print
                profile config baseline i recs safe st)
    unfolding apply_safe measure
    apply_safe-Leaves baseline i recs st full described =
        let safe = (validate_recommendations u recs).0 in
        let applied = apply_all u D batch_execute safe st.db in
        rw (apply_all-success u D batch_execute quiet.never safe st.db full, apply_safe)
          (elim (Option-cases (run_replay (replay_mode config) applied.1).0) [
            | inl fails ↦
                rw (fails, measure)
                  (inr
                    (st.db, recs, λ k. refl, λ k. quiet.replays (replay_mode config) applied.1 k))
            | inr (rs, ok) ↦
                rw (ok, measure)
                  (judge-Leaves i recs safe _ _ st.db described
                    (λ k. quiet.replays (replay_mode config) applied.1 k))
          ])

    advised-Leaves :
        (baseline : ComparisonReport f) (i : ℕ) (recs : List Recommendation) (st : State f D)
        → All (Described u D batch_execute value (value st.db)) (validate_recommendations u recs).0
        → Leaves (value st.db) (
            advised f D u batch_execute run_replay Context collect_context recommend print profile
              config baseline i recs st)
    unfolding advised
    advised-Leaves baseline i recs st described =
        elim (Bool-cases (is_empty (validate_recommendations u recs).0)) [
          | inl rejected ↦ rw (rejected, advised) (λ k. refl)
          | inr some_left ↦ elim (Bool-cases config.apply) [
            | inl a ↦
                rw (some_left, a, advised) (apply_safe-Leaves baseline i recs _ some_left described)
            | inr dry ↦ rw (some_left, dry, advised) (λ k. refl)
          ]
        ]

    ask-Leaves :
        (baseline : ComparisonReport f) (i : ℕ) (o : Option (List Recommendation)) (st : State f D)
        → ((recs : List Recommendation)
            → o ≡ some recs
            → All
                (Described u D batch_execute value (value st.db))
                (validate_recommendations u recs).0)
        → Leaves (value st.db) (
            ask f D u batch_execute run_replay Context collect_context recommend print profile
              config baseline i o st)
    ask-Leaves baseline i none st h = inl (λ k. refl)
    ask-Leaves baseline i (some []) st h = λ k. refl
    ask-Leaves baseline i (some (r ∷ recs)) st h =
        advised-Leaves baseline i (r ∷ recs) st (h (r ∷ recs) refl)

  -- If the recommendations that are called safe name the current values of their settings and their
  -- statements act as documented, no statement fails, and nothing else changes a setting: where an
  -- iteration ends the loop without an error, also after changes that made the replay slower, every
  -- setting has the value that it had before the iteration; where it ends the run with an error, the
  -- settings are those, or those that applying accepted recommendations to them gives, with no
  -- rollback.
  pub iterate-restores :
      (quiet : IsQuiet) (baseline : ComparisonReport f) (i : ℕ) (st : State f D)
      → ((c : Context) (recs : List Recommendation)
          → recommend c st.iterations ≡ some recs
          → All
              (Described u D batch_execute value (value st.db))
              (validate_recommendations u recs).0)
      → Leaves (value st.db) (
          iterate f D u batch_execute run_replay Context collect_context recommend print profile
            config baseline i st)
  unfolding iterate
  iterate-restores quiet baseline i st described =
      let db = (collect_context st.db).1 in
      let same : value db ≡ value st.db = fun_ext (λ k. quiet.contexts st.db k) in
      elim (Option-cases (collect_context st.db).0) [
        | inl fails ↦ rw (fails, iterate) (inl (λ k. quiet.contexts st.db k))
        | inr (c, ok) ↦
            rw (ok, iterate)
              (subst
                (λ b. Leaves b (
                  ask f D u batch_execute run_replay Context collect_context recommend print profile
                    config baseline i (recommend c st.iterations)
                    (move f D db (note f D (iteration_started i config.max_iterations ∷ []) st))))
                same
                (ask-Leaves quiet baseline i (recommend c st.iterations)
                  (move f D db (note f D (iteration_started i config.max_iterations ∷ []) st))
                  (λ recs e.
                    subst
                      (λ b.
                        All (Described u D batch_execute value b)
                          (validate_recommendations u recs).0)
                      (sym same) (described c recs e))))
      ]
