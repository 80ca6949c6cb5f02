-- ===== src/Compare/Reports.antt =====
-- What a report says of a workload and of its replay.
use mathlib.Core.List.{Perm}
use mathlib.Core.Option
use pg_retest.Prelude.{
  bind_some, ℕ, ◌+◌, ◌≤◌, ◌≡◌, refl, sym, ap, ◌∙◌, inl, inr, Option, none, some, List, [], ◌∷◌, map,
  length, length-append, sort_by-perm, sort_by-length, sort_by_key, Bool-cases, arith,
}
use pg_retest.Sql.Lex.Scan.{Unicode}
use pg_retest.Float.{F64, IsMonotone}
use pg_retest.Profile.{Query, Session, WorkloadProfile}
use pg_retest.Correlate.Map.{DashMap}
use pg_retest.Replay.Session.{
  ReplayMode, should_replay, QueryResult, ReplayResults, Response, World, replay_from,
  replay_session,
}
use pg_retest.Replay.Session.Modes.{replayed, replay_from-results}
use pg_retest.Compare.{
  compute_comparison, ComparisonReport, all_results, session_durations, source_durations,
  sort_durations, find_regressions, sort_regressions, takes_part,
}
use pg_retest.Compare.Statistics.{percentile-le, sort_durations-IsSortedBy}

length-map {ℓ κ} :
    {A : Type ℓ} {B : Type κ} (g : A → B) (xs : List A) → length (map g xs) ≡ length xs
length-map g [] = refl
length-map g (x ∷ xs) = let ih = length-map g xs in omega arith

-- The number of the queries of all sessions.
abbrev pub count_queries : List Session → ℕ
count_queries [] = 0
count_queries (s ∷ ss) = length s.queries + count_queries ss

sort_durations-length : (ds : List ℕ) → length (sort_durations ds) ≡ length ds
unfolding sort_durations sort_by_key
sort_durations-length ds = sort_by-length _ ds

session_durations-count :
    (mode : Option ReplayMode) (qs : List Query)
    → length (session_durations mode qs).0 + (session_durations mode qs).1 ≡ length qs
unfolding session_durations
session_durations-count mode [] = refl
session_durations-count mode (q ∷ qs) =
    let ih = session_durations-count mode qs in
    elim (Bool-cases (takes_part mode q)) [
      | inl e ↦ rw e (omega arith)
      | inr e ↦ rw e (omega arith)
    ]

source_durations-count :
    (mode : Option ReplayMode) (ss : List Session)
    → length (source_durations mode ss).0 + (source_durations mode ss).1 ≡ count_queries ss
unfolding source_durations
source_durations-count mode [] = refl
source_durations-count mode (s ∷ ss) =
    let a = session_durations mode s.queries in
    let b = source_durations mode ss in
    let e = session_durations-count mode s.queries in
    let ih = source_durations-count mode ss in let l = length-append a.0 b.0 in omega arith

session_durations-replayed :
    (mode : ReplayMode) (qs : List Query)
    → (session_durations (some mode) qs).0 ≡ map (λ (q : Query). q.duration_us) (replayed mode qs)
unfolding session_durations
session_durations-replayed mode [] = refl
session_durations-replayed mode (q ∷ qs) =
    let ih = session_durations-replayed mode qs in
    elim (Bool-cases (should_replay mode q)) [
      | inl e ↦ rw e (ap (λ l. q.duration_us ∷ l) ih)
      | inr e ↦ rw e ih
    ]

module _ (f : F64) where
  open f use {F}

  -- The percentiles of a report, source and replay, are in order.
  pub record IsOrdered (r : ComparisonReport f) : Type 0 where
    pub source_p50_p95 : r.source_p50_latency_us ≤ r.source_p95_latency_us
    pub source_p95_p99 : r.source_p95_latency_us ≤ r.source_p99_latency_us
    pub replay_p50_p95 : r.replay_p50_latency_us ≤ r.replay_p95_latency_us
    pub replay_p95_p99 : r.replay_p95_latency_us ≤ r.replay_p99_latency_us

  -- Where floating-point operations are monotone, no percentile of a report exceeds a higher one,
  -- whatever was captured and replayed.
  pub compute_comparison-IsOrdered :
      (m : IsMonotone f) (source : WorkloadProfile) (results : List ReplayResults)
      (threshold_pct : F) (mode : Option ReplayMode)
      → IsOrdered (compute_comparison f source results threshold_pct mode)
  unfolding compute_comparison
  compute_comparison-IsOrdered m source results threshold_pct mode =
      let ds = sort_durations-IsSortedBy (source_durations mode source.sessions).0 in
      let es =
        sort_durations-IsSortedBy
          (map (λ (r : QueryResult). r.replay_duration_us) (all_results results)) in
      record {
        source_p50_p95 = percentile-le f m _ 50 95 ds (omega arith);
        source_p95_p99 = percentile-le f m _ 95 99 ds (omega arith);
        replay_p50_p95 = percentile-le f m _ 50 95 es (omega arith);
        replay_p95_p99 = percentile-le f m _ 95 99 es (omega arith);
      }

  module _ (d : DashMap) (D : Type 0) (simple_query : List ℕ → D → Response × ℕ × D)
      (u : Unicode) where
    -- Each session has been replayed, from some state of the database and of the ids.
    abbrev pub AllReplayed : ReplayMode → List Session → List ReplayResults → Type 0
    AllReplayed mode [] [] = Unit
    AllReplayed mode [] (r ∷ rs) = ⊥
    AllReplayed mode (s ∷ ss) [] = ⊥
    AllReplayed mode (s ∷ ss) (r ∷ rs) =
        ((before : World d D simple_query) × (after : World d D simple_query) × (replay_session d D
              simple_query u mode before s
            ≡ some (r, after)))
        × AllReplayed mode ss rs

    replay_session-count :
        (mode : ReplayMode) (before after : World d D simple_query) (s : Session)
        (r : ReplayResults)
        → replay_session d D simple_query u mode before s ≡ some (r, after)
        → length r.query_results ≡ length (session_durations (some mode) s.queries).0
    unfolding replay_session
    replay_session-count mode before after s r h =
        let ((rs, end), e, k) =
          bind_some (replay_from d D simple_query u mode none before s.queries) _ (r, after) h in
        let same = replay_from-results d D simple_query u mode none before s.queries rs end e in
        ap (λ (t : ReplayResults × World d D simple_query). length t.0.query_results)
          (sym (Option.some-injective _ (r, after) k))
        ∙ sym (length-map (λ (q : QueryResult). q.original_duration_us) rs)
        ∙ ap length (same ∙ sym (session_durations-replayed mode s.queries))

    AllReplayed-count :
        (mode : ReplayMode) (ss : List Session) (rs : List ReplayResults)
        → AllReplayed mode ss rs
        → length (all_results rs) ≡ length (source_durations (some mode) ss).0
    unfolding source_durations
    AllReplayed-count mode [] [] h = refl
    AllReplayed-count mode [] (r ∷ rs) h = absurd h
    AllReplayed-count mode (s ∷ ss) [] h = absurd h
    AllReplayed-count mode (s ∷ ss) (r ∷ rs) ((before, after, e), hs) =
        let one = replay_session-count mode before after s r e in
        let ih = AllReplayed-count mode ss rs hs in
        let l = length-append r.query_results (all_results rs) in
        let l' =
          length-append (session_durations (some mode) s.queries).0
            (source_durations (some mode) ss).0 in
        omega arith

    -- A report on the replay of all sessions of a profile, in any mode, whatever failed: as many
    -- queries were replayed as the mode lets through of the source; with those that it filters they
    -- are all queries of the profile; and the regressions are those found in the results, each once.
    pub compute_comparison-balanced :
        (profile : WorkloadProfile) (results : List ReplayResults) (threshold_pct : F)
        (mode : ReplayMode)
        → AllReplayed mode profile.sessions results
        → let report = compute_comparison f profile results threshold_pct (some mode) in
          (report.total_queries_replayed ≡ report.total_queries_source)
          × (report.total_queries_source + report.total_queries_filtered
              ≡ count_queries profile.sessions)
          × Perm report.regressions (find_regressions f threshold_pct (all_results results))
    unfolding compute_comparison sort_regressions
    compute_comparison-balanced profile results threshold_pct mode h =
        let c = source_durations-count (some mode) profile.sessions in
        let k = AllReplayed-count mode profile.sessions results h in
        let a = sort_durations-length (source_durations (some mode) profile.sessions).0 in
        let b =
          sort_durations-length
            (map (λ (r : QueryResult). r.replay_duration_us) (all_results results)) in
        let l = length-map (λ (r : QueryResult). r.replay_duration_us) (all_results results) in
        (b ∙ l ∙ k ∙ sym a, omega arith, sort_by-perm _ _)
