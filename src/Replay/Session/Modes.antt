-- ===== src/Replay/Session/Modes.antt =====
-- What a replay mode lets through, and that every query let through has one result.
use mathlib.Core.Option as Option
use pg_retest.Prelude.{
  ◌>>=◌, bind_some, ℕ, ◌≡◌, refl, sym, ap, subst, ◌∙◌, inl, inr, true, false, Option, none, some,
  List, [], ◌∷◌, map, if◌then◌else◌, Bool-cases,
}
use pg_retest.Sql.Lex.Scan.{Unicode}
use pg_retest.Profile.{Query}
use pg_retest.Correlate.Map.{DashMap}
use pg_retest.Replay.Session.{
  ReplayMode, read_write, read_only, should_replay, QueryResult, Response, ends_transaction,
  in_failed, World, Step, execute, effective_sql, skip, replay_query, replay_from, note_result,
}

-- The queries that a mode lets through.
abbrev pub replayed : ReplayMode → List Query → List Query
replayed mode [] = []
replayed mode (q ∷ qs) = if should_replay mode q then q ∷ replayed mode qs else replayed mode qs

module _ (d : DashMap) (D : Type 0) (simple_query : List ℕ → D → Response × ℕ × D)
    (u : Unicode) where
  replay_query-let_through :
      (mode : ReplayMode) (failed : Option ℕ) (w : World d D simple_query) (q : Query)
      → should_replay mode q ≡ true
      → replay_query d D simple_query u mode failed w q
        ≡ replay_query d D simple_query u read_write failed w q
  unfolding replay_query should_replay
  replay_query-let_through read_write failed w q h = refl
  replay_query-let_through read_only failed w q h = rw (h, replay_query) refl

  replay_query-left_out :
      (mode : ReplayMode) (failed : Option ℕ) (w : World d D simple_query) (q : Query)
      → should_replay mode q ≡ false
      → replay_query d D simple_query u mode failed w q
        ≡ some (record { result = none; failed = failed; world = w })
  unfolding replay_query should_replay
  replay_query-left_out read_write failed w q h = cc
  replay_query-left_out read_only failed w q h = rw (h, replay_query) refl

  bind_ext {ℓ κ} :
      {A : Type ℓ} {B : Type κ} (o : Option A) (f g : A → Option B)
      → ((a : A) → f a ≡ g a)
      → (o >>= f) ≡ (o >>= g)
  bind_ext none f g h = refl
  bind_ext (some a) f g h = h a

  same_bind :
      (o : Option (List QueryResult × World d D simple_query)) → (o >>= (λ x. some (x.0, x.1))) ≡ o
  same_bind none = refl
  same_bind (some x) = refl

  -- A replay in any mode is the full replay of the queries that the mode lets through: the others
  -- reach neither the database nor the map nor the results.
  pub replay_from-replayed :
      (mode : ReplayMode) (failed : Option ℕ) (w : World d D simple_query) (qs : List Query)
      → replay_from d D simple_query u mode failed w qs
        ≡ replay_from d D simple_query u read_write failed w (replayed mode qs)
  unfolding replay_from
  replay_from-replayed mode failed w [] = refl
  replay_from-replayed mode failed w (q ∷ qs) = elim (Bool-cases (should_replay mode q)) [
    | inl through ↦
        rw (through, replay_query-let_through mode failed w q through)
          (bind_ext (replay_query d D simple_query u read_write failed w q) _ _ (λ s.
            ap (λ o. o >>= (λ x. some (note_result s.result x.0, x.1)))
              (replay_from-replayed mode s.failed s.world qs)))
    | inr out ↦
        rw (out, replay_query-left_out mode failed w q out)
          (same_bind (replay_from d D simple_query u mode failed w qs)
            ∙ replay_from-replayed mode failed w qs)
  ]

  -- The result of a step has the captured duration of its query.
  record Noted (q : Query) (s : Step d D simple_query) : Type 0 where
    noted : (r : QueryResult) × (s.result ≡ some r) × (r.original_duration_us ≡ q.duration_us)

  skip-Noted :
      (q : Query) (failed : Option ℕ) (w : World d D simple_query)
      → Noted q (skip d D simple_query u q failed w)
  skip-Noted q failed w = elim (Bool-cases (ends_transaction q.kind)) [
    | inl e ↦ record { noted = rw (e, skip) (_, refl, refl) }
    | inr e ↦ record { noted = rw (e, skip) (_, refl, refl) }
  ]

  execute-Noted :
      (q : Query) (sql : List ℕ) (n : ℕ) (w : World d D simple_query)
      → Noted q (execute d D simple_query q sql n w)
  unfolding execute
  execute-Noted q sql n w = record { noted = (_, refl, refl) }

  replay_query-Noted :
      (failed : Option ℕ) (w : World d D simple_query) (q : Query) (s : Step d D simple_query)
      → replay_query d D simple_query u read_write failed w q ≡ some s
      → Noted q s
  unfolding replay_query should_replay
  replay_query-Noted failed w q s h = elim (Bool-cases (in_failed failed q.transaction_id)) [
    | inl e ↦
        let run : replay_query d D simple_query u read_write failed w q
            ≡ some (skip d D simple_query u q failed w) =
          rw (e, replay_query) refl in
        subst (Noted q) (Option.some-injective _ s (sym run ∙ h)) (skip-Noted q failed w)
    | inr e ↦
        let run : replay_query d D simple_query u read_write failed w q ≡ (
            effective_sql d D simple_query u w.ids q.sql
            >>= (λ x. some (execute d D simple_query q x.0 x.1 w))) =
          rw (e, replay_query) refl in
        let ((sql, n), text, k) =
          bind_some (effective_sql d D simple_query u w.ids q.sql) _ s (sym run ∙ h) in
        subst (Noted q) (Option.some-injective _ s k) (execute-Noted q sql n w)
  ]

  note-durations :
      (q : Query) (s : Step d D simple_query) (rs : List QueryResult)
      → Noted q s
      → map (λ (r : QueryResult). r.original_duration_us) (note_result s.result rs)
        ≡ q.duration_us ∷ map (λ (r : QueryResult). r.original_duration_us) rs
  note-durations q s rs n =
      let (r, e, t) = n.noted in
      rw e (ap (λ x. x ∷ map (λ (r : QueryResult). r.original_duration_us) rs) t)

  replay_from-durations :
      (failed : Option ℕ) (w : World d D simple_query) (qs : List Query) (rs : List QueryResult)
      (end : World d D simple_query)
      → replay_from d D simple_query u read_write failed w qs ≡ some (rs, end)
      → map (λ (r : QueryResult). r.original_duration_us) rs ≡ map (λ (q : Query). q.duration_us) qs
  unfolding replay_from
  replay_from-durations failed w [] rs end h =
      ap
        (λ (x : List QueryResult × World d D simple_query).
          map (λ (r : QueryResult). r.original_duration_us) x.0)
        (sym (Option.some-injective ([], w) (rs, end) h))
  replay_from-durations failed w (q ∷ qs) rs end h =
      let (s, e, h2) =
        bind_some (replay_query d D simple_query u read_write failed w q) _ (rs, end) h in
      let ((ss, end2), e2, h3) =
        bind_some (replay_from d D simple_query u read_write s.failed s.world qs) _ (rs, end) h2 in
      ap
        (λ (x : List QueryResult × World d D simple_query).
          map (λ (r : QueryResult). r.original_duration_us) x.0)
        (sym (Option.some-injective _ (rs, end) h3))
      ∙ note-durations q s ss (replay_query-Noted failed w q s e)
      ∙ ap (λ (l : List ℕ). q.duration_us ∷ l)
          (replay_from-durations s.failed s.world qs ss end2 e2)

  -- A replay that ends has one result for each query that its mode lets through, failed or not, sent
  -- or skipped, in their order: the captured durations of the results are those of these queries.
  pub replay_from-results :
      (mode : ReplayMode) (failed : Option ℕ) (w : World d D simple_query) (qs : List Query)
      (rs : List QueryResult) (end : World d D simple_query)
      → replay_from d D simple_query u mode failed w qs ≡ some (rs, end)
      → map (λ (r : QueryResult). r.original_duration_us) rs
        ≡ map (λ (q : Query). q.duration_us) (replayed mode qs)
  replay_from-results mode failed w qs rs end h =
      replay_from-durations failed w (replayed mode qs) rs end
        (sym (replay_from-replayed mode failed w qs) ∙ h)
