-- ===== src/Correlate/Compile/Stripped.antt =====
-- What compilation keeps of a workload.
use mathlib.Core.List.{map-append}
use mathlib.Core.Option
use pg_retest.Prelude.{
  ◌>>=◌, bind_some, ℕ, ◌==◌, ◌≡◌, refl, sym, ap, subst, ◌∙◌, inl, inr, Option, none, some, List, [],
  ◌∷◌, ◌++◌, map, Bool-cases,
}
use pg_retest.Sql.Lex.Scan.{Unicode}
use pg_retest.Profile.{Query, Session, ResponseRow, WorkloadProfile}
use pg_retest.Correlate.Map.{DashMap}
use pg_retest.Correlate.Compile.{
  compiled, no_responses, CompileStats, known_ids, all_queries, strip_query, strip_session,
  strip_profile, result_of, compile_workload,
}
use pg_retest.Replay.Session.{
  ReplayMode, read_write, read_only, should_replay, Response, rows, db_error, other_error,
  ends_transaction, World, Step, learn, execute, effective_sql, skip, in_failed, replay_query,
  replay_from, replay_session,
}

all_queries-strip :
    (ss : List Session) → all_queries (map strip_session ss) ≡ map strip_query (all_queries ss)
all_queries-strip [] = refl
all_queries-strip (s ∷ ss) =
    ap (λ l. map strip_query s.queries ++ l) (all_queries-strip ss)
    ∙ sym (map-append strip_query s.queries (all_queries ss))

known_ids-strip :
    (qs : List Query) (acc : List (List ℕ) × ℕ) → known_ids (map strip_query qs) acc ≡ acc
unfolding known_ids
known_ids-strip [] acc = refl
known_ids-strip (q ∷ qs) acc = known_ids-strip qs acc

compile_workload-strip_profile :
    (profile : WorkloadProfile) → compile_workload (strip_profile profile) ≡ no_responses
unfolding compile_workload strip_profile
compile_workload-strip_profile profile =
    let e : known_ids (all_queries (map strip_session profile.sessions)) ([], 0) ≡ ([], 0) =
      ap (λ qs. known_ids qs ([], 0)) (all_queries-strip profile.sessions)
      ∙ known_ids-strip (all_queries profile.sessions) ([], 0) in
    rw e refl

result_of-compiled :
    (profile p : WorkloadProfile) (stats : CompileStats) (n unique : ℕ) (o : Option (ℕ × ℕ))
    → result_of profile n unique o ≡ compiled p stats
    → p ≡ strip_profile profile
unfolding strip_profile
result_of-compiled profile p stats n unique none h = cc
result_of-compiled profile p stats n unique (some (a, b)) h = cc

compile_workload-compiled :
    (profile p : WorkloadProfile) (stats : CompileStats)
    → compile_workload profile ≡ compiled p stats
    → p ≡ strip_profile profile
unfolding compile_workload
compile_workload-compiled profile p stats h =
    let acc = known_ids (all_queries profile.sessions) ([], 0) in
    elim (Bool-cases (acc.1 == 0)) [
      | inl e ↦ let bad = rw (e, compile_workload) at h in cc
      | inr e ↦ result_of-compiled profile p stats _ _ _ (rw (e, compile_workload) at h)
    ]

bind_same {ℓ κ} :
    {A : Type ℓ} {B : Type κ} (o : Option A) (f g : A → Option B)
    → ((a : A) → o ≡ some a → f a ≡ g a)
    → (o >>= f) ≡ (o >>= g)
bind_same none f g h = refl
bind_same (some a) f g h = h a refl

should_replay-strip :
    (mode : ReplayMode) (q : Query) → should_replay mode (strip_query q) ≡ should_replay mode q
unfolding should_replay
should_replay-strip read_write q = refl
should_replay-strip read_only q = refl

module _ (d : DashMap) (D : Type 0) (simple_query : List ℕ → D → Response × ℕ × D)
    (u : Unicode) where
  learn-none :
      (o : Option (List ResponseRow)) (a : Response) (ids : Option d.Map)
      → ids ≡ none
      → learn d o a ids ≡ none
  learn-none none a ids h = h
  learn-none (some c) (rows rs) none h = refl
  learn-none (some c) (rows rs) (some m) h = cc
  learn-none (some c) (db_error severity text) ids h = h
  learn-none (some c) (other_error text) ids h = h

  execute-strip :
      (q : Query) (sql : List ℕ) (n : ℕ) (w : World d D simple_query)
      → w.ids ≡ none
      → execute d D simple_query (strip_query q) sql n w ≡ execute d D simple_query q sql n w
  unfolding execute
  execute-strip q sql n w h =
      let a = (simple_query sql w.db).0 in rw (learn-none q.response_values a w.ids h, h) refl

  replay_query-strip :
      (mode : ReplayMode) (failed : Option ℕ) (w : World d D simple_query) (q : Query)
      → w.ids ≡ none
      → replay_query d D simple_query u mode failed w (strip_query q)
        ≡ replay_query d D simple_query u mode failed w q
  unfolding replay_query should_replay
  replay_query-strip mode failed w q h = elim (Bool-cases (should_replay mode q)) [
    | inr out ↦ rw (should_replay-strip mode q, out, replay_query) refl
    | inl through ↦ elim (Bool-cases (in_failed failed q.transaction_id)) [
      | inl e ↦ rw (should_replay-strip mode q, through, replay_query, e) refl
      | inr e ↦
          rw (should_replay-strip mode q, through, replay_query, e)
            (bind_same (effective_sql d D simple_query u w.ids q.sql) _ _
              (λ x _. ap (λ (t : Step d D simple_query). some t) (execute-strip q x.0 x.1 w h)))
    ]
  ]

  skip-none :
      (q : Query) (failed : Option ℕ) (w : World d D simple_query)
      → w.ids ≡ none
      → (skip d D simple_query u q failed w).world.ids ≡ none
  skip-none q failed w h = elim (Bool-cases (ends_transaction q.kind)) [
    | inl e ↦ rw (e, skip) h
    | inr e ↦ rw (e, skip) h
  ]

  execute-none :
      (q : Query) (sql : List ℕ) (n : ℕ) (w : World d D simple_query)
      → w.ids ≡ none
      → (execute d D simple_query q sql n w).world.ids ≡ none
  unfolding execute
  execute-none q sql n w h = learn-none q.response_values (simple_query sql w.db).0 w.ids h

  replay_query-none :
      (mode : ReplayMode) (failed : Option ℕ) (w : World d D simple_query) (q : Query)
      (s : Step d D simple_query)
      → w.ids ≡ none
      → replay_query d D simple_query u mode failed w q ≡ some s
      → s.world.ids ≡ none
  unfolding replay_query
  replay_query-none mode failed w q s h e =
      let NoIds = λ (t : Step d D simple_query). t.world.ids ≡ none in
      elim (Bool-cases (should_replay mode q)) [
        | inr out ↦ subst NoIds (Option.some-injective _ s (rw (out, replay_query) at e)) h
        | inl through ↦ elim (Bool-cases (in_failed failed q.transaction_id)) [
          | inl f ↦
              subst NoIds (Option.some-injective _ s (rw (through, replay_query, f) at e))
                (skip-none q failed w h)
          | inr f ↦
              let run : (effective_sql d D simple_query u w.ids q.sql
                    >>= (λ x. some (execute d D simple_query q x.0 x.1 w)))
                  ≡ some s =
                rw (through, replay_query, f) at e in
              let (x, text, k) = bind_some (effective_sql d D simple_query u w.ids q.sql) _ s run in
              subst NoIds (Option.some-injective _ s k) (execute-none q x.0 x.1 w h)
        ]
      ]

  replay_from-strip :
      (mode : ReplayMode) (failed : Option ℕ) (w : World d D simple_query) (qs : List Query)
      → w.ids ≡ none
      → replay_from d D simple_query u mode failed w (map strip_query qs)
        ≡ replay_from d D simple_query u mode failed w qs
  unfolding replay_from
  replay_from-strip mode failed w [] h = refl
  replay_from-strip mode failed w (q ∷ qs) h = rw (replay_query-strip mode failed w q h) (
      bind_same (replay_query d D simple_query u mode failed w q) _ _ (λ s e.
        rw (replay_from-strip mode s.failed s.world qs (replay_query-none mode failed w q s h e))
          refl))

  replay_session-strip :
      (mode : ReplayMode) (w : World d D simple_query) (s : Session)
      → w.ids ≡ none
      → replay_session d D simple_query u mode w (strip_session s)
        ≡ replay_session d D simple_query u mode w s
  unfolding replay_session
  replay_session-strip mode w s h = rw (replay_from-strip mode none w s.queries h) refl

  -- Each session of the first list is that of the second, and its replay without a map of ids has the
  -- same results and leaves the same database.
  abbrev pub SameReplays : List Session → List Session → Type 0
  SameReplays [] [] = Unit
  SameReplays [] (t ∷ ts) = ⊥
  SameReplays (s ∷ ss) [] = ⊥
  SameReplays (s ∷ ss) (t ∷ ts) =
      ((mode : ReplayMode) (w : World d D simple_query)
        → w.ids ≡ none
        → replay_session d D simple_query u mode w s ≡ replay_session d D simple_query u mode w t)
      × SameReplays ss ts

  SameReplays-strip : (ss : List Session) → SameReplays (map strip_session ss) ss
  SameReplays-strip [] = tt
  SameReplays-strip (s ∷ ss) = (λ mode w h. replay_session-strip mode w s h, SameReplays-strip ss)

  -- A compiled workload replays, in any mode and without a map of ids, just as its source does; and
  -- as no response is left in it, it is not compiled again.
  pub compile_workload-SameReplays :
      (profile p : WorkloadProfile) (stats : CompileStats)
      → compile_workload profile ≡ compiled p stats
      → SameReplays p.sessions profile.sessions × (compile_workload p ≡ no_responses)
  unfolding strip_profile
  compile_workload-SameReplays profile p stats h =
      let e = compile_workload-compiled profile p stats h in
      subst
        (λ (x : WorkloadProfile).
          SameReplays x.sessions profile.sessions × (compile_workload x ≡ no_responses))
        (sym e) (SameReplays-strip profile.sessions, compile_workload-strip_profile profile)
