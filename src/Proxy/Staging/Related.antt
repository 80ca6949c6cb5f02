-- ===== src/Proxy/Staging/Related.antt =====
-- src/proxy/capture.rs: one event in the staging collector and in the collector that keeps its sessions in memory.
use mathlib.Core.List.{append-nil, map-append}
use pg_retest.Prelude.{
  ℕ, ◌-◌, ◌/◌, ◌%◌, ◌^◌, ◌<◌, ◌≡◌, refl, sym, ap, ◌∙◌, Bool, true, false, Option, none, some, List,
  [], ◌∷◌, ◌++◌, ◌==◌, map, arith, if◌then◌else◌, ltb, lookup, lookup-upsert, lookup-remove, codes,
  Bool-cases, ==_iff, inl, inr, ℤ, pos, signed, remove,
}
use pg_retest.Sql.Lex.Scan.{Unicode}
use pg_retest.Profile.{from_sql}
use pg_retest.Proxy.Collector.{
  CaptureEvent, session_start, query_start, query_complete, query_error, query_returning,
  session_end, SessionState, CapturedQuery, finish_query, micros_between,
}
use pg_retest.Proxy.Collector.Interleaving.{event_session, observe}
use pg_retest.Proxy.Staging.{
  StagingRow, Tables, staging_row, ended_row, enter, same_session, stage, as_i64, as_micros,
}
use pg_retest.Proxy.Staging.Batches.{NoRows}

-- The row of a query that was captured in a session.
abbrev pub row_of : Unicode → List ℕ → ℕ → SessionState → CapturedQuery → StagingRow
row_of u capture_id k s q = record {
  capture_id = capture_id;
  session_id = as_i64 k;
  user_name = some s.user;
  database_name = some s.database;
  sql = q.sql;
  kind = from_sql u q.sql;
  start_offset_us = as_i64 q.start_offset_us;
  duration_us = as_i64 q.duration_us;
  is_error = q.is_error;
  error_message = q.error_message;
  timestamp_us = as_i64 q.start_offset_us;
  response_values_json = none;
}

abbrev pub is_start : CaptureEvent → Bool
is_start (session_start _ _ _ _) = true
is_start _ = false

as_micros-micros_between : (a b : ℕ) → as_micros a b ≡ as_i64 (micros_between a b)
as_micros-micros_between a b =
    ap as_i64_bits
      (let e : ((a - b) / 1000) % 2 ^ 64 ≡ (((a - b) / 1000) % 2 ^ 64) % 2 ^ 64 = omega arith in e)
  where
    as_i64_bits : ℕ → ℤ
    as_i64_bits n = signed (2 ^ 63) n

module _ (u : Unicode) (capture_id : List ℕ) where
  abbrev pub rows_in : ℕ → SessionState → List StagingRow
  rows_in k s = map (row_of u capture_id k s) s.queries

  -- The tables and the rows so far say of a session what the collector in memory knows of it.
  abbrev pub Related : ℕ → Tables → Option SessionState → List StagingRow → Type 0
  Related k tb none rows =
      (lookup k tb.session_meta ≡ none) × (lookup k tb.pending ≡ none) × (rows ≡ [])
  Related k tb (some s) rows =
      (lookup k tb.session_meta ≡ some (s.user, s.database, s.session_start))
      × (lookup k tb.pending ≡ s.pending_sql)
      × (rows ≡ rows_in k s)

  equal : (k : ℕ) → (k == k) ≡ true
  equal k = (==_iff k k).1 refl

  ended-Related :
      (k t : ℕ) (message : Option (List ℕ)) (tb : Tables) (s : SessionState)
      (rows : List StagingRow) (p : Option (List ℕ × ℕ))
      → p ≡ s.pending_sql
      → Related k tb (some s) rows
      → Related k
          (record tb { pending = remove k tb.pending })
          (some (finish_query message t s))
          (rows
            ++ ended_row u capture_id k message t (lookup k tb.session_meta) (lookup k tb.pending))
  unfolding finish_query staging_row
  ended-Related k t message tb s rows none h (m, q, r) =
      rw (sym h, q ∙ sym h, m)
        (refl, lookup-remove k k tb.pending ∙ rw (equal k) refl, append-nil rows ∙ r)
  ended-Related k t message tb s rows (some (sql, start)) h (m, q, r) =
      rw
        (
          sym h,
          q ∙ sym h,
          m,
          as_micros-micros_between start s.session_start,
          as_micros-micros_between t start,
        )
        (
          refl,
          lookup-remove k k tb.pending ∙ rw (equal k) refl,
          rw r (sym (map-append (row_of u capture_id k s) s.queries (_ ∷ []))),
        )

  -- An event of the session.
  pub own_step :
      (e : CaptureEvent) (tb : Tables) (o : Option SessionState) (rows : List StagingRow)
      → NoRows e
      → (is_start e ≡ true → o ≡ none)
      → Related (event_session e) tb o rows
      → Related
          (event_session e)
          (stage u capture_id tb e).0
          (observe o e)
          (rows ++ (stage u capture_id tb e).1)
  unfolding stage
  own_step (session_start k user database t) tb none rows n f (m, q, r) = (
    lookup-upsert k k (λ _. (user, database, t)) tb.session_meta ∙ rw (equal k) refl,
    q,
    append-nil rows ∙ r,
  )
  own_step (session_start k user database t) tb (some s) rows n f h =
      let no : ⊥ = cc (f refl) in absurd no
  own_step (query_start k sql t) tb none rows n f (m, q, r) = (
    lookup-upsert k k (enter (codes "unknown", codes "unknown", t)) tb.session_meta
        ∙ rw (equal k, m) refl,
    lookup-upsert k k (λ _. (sql, t)) tb.pending ∙ rw (equal k) refl,
    append-nil rows ∙ r,
  )
  own_step (query_start k sql t) tb (some s) rows n f (m, q, r) = (
    lookup-upsert k k (enter (codes "unknown", codes "unknown", t)) tb.session_meta
        ∙ rw (equal k, m) refl,
    lookup-upsert k k (λ _. (sql, t)) tb.pending ∙ rw (equal k) refl,
    append-nil rows ∙ r,
  )
  own_step (query_complete k t) tb none rows n f (m, q, r) =
      rw m (refl, lookup-remove k k tb.pending ∙ rw (equal k) refl, append-nil rows ∙ r)
  own_step (query_complete k t) tb (some s) rows n f h =
      ended-Related k t none tb s rows s.pending_sql refl h
  own_step (query_error k text t) tb none rows n f (m, q, r) =
      rw m (refl, lookup-remove k k tb.pending ∙ rw (equal k) refl, append-nil rows ∙ r)
  own_step (query_error k text t) tb (some s) rows n f h =
      ended-Related k t (some text) tb s rows s.pending_sql refl h
  own_step (query_returning _ _ _ _) tb o rows n f h = absurd n
  own_step (session_end k) tb none rows n f (m, q, r) = (m, q, append-nil rows ∙ r)
  own_step (session_end k) tb (some s) rows n f (m, q, r) = (m, q, append-nil rows ∙ r)

  -- An event of another session changes nothing about this one.
  pub other_step :
      (k : ℕ) (e : CaptureEvent) (tb : Tables)
      → (event_session e == k) ≡ false
      → (lookup k (stage u capture_id tb e).0.session_meta ≡ lookup k tb.session_meta)
        × (lookup k (stage u capture_id tb e).0.pending ≡ lookup k tb.pending)
  unfolding stage
  other_step k (session_start j user database t) tb d =
      (lookup-upsert k j (λ _. (user, database, t)) tb.session_meta ∙ rw d refl, refl)
  other_step k (query_start j sql t) tb d = (
    lookup-upsert k j (enter (codes "unknown", codes "unknown", t)) tb.session_meta ∙ rw d refl,
    lookup-upsert k j (λ _. (sql, t)) tb.pending ∙ rw d refl,
  )
  other_step k (query_complete j t) tb d = (refl, lookup-remove k j tb.pending ∙ rw d refl)
  other_step k (query_error j text t) tb d = (refl, lookup-remove k j tb.pending ∙ rw d refl)
  other_step k (query_returning _ _ _ _) tb d = (refl, refl)
  other_step k (session_end _) tb d = (refl, refl)

  pub Related-same :
      (k : ℕ) (tb tb' : Tables) (o : Option SessionState) (rows : List StagingRow)
      → lookup k tb'.session_meta ≡ lookup k tb.session_meta
      → lookup k tb'.pending ≡ lookup k tb.pending
      → Related k tb o rows
      → Related k tb' o rows
  Related-same k tb tb' none rows h i (m, q, r) = (h ∙ m, i ∙ q, r)
  Related-same k tb tb' (some s) rows h i (m, q, r) = (h ∙ m, i ∙ q, r)

-- The rows of a session.
abbrev pub of_session : ℕ → List StagingRow → List StagingRow
of_session k [] = []
of_session k (r ∷ rows) =
    if same_session r.session_id (as_i64 k) then r ∷ of_session k rows else of_session k rows

as_i64-small : (n : ℕ) → n < 2 ^ 63 → as_i64 n ≡ pos n
as_i64-small n h =
    let e : n % 2 ^ 64 ≡ n = omega (arith, h) in
    let l : ltb n (2 ^ 63) ≡ true = ground (arith, h) in ap (signed (2 ^ 63)) e ∙ rw l refl

pub of_session-append :
    (k : ℕ) (x y : List StagingRow) → of_session k (x ++ y) ≡ of_session k x ++ of_session k y
of_session-append k [] y = refl
of_session-append k (r ∷ x) y = elim (Bool-cases (same_session r.session_id (as_i64 k))) [
  | inl same ↦ rw same (ap (λ (l : List StagingRow). r ∷ l) (of_session-append k x y))
  | inr other ↦ rw other (of_session-append k x y)
]

same_session-== :
    (j k : ℕ) → j < 2 ^ 63 → k < 2 ^ 63 → same_session (as_i64 j) (as_i64 k) ≡ (j == k)
same_session-== j k h i =
    ap (λ (z : ℤ). same_session z (as_i64 k)) (as_i64-small j h)
    ∙ ap (same_session (pos j)) (as_i64-small k i)

module _ (u : Unicode) (capture_id : List ℕ) where
  ended-of_session :
      (j k t : ℕ) (message : Option (List ℕ)) (o : Option (List ℕ × List ℕ × ℕ))
      (p : Option (List ℕ × ℕ))
      → j < 2 ^ 63
      → k < 2 ^ 63
      → of_session k (ended_row u capture_id j message t o p)
        ≡ (if j == k then ended_row u capture_id j message t o p else [])
  unfolding staging_row
  ended-of_session j k t message none p h i = ground arith
  ended-of_session j k t message (some o) none h i = ground arith
  ended-of_session j k t message (some (user, database, opened)) (some (sql, start)) h i =
      rw (same_session-== j k h i) refl

  pub stage-of_session :
      (k : ℕ) (e : CaptureEvent) (tb : Tables)
      → event_session e < 2 ^ 63
      → k < 2 ^ 63
      → of_session k (stage u capture_id tb e).1
        ≡ (if event_session e == k then (stage u capture_id tb e).1 else [])
  unfolding stage
  stage-of_session k (session_start _ _ _ _) tb h i = ground arith
  stage-of_session k (query_start _ _ _) tb h i = ground arith
  stage-of_session k (query_complete j t) tb h i =
      ended-of_session j k t none (lookup j tb.session_meta) (lookup j tb.pending) h i
  stage-of_session k (query_error j text t) tb h i =
      ended-of_session j k t (some text) (lookup j tb.session_meta) (lookup j tb.pending) h i
  stage-of_session k (query_returning _ _ _ _) tb h i = ground arith
  stage-of_session k (session_end _) tb h i = ground arith
