-- ===== src/Proxy/Collector/Build.antt =====
-- src/proxy/capture.rs: `build_profile`. The time of the capture is left out of the profile.
use pg_retest.Prelude.{
  ◌>>=◌, ℕ, ◌+◌, ◌%◌, ◌^◌, Bool, Option, none, some, List, [], ◌∷◌, ◌++◌, ltb, leb, if◌then◌else◌,
  length, codes,
}
use pg_retest.Sql.Lex.Scan.{Unicode}
use pg_retest.Capture.Masking.{mask_sql_literals}
use pg_retest.Profile.{Query, Session, WorkloadProfile, postgres, from_sql, assign_transaction_ids}
use pg_retest.Proxy.Collector.{CapturedQuery, CapturedSession}

-- The variables of the loop over the sessions.
pub record Progress : Type 0 where
  pub sessions : List Session
  pub total_queries : ℕ
  pub next_txn_id : ℕ
  pub capture_duration_us : ℕ

abbrev pub last : List Query → Option Query
last [] = none
last (q ∷ []) = some q
last (q ∷ r ∷ qs) = last (r ∷ qs)

abbrev pub end_us : Query → ℕ
end_us q = (q.start_offset_us + q.duration_us) % 2 ^ 64

-- The capture lasts at least until the end of the last query.
abbrev pub extend : ℕ → Option Query → ℕ
extend duration none = duration
extend duration (some q) = if ltb duration (end_us q) then end_us q else duration

-- The stable `sort_by_key` on the ids.
abbrev pub insert_by_id : Session → List Session → List Session
insert_by_id s [] = s ∷ []
insert_by_id s (t ∷ ts) = if leb s.id t.id then s ∷ t ∷ ts else t ∷ insert_by_id s ts

abbrev pub sort_by_id : List Session → List Session
sort_by_id [] = []
sort_by_id (s ∷ ss) = insert_by_id s (sort_by_id ss)

abbrev pub push_session : CapturedSession → Progress → List Query → Progress
push_session c p raw =
    let (queries, next) = assign_transaction_ids raw p.next_txn_id in
    record {
      sessions =
          p.sessions
          ++ record { id = c.session_id; user = c.user; database = c.database; queries = queries }
            ∷ [];
      total_queries = (p.total_queries + length queries) % 2 ^ 64;
      next_txn_id = next;
      capture_duration_us = extend p.capture_duration_us (last queries);
    }

module _ (u : Unicode) (mask_values : Bool) where
  -- `none` means that the tokenizer does not end.
  unfoldable pub query_of : CapturedQuery → Option Query
  query_of cq = do
    sql ← (if mask_values then mask_sql_literals u cq.sql else some cq.sql)
    some (record {
      sql = sql;
      start_offset_us = cq.start_offset_us;
      duration_us = cq.duration_us;
      kind = from_sql u sql;
      transaction_id = none;
      response_values = cq.response_values;
      original_sql = none;
    })

  unfoldable pub queries_of : List CapturedQuery → Option (List Query)
  unfolding query_of
  queries_of [] = some []
  queries_of (cq ∷ cqs) = do q ← query_of cq; qs ← queries_of cqs; some (q ∷ qs)

  unfoldable pub add_sessions : Progress → List CapturedSession → Option Progress
  unfolding queries_of
  add_sessions p [] = some p
  add_sessions p (c ∷ cs) = do raw ← queries_of c.queries; add_sessions (push_session c p raw) cs

  unfoldable pub build_profile : List CapturedSession → List ℕ → Option WorkloadProfile
  unfolding add_sessions
  build_profile captured source_host = do
    p ←
        add_sessions
          (record { sessions = []; total_queries = 0; next_txn_id = 1; capture_duration_us = 0 })
          captured
    some (record {
      version = 2;
      source_host = source_host;
      pg_version = codes "unknown";
      capture_method = codes "proxy";
      sessions = sort_by_id p.sessions;
      metadata = record {
        total_queries = p.total_queries;
        total_sessions = length p.sessions;
        capture_duration_us = p.capture_duration_us;
      };
      source_dialect = postgres;
    })
