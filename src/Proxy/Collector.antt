-- ===== src/Proxy/Collector.antt =====
-- src/proxy/capture.rs: the collector, which turns the events of the relay tasks into sessions, and
-- the profile that is built of them. Instants are nanoseconds from some common origin; durations are
-- microseconds cut off to 64 bits. The iteration order of the hash map is that of the first events.
pub mod Interleaving
pub mod Trace
pub mod Build
pub mod Contents
pub mod Totals
use pg_retest.Prelude.{
  ℕ, ◌+◌, ◌-◌, ◌/◌, ◌%◌, ◌^◌, Bool, true, false, Option, none, some, List, [], ◌∷◌, ◌++◌, map,
  foldl, ltb, leb, if◌then◌else◌, length, codes, upsert, modify,
}
use pg_retest.Sql.Lex.Scan.{Unicode}
use pg_retest.Capture.Masking.{mask_sql_literals}
use pg_retest.Profile.{
  ResponseRow, Query, Session, Metadata, WorkloadProfile, postgres, from_sql,
  assign_transaction_ids,
}

pub data CaptureEvent : Type 0 where
  session_start : (session_id : ℕ) (user database : List ℕ) (timestamp : ℕ) → CaptureEvent
  query_start : (session_id : ℕ) (sql : List ℕ) (timestamp : ℕ) → CaptureEvent
  query_complete : (session_id timestamp : ℕ) → CaptureEvent
  query_error : (session_id : ℕ) (text : List ℕ) (timestamp : ℕ) → CaptureEvent
  query_returning :
      (session_id : ℕ) (columns : List (List ℕ)) (rows : List (List (Option (List ℕ))))
      (timestamp : ℕ)
      → CaptureEvent
  session_end : (session_id : ℕ) → CaptureEvent

pub record CapturedQuery : Type 0 where
  pub sql : List ℕ
  pub start_offset_us : ℕ
  pub duration_us : ℕ
  pub is_error : Bool
  pub error_message : Option (List ℕ)
  pub response_values : Option (List ResponseRow)

pub record SessionState : Type 0 where
  pub user : List ℕ
  pub database : List ℕ
  pub session_start : ℕ
  pub queries : List CapturedQuery
  pub pending_sql : Option (List ℕ × ℕ)

-- What the collector returns of a session.
pub record CapturedSession : Type 0 where
  pub session_id : ℕ
  pub user : List ℕ
  pub database : List ℕ
  pub queries : List CapturedQuery

-- `a.duration_since(b).as_micros() as u64`
abbrev pub micros_between : ℕ → ℕ → ℕ
micros_between a b = ((a - b) / 1000) % 2 ^ 64

abbrev pub new_session : List ℕ → List ℕ → ℕ → SessionState
new_session user database start = record {
  user = user;
  database = database;
  session_start = start;
  queries = [];
  pending_sql = none;
}

-- A session that started before the capture did is entered under unknown names.
abbrev pub or_late : ℕ → Option SessionState → SessionState
or_late timestamp none = new_session (codes "unknown") (codes "unknown") timestamp
or_late timestamp (some s) = s

abbrev pub start_query : List ℕ → ℕ → Option SessionState → SessionState
start_query sql timestamp o = record (or_late timestamp o) { pending_sql = some (sql, timestamp) }

abbrev pub is_some : Option (List ℕ) → Bool
is_some none = false
is_some (some t) = true

-- The pending query ends at a time, with an error message or none.
unfoldable pub finish_query : Option (List ℕ) → ℕ → SessionState → SessionState
finish_query message timestamp s = elim s.pending_sql [
  | none ↦ s
  | some (sql, start) ↦ record s {
    pending_sql = none;
    queries =
        s.queries
        ++ record {
          sql = sql;
          start_offset_us = micros_between start s.session_start;
          duration_us = micros_between timestamp start;
          is_error = is_some message;
          error_message = message;
          response_values = none;
        }
          ∷ [];
  }
]

-- `zip`, with NULL for a missing value.
abbrev pub response_columns : List (List ℕ) → List (Option (List ℕ)) → List (List ℕ × List ℕ)
response_columns [] row = []
response_columns (c ∷ cs) [] = []
response_columns (c ∷ cs) (none ∷ row) = (c, codes "NULL") ∷ response_columns cs row
response_columns (c ∷ cs) (some v ∷ row) = (c, v) ∷ response_columns cs row

abbrev pub response_row : List (List ℕ) → List (Option (List ℕ)) → ResponseRow
response_row columns row = record { columns = response_columns columns row }

-- The rows go to the query that was captured last.
abbrev pub attach_rows : List ResponseRow → List CapturedQuery → List CapturedQuery
attach_rows rows [] = []
attach_rows rows (q ∷ []) = record q { response_values = some rows } ∷ []
attach_rows rows (q ∷ r ∷ qs) = q ∷ attach_rows rows (r ∷ qs)

unfoldable pub returning :
    List (List ℕ) → List (List (Option (List ℕ))) → SessionState → SessionState
returning columns rows s = record s {
  queries = attach_rows (map (response_row columns) rows) s.queries;
}

unfoldable pub handle : List (ℕ × SessionState) → CaptureEvent → List (ℕ × SessionState)
unfolding finish_query returning
handle m (session_start k user database t) = upsert k (λ _. new_session user database t) m
handle m (query_start k sql t) = upsert k (start_query sql t) m
handle m (query_complete k t) = modify k (finish_query none t) m
handle m (query_error k text t) = modify k (finish_query (some text) t) m
handle m (query_returning k columns rows _) = modify k (returning columns rows) m
handle m (session_end _) = m

-- Sessions without captured queries are left out.
abbrev pub keep_captured :
    ℕ → SessionState → List CapturedQuery → List CapturedSession → List CapturedSession
keep_captured k s [] rest = rest
keep_captured k s (q ∷ qs) rest =
    record { session_id = k; user = s.user; database = s.database; queries = q ∷ qs } ∷ rest

abbrev pub captured_sessions : List (ℕ × SessionState) → List CapturedSession
captured_sessions [] = []
captured_sessions ((k, s) ∷ m) = keep_captured k s s.queries (captured_sessions m)

unfoldable pub run_collector : List CaptureEvent → List CapturedSession
unfolding handle
run_collector events = captured_sessions (foldl handle [] events)
