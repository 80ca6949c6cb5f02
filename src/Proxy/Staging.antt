-- ===== src/Proxy/Staging.antt =====
-- src/proxy/capture.rs: the collector that stages its rows in a database, in batches. A batch that is
-- handed to the database is the model's output; JSON is the library's (`serde_json`).
pub mod Batches
pub mod Related
pub mod Refinement
pub mod Build
use pg_retest.Prelude.{
  ℕ, ◌+◌, ◌-◌, ◌*◌, ◌/◌, ◌%◌, ◌^◌, Bool, true, false, Option, none, some, List, [], ◌∷◌, ◌++◌, map,
  foldl, ltb, leb, ◌==◌, if◌then◌else◌, length, codes, lookup, upsert, remove, ℤ, pos, negsuc,
  signed,
}
use pg_retest.Sql.Lex.Scan.{Unicode}
use pg_retest.Profile.{QueryKind, ResponseRow, from_sql}
use pg_retest.Proxy.Collector.{
  CaptureEvent, session_start, query_start, query_complete, query_error, query_returning,
  session_end, response_row, is_some,
}

pub record Json : Type 0 where
  pub to_string : List ResponseRow → Option (List ℕ)
  pub from_str : List ℕ → Option (List ResponseRow)

-- Of the kind, the name is stored.
pub record StagingRow : Type 0 where
  pub capture_id : List ℕ
  pub session_id : ℤ
  pub user_name : Option (List ℕ)
  pub database_name : Option (List ℕ)
  pub sql : List ℕ
  pub kind : QueryKind
  pub start_offset_us : ℤ
  pub duration_us : ℤ
  pub is_error : Bool
  pub error_message : Option (List ℕ)
  pub timestamp_us : ℤ
  pub response_values_json : Option (List ℕ)

-- `session_meta` and `pending`
pub record Tables : Type 0 where
  pub session_meta : List (ℕ × (List ℕ × List ℕ × ℕ))
  pub pending : List (ℕ × (List ℕ × ℕ))

-- `as i64`
abbrev pub as_i64 : ℕ → ℤ
as_i64 n = signed (2 ^ 63) (n % 2 ^ 64)

-- The microseconds between two instants, none if they are the other way round.
abbrev pub as_micros : ℕ → ℕ → ℤ
as_micros a b = as_i64 ((a - b) / 1000)

abbrev pub enter : List ℕ × List ℕ × ℕ → Option (List ℕ × List ℕ × ℕ) → List ℕ × List ℕ × ℕ
enter new none = new
enter new (some old) = old

module _ (u : Unicode) (capture_id : List ℕ) where
  unfoldable pub staging_row :
      ℕ → Option (List ℕ) → ℕ → List ℕ × List ℕ × ℕ → List ℕ × ℕ → StagingRow
  unfolding from_sql
  staging_row k message t (user, database, opened) (sql, start) = record {
    capture_id = capture_id;
    session_id = as_i64 k;
    user_name = some user;
    database_name = some database;
    sql = sql;
    kind = from_sql u sql;
    start_offset_us = as_micros start opened;
    duration_us = as_micros t start;
    is_error = is_some message;
    error_message = message;
    timestamp_us = as_micros start opened;
    response_values_json = none;
  }

  -- The row of a query that ends, if it is pending and its session is known.
  abbrev pub ended_row :
      ℕ → Option (List ℕ) → ℕ → Option (List ℕ × List ℕ × ℕ) → Option (List ℕ × ℕ) → List StagingRow
  ended_row k message t (some known) (some query) = staging_row k message t known query ∷ []
  ended_row k message t _ _ = []

  abbrev end_query : ℕ → Option (List ℕ) → ℕ → Tables → Tables × List StagingRow
  end_query k message t tb = (
    record tb { pending = remove k tb.pending },
    ended_row k message t (lookup k tb.session_meta) (lookup k tb.pending),
  )

  -- What an event does to the tables, and the rows it adds to the batch.
  unfoldable pub stage : Tables → CaptureEvent → Tables × List StagingRow
  unfolding staging_row
  stage tb (session_start k user database t) =
      (record tb { session_meta = upsert k (λ _. (user, database, t)) tb.session_meta }, [])
  stage tb (query_start k sql t) = (
    record {
      session_meta = upsert k (enter (codes "unknown", codes "unknown", t)) tb.session_meta;
      pending = upsert k (λ _. (sql, t)) tb.pending;
    },
    [],
  )
  stage tb (query_complete k t) = end_query k none t tb
  stage tb (query_error k text t) = end_query k (some text) t tb
  stage tb (query_returning _ _ _ _) = (tb, [])
  stage tb (session_end _) = (tb, [])

-- The last row of a session in the batch is changed.
abbrev pub same_session : ℤ → ℤ → Bool
same_session (pos a) (pos b) = a == b
same_session (negsuc a) (negsuc b) = a == b
same_session _ _ = false

attach_last : ℤ → (StagingRow → StagingRow) → List StagingRow → Option (List StagingRow)
attach_last k f [] = none
attach_last k f (r ∷ rows) = elim (attach_last k f rows) [
  | some rest ↦ some (r ∷ rest)
  | none ↦ if same_session r.session_id k then some (f r ∷ rows) else none
]

abbrev or_same : List StagingRow → Option (List StagingRow) → List StagingRow
or_same rows none = rows
or_same rows (some changed) = changed

abbrev set_json : Option (List ℕ) → StagingRow → StagingRow
set_json none r = r
set_json (some text) r = record r { response_values_json = some text }

abbrev pub batch_size : ℕ
batch_size = 100

module _ (json : Json) where
  -- The rows that a query gave back go to the last row of its session that is still in the batch.
  unfoldable pub attach : CaptureEvent → List StagingRow → List StagingRow
  unfolding attach_last
  attach (query_returning k columns rows _) batch =
      or_same batch
        (attach_last (as_i64 k) (set_json (json.to_string (map (response_row columns) rows))) batch)
  attach _ batch = batch

-- An event, or half a second without one.
pub data Tick : Type 0 where
  received : CaptureEvent → Tick
  timeout : Tick

abbrev pub if_not_empty : List StagingRow → List (List StagingRow) → List (List StagingRow)
if_not_empty [] batches = batches
if_not_empty (r ∷ rows) batches = (r ∷ rows) ∷ batches

module _ (u : Unicode) (json : Json) (capture_id : List ℕ) where
  -- The batches that are handed over, from the tables and the batch so far on, until the channel closes.
  unfoldable pub run_staging_collector :
      Tables → List StagingRow → List Tick → List (List StagingRow)
  run_staging_collector tb batch [] = if_not_empty batch []
  run_staging_collector tb batch (timeout ∷ ticks) =
      if_not_empty batch (run_staging_collector tb [] ticks)
  run_staging_collector tb batch (received e ∷ ticks) =
      let (tb', rows) = stage u capture_id tb e in
      let batch' = attach json e batch ++ rows in
      elim (leb batch_size (length batch')) [
        | true ↦ batch' ∷ run_staging_collector tb' [] ticks
        | false ↦ run_staging_collector tb' batch' ticks
      ]
