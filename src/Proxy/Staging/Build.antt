-- ===== src/Proxy/Staging/Build.antt =====
-- src/proxy/capture.rs: `build_profile_from_staging`. The time of the capture is left out.
use pg_retest.Prelude.{
  ◌>>=◌, ℕ, ◌+◌, ◌-◌, ◌%◌, ◌^◌, Bool, true, false, Option, none, some, List, [], ◌∷◌, ◌++◌, ltb,
  if◌then◌else◌, length, codes, ℤ, pos, negsuc,
}
use pg_retest.Sql.Lex.Scan.{Unicode}
use pg_retest.Capture.Masking.{mask_sql_literals}
use pg_retest.Profile.{Query, WorkloadProfile, postgres, from_sql, assign_transaction_ids}
use pg_retest.Proxy.Collector.Build.{Progress, last, extend}
use pg_retest.Proxy.Staging.{Json, StagingRow, same_session}

-- `as u64` of an `i64`
abbrev pub as_u64 : ℤ → ℕ
as_u64 (pos n) = n
as_u64 (negsuc n) = 2 ^ 64 - (n + 1)

abbrev below : ℤ → ℤ → Bool
below (pos a) (pos b) = ltb a b
below (pos a) (negsuc b) = false
below (negsuc a) (pos b) = true
below (negsuc a) (negsuc b) = ltb b a

-- The rows of a session, whose user and database are those of its first row.
pub record Group : Type 0 where
  pub id : ℤ
  pub user : Option (List ℕ)
  pub database : Option (List ℕ)
  pub rows : List StagingRow

abbrev pub new_group : StagingRow → Group
new_group r = record {
  id = r.session_id;
  user = r.user_name;
  database = r.database_name;
  rows = r ∷ [];
}

-- A row comes to those of its session; the groups stand in the order of their ids, as in a `BTreeMap`.
abbrev pub group_row : StagingRow → List Group → List Group
group_row r [] = new_group r ∷ []
group_row r (g ∷ groups) =
    let rest = group_row r groups in
    if same_session g.id r.session_id
    then record g { rows = g.rows ++ r ∷ [] } ∷ groups
    else if below r.session_id g.id
    then new_group r ∷ g ∷ groups
    else g ∷ rest

unfoldable pub group_rows : List Group → List StagingRow → List Group
group_rows groups [] = groups
group_rows groups (r ∷ rows) = group_rows (group_row r groups) rows

abbrev or_default : Option (List ℕ) → List ℕ
or_default none = []
or_default (some s) = s

abbrev push_group : Group → Progress → List Query → Progress
push_group g p raw =
    let (queries, next) = assign_transaction_ids raw p.next_txn_id in
    record {
      sessions =
          p.sessions
          ++ record {
            id = as_u64 g.id;
            user = or_default g.user;
            database = or_default g.database;
            queries = queries;
          }
            ∷ [];
      total_queries = (p.total_queries + length queries) % 2 ^ 64;
      next_txn_id = next;
      capture_duration_us = extend p.capture_duration_us (last queries);
    }

module _ (u : Unicode) (json : Json) (mask_values : Bool) where
  -- `none` means that the tokenizer does not end.
  query_of_row : StagingRow → Option Query
  query_of_row r = do
    sql ← (if mask_values then mask_sql_literals u r.sql else some r.sql)
    some (record {
      sql = sql;
      start_offset_us = as_u64 r.start_offset_us;
      duration_us = as_u64 r.duration_us;
      kind = from_sql u sql;
      transaction_id = none;
      response_values = r.response_values_json >>= json.from_str;
      original_sql = none;
    })

  queries_of_rows : List StagingRow → Option (List Query)
  unfolding query_of_row
  queries_of_rows [] = some []
  queries_of_rows (r ∷ rows) = do q ← query_of_row r; qs ← queries_of_rows rows; some (q ∷ qs)

  add_groups : Progress → List Group → Option Progress
  unfolding queries_of_rows
  add_groups p [] = some p
  add_groups p (g ∷ groups) = do
    raw ← queries_of_rows g.rows
    add_groups (push_group g p raw) groups

  unfoldable pub build_profile_from_staging : List StagingRow → List ℕ → Option WorkloadProfile
  unfolding add_groups group_rows
  build_profile_from_staging rows source_host = do
    p ←
        add_groups
          (record { sessions = []; total_queries = 0; next_txn_id = 1; capture_duration_us = 0 })
          (group_rows [] rows)
    some (record {
      version = 2;
      source_host = source_host;
      pg_version = codes "unknown";
      capture_method = codes "proxy";
      sessions = p.sessions;
      metadata = record {
        total_queries = p.total_queries;
        total_sessions = length p.sessions;
        capture_duration_us = p.capture_duration_us;
      };
      source_dialect = postgres;
    })
