-- ===== src/Profile.antt =====
-- src/profile/mod.rs: the workload profile, the kinds of queries, and the numbering of transactions.
pub mod Transactions
use pg_retest.Prelude.{
  ℕ, ◌+◌, Bool, true, false, ◌||◌, Option, none, some, List, [], ◌∷◌, if◌then◌else◌, starts_with,
  codes, any,
}
use pg_retest.Sql.Lex.Scan.{Unicode}
use pg_retest.Text.{to_uppercase, trim_start}

pub data SourceDialect : Type 0 where
  postgres my_sql oracle sql_server snowflake click_house other_dialect : SourceDialect

pub data QueryKind : Type 0 where
  select insert update delete ddl begin commit rollback other : QueryKind

-- src/correlate/capture.rs
pub record ResponseRow : Type 0 where
  pub columns : List (List ℕ × List ℕ)

pub record Query : Type 0 where
  pub sql : List ℕ
  pub start_offset_us : ℕ
  pub duration_us : ℕ
  pub kind : QueryKind
  pub transaction_id : Option ℕ
  pub response_values : Option (List ResponseRow)
  pub original_sql : Option (List ℕ)

pub record Session : Type 0 where
  pub id : ℕ
  pub user : List ℕ
  pub database : List ℕ
  pub queries : List Query

-- The snapshot of the sequences and the primary keys stay with the code that talks to the database.
pub record Metadata : Type 0 where
  pub total_queries : ℕ
  pub total_sessions : ℕ
  pub capture_duration_us : ℕ

pub record WorkloadProfile : Type 0 where
  pub version : ℕ
  pub source_host : List ℕ
  pub pg_version : List ℕ
  pub capture_method : List ℕ
  pub sessions : List Session
  pub metadata : Metadata
  pub source_dialect : SourceDialect

-- The chain of tests on the trimmed text in upper case.
unfoldable pub kind_of_upper : List ℕ → QueryKind
kind_of_upper t =
    if starts_with (codes "SELECT") t || starts_with (codes "WITH") t
    then select
    else if starts_with (codes "INSERT") t
    then insert
    else if starts_with (codes "UPDATE") t
    then update
    else if starts_with (codes "DELETE") t
    then delete
    else if starts_with (codes "CREATE") t
        || starts_with (codes "ALTER") t
        || starts_with (codes "DROP") t
        || starts_with (codes "TRUNCATE") t
    then ddl
    else if starts_with (codes "BEGIN") t || starts_with (codes "START TRANSACTION") t
    then begin
    else if starts_with (codes "COMMIT") t || starts_with (codes "END") t
    then commit
    else if starts_with (codes "ROLLBACK TO") t
    then other
    else if starts_with (codes "ROLLBACK") t || starts_with (codes "ABORT") t
    then rollback
    else other

unfoldable pub from_sql : Unicode → List ℕ → QueryKind
unfolding kind_of_upper to_uppercase trim_start
from_sql u sql = kind_of_upper (to_uppercase u (trim_start sql))

abbrev pub is_read_only : QueryKind → Bool
is_read_only select = true
is_read_only _ = false

abbrev pub is_transaction_control : QueryKind → Bool
is_transaction_control begin = true
is_transaction_control commit = true
is_transaction_control rollback = true
is_transaction_control _ = false

-- The end of a transaction takes the number of the open one, and keeps its own if there is none.
close : Option ℕ → Query → Query
close none q = q
close (some txn) q = record q { transaction_id = some txn }

-- The body of the loop: the number of the open transaction, the next number, and the query.
assign_one : QueryKind → Option ℕ → ℕ → Query → Query × Option ℕ × ℕ
unfolding close
assign_one begin current next q = (record q { transaction_id = some next }, some next, next + 1)
assign_one commit current next q = (close current q, none, next)
assign_one rollback current next q = (close current q, none, next)
assign_one _ current next q = (record q { transaction_id = current }, current, next)

assign_from : Option ℕ → ℕ → List Query → List Query × ℕ
assign_from current next [] = ([], next)
assign_from current next (q ∷ qs) =
    let (q', current', next') = assign_one q.kind current next q in
    let (qs', last) = assign_from current' next' qs in (q' ∷ qs', last)

-- The numbered queries, and the next free number.
unfoldable pub assign_transaction_ids : List Query → ℕ → List Query × ℕ
unfolding assign_from assign_one
assign_transaction_ids qs next = assign_from none next qs
