-- ===== src/Replay/Session.antt =====
-- src/replay/session.rs: the replay of one session. The database is a parameter: the state behind
-- the session's connection, and what a statement answers, with the time it took. Other sessions may
-- register values between two statements; here the map is that of one session. When a statement is
-- sent changes no result, and the sleep before it is left out.
pub mod Atomic
pub mod FailedTransaction
pub mod Modes
use mathlib.Core.Option
use pg_retest.Prelude.{
  ◌>>=◌, ℕ, Bool, true, false, ◌&&◌, ◌||◌, not, Option, none, some, List, [], ◌∷◌, ◌++◌, codes,
  bytes_eq, if◌then◌else◌, ◌==◌,
}
use pg_retest.Sql.Lex.Scan.{Unicode}
use pg_retest.Profile.{
  Query, Session, QueryKind, commit, rollback, ResponseRow, is_read_only, is_transaction_control,
}
use pg_retest.Correlate.Map.{DashMap, register}
use pg_retest.Correlate.Substitute.{substitute_ids}

pub data ReplayMode : Type 0 where
  read_write read_only : ReplayMode

unfoldable pub should_replay : ReplayMode → Query → Bool
should_replay read_write q = true
should_replay read_only q = is_read_only q.kind

pub record QueryResult : Type 0 where
  pub sql : List ℕ
  pub original_duration_us : ℕ
  pub replay_duration_us : ℕ
  pub success : Bool
  pub error : Option (List ℕ)
  pub id_substitution_count : ℕ

pub record ReplayResults : Type 0 where
  pub session_id : ℕ
  pub query_results : List QueryResult

-- The answer to a simple query: the values of its rows, an error of the server, or another one.
pub data Response : Type 0 where
  rows : List (List (Option (List ℕ))) → Response
  db_error : (severity text : List ℕ) → Response
  other_error : List ℕ → Response

abbrev pub error_text : Response → Option (List ℕ)
error_text (rows _) = none
error_text (db_error severity text) = some (severity ++ codes ": " ++ text)
error_text (other_error text) = some text

-- A statement that is passed over, with the reason.
abbrev pub skipped : List ℕ → Query → QueryResult
skipped reason q = record {
  sql = q.sql;
  original_duration_us = q.duration_us;
  replay_duration_us = 0;
  success = false;
  error = some reason;
  id_substitution_count = 0;
}

abbrev pub ends_transaction : QueryKind → Bool
ends_transaction commit = true
ends_transaction rollback = true
ends_transaction _ = false

-- Whether a query belongs to the failed transaction.
abbrev pub in_failed : Option ℕ → Option ℕ → Bool
in_failed (some t) (some n) = n == t
in_failed _ _ = false

-- The transaction that has failed when a statement has ended in an error.
abbrev pub fails : Query → Option ℕ
fails q = if is_transaction_control q.kind then none else q.transaction_id

abbrev pub note_result : Option QueryResult → List QueryResult → List QueryResult
note_result none rs = rs
note_result (some r) rs = r ∷ rs

abbrev pub failure : Option ℕ → Option (List ℕ) → Option ℕ
failure (some t) (some e) = some t
failure _ _ = none

abbrev pub succeeded : Option (List ℕ) → Bool
succeeded none = true
succeeded (some e) = false

module _ (d : DashMap) where
  -- The columns of a row that differ are registered.
  unfoldable pub register_columns : List (List ℕ × List ℕ) → List (Option (List ℕ)) → d.Map → d.Map
  unfolding register
  register_columns [] row m = m
  register_columns (c ∷ cs) [] m = m
  register_columns (c ∷ cs) (none ∷ row) m = register_columns cs row m
  register_columns ((name, old) ∷ cs) (some new ∷ row) m =
      register_columns cs row (if bytes_eq new old then m else register d old new m)

  unfoldable pub register_rows : List ResponseRow → List (List (Option (List ℕ))) → d.Map → d.Map
  unfolding register_columns
  register_rows [] rs m = m
  register_rows (c ∷ cs) [] m = m
  register_rows (c ∷ cs) (r ∷ rs) m = register_rows cs rs (register_columns c.columns r m)

  abbrev pub learn : Option (List ResponseRow) → Response → Option d.Map → Option d.Map
  learn (some captured) (rows rs) (some m) = some (register_rows captured rs m)
  learn _ _ ids = ids

  module _ (D : Type 0) (simple_query : List ℕ → D → Response × ℕ × D) where
    -- The state behind the connection, and the map of ids, if the replay keeps one.
    pub record World : Type 0 where
      pub db : D
      pub ids : Option d.Map

    -- What the loop carries from one query to the next, with the result if there is one.
    pub record Step : Type 0 where
      pub result : Option QueryResult
      pub failed : Option ℕ
      pub world : World

    -- A failed transaction is rolled back.
    abbrev pub settle : Option ℕ → Option (List ℕ) → D → D
    settle (some t) (some e) db = (simple_query (codes "ROLLBACK") db).2
    settle _ _ db = db

    -- A statement is sent; `sql` is its text with `n` ids replaced.
    unfoldable pub execute : Query → List ℕ → ℕ → World → Step
    unfolding register_rows
    execute q sql n w =
        let (answer, elapsed, db) = simple_query sql w.db in
        let error = error_text answer in
        record {
          result = some (record {
            sql = sql;
            original_duration_us = q.duration_us;
            replay_duration_us = elapsed;
            success = succeeded error;
            error = error;
            id_substitution_count = n;
          });
          failed = failure (fails q) error;
          world = record {
            db = settle (fails q) error db;
            ids = learn q.response_values answer w.ids;
          };
        }

    module _ (u : Unicode) where
      -- `none` means that the tokenizer does not end.
      abbrev pub effective_sql : Option d.Map → List ℕ → Option (List ℕ × ℕ)
      effective_sql none sql = some (sql, 0)
      effective_sql (some m) sql = substitute_ids d m u sql

      abbrev pub skip : Query → Option ℕ → World → Step
      skip q failed w = elim (ends_transaction q.kind) [
        | true ↦ record {
          result = some (skipped (codes "skipped: transaction already rolled back") q);
          failed = none;
          world = w;
        }
        | false ↦ record {
          result = some (skipped (codes "skipped: transaction failed") q);
          failed = failed;
          world = w;
        }
      ]

      -- The body of the loop.
      unfoldable pub replay_query : ReplayMode → Option ℕ → World → Query → Option Step
      unfolding should_replay execute
      replay_query mode failed w q = elim (should_replay mode q) [
        | false ↦ some (record { result = none; failed = failed; world = w })
        | true ↦ elim (in_failed failed q.transaction_id) [
          | true ↦ some (skip q failed w)
          | false ↦ do (sql, n) ← effective_sql w.ids q.sql; some (execute q sql n w)
        ]
      ]

      unfoldable pub replay_from :
          ReplayMode → Option ℕ → World → List Query → Option (List QueryResult × World)
      unfolding replay_query
      replay_from mode failed w [] = some ([], w)
      replay_from mode failed w (q ∷ qs) = do
        s ← replay_query mode failed w q
        (rs, end) ← replay_from mode s.failed s.world qs
        some (note_result s.result rs, end)

      unfoldable pub replay_session : ReplayMode → World → Session → Option (ReplayResults × World)
      unfolding replay_from
      replay_session mode w s = do
        (rs, end) ← replay_from mode none w s.queries
        some (record { session_id = s.id; query_results = rs }, end)
