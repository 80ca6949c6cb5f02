-- ===== src/Tuner/Apply.antt =====
-- src/tuner/apply.rs: recommendations are applied to a database, and rolled back. The database is a
-- parameter: its state, and what `batch_execute` answers to a text of SQL, an error or nothing.
pub mod Rollback
pub mod Permitted
use mathlib.Core.List.{reverse, filter}
use mathlib.Core.Option
use pg_retest.Prelude.{
  ◌>>=◌, ℕ, zero, suc, ◌+◌, Bool, true, false, ◌||◌, not, Option, none, some, List, [], ◌∷◌, ◌++◌,
  map, any, codes, bytes_eq, ◌==◌, if◌then◌else◌, get_elem?, drop,
}
use pg_retest.Sql.Lex.Scan.{Unicode}
use pg_retest.Text.{to_uppercase, trim, split, split_whitespace, take_chars, join}
use pg_retest.Tuner.Safety.{
  Recommendation, config_change, create_index, query_rewrite, schema_change,
}

-- src/tuner/types.rs
pub record AppliedChange : Type 0 where
  pub recommendation : Recommendation
  pub success : Bool
  pub error : Option (List ℕ)
  pub rollback_sql : Option (List ℕ)

pub record RollbackResult : Type 0 where
  pub summary : List ℕ
  pub success : Bool
  pub error : Option (List ℕ)

-- `replace` of a quote by two.
unfoldable pub escape_pg_value : List ℕ → List ℕ
escape_pg_value [] = []
escape_pg_value (b ∷ s) =
    let rest = escape_pg_value s in if b == b'\'' then b'\'' ∷ b'\'' ∷ rest else b ∷ rest

unfoldable pub set_sql : (parameter value : List ℕ) → List ℕ
unfolding escape_pg_value
set_sql parameter value =
    codes "ALTER SYSTEM SET "
    ++ (parameter ++ (codes " = '" ++ (escape_pg_value value ++ codes "'")))

abbrev pub reload_sql : List ℕ
reload_sql = codes "SELECT pg_reload_conf()"

abbrev pub drop_sql : List ℕ → List ℕ
drop_sql name = codes "DROP INDEX IF EXISTS " ++ name

-- `iter().position` of a word.
abbrev position : List ℕ → List (List ℕ) → Option ℕ
position w [] = none
position w (t ∷ ts) = if bytes_eq t w then some 0 else Option.map suc (position w ts)

abbrev is_modifier : List ℕ → Bool
is_modifier t =
    any (bytes_eq t) (codes "IF" ∷ codes "NOT" ∷ codes "EXISTS" ∷ codes "CONCURRENTLY" ∷ [])

-- The walk over the words behind INDEX: the place of the name, `pos` being that of the first.
name_position : ℕ → List (List ℕ) → Option ℕ
name_position pos [] = none
name_position pos (t ∷ ts) =
    let rest = name_position (pos + 1) ts in
    if is_modifier t then rest else if bytes_eq t (codes "ON") then none else some pos

-- A change of case leaves the words at their places; tables for which it does not give no name here.
unfoldable pub extract_index_name : Unicode → List ℕ → Option (List ℕ)
unfolding name_position to_uppercase split_whitespace
extract_index_name u sql = do
  let tokens = split_whitespace (to_uppercase u sql)
  idx_pos ← position (codes "INDEX") tokens
  pos ← name_position (idx_pos + 1) (drop (idx_pos + 1) tokens)
  get_elem? (split_whitespace sql) pos

abbrev is_empty : List ℕ → Bool
is_empty [] = true
is_empty (b ∷ s) = false

abbrev non_empty : List (List ℕ) → List (List ℕ)
non_empty [] = []
non_empty (s ∷ ss) = if is_empty s then non_empty ss else s ∷ non_empty ss

-- The statements of a schema change.
unfoldable pub statements : List ℕ → List (List ℕ)
unfolding trim split
statements sql = non_empty (map trim (split b';' sql))

unfoldable pub rec_summary : Recommendation → List ℕ
unfolding take_chars
rec_summary (config_change parameter current_value _ _) =
    parameter ++ (codes " -> " ++ current_value)
rec_summary (create_index _ _ _ sql _) = take_chars 50 sql
rec_summary (query_rewrite _ _ _) = codes "query rewrite"
rec_summary (schema_change _ description _) = description

abbrev pub is_config_change : Recommendation → Bool
is_config_change (config_change _ _ _ _) = true
is_config_change _ = false

-- What the loop of `rollback_all` undoes a change by, if it does not pass it over.
abbrev pub undo_sql : AppliedChange → Option (List ℕ)
undo_sql change = if change.success then change.rollback_sql else none

abbrev pub succeeded : Recommendation → Option (List ℕ) → AppliedChange
succeeded rec rollback = record {
  recommendation = rec;
  success = true;
  error = none;
  rollback_sql = rollback;
}

abbrev pub failed : Recommendation → List ℕ → Option (List ℕ) → AppliedChange
failed rec error rollback = record {
  recommendation = rec;
  success = false;
  error = some error;
  rollback_sql = rollback;
}

abbrev pub is_none {ℓ} : {A : Type ℓ} → Option A → Bool
is_none none = true
is_none (some a) = false

abbrev pub of_errors : Recommendation → List (List ℕ) → AppliedChange
of_errors rec [] = succeeded rec none
of_errors rec (e ∷ es) = failed rec (join (codes "; ") (e ∷ es)) none

module _ (u : Unicode) (D : Type 0) (batch_execute : List ℕ → D → Option (List ℕ) × D) where
  -- The errors of the statements that fail.
  unfoldable pub execute_each : List (List ℕ) → D → List (List ℕ) × D
  execute_each [] db = ([], db)
  execute_each (stmt ∷ stmts) db =
      let (e, db1) = batch_execute stmt db in
      let (es, db2) = execute_each stmts db1 in
      (elim e [ none ↦ es | some t ↦ (stmt ++ (codes ": " ++ t)) ∷ es ], db2)

  -- The configuration is read again behind a change that was made.
  unfoldable pub reload : Recommendation → Option (List ℕ) → D → AppliedChange × D
  reload rec rollback db =
      let (e, db1) = batch_execute reload_sql db in
      (
        elim e [
          | none ↦ succeeded rec rollback
          | some t ↦ failed rec (codes "pg_reload_conf failed: " ++ t) rollback
        ],
        db1,
      )

  unfoldable pub apply_recommendation : Recommendation → D → AppliedChange × D
  unfolding execute_each reload set_sql extract_index_name statements
  apply_recommendation (config_change parameter current_value recommended_value why) db =
      let rec = config_change parameter current_value recommended_value why in
      let (e, db1) = batch_execute (set_sql parameter recommended_value) db in
      elim e [
        | none ↦ reload rec (some (set_sql parameter current_value)) db1
        | some t ↦ (failed rec (codes "ALTER SYSTEM failed: " ++ t) none, db1)
      ]
  apply_recommendation (create_index table columns index_type sql why) db =
      let rec = create_index table columns index_type sql why in
      let rollback = Option.map drop_sql (extract_index_name u sql) in
      let (e, db1) = batch_execute sql db in
      (
        elim e [
          | none ↦ succeeded rec rollback
          | some t ↦ failed rec (codes "CREATE INDEX failed: " ++ t) none
        ],
        db1,
      )
  apply_recommendation (query_rewrite original rewritten why) db =
      (succeeded (query_rewrite original rewritten why) none, db)
  apply_recommendation (schema_change sql description why) db =
      let (es, db1) = execute_each (statements sql) db in
      (of_errors (schema_change sql description why) es, db1)

  unfoldable pub apply_all : List Recommendation → D → List AppliedChange × D
  unfolding apply_recommendation
  apply_all [] db = ([], db)
  apply_all (rec ∷ recs) db =
      let (change, db1) = apply_recommendation rec db in
      let (changes, db2) = apply_all recs db1 in (change ∷ changes, db2)

  unfoldable pub rollback_result : AppliedChange → Option (List ℕ) → RollbackResult
  unfolding rec_summary
  rollback_result change e = record {
    summary = rec_summary change.recommendation;
    success = is_none e;
    error = e;
  }

  -- The loop over the changes, the last one first: the results, and whether to reload.
  unfoldable pub rollback_one :
      AppliedChange → Option (List ℕ) → Bool → D → List RollbackResult × Bool × D
  unfolding rollback_result
  rollback_one change none needs_reload db = ([], needs_reload, db)
  rollback_one change (some sql) needs_reload db =
      let (e, db1) = batch_execute sql db in
      (
        rollback_result change e ∷ [],
        (if is_none e
            then (if is_config_change change.recommendation then true else needs_reload)
            else needs_reload),
        db1,
      )

  unfoldable pub rollback_from : List AppliedChange → Bool → D → List RollbackResult × Bool × D
  unfolding rollback_one
  rollback_from [] needs_reload db = ([], needs_reload, db)
  rollback_from (change ∷ changes) needs_reload db =
      let (r, needs_reload1, db1) = rollback_one change (undo_sql change) needs_reload db in
      let (rs, needs_reload2, db2) = rollback_from changes needs_reload1 db1 in
      (r ++ rs, needs_reload2, db2)

  unfoldable pub rollback_all : List AppliedChange → D → List RollbackResult × D
  unfolding rollback_from
  rollback_all changes db =
      let (rs, needs_reload, db1) = rollback_from (reverse changes) false db in
      (rs, (if needs_reload then (batch_execute reload_sql db1).1 else db1))
