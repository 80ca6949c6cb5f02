-- ===== src/Tuner/Safety.antt =====
-- src/tuner/safety.rs: which recommendations the tuner may apply by itself. The texts that explain a
-- rejection are left out: a rejected recommendation stands alone.
pub mod Allowlist
use pg_retest.Prelude.{
  ℕ, Bool, true, false, ◌||◌, Option, List, [], ◌∷◌, codes, bytes_eq, starts_with, any,
  if◌then◌else◌,
}
use pg_retest.Sql.Lex.Scan.{Unicode}
use pg_retest.Text.{to_uppercase, to_lowercase, trim, contains}

-- src/tuner/types.rs
pub data Recommendation : Type 0 where
  config_change : (parameter current_value recommended_value rationale : List ℕ) → Recommendation
  create_index :
      (table : List ℕ) (columns : List (List ℕ)) (index_type : Option (List ℕ))
      (sql rationale : List ℕ)
      → Recommendation
  query_rewrite : (original_sql rewritten_sql rationale : List ℕ) → Recommendation
  schema_change : (sql description rationale : List ℕ) → Recommendation

abbrev pub safe_config_params : List (List ℕ)
safe_config_params =
    codes "shared_buffers"
    ∷ codes "work_mem"
    ∷ codes "maintenance_work_mem"
    ∷ codes "effective_cache_size"
    ∷ codes "temp_buffers"
    ∷ codes "huge_pages"
    ∷ codes "random_page_cost"
    ∷ codes "seq_page_cost"
    ∷ codes "cpu_tuple_cost"
    ∷ codes "cpu_index_tuple_cost"
    ∷ codes "cpu_operator_cost"
    ∷ codes "default_statistics_target"
    ∷ codes "enable_seqscan"
    ∷ codes "enable_indexscan"
    ∷ codes "enable_bitmapscan"
    ∷ codes "enable_hashjoin"
    ∷ codes "enable_mergejoin"
    ∷ codes "enable_nestloop"
    ∷ codes "enable_hashagg"
    ∷ codes "enable_material"
    ∷ codes "enable_sort"
    ∷ codes "max_parallel_workers_per_gather"
    ∷ codes "max_parallel_workers"
    ∷ codes "max_parallel_maintenance_workers"
    ∷ codes "parallel_tuple_cost"
    ∷ codes "parallel_setup_cost"
    ∷ codes "min_parallel_table_scan_size"
    ∷ codes "min_parallel_index_scan_size"
    ∷ codes "checkpoint_completion_target"
    ∷ codes "wal_buffers"
    ∷ codes "commit_delay"
    ∷ codes "commit_siblings"
    ∷ codes "jit"
    ∷ codes "jit_above_cost"
    ∷ codes "jit_inline_above_cost"
    ∷ codes "jit_optimize_above_cost"
    ∷ codes "autovacuum_vacuum_scale_factor"
    ∷ codes "autovacuum_analyze_scale_factor"
    ∷ codes "autovacuum_vacuum_cost_delay"
    ∷ codes "autovacuum_vacuum_cost_limit"
    ∷ codes "log_min_duration_statement"
    ∷ []

abbrev pub blocked_config_params : List (List ℕ)
blocked_config_params =
    codes "data_directory"
    ∷ codes "listen_addresses"
    ∷ codes "port"
    ∷ codes "hba_file"
    ∷ codes "pg_hba_file"
    ∷ codes "ident_file"
    ∷ codes "ssl_cert_file"
    ∷ codes "ssl_key_file"
    ∷ codes "ssl_ca_file"
    ∷ codes "password_encryption"
    ∷ codes "log_directory"
    ∷ []

abbrev pub production_patterns : List (List ℕ)
production_patterns =
    codes "prod" ∷ codes "production" ∷ codes "primary" ∷ codes "master" ∷ codes "main" ∷ []

abbrev pub push :
    Bool
    → Recommendation
    → List Recommendation × List Recommendation
    → List Recommendation × List Recommendation
push true rec (safe, rejected) = (rec ∷ safe, rejected)
push false rec (safe, rejected) = (safe, rec ∷ rejected)

module _ (u : Unicode) where
  -- `false` is the error.
  unfoldable pub check_production_hostname : List ℕ → Bool → Bool
  unfolding to_lowercase contains
  check_production_hostname target force =
      if any (λ p. contains p (to_lowercase u target)) production_patterns then force else true

  unfoldable pub is_safe_param : List ℕ → Bool
  unfolding to_lowercase
  is_safe_param param = let lower = to_lowercase u param in any (bytes_eq lower) safe_config_params

  unfoldable pub is_allowed_schema_sql : List ℕ → Bool
  unfolding to_uppercase trim
  is_allowed_schema_sql sql =
      let upper = to_uppercase u (trim sql) in
      if starts_with (codes "CREATE INDEX") upper || starts_with (codes "CREATE UNIQUE INDEX") upper
      then true
      else if starts_with (codes "ANALYZE") upper
      then true
      else if starts_with (codes "REINDEX") upper
      then true
      else false

  unfoldable pub validate_recommendations :
      List Recommendation → List Recommendation × List Recommendation
  unfolding is_safe_param is_allowed_schema_sql
  validate_recommendations [] = ([], [])
  validate_recommendations (config_change p c r why ∷ recs) =
      push (is_safe_param p) (config_change p c r why) (validate_recommendations recs)
  validate_recommendations (create_index t cs i sql why ∷ recs) =
      push (is_allowed_schema_sql sql) (create_index t cs i sql why) (validate_recommendations recs)
  validate_recommendations (query_rewrite o r why ∷ recs) =
      push true (query_rewrite o r why) (validate_recommendations recs)
  validate_recommendations (schema_change sql what why ∷ recs) =
      push (is_allowed_schema_sql sql) (schema_change sql what why) (validate_recommendations recs)
