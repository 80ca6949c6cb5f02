-- ===== src/Tuner/Safety/Allowlist.antt =====
-- What passes the allowlists, and what passes them by mistake.
use mathlib.Core.List.{Perm, perm_middle}
use mathlib.Core.List.Perm
use pg_retest.Prelude.{
  ℕ, ◌≡◌, refl, sym, ◌∙◌, inl, inr, Bool, true, false, ◌||◌, not, List, [], ◌∷◌, ◌++◌, codes,
  bytes_eq, starts_with, any, all, All, any-bytes_eq, Bool-cases, if◌then◌else◌,
}
use pg_retest.Sql.Lex.Scan.{Unicode}
use pg_retest.Text.{to_uppercase, to_lowercase, trim}
use pg_retest.Tuner.Safety.{
  Recommendation, config_change, create_index, query_rewrite, schema_change, safe_config_params,
  blocked_config_params, is_safe_param, is_allowed_schema_sql, push, validate_recommendations,
}

-- How the statements may begin.
abbrev pub allowed_beginnings : List (List ℕ)
allowed_beginnings =
    codes "CREATE INDEX" ∷ codes "CREATE UNIQUE INDEX" ∷ codes "ANALYZE" ∷ codes "REINDEX" ∷ []

abbrev pub is_blocked : List ℕ → Bool
is_blocked name = any (bytes_eq name) blocked_config_params

one_of :
    (a b c d : Bool)
    → (if a || b then true else if c then true else if d then true else false)
      ≡ (a || (b || (c || (d || false))))
one_of true b c d = refl
one_of false true c d = refl
one_of false false true d = refl
one_of false false false true = refl
one_of false false false false = refl

module _ (u : Unicode) where
  -- A parameter that is not blocked; a statement with an allowed beginning; a rewrite in any case.
  abbrev pub Harmless : Recommendation → Type 0
  Harmless (config_change p _ _ _) = is_blocked (to_lowercase u p) ≡ false
  Harmless (create_index _ _ _ sql _) =
      any (λ b. starts_with b (to_uppercase u (trim sql))) allowed_beginnings ≡ true
  Harmless (query_rewrite _ _ _) = Unit
  Harmless (schema_change sql _ _) =
      any (λ b. starts_with b (to_uppercase u (trim sql))) allowed_beginnings ≡ true

  all_unblocked :
      (ks : List (List ℕ))
      → all (λ k. not (is_blocked k)) ks ≡ true
      → All (λ k. is_blocked k ≡ false) ks
  all_unblocked [] h = tt
  all_unblocked (k ∷ ks) h = elim (Bool-cases (is_blocked k)) [
    | inl e ↦ cc
    | inr e ↦ (e, all_unblocked ks (rw e at h))
  ]

  is_safe_param-unblocked :
      (p : List ℕ) → is_safe_param u p ≡ true → is_blocked (to_lowercase u p) ≡ false
  unfolding is_safe_param
  is_safe_param-unblocked p h =
      any-bytes_eq (λ k. is_blocked k ≡ false) (to_lowercase u p) safe_config_params h
        (all_unblocked safe_config_params refl)

  is_allowed_schema_sql-begins :
      (sql : List ℕ)
      → is_allowed_schema_sql u sql
        ≡ any (λ b. starts_with b (to_uppercase u (trim sql))) allowed_beginnings
  unfolding is_allowed_schema_sql
  is_allowed_schema_sql-begins sql =
      let upper = to_uppercase u (trim sql) in
      one_of (starts_with (codes "CREATE INDEX") upper)
        (starts_with (codes "CREATE UNIQUE INDEX") upper) (starts_with (codes "ANALYZE") upper)
        (starts_with (codes "REINDEX") upper)

  -- The two lists hold all recommendations, and the first one harmless ones only.
  pub record Split (recs : List Recommendation) (r : List Recommendation × List Recommendation)
      : Type 0 where
    pub harmless : All Harmless r.0
    pub complete : Perm (r.0 ++ r.1) recs

  push-Split :
      (b : Bool) (rec : Recommendation) (recs : List Recommendation)
      (r : List Recommendation × List Recommendation)
      → (b ≡ true → Harmless rec)
      → Split recs r
      → Split (rec ∷ recs) (push b rec r)
  push-Split true rec recs r h s = record {
    harmless = (h refl, s.harmless);
    complete = Perm.cons rec s.complete;
  }
  push-Split false rec recs r h s = record {
    harmless = s.harmless;
    complete = Perm.trans (perm_middle r.0 r.1) (Perm.cons rec s.complete);
  }

  -- No recommendation is lost or added, and all that are called safe are harmless: none changes a
  -- parameter of the blocked list, in whatever case its name is written, and each of their
  -- statements begins in an allowed way.
  pub validate_recommendations-Split :
      (recs : List Recommendation) → Split recs (validate_recommendations u recs)
  unfolding validate_recommendations
  validate_recommendations-Split [] = record { harmless = tt; complete = Perm.refl [] }
  validate_recommendations-Split (config_change p c r why ∷ recs) =
      push-Split (is_safe_param u p) _ recs _ (is_safe_param-unblocked p)
        (validate_recommendations-Split recs)
  validate_recommendations-Split (create_index t cs i sql why ∷ recs) =
      push-Split (is_allowed_schema_sql u sql) _ recs _
        (λ h. sym (is_allowed_schema_sql-begins sql) ∙ h) (validate_recommendations-Split recs)
  validate_recommendations-Split (query_rewrite o r why ∷ recs) =
      push-Split true _ recs _ (λ h. tt) (validate_recommendations-Split recs)
  validate_recommendations-Split (schema_change sql what why ∷ recs) =
      push-Split (is_allowed_schema_sql u sql) _ recs _
        (λ h. sym (is_allowed_schema_sql-begins sql) ∙ h) (validate_recommendations-Split recs)

  -- The test looks at the beginning only: whatever statements follow an ANALYZE are called safe, as
  -- a recommendation of its own.
  pub validate_recommendations-stacked :
      (rest what why : List ℕ)
      → validate_recommendations u (schema_change (codes "ANALYZE;" ++ rest) what why ∷ [])
        ≡ (schema_change (codes "ANALYZE;" ++ rest) what why ∷ [], [])
  unfolding validate_recommendations is_allowed_schema_sql
  validate_recommendations-stacked rest what why = refl
