-- ===== src/Tuner/Apply/Permitted.antt =====
-- What applying and rolling back accepted recommendations does to the database at all.
use mathlib.Core.List.{reverse, reverse-append}
use mathlib.Core.Option
use pg_retest.Prelude.{
  ℕ, ◌≡◌, refl, sym, subst, inl, inr, Bool, true, false, Option, none, some, List, [], ◌∷◌, ◌++◌,
  All, if_intro, Bool-cases, Option-cases,
}
use pg_retest.Sql.Lex.Scan.{Unicode}
use pg_retest.Tuner.Safety.{
  Recommendation, config_change, create_index, query_rewrite, schema_change, push, is_safe_param,
  is_allowed_schema_sql, validate_recommendations,
}
use pg_retest.Tuner.Apply.{
  AppliedChange, apply_recommendation, apply_all, rollback_one, rollback_from, rollback_all,
  execute_each, reload, undo_sql, set_sql, reload_sql, drop_sql, statements, extract_index_name,
  of_errors,
}

module _ (u : Unicode) where
  -- The statements that may reach the database: a parameter of the list is set, the configuration is
  -- read again, an index or a maintenance statement of an allowed beginning is executed, as it is or
  -- without the spaces and semicolons around it, or the index that such a statement names is dropped.
  pub data Permitted (stmt : List ℕ) : Type 0 where
    setting : (p v : List ℕ) → is_safe_param u p ≡ true → stmt ≡ set_sql p v → Permitted stmt
    reloading : stmt ≡ reload_sql → Permitted stmt
    whole :
        is_allowed_schema_sql u stmt ≡ true
        → ((s : List ℕ) × (statements stmt ≡ s ∷ []))
        → Permitted stmt
    only :
        (sql : List ℕ)
        → is_allowed_schema_sql u sql ≡ true
        → statements sql ≡ stmt ∷ []
        → Permitted stmt
    dropping :
        (sql name : List ℕ)
        → is_allowed_schema_sql u sql ≡ true
        → extract_index_name u sql ≡ some name
        → stmt ≡ drop_sql name
        → Permitted stmt

  -- The text of an index or of another schema change is one statement.
  abbrev pub IsSingle : Recommendation → Type 0
  IsSingle (create_index _ _ _ sql _) = (stmt : List ℕ) × (statements sql ≡ stmt ∷ [])
  IsSingle (schema_change sql _ _) = (stmt : List ℕ) × (statements sql ≡ stmt ∷ [])
  IsSingle _ = Unit

  abbrev pub Accepted : Recommendation → Type 0
  Accepted (config_change p _ _ _) = is_safe_param u p ≡ true
  Accepted (create_index t cs k sql why) =
      (is_allowed_schema_sql u sql ≡ true) × IsSingle (create_index t cs k sql why)
  Accepted (query_rewrite _ _ _) = Unit
  Accepted (schema_change sql what why) =
      (is_allowed_schema_sql u sql ≡ true) × IsSingle (schema_change sql what why)

  push-Accepted :
      (b : Bool) (rec : Recommendation) (r : List Recommendation × List Recommendation)
      → (b ≡ true → Accepted rec)
      → All Accepted r.0
      → All Accepted (push b rec r).0
  push-Accepted true rec r h hs = (h refl, hs)
  push-Accepted false rec r h hs = hs

  pub validate_recommendations-Accepted :
      (recs : List Recommendation)
      → All IsSingle recs
      → All Accepted (validate_recommendations u recs).0
  unfolding validate_recommendations
  validate_recommendations-Accepted [] s = tt
  validate_recommendations-Accepted (config_change p c r why ∷ recs) (s, ss) =
      push-Accepted (is_safe_param u p) _ _ (λ h. h) (validate_recommendations-Accepted recs ss)
  validate_recommendations-Accepted (create_index t cs i sql why ∷ recs) (s, ss) =
      push-Accepted (is_allowed_schema_sql u sql) _ _ (λ h. (h, s))
        (validate_recommendations-Accepted recs ss)
  validate_recommendations-Accepted (query_rewrite o r why ∷ recs) (s, ss) =
      push-Accepted true (query_rewrite o r why) (validate_recommendations u recs) (λ h. tt)
        (validate_recommendations-Accepted recs ss)
  validate_recommendations-Accepted (schema_change sql what why ∷ recs) (s, ss) =
      push-Accepted (is_allowed_schema_sql u sql) _ _ (λ h. (h, s))
        (validate_recommendations-Accepted recs ss)

  All-single :
      (sql : List ℕ)
      → is_allowed_schema_sql u sql ≡ true
      → ((stmt : List ℕ) × (statements sql ≡ stmt ∷ []))
      → All Permitted (statements sql)
  All-single sql h (stmt, e) = rw e (only sql h e, tt)

  abbrev pub Undo : AppliedChange → Type 0
  Undo c = (sql : List ℕ) → c.rollback_sql ≡ some sql → Permitted sql

  module _ (D : Type 0) (batch_execute : List ℕ → D → Option (List ℕ) × D) (I : D → Type 0)
      (keeps : (sql : List ℕ) (db : D) → Permitted sql → I db → I (batch_execute sql db).1) where
    execute_each-keeps :
        (stmts : List (List ℕ)) (db : D)
        → All Permitted stmts
        → I db
        → I (execute_each u D batch_execute stmts db).1
    unfolding execute_each
    execute_each-keeps [] db h i = i
    execute_each-keeps (s ∷ stmts) db (h, hs) i = execute_each-keeps stmts _ hs (keeps s db h i)

    of_errors-Undo : (rec : Recommendation) (es : List (List ℕ)) → Undo (of_errors rec es)
    of_errors-Undo rec [] sql e = cc
    of_errors-Undo rec (x ∷ es) sql e = cc

    config-keeps :
        (p c r why : List ℕ) (db : D)
        → is_safe_param u p ≡ true
        → I db
        → I (apply_recommendation u D batch_execute (config_change p c r why) db).1
          × Undo (apply_recommendation u D batch_execute (config_change p c r why) db).0
    unfolding apply_recommendation reload
    config-keeps p c r why db h i =
        let set = keeps (set_sql p r) db (setting p r h refl) i in
        let resets : (sql : List ℕ) → some (set_sql p c) ≡ some sql → Permitted sql =
          λ sql e. setting p c h (sym (Option.some-injective _ sql e)) in
        elim (Option-cases (batch_execute (set_sql p r) db).0) [
          | inl ok ↦
              let db1 = (batch_execute (set_sql p r) db).1 in
              let again = keeps reload_sql db1 (reloading refl) set in
              elim (Option-cases (batch_execute reload_sql db1).0) [
                | inl ok2 ↦ rw (ok, apply_recommendation, ok2) (again, resets)
                | inr (t, fails) ↦ rw (ok, apply_recommendation, fails) (again, resets)
              ]
          | inr (t, fails) ↦ rw (fails, apply_recommendation) (set, λ sql e. cc)
        ]

    index-keeps :
        (table : List ℕ) (columns : List (List ℕ)) (kind : Option (List ℕ)) (sql why : List ℕ)
        (db : D)
        → is_allowed_schema_sql u sql ≡ true
        → ((stmt : List ℕ) × (statements sql ≡ stmt ∷ []))
        → I db
        → let x =
            apply_recommendation u D batch_execute (create_index table columns kind sql why) db in
          I x.1 × Undo x.0
    unfolding apply_recommendation
    index-keeps table columns kind sql why db h single i =
        let done = keeps sql db (whole h single) i in
        elim (Option-cases (batch_execute sql db).0) [
          | inl ok ↦ elim (Option-cases (extract_index_name u sql)) [
            | inl unnamed ↦ rw (ok, unnamed) (done, λ s e. cc)
            | inr (name, named) ↦
                rw (ok, named)
                  (done, λ s e. dropping sql name h named (sym (Option.some-injective _ s e)))
          ]
          | inr (t, fails) ↦ rw fails (done, λ s e. cc)
        ]

    apply_recommendation-keeps :
        (rec : Recommendation) (db : D)
        → Accepted rec
        → I db
        → I (apply_recommendation u D batch_execute rec db).1
          × Undo (apply_recommendation u D batch_execute rec db).0
    unfolding apply_recommendation
    apply_recommendation-keeps (config_change p c r why) db h i = config-keeps p c r why db h i
    apply_recommendation-keeps (create_index t cs k sql why) db h i =
        index-keeps t cs k sql why db h.0 h.1 i
    apply_recommendation-keeps (query_rewrite o r why) db h i = (i, λ sql e. cc)
    apply_recommendation-keeps (schema_change sql what why) db h i =
        (execute_each-keeps (statements sql) db (All-single sql h.0 h.1) i, of_errors-Undo _ _)

    pub apply_all-keeps :
        (recs : List Recommendation) (db : D)
        → All Accepted recs
        → I db
        → I (apply_all u D batch_execute recs db).1
          × All Undo (apply_all u D batch_execute recs db).0
    unfolding apply_all
    apply_all-keeps [] db h i = (i, tt)
    apply_all-keeps (rec ∷ recs) db (h, hs) i =
        let (j, undo) = apply_recommendation-keeps rec db h i in
        let (k, undos) = apply_all-keeps recs _ hs j in (k, (undo, undos))

    rollback_one-keeps :
        (c : AppliedChange) (o : Option (List ℕ)) (needs_reload : Bool) (db : D)
        → ((sql : List ℕ) → o ≡ some sql → Permitted sql)
        → I db
        → I (rollback_one u D batch_execute c o needs_reload db).2
    unfolding rollback_one
    rollback_one-keeps c none needs_reload db h i = i
    rollback_one-keeps c (some sql) needs_reload db h i = keeps sql db (h sql refl) i

    undo_sql-Undo :
        (c : AppliedChange) → Undo c → (sql : List ℕ) → undo_sql c ≡ some sql → Permitted sql
    undo_sql-Undo c h sql e = elim (Bool-cases c.success) [
      | inl ok ↦ h sql (rw ok at e)
      | inr not_done ↦ let bad = rw not_done at e in cc
    ]

    rollback_from-keeps :
        (cs : List AppliedChange) (needs_reload : Bool) (db : D)
        → All Undo cs
        → I db
        → I (rollback_from u D batch_execute cs needs_reload db).2
    unfolding rollback_from
    rollback_from-keeps [] needs_reload db h i = i
    rollback_from-keeps (c ∷ cs) needs_reload db (h, hs) i =
        rollback_from-keeps cs _ _ hs
          (rollback_one-keeps c (undo_sql c) needs_reload db (undo_sql-Undo c h) i)

    All-last :
        (cs : List AppliedChange) (c : AppliedChange)
        → All Undo cs
        → Undo c
        → All Undo (cs ++ c ∷ [])
    All-last [] c h k = (k, tt)
    All-last (x ∷ cs) c (h, hs) k = (h, All-last cs c hs k)

    All-reverse : (cs : List AppliedChange) → All Undo cs → All Undo (reverse cs)
    All-reverse [] h = tt
    All-reverse (c ∷ cs) (h, hs) =
        subst (All Undo) (sym (reverse-append (c ∷ []) cs))
          (All-last (reverse cs) c (All-reverse cs hs) h)

    pub rollback_all-keeps :
        (cs : List AppliedChange) (db : D)
        → All Undo cs
        → I db
        → I (rollback_all u D batch_execute cs db).1
    unfolding rollback_all
    rollback_all-keeps cs db h i =
        let j = rollback_from-keeps (reverse cs) false db (All-reverse cs h) i in
        if_intro I _ (λ _. keeps reload_sql _ (reloading refl) j) (λ _. j)
