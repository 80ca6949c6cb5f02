-- ===== src/Tuner/Apply/Rollback.antt =====
-- What rolling back undoes. The settings of the database are a function of its state, by the names
-- of the parameters in lower case.
use mathlib.Core.List.{reverse, reverse-append, append-nil, append_assoc}
use pg_retest.Prelude.{
  ℕ, ◌≡◌, refl, sym, ap, subst, ◌∙◌, if_intro, ◌⊎◌, inl, inr, Bool, true, false, ◌&&◌, Option, none,
  some, List, [], ◌∷◌, ◌++◌, All, if◌then◌else◌, bytes_eq, bytes_eq_iff, Bool-cases, Option-cases,
}
use pg_retest.Sql.Lex.Scan.{Unicode}
use pg_retest.Text.{to_lowercase}
use pg_retest.Tuner.Safety.{
  Recommendation, config_change, create_index, query_rewrite, schema_change,
}
use pg_retest.Tuner.Apply.{
  AppliedChange, RollbackResult, apply_recommendation, apply_all, rollback_one, rollback_from,
  rollback_all, execute_each, reload, undo_sql, set_sql, reload_sql, drop_sql, statements,
  extract_index_name, is_none, of_errors,
}

abbrev pub Succeeded : List RollbackResult → Type 0
Succeeded = All (λ r. r.success ≡ true)

Succeeded-split : (xs ys : List RollbackResult) → Succeeded (xs ++ ys) → Succeeded xs × Succeeded ys
Succeeded-split [] ys h = (tt, h)
Succeeded-split (x ∷ xs) ys (h, hs) = let (a, b) = Succeeded-split xs ys hs in ((h, a), b)

module _ (u : Unicode) (D : Type 0) (batch_execute : List ℕ → D → Option (List ℕ) × D)
    (value : D → List ℕ → List ℕ) where
  -- A statement that changes no setting.
  abbrev pub Keeps : List ℕ → Type 0
  Keeps sql = (db : D) (k : List ℕ) → value (batch_execute sql db).1 k ≡ value db k

  -- ALTER SYSTEM SET changes the setting that it names, and nothing where it fails.
  abbrev pub Sets : (parameter v : List ℕ) → Type 0
  Sets p v =
      (db : D) (k : List ℕ)
      → value (batch_execute (set_sql p v) db).1 k ≡ (
          if is_none (batch_execute (set_sql p v) db).0 && bytes_eq k (to_lowercase u p)
          then v
          else value db k)

  -- A reload never fails and changes no setting.
  abbrev pub Reloads : Type 0
  Reloads = Keeps reload_sql × ((db : D) → (batch_execute reload_sql db).0 ≡ none)

  -- A recommendation whose statements act as documented, and which names the current value, where
  -- `base` has the values that are current.
  abbrev pub Described : (List ℕ → List ℕ) → Recommendation → Type 0
  Described base (config_change p c r _) = Sets p r × Sets p c × (base (to_lowercase u p) ≡ c)
  Described base (create_index _ _ _ sql _) =
      Keeps sql × ((name : List ℕ) → extract_index_name u sql ≡ some name → Keeps (drop_sql name))
  Described base (query_rewrite _ _ _) = Unit
  Described base (schema_change sql _ _) = All Keeps (statements sql)

  execute_each-Keeps :
      (stmts : List (List ℕ)) (db : D) (k : List ℕ)
      → All Keeps stmts
      → value (execute_each u D batch_execute stmts db).1 k ≡ value db k
  unfolding execute_each
  execute_each-Keeps [] db k h = refl
  execute_each-Keeps (s ∷ stmts) db k (h, hs) =
      execute_each-Keeps stmts (batch_execute s db).1 k hs ∙ h db k

  module _ (base : List ℕ → List ℕ) where
    -- A change that is passed over has changed no setting; the undoing of another, if it succeeds,
    -- gives each setting its value of `base`, or leaves it alone if the change has, too.
    data Undoable (db : D) (x : AppliedChange × D) : Type 0 where
      passed : undo_sql x.0 ≡ none → ((k : List ℕ) → value x.1 k ≡ value db k) → Undoable db x
      undone :
          (sql : List ℕ)
          → undo_sql x.0 ≡ some sql
          → ((after : D) (k : List ℕ)
              → is_none (batch_execute sql after).0 ≡ true
              → (value (batch_execute sql after).1 k ≡ base k)
                ⊎ ((value x.1 k ≡ value db k)
                    × (value (batch_execute sql after).1 k ≡ value after k)))
          → Undoable db x

    config-Undoable :
        (p c r why : List ℕ) (db : D)
        → Reloads
        → Sets p r
        → Sets p c
        → base (to_lowercase u p) ≡ c
        → Undoable db (apply_recommendation u D batch_execute (config_change p c r why) db)
    unfolding apply_recommendation reload
    config-Undoable p c r why db reloads sets resets current =
        elim (Option-cases (batch_execute (set_sql p r) db).0) [
          | inl ok ↦
              let db1 = (batch_execute (set_sql p r) db).1 in
              rw (ok, apply_recommendation, reloads.1 db1)
                (undone (set_sql p c) refl (λ after k done.
                  elim (Bool-cases (bytes_eq k (to_lowercase u p))) [
                    | inl same ↦ inl (
                        resets after k
                        ∙ rw (done, same) (sym current ∙ ap base (sym ((bytes_eq_iff k _).0 same))))
                    | inr differs ↦ inr (
                      reloads.0 db1 k ∙ sets db k ∙ rw (ok, differs) refl,
                      resets after k ∙ rw (done, differs) refl,
                    )
                  ]))
          | inr (t, fails) ↦
              rw (fails, apply_recommendation) (passed refl (λ k. sets db k ∙ rw fails refl))
        ]

    index-Undoable :
        (table : List ℕ) (columns : List (List ℕ)) (kind : Option (List ℕ)) (sql why : List ℕ)
        (db : D)
        → Described base (create_index table columns kind sql why)
        → Undoable db
            (apply_recommendation u D batch_execute (create_index table columns kind sql why) db)
    unfolding apply_recommendation
    index-Undoable table columns kind sql why db (keeps, drops) =
        elim (Option-cases (batch_execute sql db).0) [
          | inl ok ↦ elim (Option-cases (extract_index_name u sql)) [
            | inl unnamed ↦ passed (rw (ok, unnamed) refl) (λ k. keeps db k)
            | inr (name, named) ↦
                undone (drop_sql name) (rw (ok, named) refl)
                  (λ after k done. inr (keeps db k, drops name named after k))
          ]
          | inr (t, fails) ↦ passed (rw fails refl) (λ k. keeps db k)
        ]

    of_errors-undo :
        (rec : Recommendation) (es : List (List ℕ)) → undo_sql (of_errors rec es) ≡ none
    of_errors-undo rec [] = refl
    of_errors-undo rec (e ∷ es) = refl

    apply-Undoable :
        (rec : Recommendation) (db : D)
        → Reloads
        → Described base rec
        → Undoable db (apply_recommendation u D batch_execute rec db)
    unfolding apply_recommendation
    apply-Undoable (config_change p c r why) db reloads h =
        config-Undoable p c r why db reloads h.0 h.1 h.2
    apply-Undoable (create_index table columns kind sql why) db reloads h =
        index-Undoable table columns kind sql why db h
    apply-Undoable (query_rewrite o r why) db reloads h = passed refl (λ k. refl)
    apply-Undoable (schema_change sql what why) db reloads h =
        passed (of_errors-undo _ _) (λ k. execute_each-Keeps (statements sql) db k h)

    abbrev Near : D → D → Type 0
    Near a b = (k : List ℕ) → (value a k ≡ value b k) ⊎ (value a k ≡ base k)

    rollback_one-Near :
        (db after : D) (x : AppliedChange × D) (needs_reload : Bool)
        → Undoable db x
        → Near after x.1
        → Succeeded (rollback_one u D batch_execute x.0 (undo_sql x.0) needs_reload after).0
        → Near (rollback_one u D batch_execute x.0 (undo_sql x.0) needs_reload after).2 db
    unfolding rollback_one
    rollback_one-Near db after x needs_reload (passed skip same) near ok =
        rw skip (λ k. elim (near k) [ inl e ↦ inl (e ∙ same k) | inr e ↦ inr e ])
    rollback_one-Near db after x needs_reload (undone sql by restores) near ok =
        let done : is_none (batch_execute sql after).0 ≡ true = (rw by at ok).0 in
        rw by (λ k. elim (restores after k done) [
          | inl e ↦ inr e
          | inr (same, kept) ↦ elim (near k) [
            | inl e ↦ inl (kept ∙ e ∙ same)
            | inr e ↦ inr (kept ∙ e)
          ]
        ])

    rollback_from-last :
        (xs : List AppliedChange) (c : AppliedChange) (needs_reload : Bool) (db : D)
        → (rollback_from u D batch_execute (xs ++ c ∷ []) needs_reload db) ≡ (
            let a = rollback_from u D batch_execute xs needs_reload db in
            let b = rollback_one u D batch_execute c (undo_sql c) a.1 a.2 in (a.0 ++ b.0, b.1, b.2))
    unfolding rollback_from
    rollback_from-last [] c needs_reload db =
        let b = rollback_one u D batch_execute c (undo_sql c) needs_reload db in
        ap (λ (rs : List RollbackResult). (rs, b.1, b.2)) (append-nil b.0)
    rollback_from-last (x ∷ xs) c needs_reload db =
        let r = rollback_one u D batch_execute x (undo_sql x) needs_reload db in
        let a = rollback_from u D batch_execute xs r.1 r.2 in
        let b = rollback_one u D batch_execute c (undo_sql c) a.1 a.2 in
        ap (λ (t : List RollbackResult × Bool × D). (r.0 ++ t.0, t.1, t.2))
          (rollback_from-last xs c r.1 r.2)
        ∙ ap (λ (rs : List RollbackResult). (rs, b.1, b.2)) (sym (append_assoc r.0 a.0 b.0))

    apply_all-Near :
        (recs : List Recommendation) (db after : D)
        → Reloads
        → All (Described base) recs
        → let changed = apply_all u D batch_execute recs db in
          let undone = rollback_from u D batch_execute (reverse changed.0) false after in
          Near after changed.1 → Succeeded undone.0 → Near undone.2 db
    unfolding apply_all rollback_from
    apply_all-Near [] db after reloads h near ok = near
    apply_all-Near (rec ∷ recs) db after reloads (h, hs) near ok =
        let x = apply_recommendation u D batch_execute rec db in
        let rest = apply_all u D batch_execute recs x.1 in
        let later = rollback_from u D batch_execute (reverse rest.0) false after in
        let last = rollback_one u D batch_execute x.0 (undo_sql x.0) later.1 later.2 in
        let e : rollback_from u D batch_execute (reverse (x.0 ∷ rest.0)) false after
            ≡ (later.0 ++ last.0, last.1, last.2) =
          ap (λ l. rollback_from u D batch_execute l false after) (reverse-append (x.0 ∷ []) rest.0)
          ∙ rollback_from-last (reverse rest.0) x.0 false after in
        let oks = Succeeded-split later.0 last.0 (subst (λ t. Succeeded t.0) e ok) in
        subst (λ t. Near t.2 db) (sym e)
          (rollback_one-Near db later.2 x later.1 (apply-Undoable rec db reloads h)
            (apply_all-Near recs x.1 after reloads hs near oks.0) oks.1)

  -- Applying recommendations and later rolling all of them back gives every setting the value that
  -- it had, if what happens in between changes no setting, each recommendation names the current
  -- value of its setting, every statement acts as documented, no reload fails and every statement of
  -- the rollback succeeds; statements that apply a recommendation may fail, and settings may be named
  -- by several.
  pub rollback_all-restores :
      (recs : List Recommendation) (db after : D)
      → Reloads
      → All (Described (value db)) recs
      → ((k : List ℕ) → value after k ≡ value (apply_all u D batch_execute recs db).1 k)
      → let changed = apply_all u D batch_execute recs db in
        let undone = rollback_all u D batch_execute changed.0 after in
        Succeeded undone.0 → (k : List ℕ) → value undone.1 k ≡ value db k
  unfolding rollback_all
  rollback_all-restores recs db after reloads h between ok k =
      let changed = apply_all u D batch_execute recs db in
      let undone = rollback_from u D batch_execute (reverse changed.0) false after in
      let same : value undone.2 k ≡ value db k =
        elim (apply_all-Near (value db) recs db after reloads h (λ j. inl (between j)) ok k) [
          | inl e ↦ e
          | inr e ↦ e
        ] in
      if_intro (λ d. value d k ≡ value db k) undone.1 (λ _. reloads.0 undone.2 k ∙ same) (λ _. same)

  -- Where ALTER SYSTEM SET acts as documented and succeeds, while the reload behind it, which changes
  -- no setting, fails: the rollback of the change executes nothing, and the setting keeps the
  -- recommended value.
  pub rollback_all-reload_failed :
      (p c r why t : List ℕ) (db : D)
      → Sets p r
      → Keeps reload_sql
      → (batch_execute (set_sql p r) db).0 ≡ none
      → (batch_execute reload_sql (batch_execute (set_sql p r) db).1).0 ≡ some t
      → let changed = apply_all u D batch_execute (config_change p c r why ∷ []) db in
        let undone = rollback_all u D batch_execute changed.0 changed.1 in
        (undone.0 ≡ []) × (value undone.1 (to_lowercase u p) ≡ r)
  unfolding rollback_all apply_all apply_recommendation reload rollback_from rollback_one
  rollback_all-reload_failed p c r why t db sets keeps ok fails =
      let k = to_lowercase u p in
      rw (ok, apply_recommendation, fails)
        (refl, keeps _ k ∙ sets db k ∙ rw (ok, (bytes_eq_iff k k).1 refl) refl)
