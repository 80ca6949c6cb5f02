-- ===== src/Replay/Session/Atomic.antt =====
-- A transaction of which a statement fails leaves nothing behind in the database.
use pg_retest.Prelude.{
  ◌>>=◌, ℕ, suc, ◌≡◌, refl, ap, ◌∙◌, inl, inr, Bool, true, false, not, ◌||◌, Option, none, some,
  List, [], ◌∷◌, ◌++◌, map, codes, All, length, length-append, arith, Option-cases,
}
use pg_retest.Sql.Lex.Scan.{Unicode}
use pg_retest.Profile.{Query, ResponseRow, is_transaction_control}
use pg_retest.Correlate.Map.{DashMap}
use pg_retest.Replay.Session.{
  read_write, QueryResult, Response, rows, error_text, succeeded, skipped, fails, learn, World,
  Step, execute, replay_from,
}
use pg_retest.Replay.Session.FailedTransaction.{
  Inside, Ends, before, before-one, before-before, continue, replay_from-step, failed_result,
  replay_query-execute, replay-fails, replay-skips,
}

module _ (d : DashMap) (D : Type 0) (simple_query : List ℕ → D → Response × ℕ × D) (u : Unicode)
    (V : Type 0) (committed : D → V) (in_transaction idle : D → Type 0) where
  -- A statement that a database answers inside the transaction that is open, be it by an error.
  abbrev IsLocal : List ℕ → Type 0
  IsLocal sql =
      (db : D)
      → in_transaction db
      → (committed (simple_query sql db).2 ≡ committed db) × in_transaction (simple_query sql db).2

  -- ROLLBACK ends the open transaction, and what is committed stays.
  abbrev RollsBack : Type 0
  RollsBack =
      (db : D)
      → in_transaction db
      → (committed (simple_query (codes "ROLLBACK") db).2 ≡ committed db)
        × idle (simple_query (codes "ROLLBACK") db).2

  -- A statement of the transaction, other than those that begin and end it.
  pub record Statement (t : ℕ) (q : Query) : Type 0 where
    pub inside : Inside t q
    pub plain : is_transaction_control q.kind ≡ false
    pub local : IsLocal q.sql

  -- One of the statements, each sent behind those before it, is answered by an error.
  abbrev any_fails : D → List Query → Bool
  any_fails db [] = false
  any_fails db (q ∷ qs) =
      not (succeeded (error_text (simple_query q.sql db).0))
      || any_fails (simple_query q.sql db).2 qs

  sent_result : Query → D → QueryResult
  sent_result q db = record {
    sql = q.sql;
    original_duration_us = q.duration_us;
    replay_duration_us = (simple_query q.sql db).1;
    success = true;
    error = none;
    id_substitution_count = 0;
  }

  abbrev pub at : D → World d D simple_query
  at db = record { db = db; ids = none }

  step_of : Query → D → Option d.Map → Step d D simple_query
  step_of q db ids = record {
    result = some (sent_result q db);
    failed = none;
    world = record { db = (simple_query q.sql db).2; ids = ids };
  }

  execute-succeeds :
      (q : Query) (db : D) (t : Option ℕ)
      → fails q ≡ t
      → error_text (simple_query q.sql db).0 ≡ none
      → execute d D simple_query q q.sql 0 (at db)
        ≡ step_of q db (learn d q.response_values (simple_query q.sql db).0 none)
  unfolding execute sent_result step_of
  execute-succeeds q db none f e = rw (f, e) refl
  execute-succeeds q db (some t) f e = rw (f, e) refl

  -- Nothing is learnt without a map.
  learn-none : (o : Option (List ResponseRow)) (r : Response) → learn d o r none ≡ none
  learn-none none r = refl
  learn-none (some captured) (rows rs) = refl
  learn-none (some captured) _ = refl

  replay-succeeds :
      (q : Query) (qs : List Query) (db : D)
      → error_text (simple_query q.sql db).0 ≡ none
      → replay_from d D simple_query u read_write none (at db) (q ∷ qs)
        ≡ before d D simple_query u
            (sent_result q db ∷ [])
            (replay_from d D simple_query u read_write none (at (simple_query q.sql db).2) qs)
  unfolding step_of
  replay-succeeds q qs db e =
      replay_from-step d D simple_query u read_write none (at db) q qs
      ∙ ap (λ o. o >>= continue d D simple_query u read_write qs)
          (replay_query-execute d D simple_query u none (at db) q q.sql 0 refl refl
            ∙ ap some (execute-succeeds q db (fails q) refl e))
      ∙ ap (λ ids. some (step_of q db ids) >>= continue d D simple_query u read_write qs)
          (learn-none q.response_values (simple_query q.sql db).0)
      ∙ before-one d D simple_query u (sent_result q db)
          (replay_from d D simple_query u read_write none (at (simple_query q.sql db).2) qs)

  -- What the replay of a transaction comes to: its results, and a state with the same committed data
  -- in which no transaction is open.
  pub record Undone (db : D) (n : ℕ) (rest : List Query)
      (end : Option (List QueryResult × World d D simple_query)) : Type 0 where
    pub results : List QueryResult
    pub db' : D
    pub one_each : length results ≡ n
    pub same : committed db' ≡ committed db
    pub closed : idle db'
    pub goes_on :
        end
        ≡ before d D simple_query u results
            (replay_from d D simple_query u read_write none (at db') rest)

  all-Inside : (t : ℕ) (qs : List Query) → All (Statement t) qs → All (Inside t) qs
  all-Inside t [] h = tt
  all-Inside t (q ∷ qs) (h, hs) = (h.inside, all-Inside t qs hs)

  length-map-skipped :
      (text : List ℕ) (qs : List Query) → length (map (skipped text) qs) ≡ length qs
  length-map-skipped text [] = refl
  length-map-skipped text (q ∷ qs) = ap suc (length-map-skipped text qs)

  fails-Undone :
      (t : ℕ) (db : D) (q : Query) (qs : List Query) (last : Query) (rest : List Query) (e : List ℕ)
      → RollsBack
      → in_transaction db
      → Statement t q
      → All (Statement t) qs
      → Ends t last
      → error_text (simple_query q.sql db).0 ≡ some e
      → Undone db
          (suc (suc (length qs)))
          rest
          (replay_from d D simple_query u read_write none (at db) (q ∷ (qs ++ last ∷ rest)))
  fails-Undone t db q qs last rest e back inside h hs ends error =
      let (kept, still) = h.local db inside in
      let (same, closed) = back (simple_query q.sql db).2 still in
      let texts = map (skipped (codes "skipped: transaction failed")) qs in
      let end = skipped (codes "skipped: transaction already rolled back") last in
      let r = failed_result d D simple_query u q q.sql 0 (simple_query q.sql db).1 e in
      let db' = (simple_query (codes "ROLLBACK") (simple_query q.sql db).2).2 in
      record {
        results = r ∷ (texts ++ end ∷ []);
        db' = db';
        one_each =
            let a = length-append texts (end ∷ []) in
            let b = length-map-skipped (codes "skipped: transaction failed") qs in omega arith;
        same = same ∙ kept;
        closed = closed;
        goes_on =
            replay-fails d D simple_query u t none (at db) q (qs ++ last ∷ rest) q.sql e 0 refl
              h.inside.member h.plain refl error
            ∙ ap
                (λ ids. before d D simple_query u (r ∷ []) (
                  replay_from d D simple_query u read_write (some t)
                    (record { db = db'; ids = ids }) (qs ++ last ∷ rest)))
                (learn-none q.response_values (simple_query q.sql db).0)
            ∙ ap (before d D simple_query u (r ∷ []))
                (replay-skips d D simple_query u t (at db') qs last rest (all-Inside t qs hs) ends)
            ∙ before-before d D simple_query u (r ∷ []) (texts ++ end ∷ [])
                (replay_from d D simple_query u read_write none (at db') rest);
      }

  -- A transaction of which a statement fails is undone. In a full replay without a map of ids, on a
  -- database that rolls back as documented and has the transaction open, where the statements between
  -- BEGIN and its COMMIT or ROLLBACK leave the transaction open and what is committed alone, and one
  -- of them is answered by an error: what is committed is as before, no transaction is open behind
  -- it, each of its statements and its end has one result, and the replay goes on with the queries
  -- behind it as if nothing had failed.
  pub replay-undoes :
      (t : ℕ) (body : List Query) (db : D) (last : Query) (rest : List Query)
      → RollsBack
      → in_transaction db
      → All (Statement t) body
      → Ends t last
      → any_fails db body ≡ true
      → Undone db
          (suc (length body))
          rest
          (replay_from d D simple_query u read_write none (at db) (body ++ last ∷ rest))
  replay-undoes t [] db last rest back inside h ends erring = cc
  replay-undoes t (q ∷ qs) db last rest back inside (h, hs) ends erring =
      elim (Option-cases (error_text (simple_query q.sql db).0)) [
        | inr (e, error) ↦ fails-Undone t db q qs last rest e back inside h hs ends error
        | inl fine ↦
            let db1 = (simple_query q.sql db).2 in
            let (kept, still) = h.local db inside in
            let later = replay-undoes t qs db1 last rest back still hs ends (rw fine at erring) in
            record {
              results = sent_result q db ∷ later.results;
              db' = later.db';
              one_each = ap suc later.one_each;
              same = later.same ∙ kept;
              closed = later.closed;
              goes_on =
                  replay-succeeds q (qs ++ last ∷ rest) db fine
                  ∙ ap (before d D simple_query u (sent_result q db ∷ [])) later.goes_on
                  ∙ before-before d D simple_query u (sent_result q db ∷ []) later.results
                      (replay_from d D simple_query u read_write none (at later.db') rest);
            }
      ]
