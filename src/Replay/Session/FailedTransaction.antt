-- ===== src/Replay/Session/FailedTransaction.antt =====
-- A transaction in which a statement has failed is rolled back, and the rest of it is not sent.
use mathlib.Core.List.{append_assoc}
use mathlib.Core.Option
use pg_retest.Prelude.{
  ◌>>=◌, ℕ, ◌≡◌, refl, sym, ap, ◌∙◌, Bool, true, false, Option, none, some, List, [], ◌∷◌, ◌++◌,
  map, codes, All, ==_iff,
}
use pg_retest.Sql.Lex.Scan.{Unicode}
use pg_retest.Profile.{Query, is_transaction_control}
use pg_retest.Correlate.Map.{DashMap}
use pg_retest.Replay.Session.{
  ReplayMode, read_write, should_replay, QueryResult, Response, error_text, skipped,
  ends_transaction, in_failed, fails, learn, World, Step, execute, effective_sql, skip,
  replay_query, replay_from, note_result,
}

-- A query of a transaction that does not end it.
pub record Inside (t : ℕ) (q : Query) : Type 0 where
  pub member : q.transaction_id ≡ some t
  pub continues : ends_transaction q.kind ≡ false

pub record Ends (t : ℕ) (q : Query) : Type 0 where
  pub member : q.transaction_id ≡ some t
  pub closing : ends_transaction q.kind ≡ true

module _ (d : DashMap) (D : Type 0) (simple_query : List ℕ → D → Response × ℕ × D)
    (u : Unicode) where
  -- Results in front of those of the rest.
  abbrev pub before :
      List QueryResult
      → Option (List QueryResult × World d D simple_query)
      → Option (List QueryResult × World d D simple_query)
  before rs o = Option.map (λ r. (rs ++ r.0, r.1)) o

  pub before-one :
      (r : QueryResult) (o : Option (List QueryResult × World d D simple_query))
      → (o >>= λ x. some (r ∷ x.0, x.1)) ≡ before (r ∷ []) o
  before-one r none = refl
  before-one r (some x) = refl

  in_failed-same : (t : ℕ) → in_failed (some t) (some t) ≡ true
  in_failed-same t = (==_iff t t).1 refl

  -- The rest of the loop behind a step.
  abbrev pub continue :
      ReplayMode
      → List Query
      → Step d D simple_query
      → Option (List QueryResult × World d D simple_query)
  continue mode qs s =
      replay_from d D simple_query u mode s.failed s.world qs
      >>= (λ x. some (note_result s.result x.0, x.1))

  pub replay_from-step :
      (mode : ReplayMode) (failed : Option ℕ) (w : World d D simple_query) (q : Query)
      (qs : List Query)
      → replay_from d D simple_query u mode failed w (q ∷ qs)
        ≡ (replay_query d D simple_query u mode failed w q >>= continue mode qs)
  unfolding replay_from
  replay_from-step mode failed w q qs = refl

  replay_query-skip :
      (t : ℕ) (w : World d D simple_query) (q : Query)
      → q.transaction_id ≡ some t
      → replay_query d D simple_query u read_write (some t) w q
        ≡ some (skip d D simple_query u q (some t) w)
  unfolding replay_query should_replay
  replay_query-skip t w q h =
      ap
        (λ (b : Bool). elim b as (λ (_ : Bool). Option (Step d D simple_query)) [
          | true ↦ some (skip d D simple_query u q (some t) w)
          | false ↦
              effective_sql d D simple_query u w.ids q.sql
              >>= (λ x. some (execute d D simple_query q x.0 x.1 w))
        ])
        (ap (in_failed (some t)) h ∙ in_failed-same t)

  skip-Inside :
      (t : ℕ) (w : World d D simple_query) (q : Query)
      → ends_transaction q.kind ≡ false
      → skip d D simple_query u q (some t) w ≡ record {
        result = some (skipped (codes "skipped: transaction failed") q);
        failed = some t;
        world = w;
      }
  skip-Inside t w q h = rw (h, skip) refl

  skip-Ends :
      (t : ℕ) (w : World d D simple_query) (q : Query)
      → ends_transaction q.kind ≡ true
      → skip d D simple_query u q (some t) w ≡ record {
        result = some (skipped (codes "skipped: transaction already rolled back") q);
        failed = none;
        world = w;
      }
  skip-Ends t w q h = rw (h, skip) refl

  replay-Inside :
      (t : ℕ) (w : World d D simple_query) (q : Query) (qs : List Query)
      → Inside t q
      → replay_from d D simple_query u read_write (some t) w (q ∷ qs)
        ≡ before
            (skipped (codes "skipped: transaction failed") q ∷ [])
            (replay_from d D simple_query u read_write (some t) w qs)
  replay-Inside t w q qs i =
      replay_from-step read_write (some t) w q qs
      ∙ ap (λ o. o >>= continue read_write qs)
          (replay_query-skip t w q i.member ∙ ap some (skip-Inside t w q i.continues))
      ∙ before-one (skipped (codes "skipped: transaction failed") q)
          (replay_from d D simple_query u read_write (some t) w qs)

  replay-Ends :
      (t : ℕ) (w : World d D simple_query) (q : Query) (qs : List Query)
      → Ends t q
      → replay_from d D simple_query u read_write (some t) w (q ∷ qs)
        ≡ before
            (skipped (codes "skipped: transaction already rolled back") q ∷ [])
            (replay_from d D simple_query u read_write none w qs)
  replay-Ends t w q qs i =
      replay_from-step read_write (some t) w q qs
      ∙ ap (λ o. o >>= continue read_write qs)
          (replay_query-skip t w q i.member ∙ ap some (skip-Ends t w q i.closing))
      ∙ before-one (skipped (codes "skipped: transaction already rolled back") q)
          (replay_from d D simple_query u read_write none w qs)

  pub before-before :
      (rs ss : List QueryResult) (o : Option (List QueryResult × World d D simple_query))
      → before rs (before ss o) ≡ before (rs ++ ss) o
  before-before rs ss none = refl
  before-before rs ss (some x) = ap (λ l. some (l, x.1)) (sym (append_assoc rs ss x.0))

  -- In a full replay, once a transaction has failed, its later statements up to its COMMIT or
  -- ROLLBACK, and that one too, are answered as skipped and in their order; the database and the
  -- map of ids are as before, and the replay goes on behind them as if nothing had failed.
  pub replay-skips :
      (t : ℕ) (w : World d D simple_query) (inside : List Query) (last : Query) (rest : List Query)
      → All (Inside t) inside
      → Ends t last
      → replay_from d D simple_query u read_write (some t) w (inside ++ last ∷ rest)
        ≡ before
            (map (skipped (codes "skipped: transaction failed")) inside
              ++ skipped (codes "skipped: transaction already rolled back") last ∷ [])
            (replay_from d D simple_query u read_write none w rest)
  replay-skips t w [] last rest h e = replay-Ends t w last rest e
  replay-skips t w (q ∷ qs) last rest (h, hs) e =
      replay-Inside t w q (qs ++ last ∷ rest) h
      ∙ ap (before (skipped (codes "skipped: transaction failed") q ∷ []))
          (replay-skips t w qs last rest hs e)
      ∙ before-before (skipped (codes "skipped: transaction failed") q ∷ []) _
          (replay_from d D simple_query u read_write none w rest)

  -- The result of a statement that ended in an error.
  abbrev pub failed_result : Query → List ℕ → ℕ → ℕ → List ℕ → QueryResult
  failed_result q sql n elapsed e = record {
    sql = sql;
    original_duration_us = q.duration_us;
    replay_duration_us = elapsed;
    success = false;
    error = some e;
    id_substitution_count = n;
  }

  pub replay_query-execute :
      (failed : Option ℕ) (w : World d D simple_query) (q : Query) (sql : List ℕ) (n : ℕ)
      → in_failed failed q.transaction_id ≡ false
      → effective_sql d D simple_query u w.ids q.sql ≡ some (sql, n)
      → replay_query d D simple_query u read_write failed w q
        ≡ some (execute d D simple_query q sql n w)
  unfolding replay_query should_replay
  replay_query-execute failed w q sql n fresh text =
      ap
        (λ (b : Bool). elim b as (λ (_ : Bool). Option (Step d D simple_query)) [
          | true ↦ some (skip d D simple_query u q failed w)
          | false ↦
              effective_sql d D simple_query u w.ids q.sql
              >>= (λ x. some (execute d D simple_query q x.0 x.1 w))
        ])
        fresh
      ∙ ap (λ o. o >>= (λ x. some (execute d D simple_query q x.0 x.1 w))) text

  -- What a statement that fails leaves behind.
  abbrev pub rolled_back : Query → List ℕ → World d D simple_query → World d D simple_query
  rolled_back q sql w = record {
    db = (simple_query (codes "ROLLBACK") (simple_query sql w.db).2).2;
    ids = learn d q.response_values (simple_query sql w.db).0 w.ids;
  }

  execute-fails :
      (t : ℕ) (w : World d D simple_query) (q : Query) (sql e : List ℕ) (n : ℕ)
      → q.transaction_id ≡ some t
      → is_transaction_control q.kind ≡ false
      → error_text (simple_query sql w.db).0 ≡ some e
      → execute d D simple_query q sql n w ≡ record {
        result = some (failed_result q sql n (simple_query sql w.db).1 e);
        failed = some t;
        world = rolled_back q sql w;
      }
  unfolding execute
  execute-fails t w q sql e n member plain error =
      let f : fails q ≡ some t = rw plain member in rw (f, error) refl

  -- In a full replay, a statement of a transaction that is not marked as failed, no BEGIN, COMMIT
  -- or ROLLBACK, whose substitution ends and which is answered by an error, is noted as failed
  -- with the text that was sent; the transaction is rolled back at once, and the replay goes on
  -- with it marked as failed.
  pub replay-fails :
      (t : ℕ) (failed : Option ℕ) (w : World d D simple_query) (q : Query) (qs : List Query)
      (sql e : List ℕ) (n : ℕ)
      → in_failed failed q.transaction_id ≡ false
      → q.transaction_id ≡ some t
      → is_transaction_control q.kind ≡ false
      → effective_sql d D simple_query u w.ids q.sql ≡ some (sql, n)
      → error_text (simple_query sql w.db).0 ≡ some e
      → replay_from d D simple_query u read_write failed w (q ∷ qs)
        ≡ before
            (failed_result q sql n (simple_query sql w.db).1 e ∷ [])
            (replay_from d D simple_query u read_write (some t) (rolled_back q sql w) qs)
  replay-fails t failed w q qs sql e n fresh member plain text error =
      replay_from-step read_write failed w q qs
      ∙ ap (λ o. o >>= continue read_write qs)
          (replay_query-execute failed w q sql n fresh text
            ∙ ap some (execute-fails t w q sql e n member plain error))
      ∙ before-one (failed_result q sql n (simple_query sql w.db).1 e)
          (replay_from d D simple_query u read_write (some t) (rolled_back q sql w) qs)
