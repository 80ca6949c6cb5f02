-- ===== src/Proxy/Collector/Contents.antt =====
-- src/proxy/capture.rs: what the sessions of a profile that is built hold.
use mathlib.Core.List.{Perm, append-nil, append_assoc}
use mathlib.Core.List.Perm
use mathlib.Core.Option as Option
use pg_retest.Prelude.{
  ℕ, ◌≡◌, refl, sym, ap, subst, ◌∙◌, Bool, Bool-cases, inl, inr, none, some, List, [], ◌∷◌, ◌++◌,
  leb, if◌then◌else◌, bind_some,
}
use pg_retest.Sql.Lex.Scan.{Unicode}
use pg_retest.Capture.Masking.{mask_sql_literals}
use pg_retest.Profile.{Query, Session, from_sql, assign_transaction_ids}
use pg_retest.Proxy.Collector.{CapturedQuery, CapturedSession}
use pg_retest.Proxy.Collector.Build.{
  Progress, query_of, insert_by_id, sort_by_id, queries_of, push_session, add_sessions,
}

insert-Perm : (s : Session) (ss : List Session) → Perm (insert_by_id s ss) (s ∷ ss)
insert-Perm s [] = Perm.refl (s ∷ [])
insert-Perm s (t ∷ ts) = elim (Bool-cases (leb s.id t.id)) [
  | inl e ↦ rw e (Perm.refl (s ∷ t ∷ ts))
  | inr e ↦ rw e (Perm.trans (Perm.cons t (insert-Perm s ts)) (Perm.swap s t ts))
]

pub sort_by_id-Perm : (ss : List Session) → Perm (sort_by_id ss) ss
sort_by_id-Perm [] = Perm.refl []
sort_by_id-Perm (s ∷ ss) =
    Perm.trans (insert-Perm s (sort_by_id ss)) (Perm.cons s (sort_by_id-Perm ss))

module _ (u : Unicode) (mask_values : Bool) where
  -- A query of the profile that stands for a captured one, before it is numbered: its text is masked
  -- if that is asked for.
  pub record QueryOf (cq : CapturedQuery) (q : Query) : Type 0 where
    pub text : (if mask_values then mask_sql_literals u cq.sql else some cq.sql) ≡ some q.sql
    pub start : q.start_offset_us ≡ cq.start_offset_us
    pub duration : q.duration_us ≡ cq.duration_us
    pub kind : q.kind ≡ from_sql u q.sql
    pub unnumbered : q.transaction_id ≡ none
    pub response : q.response_values ≡ cq.response_values
    pub unchanged : q.original_sql ≡ none

  abbrev pub QueriesOf : List CapturedQuery → List Query → Type 0
  QueriesOf [] qs = qs ≡ []
  QueriesOf (cq ∷ cqs) qs =
      (q : Query) × (rest : List Query) × (qs ≡ q ∷ rest) × QueryOf cq q × QueriesOf cqs rest

  -- One session for each captured one, in order: its id, user and database, and its queries, which are
  -- numbered from the number that the sessions before it leave.
  abbrev pub SessionsOf : List CapturedSession → ℕ → List Session → Type 0
  SessionsOf [] next ss = ss ≡ []
  SessionsOf (c ∷ cs) next ss =
      (raw : List Query) × (rest : List Session) × QueriesOf c.queries raw
      × (ss
          ≡ record {
            id = c.session_id;
            user = c.user;
            database = c.database;
            queries = (assign_transaction_ids raw next).0;
          }
            ∷ rest)
      × SessionsOf cs (assign_transaction_ids raw next).1 rest

  query_of-QueryOf :
      (cq : CapturedQuery) (q : Query) → query_of u mask_values cq ≡ some q → QueryOf cq q
  unfolding query_of
  query_of-QueryOf cq q h =
      let (sql, e, h2) =
        bind_some (if mask_values then mask_sql_literals u cq.sql else some cq.sql) _ q h in
      subst (QueryOf cq) (Option.some-injective _ q h2) (record {
        text = e;
        start = refl;
        duration = refl;
        kind = refl;
        unnumbered = refl;
        response = refl;
        unchanged = refl;
      })

  queries_of-QueriesOf :
      (cqs : List CapturedQuery) (qs : List Query)
      → queries_of u mask_values cqs ≡ some qs
      → QueriesOf cqs qs
  unfolding queries_of
  queries_of-QueriesOf [] qs h = sym (Option.some-injective [] qs h)
  queries_of-QueriesOf (cq ∷ cqs) qs h =
      let (q, e, h2) = bind_some (query_of u mask_values cq) _ qs h in
      let (rest, e2, h3) = bind_some (queries_of u mask_values cqs) _ qs h2 in
      (
        q,
        rest,
        sym (Option.some-injective (q ∷ rest) qs h3),
        query_of-QueryOf cq q e,
        queries_of-QueriesOf cqs rest e2,
      )

  pub add_sessions-SessionsOf :
      (cs : List CapturedSession) (p r : Progress)
      → add_sessions u mask_values p cs ≡ some r
      → (made : List Session) × (r.sessions ≡ p.sessions ++ made) × SessionsOf cs p.next_txn_id made
  unfolding add_sessions
  add_sessions-SessionsOf [] p r h = (
    [],
    ap (λ (x : Progress). x.sessions) (sym (Option.some-injective p r h))
        ∙ sym (append-nil p.sessions),
    refl,
  )
  add_sessions-SessionsOf (c ∷ cs) p r h =
      let (raw, e, h2) = bind_some (queries_of u mask_values c.queries) _ r h in
      let (made, same, of) = add_sessions-SessionsOf cs (push_session c p raw) r h2 in
      let s : Session = record {
        id = c.session_id;
        user = c.user;
        database = c.database;
        queries = (assign_transaction_ids raw p.next_txn_id).0;
      } in
      (
        s ∷ made,
        same ∙ append_assoc p.sessions (s ∷ []) made,
        (raw, made, queries_of-QueriesOf c.queries raw e, refl, of),
      )
