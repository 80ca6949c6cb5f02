-- ===== src/Proxy/Collector/Totals.antt =====
-- What a profile that is built tells of its sessions.
use pg_retest.Prelude.{
  bind_some, ℕ, suc, ◌+◌, ◌%◌, ◌^◌, ◌≤◌, ◌<◌, ◌≡◌, inl, inr, refl, sym, ap, subst, ◌∙◌, Bool,
  Option, none, some, List, [], ◌∷◌, ◌++◌, arith, leb, length, length-append, All, Bool-cases,
}
use mathlib.Core.List.{Perm}
use mathlib.Core.Option as Option
use pg_retest.Sql.Lex.Scan.{Unicode}
use pg_retest.Profile.{Query, Session, WorkloadProfile, assign_transaction_ids}
use pg_retest.Profile.Transactions.{assign_transaction_ids-last}
use pg_retest.Proxy.Collector.{CapturedQuery, CapturedSession}
use pg_retest.Proxy.Collector.Contents.{SessionsOf, sort_by_id-Perm, add_sessions-SessionsOf}
use pg_retest.Proxy.Collector.Build.{
  Progress, last, end_us, extend, query_of, insert_by_id, sort_by_id, queries_of, push_session,
  add_sessions, build_profile,
}

-- In the order of the ids.
abbrev pub Sorted : List Session → Type 0
Sorted [] = Unit
Sorted (s ∷ ss) = All (λ (t : Session). s.id ≤ t.id) ss × Sorted ss

-- The last query of the session ends within the given time.
abbrev pub EndsWithin : ℕ → Option Query → Type 0
EndsWithin duration none = Unit
EndsWithin duration (some q) = end_us q ≤ duration

abbrev pub Within : ℕ → Session → Type 0
Within duration s = EndsWithin duration (last s.queries)

abbrev pub count_queries : List CapturedSession → ℕ
count_queries [] = 0
count_queries (c ∷ cs) = length c.queries + count_queries cs

All-insert {κ} :
    (P : Session → Type κ) (s : Session) (ss : List Session)
    → P s
    → All P ss
    → All P (insert_by_id s ss)
All-insert P s [] h k = (h, tt)
All-insert P s (t ∷ ts) h (k, ks) = elim (Bool-cases (leb s.id t.id)) [
  | inl e ↦ rw e (h, (k, ks))
  | inr e ↦ rw e (k, All-insert P s ts h ks)
]

All-sort {κ} : (P : Session → Type κ) (ss : List Session) → All P ss → All P (sort_by_id ss)
All-sort P [] h = tt
All-sort P (s ∷ ss) (h, hs) = All-insert P s (sort_by_id ss) h (All-sort P ss hs)

All-map {κ μ} :
    {P : Session → Type κ} {Q : Session → Type μ} (f : (s : Session) → P s → Q s)
    (ss : List Session)
    → All P ss
    → All Q ss
All-map f [] h = tt
All-map f (s ∷ ss) (h, hs) = (f s h, All-map f ss hs)

All-snoc {κ} :
    (P : Session → Type κ) (ss : List Session) (s : Session) → All P ss → P s → All P (ss ++ s ∷ [])
All-snoc P [] s h k = (k, tt)
All-snoc P (t ∷ ts) s (h, hs) k = (h, All-snoc P ts s hs k)

insert-Sorted : (s : Session) (ss : List Session) → Sorted ss → Sorted (insert_by_id s ss)
insert-Sorted s [] h = (tt, tt)
insert-Sorted s (t ∷ ts) (h, hs) = elim (Bool-cases (leb s.id t.id)) [
  | inl e ↦
      let below : s.id ≤ t.id = ground (arith, e) in
      rw e
        ((below, All-map (λ r k. let b : s.id ≤ r.id = omega (arith, below, k) in b) ts h), (h, hs))
  | inr e ↦
      let above : t.id ≤ s.id = ground (arith, e) in
      rw e (All-insert (λ (r : Session). t.id ≤ r.id) s ts above h, insert-Sorted s ts hs)
]

sort-Sorted : (ss : List Session) → Sorted (sort_by_id ss)
sort-Sorted [] = tt
sort-Sorted (s ∷ ss) = insert-Sorted s (sort_by_id ss) (sort-Sorted ss)

length-insert : (s : Session) (ss : List Session) → length (insert_by_id s ss) ≡ suc (length ss)
length-insert s [] = refl
length-insert s (t ∷ ts) = ground (arith, length-insert s ts)

length-sort : (ss : List Session) → length (sort_by_id ss) ≡ length ss
length-sort [] = refl
length-sort (s ∷ ss) = omega (arith, length-insert s (sort_by_id ss), length-sort ss)

extend-le : (d : ℕ) (o : Option Query) → d ≤ extend d o
extend-le d none = omega arith
extend-le d (some q) = ground arith

extend-EndsWithin : (d : ℕ) (o : Option Query) → EndsWithin (extend d o) o
extend-EndsWithin d none = tt
extend-EndsWithin d (some q) = ground arith

EndsWithin-mono : (d e : ℕ) (o : Option Query) → d ≤ e → EndsWithin d o → EndsWithin e o
EndsWithin-mono d e none h k = tt
EndsWithin-mono d e (some q) h k = omega (arith, h, k)

-- What the loop over the sessions adds to its variables.
record Added (captured : List CapturedSession) (p q : Progress) : Type 0 where
  count : length q.sessions ≡ length p.sessions + length captured
  total : q.total_queries ≡ (p.total_queries + count_queries captured) % 2 ^ 64
  within :
      All (Within p.capture_duration_us) p.sessions → All (Within q.capture_duration_us) q.sessions

push_session-Added :
    (c : CapturedSession) (p : Progress) (raw : List Query)
    → length raw ≡ length c.queries
    → Added (c ∷ []) p (push_session c p raw)
push_session-Added c p raw e =
    let numbered = (assign_transaction_ids raw p.next_txn_id).0 in
    let n : length numbered ≡ length c.queries =
      (assign_transaction_ids-last p.next_txn_id raw).0 ∙ e in
    let s : Session = record {
      id = c.session_id;
      user = c.user;
      database = c.database;
      queries = numbered;
    } in
    let duration = extend p.capture_duration_us (last numbered) in
    record {
      count = length-append p.sessions (s ∷ []);
      total = omega (arith, n);
      within = λ h.
          All-snoc (Within duration) p.sessions s
            (All-map
              (λ t.
                EndsWithin-mono p.capture_duration_us duration (last t.queries)
                  (extend-le p.capture_duration_us (last numbered)))
              p.sessions h)
            (extend-EndsWithin p.capture_duration_us (last numbered));
    }

Added-step :
    {c : CapturedSession} {cs : List CapturedSession} {p q r : Progress}
    → Added (c ∷ []) p q
    → Added cs q r
    → Added (c ∷ cs) p r
Added-step {c} {cs} {p} {q} {r} a b = record {
  count = omega (arith, a.count, b.count);
  total = omega (arith, a.total, b.total);
  within = λ h. b.within (a.within h);
}

module _ (u : Unicode) (mask_values : Bool) where
  length-queries_of :
      (cqs : List CapturedQuery) (qs : List Query)
      → queries_of u mask_values cqs ≡ some qs
      → length qs ≡ length cqs
  unfolding queries_of
  length-queries_of [] qs h = ap (length {0} {A = Query}) (sym (Option.some-injective [] qs h))
  length-queries_of (cq ∷ cqs) qs h =
      let (q, e, h2) = bind_some (query_of u mask_values cq) _ qs h in
      let (rest, e2, h3) = bind_some (queries_of u mask_values cqs) _ qs h2 in
      ap (length {0} {A = Query}) (sym (Option.some-injective (q ∷ rest) qs h3))
      ∙ ap suc (length-queries_of cqs rest e2)

  add_sessions-Added :
      (p : Progress) (cs : List CapturedSession) (r : Progress)
      → add_sessions u mask_values p cs ≡ some r
      → p.total_queries < 2 ^ 64
      → Added cs p r
  unfolding add_sessions
  add_sessions-Added p [] r h bound =
      let e : p ≡ r = Option.some-injective p r h in
      subst (Added [] p) e
        (record { count = omega arith; total = omega (arith, bound); within = λ k. k })
  add_sessions-Added p (c ∷ cs) r h bound =
      let (raw, e, h2) = bind_some (queries_of u mask_values c.queries) _ r h in
      let step = push_session-Added c p raw (length-queries_of c.queries raw e) in
      Added-step step (add_sessions-Added (push_session c p raw) cs r h2 (omega arith))

-- What a profile is to say of the sessions it was built of.
pub record Describes (u : Unicode) (mask_values : Bool) (captured : List CapturedSession)
    (p : WorkloadProfile) : Type 0 where
  pub sorted : Sorted p.sessions
  pub contents :
      (made : List Session) × SessionsOf u mask_values captured 1 made × Perm p.sessions made
  pub count : length p.sessions ≡ length captured
  pub total_sessions : p.metadata.total_sessions ≡ length captured
  pub total_queries : p.metadata.total_queries ≡ count_queries captured % 2 ^ 64
  pub within : All (Within p.metadata.capture_duration_us) p.sessions

-- A profile that is built has, in the order of their ids, one session for each captured session, with
-- its id, user and database, and with its queries, their texts masked if that is asked for, their
-- offsets, durations and responses, numbered from 1 on through the sessions as they were captured;
-- its counts of sessions and of queries are those of what was captured, the latter modulo 2^64; and
-- the last query of every session ends within the capture's duration.
pub build_profile-Describes :
    (u : Unicode) (mask_values : Bool) (captured : List CapturedSession) (host : List ℕ)
    (p : WorkloadProfile)
    → build_profile u mask_values captured host ≡ some p
    → Describes u mask_values captured p
unfolding build_profile
build_profile-Describes u mask_values captured host p h =
    let start : Progress = record {
      sessions = [];
      total_queries = 0;
      next_txn_id = 1;
      capture_duration_us = 0;
    } in
    let (q, e, h2) = bind_some (add_sessions u mask_values start captured) _ p h in
    let (made, all, of) = add_sessions-SessionsOf u mask_values captured start q e in
    let a = add_sessions-Added u mask_values start captured q e (omega arith) in
    subst (Describes u mask_values captured) (Option.some-injective _ p h2) (record {
      sorted = sort-Sorted q.sessions;
      contents = (
        made,
        of,
        subst (λ ss. Perm (sort_by_id q.sessions) ss) all (sort_by_id-Perm q.sessions),
      );
      count = omega (arith, length-sort q.sessions, a.count);
      total_sessions = omega (arith, a.count);
      total_queries = omega (arith, a.total);
      within = All-sort (Within q.capture_duration_us) q.sessions (a.within tt);
    })
