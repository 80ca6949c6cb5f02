-- ===== src/Classify.antt =====
-- src/classify/mod.rs: the class of a session by the shares of its reads and writes, its latency and
-- its transactions, and the class of a workload by the majority of its sessions. The names of the
-- classes and the printing are left out.
use pg_retest.Prelude.{
  ℕ, ◌+◌, ◌/◌, ◌%◌, ◌^◌, ◌≡◌, refl, Bool, true, false, ◌&&◌, List, [], ◌∷◌, map, length, leb, ltb,
  if◌then◌else◌,
}
use pg_retest.Float.{F64}
use pg_retest.Profile.{
  Query, Session, QueryKind, select, insert, update, delete, ddl, begin, commit, rollback, other,
  WorkloadProfile,
}

pub data WorkloadClass : Type 0 where
  analytical transactional mixed bulk : WorkloadClass

abbrev pub same_class : WorkloadClass → WorkloadClass → Bool
same_class analytical analytical = true
same_class analytical transactional = false
same_class analytical mixed = false
same_class analytical bulk = false
same_class transactional analytical = false
same_class transactional transactional = true
same_class transactional mixed = false
same_class transactional bulk = false
same_class mixed analytical = false
same_class mixed transactional = false
same_class mixed mixed = true
same_class mixed bulk = false
same_class bulk analytical = false
same_class bulk transactional = false
same_class bulk mixed = false
same_class bulk bulk = true

pub same_class-eq : (a b : WorkloadClass) → same_class a b ≡ true → a ≡ b
same_class-eq analytical analytical h = refl
same_class-eq analytical transactional h = cc
same_class-eq analytical mixed h = cc
same_class-eq analytical bulk h = cc
same_class-eq transactional analytical h = cc
same_class-eq transactional transactional h = refl
same_class-eq transactional mixed h = cc
same_class-eq transactional bulk h = cc
same_class-eq mixed analytical h = cc
same_class-eq mixed transactional h = cc
same_class-eq mixed mixed h = refl
same_class-eq mixed bulk h = cc
same_class-eq bulk analytical h = cc
same_class-eq bulk transactional h = cc
same_class-eq bulk mixed h = cc
same_class-eq bulk bulk h = refl

pub same_class_self : (a : WorkloadClass) → same_class a a ≡ true
same_class_self analytical = refl
same_class_self transactional = refl
same_class_self mixed = refl
same_class_self bulk = refl

-- The counters of the loop.
pub record Tally : Type 0 where
  pub reads : ℕ
  pub writes : ℕ
  pub total_latency : ℕ
  pub transaction_count : ℕ

abbrev pub tally_kind : QueryKind → Tally → Tally
tally_kind select t = record t { reads = t.reads + 1 }
tally_kind insert t = record t { writes = t.writes + 1 }
tally_kind update t = record t { writes = t.writes + 1 }
tally_kind delete t = record t { writes = t.writes + 1 }
tally_kind ddl t = record t { writes = t.writes + 1 }
tally_kind begin t = record t { transaction_count = t.transaction_count + 1 }
tally_kind commit t = t
tally_kind rollback t = t
tally_kind other t = t

unfoldable pub tally : Tally → List Query → Tally
tally t [] = t
tally t (q ∷ qs) =
    tally
      (tally_kind q.kind (record t { total_latency = (t.total_latency + q.duration_us) % 2 ^ 64 }))
      qs

pub record ClassCounts : Type 0 where
  pub analytical_count : ℕ
  pub transactional_count : ℕ
  pub mixed_count : ℕ
  pub bulk_count : ℕ

abbrev pub count_class : WorkloadClass → ClassCounts → ClassCounts
count_class analytical c = record c { analytical_count = c.analytical_count + 1 }
count_class transactional c = record c { transactional_count = c.transactional_count + 1 }
count_class mixed c = record c { mixed_count = c.mixed_count + 1 }
count_class bulk c = record c { bulk_count = c.bulk_count + 1 }

-- `max_by_key`: the last of those with the highest count.
abbrev max_by_count : ℕ × WorkloadClass → List (ℕ × WorkloadClass) → ℕ × WorkloadClass
max_by_count best [] = best
max_by_count (n, c) ((m, d) ∷ rest) =
    max_by_count (if leb n m then m else n, if leb n m then d else c) rest

unfoldable pub majority : ClassCounts → WorkloadClass
majority c =
    (max_by_count (c.analytical_count, analytical)
      ((c.transactional_count, transactional)
        ∷ (c.mixed_count, mixed)
        ∷ (c.bulk_count, bulk)
        ∷ [])).1

module _ (f : F64) where
  open f use {F, of_nat, mul, div, gt}

  pub record SessionClassification : Type 0 where
    pub session_id : ℕ
    pub class : WorkloadClass
    pub read_pct : F
    pub write_pct : F
    pub avg_latency_us : ℕ
    pub transaction_count : ℕ
    pub query_count : ℕ

  unfoldable pub percentage : (part data_queries : ℕ) → F
  percentage part data_queries =
      if ltb 0 data_queries
      then mul (div (of_nat part) (of_nat data_queries)) (of_nat 100)
      else of_nat 0

  -- The thresholds.
  unfoldable pub class_of :
      (read_pct write_pct : F) → (avg_latency_us transactions : ℕ) → WorkloadClass
  class_of read_pct write_pct avg_latency_us transactions =
      if gt write_pct (of_nat 80) && leb transactions 2
      then bulk
      else if gt read_pct (of_nat 80) && ltb 10000 avg_latency_us
      then analytical
      else if gt write_pct (of_nat 20) && ltb avg_latency_us 5000 && ltb 2 transactions
      then transactional
      else mixed

  abbrev pub classify : ℕ → ℕ → Tally → SessionClassification
  unfolding class_of percentage
  classify id query_count t =
      let data_queries = t.reads + t.writes in
      let read_pct = percentage t.reads data_queries in
      let write_pct = percentage t.writes data_queries in
      let avg_latency_us = t.total_latency / query_count in
      record {
        session_id = id;
        class = class_of read_pct write_pct avg_latency_us t.transaction_count;
        read_pct = read_pct;
        write_pct = write_pct;
        avg_latency_us = avg_latency_us;
        transaction_count = t.transaction_count;
        query_count = query_count;
      }

  abbrev pub no_queries : ℕ → SessionClassification
  no_queries id = record {
    session_id = id;
    class = mixed;
    read_pct = of_nat 0;
    write_pct = of_nat 0;
    avg_latency_us = 0;
    transaction_count = 0;
    query_count = 0;
  }

  abbrev pub no_tally : Tally
  no_tally = record { reads = 0; writes = 0; total_latency = 0; transaction_count = 0 }

  unfoldable pub classify_queries : ℕ → List Query → SessionClassification
  unfolding tally class_of percentage
  classify_queries id [] = no_queries id
  classify_queries id (q ∷ qs) = classify id (length (q ∷ qs)) (tally no_tally (q ∷ qs))

  unfoldable pub classify_session : Session → SessionClassification
  unfolding classify_queries
  classify_session s = classify_queries s.id s.queries

  pub record WorkloadClassification : Type 0 where
    pub overall_class : WorkloadClass
    pub sessions : List SessionClassification
    pub class_counts : ClassCounts

  abbrev pub count_classes : List SessionClassification → ClassCounts → ClassCounts
  count_classes [] c = c
  count_classes (s ∷ ss) c = count_classes ss (count_class s.class c)

  unfoldable pub classify_workload : WorkloadProfile → WorkloadClassification
  unfolding classify_session majority
  classify_workload profile =
      let sessions = map classify_session profile.sessions in
      let counts = count_classes sessions (record {
        analytical_count = 0;
        transactional_count = 0;
        mixed_count = 0;
        bulk_count = 0;
      }) in
      record { overall_class = majority counts; sessions = sessions; class_counts = counts }
