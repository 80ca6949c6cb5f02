-- ===== src/Proxy/Staging/Batches.antt =====
-- src/proxy/capture.rs: batching neither loses nor reorders rows.
use pg_retest.Prelude.{
  ℕ, ◌≤◌, ◌<◌, ◌≡◌, refl, ap, ◌∙◌, Option, none, some, List, [], ◌∷◌, ◌++◌, leb, All, arith, length,
  length-append, lookup, Bool-cases, inl, inr,
}
use mathlib.Core.List.{append_assoc}
use pg_retest.Sql.Lex.Scan.{Unicode}
use pg_retest.Proxy.Collector.{
  CaptureEvent, session_start, query_start, query_complete, query_error, query_returning,
  session_end,
}
use pg_retest.Proxy.Staging.{
  Json, StagingRow, Tables, ended_row, stage, attach, batch_size, Tick, received, timeout,
  if_not_empty, run_staging_collector,
}

abbrev pub concat : List (List StagingRow) → List StagingRow
concat [] = []
concat (b ∷ batches) = b ++ concat batches

-- The events of a run.
abbrev pub events_in : List Tick → List CaptureEvent
events_in [] = []
events_in (timeout ∷ ticks) = events_in ticks
events_in (received e ∷ ticks) = e ∷ events_in ticks

abbrev pub NoRows : CaptureEvent → Type 0
NoRows (query_returning _ _ _ _) = ⊥
NoRows _ = Unit

abbrev pub IsBatch : List StagingRow → Type 0
IsBatch b = (1 ≤ length b) × (length b ≤ 100)

module _ (u : Unicode) (capture_id : List ℕ) where
  -- The rows that events give, without batches.
  abbrev pub all_rows : Tables → List CaptureEvent → List StagingRow
  all_rows tb [] = []
  all_rows tb (e ∷ es) = let (tb', rows) = stage u capture_id tb e in rows ++ all_rows tb' es

module _ (u : Unicode) (json : Json) (capture_id : List ℕ) where
  attach-NoRows : (e : CaptureEvent) (b : List StagingRow) → NoRows e → attach json e b ≡ b
  unfolding attach
  attach-NoRows (session_start _ _ _ _) b h = refl
  attach-NoRows (query_start _ _ _) b h = refl
  attach-NoRows (query_complete _ _) b h = refl
  attach-NoRows (query_error _ _ _) b h = refl
  attach-NoRows (query_returning _ _ _ _) b h = absurd h
  attach-NoRows (session_end _) b h = refl

  concat-if_not_empty :
      (b : List StagingRow) (bs : List (List StagingRow))
      → concat (if_not_empty b bs) ≡ b ++ concat bs
  concat-if_not_empty [] bs = refl
  concat-if_not_empty (r ∷ b) bs = refl

  concat_run :
      (tb : Tables) (batch : List StagingRow) (ticks : List Tick)
      → All NoRows (events_in ticks)
      → concat (run_staging_collector u json capture_id tb batch ticks)
        ≡ batch ++ all_rows u capture_id tb (events_in ticks)
  unfolding run_staging_collector
  concat_run tb batch [] h = concat-if_not_empty batch []
  concat_run tb batch (timeout ∷ ticks) h =
      concat-if_not_empty batch (run_staging_collector u json capture_id tb [] ticks)
      ∙ ap (λ (l : List StagingRow). batch ++ l) (concat_run tb [] ticks h)
  concat_run tb batch (received e ∷ ticks) (he, h) =
      let (tb', rows) = stage u capture_id tb e in
      let rest = all_rows u capture_id tb' (events_in ticks) in
      let old = attach json e batch in
      let same = ap (λ (b : List StagingRow). (b ++ rows) ++ rest) (attach-NoRows e batch he) in
      elim (Bool-cases (leb batch_size (length (old ++ rows)))) [
        | inl full ↦
            rw (run_staging_collector, full)
              (ap (λ (l : List StagingRow). (old ++ rows) ++ l) (concat_run tb' [] ticks h)
                ∙ same
                ∙ append_assoc batch rows rest)
        | inr more ↦
            rw (run_staging_collector, more)
              (concat_run tb' (old ++ rows) ticks h ∙ same ∙ append_assoc batch rows rest)
      ]

  ended_row-length :
      (k : ℕ) (message : Option (List ℕ)) (t : ℕ) (o : Option (List ℕ × List ℕ × ℕ))
      (p : Option (List ℕ × ℕ))
      → length (ended_row u capture_id k message t o p) ≤ 1
  ended_row-length k message t none none = omega arith
  ended_row-length k message t none (some p) = omega arith
  ended_row-length k message t (some o) none = omega arith
  ended_row-length k message t (some o) (some p) = omega arith

  stage-length : (tb : Tables) (e : CaptureEvent) → length (stage u capture_id tb e).1 ≤ 1
  unfolding stage
  stage-length tb (session_start _ _ _ _) = omega arith
  stage-length tb (query_start _ _ _) = omega arith
  stage-length tb (query_complete k t) =
      ended_row-length k none t (lookup k tb.session_meta) (lookup k tb.pending)
  stage-length tb (query_error k text t) =
      ended_row-length k (some text) t (lookup k tb.session_meta) (lookup k tb.pending)
  stage-length tb (query_returning _ _ _ _) = omega arith
  stage-length tb (session_end _) = omega arith

  if_not_empty-IsBatch :
      (b : List StagingRow) (bs : List (List StagingRow))
      → length b ≤ 100
      → All IsBatch bs
      → All IsBatch (if_not_empty b bs)
  if_not_empty-IsBatch [] bs h k = k
  if_not_empty-IsBatch (r ∷ b) bs h k = ((omega arith, h), k)

  run-IsBatch :
      (tb : Tables) (batch : List StagingRow) (ticks : List Tick)
      → All NoRows (events_in ticks)
      → length batch < 100
      → All IsBatch (run_staging_collector u json capture_id tb batch ticks)
  unfolding run_staging_collector
  run-IsBatch tb batch [] h k = if_not_empty-IsBatch batch [] (omega (arith, k)) tt
  run-IsBatch tb batch (timeout ∷ ticks) h k =
      if_not_empty-IsBatch batch _ (omega (arith, k)) (run-IsBatch tb [] ticks h (omega arith))
  run-IsBatch tb batch (received e ∷ ticks) (he, h) k =
      let (tb', rows) = stage u capture_id tb e in
      let short : length rows ≤ 1 = stage-length tb e in
      let old = attach json e batch in
      let kept : length old ≡ length batch = ap length (attach-NoRows e batch he) in
      let sum = length-append old rows in
      elim (Bool-cases (leb batch_size (length (old ++ rows)))) [
        | inl full ↦
            rw (run_staging_collector, full)
              (
                (ground (arith, full), omega (arith, sum, short, k, kept)),
                run-IsBatch tb' [] ticks h (omega arith),
              )
        | inr more ↦
            rw (run_staging_collector, more)
              (run-IsBatch tb' (old ++ rows) ticks h (ground (arith, more)))
      ]

  -- Without rows that queries give back, whatever the timeouts: each batch that is handed over has 1
  -- to 100 rows, and the batches, one after the other, are the rows of the events, all of them and in
  -- order, as if there were no batches.
  pub run_staging_collector-batches :
      (ticks : List Tick)
      → All NoRows (events_in ticks)
      → (concat (
            run_staging_collector u json capture_id
              (record { session_meta = []; pending = [] })
              []
              ticks)
          ≡ all_rows u capture_id (record { session_meta = []; pending = [] }) (events_in ticks))
        × All IsBatch (
            run_staging_collector u json capture_id
              (record { session_meta = []; pending = [] })
              []
              ticks)
  run_staging_collector-batches ticks h = (
    concat_run (record { session_meta = []; pending = [] }) [] ticks h,
    run-IsBatch (record { session_meta = []; pending = [] }) [] ticks h (omega arith),
  )
