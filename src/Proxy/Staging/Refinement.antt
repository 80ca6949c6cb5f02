-- ===== src/Proxy/Staging/Refinement.antt =====
-- src/proxy/capture.rs: the staging collector against the collector that keeps its sessions in memory.
use mathlib.Core.List.{append_assoc, append-nil}
use pg_retest.Prelude.{
  ℕ, ◌^◌, ◌<◌, ◌≡◌, refl, sym, ap, subst, ◌∙◌, Bool, true, false, ◌||◌, ◌&&◌, Option, none, some,
  List, [], ◌∷◌, ◌++◌, ◌==◌, map, foldl, All, arith, lookup, Bool-cases, ==_iff, inl, inr,
}
use pg_retest.Sql.Lex.Scan.{Unicode}
use pg_retest.Proxy.Collector.{CaptureEvent, SessionState, handle}
use pg_retest.Proxy.Collector.Interleaving.{event_session, events_of, observe, handle-events_of}
use pg_retest.Proxy.Staging.{Json, StagingRow, Tables, stage, Tick, run_staging_collector}
use pg_retest.Proxy.Staging.Batches.{
  NoRows, all_rows, concat, events_in, run_staging_collector-batches,
}
use pg_retest.Proxy.Staging.Related.{
  row_of, is_start, Related, own_step, other_step, Related-same, of_session, of_session-append,
  stage-of_session,
}

-- A session does not start once an event of it has been seen.
abbrev pub StartsFirst : ℕ → Bool → List CaptureEvent → Type 0
StartsFirst k seen [] = Unit
StartsFirst k seen (e ∷ es) =
    ((event_session e == k && (is_start e && seen)) ≡ false)
    × StartsFirst k (seen || (event_session e == k)) es

abbrev pub HasSmallId : CaptureEvent → Type 0
HasSmallId e = event_session e < 2 ^ 63

module _ (u : Unicode) (capture_id : List ℕ) where
  abbrev pub rows_of : ℕ → Option SessionState → List StagingRow
  rows_of k none = []
  rows_of k (some s) = map (row_of u capture_id k s) s.queries

  Related-rows :
      (k : ℕ) (tb : Tables) (o : Option SessionState) (rows : List StagingRow)
      → Related u capture_id k tb o rows
      → rows ≡ rows_of k o
  Related-rows k tb none rows (m, q, r) = r
  Related-rows k tb (some s) rows (m, q, r) = r

  all_rows-observe :
      (k : ℕ) (seen : Bool) (es : List CaptureEvent) (tb : Tables) (o : Option SessionState)
      (rows : List StagingRow)
      → k < 2 ^ 63
      → All NoRows es
      → All HasSmallId es
      → StartsFirst k seen es
      → (seen ≡ false → o ≡ none)
      → Related u capture_id k tb o rows
      → rows ++ of_session k (all_rows u capture_id tb es)
        ≡ rows_of k (foldl observe o (events_of k es))
  all_rows-observe k seen [] tb o rows i n b f c h = append-nil rows ∙ Related-rows k tb o rows h
  all_rows-observe k seen (e ∷ es) tb o rows i (ne, n) (be, b) (fe, f) c h =
      let tb' = (stage u capture_id tb e).0 in
      let new = (stage u capture_id tb e).1 in
      let rest = all_rows u capture_id tb' es in
      let split =
        ap (λ (l : List StagingRow). rows ++ l)
          (of_session-append k new rest
            ∙ ap (λ (l : List StagingRow). l ++ of_session k rest)
                (stage-of_session u capture_id k e tb be i)) in
      elim (Bool-cases (event_session e == k)) [
        | inl same ↦
            let h' =
              subst (λ (j : ℕ). Related u capture_id j tb' (observe o e) (rows ++ new))
                ((==_iff (event_session e) k).0 same)
                (own_step u capture_id e tb o rows ne (λ start. c (ground (arith, same, start, fe)))
                  (subst (λ (j : ℕ). Related u capture_id j tb o rows)
                    (sym ((==_iff (event_session e) k).0 same)) h)) in
            split
            ∙ rw same (sym (append_assoc rows new (of_session k rest)))
            ∙ all_rows-observe k true es tb' (observe o e) (rows ++ new) i n b
                (subst (λ (x : Bool). StartsFirst k x es)
                  (let x : (seen || (event_session e == k)) ≡ true = ground (arith, same) in x) f)
                (λ t. cc) h'
            ∙ rw same refl
        | inr other ↦
            let (m, q) = other_step u capture_id k e tb other in
            split
            ∙ rw other refl
            ∙ all_rows-observe k seen es tb' o rows i n b
                (subst (λ (x : Bool). StartsFirst k x es)
                  (let x : (seen || (event_session e == k)) ≡ seen = ground (arith, other) in x) f)
                c (Related-same u capture_id k tb tb' o rows m q h)
            ∙ rw other refl
      ]

  -- The staging collector refines the collector in memory. Where no rows are given back and the ids of
  -- the sessions are below 2^63, whatever the timeouts and the interleaving: of a session that does not
  -- start after its first event, the rows that are handed to the database, batch after batch, are in
  -- order the rows of the queries that the collector in memory has captured of it.
  pub run_staging_collector-refines :
      (json : Json) (ticks : List Tick) (k : ℕ)
      → k < 2 ^ 63
      → All NoRows (events_in ticks)
      → All HasSmallId (events_in ticks)
      → StartsFirst k false (events_in ticks)
      → of_session k (
          concat (
            run_staging_collector u json capture_id
              (record { session_meta = []; pending = [] })
              []
              ticks))
        ≡ rows_of k (lookup k (foldl handle [] (events_in ticks)))
  run_staging_collector-refines json ticks k i n b f =
      let es = events_in ticks in
      let empty : Tables = record { session_meta = []; pending = [] } in
      ap (of_session k) (run_staging_collector-batches u json capture_id ticks n).0
      ∙ all_rows-observe k false es empty none [] i n b f (λ _. refl) (refl, refl, refl)
      ∙ ap (rows_of k) (sym (handle-events_of k es))
