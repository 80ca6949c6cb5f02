-- ===== src/Tests/Staging.antt =====
-- The staging collector and the health check.
use pg_retest.Prelude.{
  ◌≡◌, refl, Bool, true, false, none, some, List, [], ◌∷◌, All, arith, codes, foldl, lookup, leb,
}
use pg_retest.Proxy.Collector.{
  session_start, query_start, query_complete, query_error, query_returning, handle,
}
use pg_retest.Proxy.Staging.{
  Json, Tables, Tick, received, timeout, stage, attach, run_staging_collector,
}
use pg_retest.Proxy.Staging.Batches.{
  concat, events_in, IsBatch, all_rows, run_staging_collector-batches,
}
use pg_retest.Proxy.Staging.Related.{of_session}
use pg_retest.Proxy.Staging.Refinement.{rows_of, run_staging_collector-refines}
use pg_retest.Proxy.Health.{
  ProxyMetrics, HealthCheckConfig, new_metrics, spawn_health_check, threshold, failures_in_a_row,
  count, spawn_health_check-degraded,
}
use pg_retest.Tests.Data.{ascii}

abbrev json : Json
json = record { to_string = λ rows. some (codes "json"); from_str = λ text. none }

abbrev empty : Tables
empty = record { session_meta = []; pending = [] }

abbrev ticks : List Tick
ticks =
    received (session_start 1 (codes "eve") (codes "shop") 1000)
    ∷ received (query_start 2 (codes "SELECT 2") 1500)
    ∷ received (query_start 1 (codes "SELECT 1") 3000)
    ∷ received (query_complete 2 4000)
    ∷ timeout
    ∷ received (query_error 1 (codes "no") 9000)
    ∷ []

run_staging_collector-batches_example :
    (concat (run_staging_collector ascii json (codes "c") empty [] ticks)
      ≡ all_rows ascii (codes "c") empty (events_in ticks))
    × All IsBatch (run_staging_collector ascii json (codes "c") empty [] ticks)
run_staging_collector-batches_example =
    run_staging_collector-batches ascii json (codes "c") ticks (tt, (tt, (tt, (tt, (tt, tt)))))

run_staging_collector-refines_example :
    of_session 1 (concat (run_staging_collector ascii json (codes "c") empty [] ticks))
    ≡ rows_of ascii (codes "c") 1 (lookup 1 (foldl handle [] (events_in ticks)))
run_staging_collector-refines_example =
    run_staging_collector-refines ascii (codes "c") json ticks 1 (omega arith)
      (tt, (tt, (tt, (tt, (tt, tt)))))
      (omega arith, (omega arith, (omega arith, (omega arith, (omega arith, tt)))))
      (refl, (refl, (refl, (refl, (refl, tt)))))

-- The rows that a query gives back are lost once a timeout has flushed the batch that its row was in.
abbrev late_rows : List Tick
late_rows =
    received (query_start 2 (codes "SELECT 2") 1500)
    ∷ received (query_complete 2 4000)
    ∷ timeout
    ∷ received (query_returning 2 (codes "id" ∷ []) ((some (codes "5") ∷ []) ∷ []) 4000)
    ∷ []

late_rows-lost :
    run_staging_collector ascii json (codes "c") empty [] late_rows
    ≡ all_rows ascii (codes "c") empty (events_in late_rows) ∷ []
unfolding run_staging_collector stage attach
late_rows-lost = refl

abbrev config : HealthCheckConfig
config = record { interval_secs = 5; timeout_secs = 1; fail_threshold = 2 }

abbrev probes : List Bool
probes = false ∷ true ∷ false ∷ false ∷ []

spawn_health_check-degraded_example :
    (m : ProxyMetrics) × (spawn_health_check config new_metrics probes ≡ some m)
    × (m.backend_degraded ≡ leb (threshold config) (failures_in_a_row 0 probes))
    × (m.backend_consecutive_failures ≡ failures_in_a_row 0 probes)
    × (m.backend_healthchecks_ok_total ≡ count true probes)
    × (m.backend_healthchecks_fail_total ≡ count false probes)
spawn_health_check-degraded_example = spawn_health_check-degraded config probes refl (omega arith)
