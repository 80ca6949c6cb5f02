-- ===== src/Proxy/Health.antt =====
-- src/proxy/health.rs, src/proxy/metrics.rs: the health check of the backend. The counters are those
-- of 64 bits, which wrap; a probe is whether the target could be reached in time.
use pg_retest.Prelude.{
  ℕ, suc, ◌+◌, ◌%◌, ◌^◌, ◌<◌, ◌≡◌, refl, sym, ◌∙◌, Bool, true, false, List, [], ◌∷◌, foldl, ltb,
  leb, arith, if◌then◌else◌, length, Bool-cases, inl, inr, Option, none, some, ◌==◌,
}

pub record ProxyMetrics : Type 0 where
  pub backend_degraded : Bool
  pub backend_consecutive_failures : ℕ
  pub backend_healthchecks_ok_total : ℕ
  pub backend_healthchecks_fail_total : ℕ

pub record HealthCheckConfig : Type 0 where
  pub interval_secs : ℕ
  pub timeout_secs : ℕ
  pub fail_threshold : ℕ

abbrev fetch_add : ℕ → ℕ
fetch_add n = (n + 1) % 2 ^ 64

unfoldable pub record_healthcheck_ok : ProxyMetrics → ProxyMetrics
record_healthcheck_ok m = record m {
  backend_healthchecks_ok_total = fetch_add m.backend_healthchecks_ok_total;
  backend_consecutive_failures = 0;
  backend_degraded = false;
}

-- With the new number of failures in a row: that of before, and one.
unfoldable pub record_healthcheck_fail : ProxyMetrics → ProxyMetrics × ℕ
record_healthcheck_fail m = (
  record m {
    backend_healthchecks_fail_total = fetch_add m.backend_healthchecks_fail_total;
    backend_consecutive_failures = fetch_add m.backend_consecutive_failures;
  },
  fetch_add m.backend_consecutive_failures,
)

unfoldable pub mark_degraded : ProxyMetrics → ProxyMetrics
mark_degraded m = record m { backend_degraded = true }

-- `max(1)`
abbrev pub threshold : HealthCheckConfig → ℕ
threshold config = if ltb config.fail_threshold 1 then 1 else config.fail_threshold

-- One turn of the loop, on the outcome of a probe.
unfoldable pub probed : HealthCheckConfig → ProxyMetrics → Bool → ProxyMetrics
unfolding record_healthcheck_ok record_healthcheck_fail mark_degraded
probed config m true = record_healthcheck_ok m
probed config m false =
    let (failed, consecutive) = record_healthcheck_fail m in
    if leb (threshold config) consecutive then mark_degraded failed else failed

-- The task, if there is one, on the outcomes of its probes.
unfoldable pub spawn_health_check :
    HealthCheckConfig → ProxyMetrics → List Bool → Option ProxyMetrics
unfolding probed
spawn_health_check config m probes =
    if config.interval_secs == 0 then none else some (foldl (probed config) m probes)

abbrev pub new_metrics : ProxyMetrics
new_metrics = record {
  backend_degraded = false;
  backend_consecutive_failures = 0;
  backend_healthchecks_ok_total = 0;
  backend_healthchecks_fail_total = 0;
}

-- The failures since the last success, `n` of them before the probes.
abbrev pub failures_in_a_row : ℕ → List Bool → ℕ
failures_in_a_row n [] = n
failures_in_a_row n (true ∷ probes) = failures_in_a_row 0 probes
failures_in_a_row n (false ∷ probes) = failures_in_a_row (n + 1) probes

abbrev pub count : Bool → List Bool → ℕ
count b [] = 0
count true (true ∷ probes) = suc (count true probes)
count false (false ∷ probes) = suc (count false probes)
count true (false ∷ probes) = count true probes
count false (true ∷ probes) = count false probes

-- What the metrics say after so many failures in a row, successes and failures.
abbrev Says : HealthCheckConfig → ProxyMetrics → ℕ → ℕ → ℕ → Type 0
Says config m n ok fail =
    (m.backend_degraded ≡ leb (threshold config) n)
    × (m.backend_consecutive_failures ≡ n)
    × (m.backend_healthchecks_ok_total ≡ ok)
    × (m.backend_healthchecks_fail_total ≡ fail)

threshold-positive : (config : HealthCheckConfig) → leb (threshold config) 0 ≡ false
threshold-positive config = ground arith

probed-Says :
    (config : HealthCheckConfig) (m : ProxyMetrics) (n ok fail : ℕ)
    → n + 1 < 2 ^ 64
    → fail + 1 < 2 ^ 64
    → Says config m n ok fail
    → Says config (probed config m false) (n + 1) ok (fail + 1)
unfolding probed record_healthcheck_fail mark_degraded
probed-Says config m n ok fail h i (d, c, o, f) =
    let e : fetch_add m.backend_consecutive_failures ≡ n + 1 = omega (arith, c, h) in
    let g : fetch_add m.backend_healthchecks_fail_total ≡ fail + 1 = omega (arith, f, i) in
    elim (Bool-cases (leb (threshold config) (n + 1))) [
      | inl down ↦ rw (e, down) (refl, refl, o, g)
      | inr up ↦
          let before : leb (threshold config) n ≡ false = ground (arith, up) in
          rw (e, up) (d ∙ before, refl, o, g)
    ]

probes-Says :
    (config : HealthCheckConfig) (m : ProxyMetrics) (n ok fail : ℕ) (probes : List Bool)
    → n + length probes < 2 ^ 64
    → ok + length probes < 2 ^ 64
    → fail + length probes < 2 ^ 64
    → Says config m n ok fail
    → Says config
        (foldl (probed config) m probes)
        (failures_in_a_row n probes)
        (ok + count true probes)
        (fail + count false probes)
unfolding probed record_healthcheck_ok
probes-Says config m n ok fail [] h i j (d, c, o, f) = (d, c, omega (arith, o), omega (arith, f))
probes-Says config m n ok fail (true ∷ probes) h i j (d, c, o, f) =
    let (d', c', o', f') =
      probes-Says config (record_healthcheck_ok m) 0 (ok + 1) fail probes (omega (arith, h))
        (omega (arith, i)) (omega (arith, j))
        (sym (threshold-positive config), refl, omega (arith, o, i), f) in
    (d', c', omega (arith, o'), f')
probes-Says config m n ok fail (false ∷ probes) h i j s =
    let (d', c', o', f') =
      probes-Says config (probed config m false) (n + 1) ok (fail + 1) probes (omega (arith, h))
        (omega (arith, i)) (omega (arith, j))
        (probed-Says config m n ok fail (omega (arith, h)) (omega (arith, j)) s) in
    (d', c', o', omega (arith, f'))

-- After fewer than 2^64 probes of a health check that is not turned off, from new metrics: the backend
-- is marked degraded just if the last probes in a row that failed are as many as the threshold, or
-- one if that is 0, or more; the other fields are their number and how many probes succeeded and failed.
pub spawn_health_check-degraded :
    (config : HealthCheckConfig) (probes : List Bool)
    → (config.interval_secs == 0) ≡ false
    → length probes < 2 ^ 64
    → (m : ProxyMetrics) × (spawn_health_check config new_metrics probes ≡ some m)
      × (m.backend_degraded ≡ leb (threshold config) (failures_in_a_row 0 probes))
      × (m.backend_consecutive_failures ≡ failures_in_a_row 0 probes)
      × (m.backend_healthchecks_ok_total ≡ count true probes)
      × (m.backend_healthchecks_fail_total ≡ count false probes)
unfolding spawn_health_check
spawn_health_check-degraded config probes on h =
    let (degraded, failures, ok, fail) =
      probes-Says config new_metrics 0 0 0 probes (omega (arith, h)) (omega (arith, h))
        (omega (arith, h)) (sym (threshold-positive config), refl, refl, refl) in
    (
      foldl (probed config) new_metrics probes,
      rw on refl,
      degraded,
      failures,
      omega (arith, ok),
      omega (arith, fail),
    )
