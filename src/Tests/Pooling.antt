-- ===== src/Tests/Pooling.antt =====
-- The connection pool.
use pg_retest.Prelude.{◌≡◌, refl, arith}
use pg_retest.Proxy.Pool.{Config, checkout_round, pop_idle, take_idle, open_or_wait, at_capacity}
use pg_retest.Proxy.Pool.System.{
  System, init, Reach, here, next, after_round, checkout_step, failed_step,
}
use pg_retest.Proxy.Pool.Capacity.{Inv, Reach-Inv}
use pg_retest.Proxy.Pool.Leak.{failures-at_capacity}

abbrev config : Config
config = record {
  max_size = 1;
  pool_timeout = 30;
  server_lifetime_secs = 3600;
  server_idle_timeout_secs = 600;
}

-- A connection is being opened.
dialing : Reach config init (after_round init (checkout_round config 5 init.pool))
dialing = next here (checkout_step 5 refl)

Reach-Inv_example : Inv config (after_round init (checkout_round config 5 init.pool))
Reach-Inv_example = Reach-Inv config dialing

-- The attempt to open it has failed.
abbrev broken : System
broken = record (after_round init (checkout_round config 5 init.pool)) {
  connecting = 0;
  failed = 1;
}

broken-Reach : Reach config init broken
unfolding checkout_round pop_idle take_idle open_or_wait
broken-Reach = next dialing (failed_step 0 refl refl)

failures-at_capacity_example : (checkout_round config 9 broken.pool).0 ≡ at_capacity
failures-at_capacity_example = failures-at_capacity config 9 broken-Reach (omega arith) here
