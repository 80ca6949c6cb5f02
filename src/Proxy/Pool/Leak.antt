-- ===== src/Proxy/Pool/Leak.antt =====
-- A failed attempt to connect, and a connection that a task leaves on an error, are never taken off
-- `active_count`.
use pg_retest.Prelude.{ℕ, zero, suc, ◌+◌, ◌≤◌, ◌<◌, ◌≡◌, refl, List, [], ◌∷◌, arith, length}
use pg_retest.Proxy.Pool.{
  ServerConn, Config, PoolInner, Round, reuse, dial, at_capacity, pop_idle, take_idle, open_or_wait,
  checkout_round,
}
use pg_retest.Proxy.Pool.Capacity.{Reach-Inv}
use pg_retest.Proxy.Pool.System.{
  System, init, after_round, Step, checkout_step, connected_step, failed_step, checkin_step,
  discard_step, leave_step, reap_step, Reach, here, next,
}

module _ (cfg : Config) where
  -- What the pool counts and nobody has.
  abbrev missing : System → ℕ
  missing s = s.failed + s.lost

  after_round-missing : (s : System) (r : Round × PoolInner) → missing (after_round s r) ≡ missing s
  after_round-missing s (reuse c, p) = refl
  after_round-missing s (dial n, p) = refl
  after_round-missing s (at_capacity, p) = refl

  Step-missing : {s t : System} → Step cfg s t → missing s ≤ missing t
  Step-missing {s} (checkout_step now e) =
      rw e (omega (arith, after_round-missing s (checkout_round cfg now s.pool)))
  Step-missing (connected_step n h e) = rw e (omega arith)
  Step-missing (failed_step n h e) = rw e (omega arith)
  Step-missing (checkin_step now n c h e) = rw e (omega arith)
  Step-missing (discard_step n h e) = rw e (omega arith)
  Step-missing (leave_step n h e) = rw e (omega arith)
  Step-missing (reap_step now e) = rw e (omega arith)

  Reach-missing : {s t : System} → Reach cfg s t → missing s ≤ missing t
  Reach-missing here = omega arith
  Reach-missing (next r st) = omega (arith, Reach-missing r, Step-missing st)

  Reach-trans : {s t w : System} → Reach cfg s t → Reach cfg t w → Reach cfg s w
  Reach-trans r here = r
  Reach-trans r (next q st) = next (Reach-trans r q) st

  full_round :
      (now : ℕ) (p : PoolInner)
      → p.idle ≡ []
      → cfg.max_size ≤ p.active_count
      → (checkout_round cfg now p).0 ≡ at_capacity
  unfolding checkout_round pop_idle take_idle open_or_wait
  full_round now p e full = rw (e, checkout_round) (ground arith)

  empty_idle : (cs : List ServerConn) → length cs ≡ 0 → cs ≡ []
  empty_idle [] h = refl
  empty_idle (c ∷ cs) h = absurd (omega arith)

  -- Once as many attempts to connect have failed, or connections been left on an error, as
  -- `max_size`, no checkout ever gets a connection again, whatever happens in between: every round
  -- finds the pool at capacity.
  pub failures-at_capacity :
      {s t : System} (now : ℕ)
      → Reach cfg init s
      → cfg.max_size ≤ s.failed + s.lost
      → Reach cfg s t
      → (checkout_round cfg now t.pool).0 ≡ at_capacity
  failures-at_capacity {s} {t} now r full q =
      let v = Reach-Inv cfg (Reach-trans r q) in
      let more = Reach-missing q in
      full_round now t.pool (empty_idle t.pool.idle (omega (arith, v.bounded, v.counted)))
        (omega (arith, v.counted))

  -- The state after `k` failed attempts and nothing else.
  abbrev failures : ℕ → System
  failures k = record {
    pool = record { idle = []; active_count = k; next_id = suc k };
    held = 0;
    connecting = 0;
    failed = k;
    lost = 0;
  }

  abbrev dialing : ℕ → System
  dialing k = record (failures k) {
    pool = record { idle = []; active_count = suc k; next_id = suc (suc k) };
    connecting = 1;
  }

  round-failures :
      (k : ℕ)
      → k < cfg.max_size
      → checkout_round cfg 0 (failures k).pool ≡ (dial (suc k), (dialing k).pool)
  unfolding checkout_round pop_idle take_idle open_or_wait
  round-failures k h = ground arith

  fail_once : (k : ℕ) → k < cfg.max_size → Reach cfg (failures k) (failures (suc k))
  fail_once k h =
      next {t = dialing k} (next here (checkout_step 0 (rw (round-failures k h) refl)))
        (failed_step 0 refl refl)

  failures-Reach : (k : ℕ) → k ≤ cfg.max_size → Reach cfg init (failures k)
  failures-Reach zero h = here
  failures-Reach (suc k) h =
      Reach-trans (failures-Reach k (omega arith)) (fail_once k (omega arith))

  -- From a new pool of any size the tasks can come to a state in which none of
  -- them holds or opens a connection, none is idle, and the pool is at capacity for good.
  pub exhausted_pool :
      (s : System) × Reach cfg init s
      × (s.held ≡ 0)
      × (s.connecting ≡ 0)
      × (s.pool.idle ≡ [])
      × ((t : System) (now : ℕ) → Reach cfg s t → (checkout_round cfg now t.pool).0 ≡ at_capacity)
  exhausted_pool =
      let r = failures-Reach cfg.max_size (omega arith) in
      (
        failures cfg.max_size,
        r,
        refl,
        refl,
        refl,
        λ t now q. failures-at_capacity now r (omega arith) q,
      )
