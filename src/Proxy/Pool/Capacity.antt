-- ===== src/Proxy/Pool/Capacity.antt =====
-- The pool never has more connections than its limit, and counts what its users hold.
use pg_retest.Prelude.{
  ℕ, ◌+◌, ◌≤◌, ◌<◌, ◌≡◌, refl, sym, subst, Option, none, some, List, [], ◌∷◌, arith, length,
  length-append,
}
use pg_retest.Proxy.Pool.{
  ServerConn, Config, pop_idle, take_idle, checkout_round, checkin, discard, retain_fresh,
  reap_idle,
}
use pg_retest.Proxy.Pool.System.{
  System, init, after_round, Step, checkout_step, connected_step, failed_step, checkin_step,
  discard_step, leave_step, reap_step, Reach, here, next,
}

-- `active_count` is what the tasks hold, what they are opening, the attempts that failed, and the
-- connections that tasks left without a word; with the idle ones it stays within the limit.
pub record Inv (cfg : Config) (s : System) : Type 0 where
  pub counted : s.pool.active_count ≡ s.held + s.connecting + s.failed + s.lost
  pub bounded : s.pool.active_count + length s.pool.idle ≤ cfg.max_size

pop_idle-length :
    (cfg : Config) (now : ℕ) (cs : List ServerConn) → length (pop_idle cfg now cs).1 ≤ length cs
unfolding pop_idle
pop_idle-length cfg now [] = omega arith
pop_idle-length cfg now (c ∷ cs) = ground (arith, pop_idle-length cfg now cs)

-- A connection that is found leaves the queue.
pop_idle-found :
    (cfg : Config) (now : ℕ) (cs : List ServerConn) (c : ServerConn)
    → (pop_idle cfg now cs).0 ≡ some c
    → length (pop_idle cfg now cs).1 < length cs
unfolding pop_idle
pop_idle-found cfg now [] c e = cc
pop_idle-found cfg now (x ∷ cs) c e = ground (arith, pop_idle-found cfg now cs c)

retain_fresh-length :
    (cfg : Config) (now : ℕ) (cs : List ServerConn) → length (retain_fresh cfg now cs) ≤ length cs
unfolding retain_fresh
retain_fresh-length cfg now [] = omega arith
retain_fresh-length cfg now (c ∷ cs) = ground (arith, retain_fresh-length cfg now cs)

module _ (cfg : Config) where
  take_idle-Inv :
      (s : System) (found : Option ServerConn) (rest : List ServerConn)
      → Inv cfg s
      → length rest ≤ length s.pool.idle
      → ((c : ServerConn) → found ≡ some c → length rest < length s.pool.idle)
      → Inv cfg (after_round s (take_idle cfg found (record s.pool { idle = rest })))
  unfolding take_idle
  take_idle-Inv s none rest v le lt = ground arith
  take_idle-Inv s (some c) rest v le lt = let h = lt c refl in ground arith

  checkout-Inv :
      (s : System) (now : ℕ) → Inv cfg s → Inv cfg (after_round s (checkout_round cfg now s.pool))
  unfolding checkout_round
  checkout-Inv s now v =
      take_idle-Inv s (pop_idle cfg now s.pool.idle).0 (pop_idle cfg now s.pool.idle).1 v
        (pop_idle-length cfg now s.pool.idle) (pop_idle-found cfg now s.pool.idle)

  -- Every step of every task keeps the accounts and the limit.
  step-Inv : {s t : System} → Step cfg s t → Inv cfg s → Inv cfg t
  unfolding checkin discard reap_idle
  step-Inv {s} (checkout_step now e) v = subst (Inv cfg) (sym e) (checkout-Inv s now v)
  step-Inv (connected_step n h e) v = subst (Inv cfg) (sym e) (ground arith)
  step-Inv (failed_step n h e) v = subst (Inv cfg) (sym e) (ground arith)
  step-Inv {s} (checkin_step now n c h e) v =
      subst (Inv cfg) (sym e)
        (ground (arith, length-append s.pool.idle (record c { idle_since = some now } ∷ [])))
  step-Inv (discard_step n h e) v = subst (Inv cfg) (sym e) (ground arith)
  step-Inv (leave_step n h e) v = subst (Inv cfg) (sym e) (ground arith)
  step-Inv {s} (reap_step now e) v =
      subst (Inv cfg) (sym e) (ground (arith, retain_fresh-length cfg now s.pool.idle))

  -- In every state that the tasks can reach from a new pool, in any order of their steps, the count
  -- of active connections is the number that tasks hold, plus those being opened, plus the failed
  -- attempts to open one, plus those that a task held when an error ended it before it relayed
  -- anything; and with the idle connections it is at most `max_size`.
  pub Reach-Inv : {s : System} → Reach cfg init s → Inv cfg s
  Reach-Inv here = record { counted = omega arith; bounded = omega arith }
  Reach-Inv (next r st) = step-Inv st (Reach-Inv r)
