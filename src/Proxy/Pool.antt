-- ===== src/Proxy/Pool.antt =====
-- src/proxy/pool.rs: the session pool. One function is what one task does under the lock; instants
-- are nanoseconds and arguments of the calls. Waiting, and what other tasks do, is in the child
-- `System`.
pub mod System
pub mod Capacity
pub mod Leak
use pg_retest.Prelude.{
  ℕ, ◌+◌, ◌-◌, ◌/◌, ◌<◌, Bool, true, false, ◌&&◌, ◌||◌, Option, none, some, List, [], ◌∷◌, ◌++◌,
  length, ltb, leb, ◌==◌, if◌then◌else◌,
}

-- The stream itself is not modelled: dropping the record closes it.
pub record ServerConn : Type 0 where
  pub id : ℕ
  pub created_at : ℕ
  pub idle_since : Option ℕ

-- The fields of `SessionPool` that do not change; 0 means no limit for the last two.
pub record Config : Type 0 where
  pub max_size : ℕ
  pub pool_timeout : ℕ
  pub server_lifetime_secs : ℕ
  pub server_idle_timeout_secs : ℕ

pub record PoolInner : Type 0 where
  pub idle : List ServerConn
  pub active_count : ℕ
  pub next_id : ℕ

abbrev pub with_lifecycle : PoolInner
with_lifecycle = record { idle = []; active_count = 0; next_id = 1 }

-- `instant.elapsed().as_secs()`
abbrev elapsed_secs : ℕ → ℕ → ℕ
elapsed_secs now since = (now - since) / 1000000000

outlived : Config → ℕ → ServerConn → Bool
outlived cfg now c =
    ltb 0 cfg.server_lifetime_secs && leb cfg.server_lifetime_secs (elapsed_secs now c.created_at)

idle_for : ℕ → ℕ → Option ℕ → Bool
idle_for limit now none = false
idle_for limit now (some since) = leb limit (elapsed_secs now since)

stale : Config → ℕ → ServerConn → Bool
unfolding idle_for
stale cfg now c =
    ltb 0 cfg.server_idle_timeout_secs && idle_for cfg.server_idle_timeout_secs now c.idle_since

-- The inner loop of `checkout`: the first idle connection that is still good, and what is left.
-- Those before it are dropped.
unfoldable pub pop_idle : Config → ℕ → List ServerConn → Option ServerConn × List ServerConn
unfolding outlived stale
pop_idle cfg now [] = (none, [])
pop_idle cfg now (c ∷ cs) =
    let rest = pop_idle cfg now cs in
    if outlived cfg now c || stale cfg now c then rest else (some c, cs)

-- What one round of `checkout` comes to under the lock.
pub data Round : Type 0 where
  reuse : ServerConn → Round
  dial : ℕ → Round
  at_capacity : Round

unfoldable pub open_or_wait : Config → PoolInner → Round × PoolInner
open_or_wait cfg p =
    if ltb (p.active_count + length p.idle) cfg.max_size
    then (dial p.next_id, record p { next_id = p.next_id + 1; active_count = p.active_count + 1 })
    else (at_capacity, p)

unfoldable pub take_idle : Config → Option ServerConn → PoolInner → Round × PoolInner
unfolding open_or_wait
take_idle cfg (some c) p =
    (reuse (record c { idle_since = none }), record p { active_count = p.active_count + 1 })
take_idle cfg none p = open_or_wait cfg p

unfoldable pub checkout_round : Config → ℕ → PoolInner → Round × PoolInner
unfolding pop_idle take_idle
checkout_round cfg now p =
    let (found, rest) = pop_idle cfg now p.idle in take_idle cfg found (record p { idle = rest })

pub checkin : Config → ℕ → ServerConn → PoolInner → PoolInner
unfolding outlived
checkin cfg now c p =
    if outlived cfg now c then record p { active_count = p.active_count - 1 } else record p {
      active_count = p.active_count - 1;
      idle = p.idle ++ record c { idle_since = some now } ∷ [];
    }

pub discard : PoolInner → PoolInner
discard p = record p { active_count = p.active_count - 1 }

pub stats : PoolInner → ℕ × ℕ
stats p = (p.active_count, length p.idle)

-- `retain` of what has not been idle for too long.
retain_fresh : Config → ℕ → List ServerConn → List ServerConn
unfolding idle_for
retain_fresh cfg now [] = []
retain_fresh cfg now (c ∷ cs) =
    let rest = retain_fresh cfg now cs in
    if idle_for cfg.server_idle_timeout_secs now c.idle_since then rest else c ∷ rest

-- The pool behind the reaper's round, and the number of connections reaped.
pub reap_idle : Config → ℕ → PoolInner → PoolInner × ℕ
unfolding retain_fresh
reap_idle cfg now p =
    let kept = retain_fresh cfg now p.idle in
    if cfg.server_idle_timeout_secs == 0
    then (p, 0)
    else (record p { idle = kept }, length p.idle - length kept)
