-- ===== src/Proxy/Pool/System.antt =====
-- The pool with the tasks that use it: one step is one lock section of some task, or the end of an
-- attempt to connect, or of a task, in any order. The counts beside the pool are what the tasks hold.
use pg_retest.Prelude.{ℕ, ◌≡◌, suc}
use pg_retest.Proxy.Pool.{
  ServerConn, Config, PoolInner, with_lifecycle, Round, reuse, dial, at_capacity, checkout_round,
  checkin, discard, reap_idle,
}

pub record System : Type 0 where
  pub pool : PoolInner
  pub held : ℕ
  pub connecting : ℕ
  pub failed : ℕ
  pub lost : ℕ

abbrev pub init : System
init = record { pool = with_lifecycle; held = 0; connecting = 0; failed = 0; lost = 0 }

-- What a task holds behind its round of `checkout`.
abbrev pub after_round : System → Round × PoolInner → System
after_round s (reuse c, p) = record s { pool = p; held = suc s.held }
after_round s (dial n, p) = record s { pool = p; connecting = suc s.connecting }
after_round s (at_capacity, p) = record s { pool = p }

-- The time of a step is free: nothing below depends on clocks that agree.
pub data Step (cfg : Config) (s : System) : System → Type 0 where
  checkout_step :
      {t : System} (now : ℕ) → t ≡ after_round s (checkout_round cfg now s.pool) → Step cfg s t
  -- `connect_with_timeout` succeeds, and `checkout` returns the connection.
  connected_step :
      {t : System} (n : ℕ)
      → s.connecting ≡ suc n
      → t ≡ record s { connecting = n; held = suc s.held }
      → Step cfg s t
  -- It fails, and `?` leaves `checkout` with the error.
  failed_step :
      {t : System} (n : ℕ)
      → s.connecting ≡ suc n
      → t ≡ record s { connecting = n; failed = suc s.failed }
      → Step cfg s t
  checkin_step :
      {t : System} (now n : ℕ) (c : ServerConn)
      → s.held ≡ suc n
      → t ≡ record s { pool = checkin cfg now c s.pool; held = n }
      → Step cfg s t
  discard_step :
      {t : System} (n : ℕ)
      → s.held ≡ suc n
      → t ≡ record s { pool = discard s.pool; held = n }
      → Step cfg s t
  -- `?` leaves the task behind `checkout`, on an error before the relay of the session begins, and
  -- the pool is not told.
  leave_step :
      {t : System} (n : ℕ)
      → s.held ≡ suc n
      → t ≡ record s { held = n; lost = suc s.lost }
      → Step cfg s t
  reap_step :
      {t : System} (now : ℕ) → t ≡ record s { pool = (reap_idle cfg now s.pool).0 } → Step cfg s t

pub data Reach (cfg : Config) (s : System) : System → Type 0 where
  here : Reach cfg s s
  next : {t w : System} → Reach cfg s t → Step cfg t w → Reach cfg s w
