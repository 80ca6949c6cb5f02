-- ===== src/Replay/Scaling.antt =====
-- src/replay/scaling.rs: sessions are copied, each copy under new ids and later than the one before.
pub mod Ids
pub mod ByClass
use pg_retest.Prelude.{
  ℕ, zero, suc, ◌+◌, ◌*◌, ◌%◌, ◌^◌, Bool, true, false, Option, none, some, List, [], ◌∷◌, ◌++◌, map,
  leb, ltb, if◌then◌else◌, length,
}
use pg_retest.Profile.{Query, Session, QueryKind, insert, update, delete, ddl, WorkloadProfile}

unfoldable pub copy_query : ℕ → Query → Query
copy_query offset q = record {
  sql = q.sql;
  start_offset_us = (q.start_offset_us + offset) % 2 ^ 64;
  duration_us = q.duration_us;
  kind = q.kind;
  transaction_id = q.transaction_id;
  response_values = none;
  original_sql = none;
}

unfoldable pub copy_session : (session_count stagger_us copy_index : ℕ) → Session → Session
unfolding copy_query
copy_session session_count stagger_us copy_index s = record {
  id = (s.id + copy_index * session_count) % 2 ^ 64;
  user = s.user;
  database = s.database;
  queries = map (copy_query ((copy_index * stagger_us) % 2 ^ 64)) s.queries;
}

-- The copies from `copy_index` on, as many as the first number says.
unfoldable pub copies : (remaining copy_index : ℕ) → ℕ → ℕ → List Session → List Session
unfolding copy_session
copies zero copy_index session_count stagger_us sessions = []
copies (suc k) copy_index session_count stagger_us sessions =
    map (copy_session session_count stagger_us copy_index) sessions
    ++ copies k (copy_index + 1) session_count stagger_us sessions

unfoldable pub scale_sessions : WorkloadProfile → (scale stagger_ms : ℕ) → List Session
unfolding copies
scale_sessions profile scale stagger_ms =
    if leb scale 1
    then profile.sessions
    else copies scale 0 (length profile.sessions) ((stagger_ms * 1000) % 2 ^ 64) profile.sessions

abbrev pub is_write : QueryKind → Bool
is_write insert = true
is_write update = true
is_write delete = true
is_write ddl = true
is_write _ = false

abbrev count_writes : List Query → ℕ → ℕ
count_writes [] n = n
count_writes (q ∷ qs) n = count_writes qs (if is_write q.kind then n + 1 else n)

abbrev count_sessions : List Session → ℕ × ℕ → ℕ × ℕ
count_sessions [] c = c
count_sessions (s ∷ ss) (writes, total) =
    count_sessions ss (count_writes s.queries writes, total + length s.queries)

-- The numbers of writes and of queries that the warning names.
unfoldable pub check_write_safety : WorkloadProfile → Option (ℕ × ℕ)
check_write_safety profile =
    let (writes, total) = count_sessions profile.sessions (0, 0) in
    if ltb 0 writes then some (writes, total) else none
