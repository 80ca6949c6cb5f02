-- ===== src/Tests/Replaying.antt =====
-- The replay of a session, and the scaling of a workload.
use pg_retest.Prelude.{
  ℕ, ◌≡◌, ◌+◌, ◌*◌, refl, Bool, true, false, none, some, List, [], ◌∷◌, ◌++◌, map, codes, bytes_eq,
  if◌then◌else◌, length, arith,
}
use pg_retest.Profile.{Query, QueryKind, select, insert, commit, Session, WorkloadProfile, postgres}
use pg_retest.Correlate.Map.Store.{assoc}
use pg_retest.Replay.Session.{
  read_write, read_only, QueryResult, Response, rows, db_error, skipped, World, replay_from,
}
use pg_retest.Replay.Session.FailedTransaction.{Inside, Ends, before, replay-skips}
use pg_retest.Replay.Session.Atomic.{Statement, Undone, replay-undoes}
use pg_retest.Replay.Session.Modes.{replayed, replay_from-replayed}
use pg_retest.Replay.Scaling.{scale_sessions}
use pg_retest.Replay.Scaling.Ids.{Distinct, scale_sessions-Distinct}
use pg_retest.Tests.Data.{ascii}

-- A database that counts the statements it was sent, and refuses one of them.
abbrev count_and_answer : List ℕ → ℕ → Response × ℕ × ℕ
count_and_answer sql n = (
  if bytes_eq sql (codes "bad") then db_error (codes "ERROR") (codes "no") else rows [],
  5,
  n + 1,
)

abbrev query : List ℕ → QueryKind → Query
query sql k = record {
  sql = sql;
  start_offset_us = 0;
  duration_us = 3;
  kind = k;
  transaction_id = some 1;
  response_values = none;
  original_sql = none;
}

abbrev world : World assoc ℕ count_and_answer
world = record { db = 0; ids = none }

abbrev bad : Query
bad = query (codes "bad") insert

abbrev fine : Query
fine = query (codes "fine") insert

abbrev end : Query
end = query (codes "COMMIT") commit

fine-Inside : Inside 1 fine
fine-Inside = record { member = refl; continues = refl }

end-Ends : Ends 1 end
end-Ends = record { member = refl; closing = refl }

replay-skips_example :
    replay_from assoc ℕ count_and_answer ascii read_write
      (some 1)
      world
      ((fine ∷ []) ++ end ∷ fine ∷ [])
    ≡ before assoc ℕ count_and_answer ascii
        (map (skipped (codes "skipped: transaction failed")) (fine ∷ [])
          ++ skipped (codes "skipped: transaction already rolled back") end ∷ [])
        (replay_from assoc ℕ count_and_answer ascii read_write none world (fine ∷ []))
replay-skips_example =
    replay-skips assoc ℕ count_and_answer ascii 1 world (fine ∷ []) end (fine ∷ [])
      (fine-Inside, tt) end-Ends

-- A database with one number, which a transaction may be about to change.
record Account : Type 0 where
  balance : ℕ
  pending : ℕ
  busy : Bool

abbrev bank : List ℕ → Account → Response × ℕ × Account
bank sql a =
    if bytes_eq sql (codes "ROLLBACK")
    then (rows [], 5, record a { pending = 0; busy = false })
    else if bytes_eq sql (codes "bad")
    then (db_error (codes "ERROR") (codes "no"), 5, a)
    else (rows [], 5, record a { pending = a.pending + 1 })

abbrev account : Account
account = record { balance = 7; pending = 0; busy = true }

abbrev balance_of : Account → ℕ
balance_of a = a.balance

abbrev IsBusy : Account → Type 0
IsBusy a = a.busy ≡ true

abbrev IsIdle : Account → Type 0
IsIdle a = a.busy ≡ false

fine-Statement : Statement assoc Account bank ascii ℕ balance_of IsBusy IsIdle 1 fine
fine-Statement = record { inside = fine-Inside; plain = refl; local = λ a busy. (refl, busy) }

bad-Statement : Statement assoc Account bank ascii ℕ balance_of IsBusy IsIdle 1 bad
bad-Statement = record {
  inside = record { member = refl; continues = refl };
  plain = refl;
  local = λ a busy. (refl, busy);
}

replay-undoes_example :
    Undone assoc Account bank ascii ℕ balance_of IsBusy IsIdle account 4 (fine ∷ []) (
      replay_from assoc Account bank ascii read_write none
        (record { db = account; ids = none })
        ((fine ∷ bad ∷ fine ∷ []) ++ end ∷ fine ∷ []))
replay-undoes_example =
    replay-undoes assoc Account bank ascii ℕ balance_of IsBusy IsIdle 1 (fine ∷ bad ∷ fine ∷ [])
      account end (fine ∷ []) (λ a busy. (refl, refl)) refl
      (fine-Statement, (bad-Statement, (fine-Statement, tt))) end-Ends refl

replay_from-replayed_example :
    replay_from assoc ℕ count_and_answer ascii read_only none world
      (fine ∷ query (codes "q") select ∷ [])
    ≡ replay_from assoc ℕ count_and_answer ascii read_write none world
        (replayed read_only (fine ∷ query (codes "q") select ∷ []))
replay_from-replayed_example =
    replay_from-replayed assoc ℕ count_and_answer ascii read_only none world
      (fine ∷ query (codes "q") select ∷ [])

abbrev result : QueryResult
result = record {
  sql = codes "fine";
  original_duration_us = 3;
  replay_duration_us = 5;
  success = true;
  error = none;
  id_substitution_count = 0;
}

abbrev session : ℕ → Session
session n = record { id = n; user = []; database = []; queries = fine ∷ [] }

abbrev profile : WorkloadProfile
profile = record {
  version = 2;
  source_host = [];
  pg_version = [];
  capture_method = [];
  sessions = session 2 ∷ session 1 ∷ [];
  metadata = record { total_queries = 2; total_sessions = 2; capture_duration_us = 3 };
  source_dialect = postgres;
}

scale_sessions-Distinct_example :
    Distinct (scale_sessions profile 3 100) × (length (scale_sessions profile 3 100) ≡ 3 * 2)
scale_sessions-Distinct_example =
    scale_sessions-Distinct profile 3 100 1 (omega arith)
      ((omega arith, omega arith), ((omega arith, omega arith), tt))
      (((λ e. (let no : ⊥ = omega (arith, e) in no)), tt), (tt, tt)) (omega arith)

-- Ids with a gap collide: the sessions 1 and 3 have copies 3 and 5.
ids_collide :
    map
      (λ (s : Session). s.id)
      (scale_sessions (record profile { sessions = session 1 ∷ session 3 ∷ [] }) 2 0)
    ≡ 1 ∷ 3 ∷ 3 ∷ 5 ∷ []
unfolding scale_sessions
ids_collide = refl
