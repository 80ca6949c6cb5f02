-- ===== src/Proxy/Relay.antt =====
-- src/proxy/connection.rs: the two relay tasks of a connection. A task handles one message after the
-- other; what it does on a message is a list of effects in the order of the code. What the two tasks
-- share stands behind locks, each held for one of the updates. The events also go to the metrics, in
-- the same order. What is written goes into a buffer, which the code flushes at some of its writes. The parser of SQL and the primary keys that are known make up `ImplicitCapture`.
pub mod Auth
pub mod Client
pub mod Server
pub mod Connection
pub mod Turns
pub mod Silence
pub mod Delivery
pub mod Passing
pub mod Transparent
pub mod Exchanges
pub mod Capturing
pub mod Receiving
pub mod Returning
use pg_retest.Prelude.{
  ℕ, ◌-◌, Bool, true, false, Option, none, some, List, [], ◌∷◌, ◌++◌, foldl, drop,
}
use pg_retest.Sql.Lex.Scan.{Unicode}
use pg_retest.Correlate.Map.Store.{Assoc}
use pg_retest.Proxy.Protocol.{PgMessage}
use pg_retest.Proxy.Collector.{CaptureEvent}
use pg_retest.Proxy.Binary.Scalars.{Floats}
use pg_retest.Proxy.Binary.Literal.{ExtensionOids}

pub record CorrelateState : Type 0 where
  pub returning_queue : List Bool
  pub pending_columns : List (List ℕ)
  pub pending_rows : List (List (Option (List ℕ)))
  pub suppress_response : Bool

-- `inject_returning` with the primary keys of the state.
pub record ImplicitCapture : Type 0 where
  pub inject_returning : List ℕ → Option (List ℕ)
  pub stealth : Bool

pub record Setup : Type 0 where
  pub unicode : Unicode
  pub lossy : List ℕ → List ℕ
  pub floats : Floats
  pub has_returning : List ℕ → Bool
  pub session_id : ℕ
  pub implicit_capture : Option ImplicitCapture
  pub extension_oids : ExtensionOids

-- What the two tasks share.
pub record Shared : Type 0 where
  pub stmt_cache : Assoc
  pub stmt_oids : Assoc
  pub pending_describe : Option (List ℕ)
  pub correlate : Option CorrelateState

pub data Update : Type 0 where
  push_returning : Bool → Update
  pop_returning : Update
  set_suppress : Bool → Update
  set_columns : List (List ℕ) → Update
  clear_rows : Update
  push_row : List (Option (List ℕ)) → Update
  cache_statement : (name sql : List ℕ) → Update
  record_oids : (name oids : List ℕ) → Update
  set_describe : Option (List ℕ) → Update

pub data Effect : Type 0 where
  -- Into the buffer to the server in one task, to the client in the other.
  write : PgMessage → Effect
  -- What is in the buffer is sent.
  flush : Effect
  send : CaptureEvent → Effect
  update : Update → Effect

-- A message that has been read, whether capture is on, and the time.
pub record Arrival : Type 0 where
  pub msg : PgMessage
  pub capturing : Bool
  pub now : ℕ

pub data Flow : Type 0 where
  goes_on stops panicked : Flow

-- What a task does on one message, and whether its loop goes on.
pub record Turn : Type 0 where
  pub effects : List Effect
  pub flow : Flow

abbrev pub update_correlate : Update → CorrelateState → CorrelateState
update_correlate (push_returning b) cs = record cs {
  returning_queue = cs.returning_queue ++ b ∷ [];
}
update_correlate pop_returning cs = record cs { returning_queue = drop 1 cs.returning_queue }
update_correlate (set_suppress b) cs = record cs { suppress_response = b }
update_correlate (set_columns columns) cs = record cs { pending_columns = columns }
update_correlate clear_rows cs = record cs { pending_rows = [] }
update_correlate (push_row row) cs = record cs { pending_rows = cs.pending_rows ++ row ∷ [] }
update_correlate _ cs = cs

abbrev pub update_tables : Update → Shared → Shared
update_tables (cache_statement name sql) st = record st { stmt_cache = (name, sql) ∷ st.stmt_cache }
update_tables (record_oids name oids) st = record st { stmt_oids = (name, oids) ∷ st.stmt_oids }
update_tables (set_describe name) st = record st { pending_describe = name }
update_tables _ st = st

abbrev pub map_correlate : Update → Option CorrelateState → Option CorrelateState
map_correlate u none = none
map_correlate u (some cs) = some (update_correlate u cs)

unfoldable pub apply_update : Update → Shared → Shared
apply_update u st =
    let st = update_tables u st in record st { correlate = map_correlate u st.correlate }

unfoldable pub run_effect : Shared → Effect → Shared
unfolding apply_update
run_effect st (update u) = apply_update u st
run_effect st _ = st

unfoldable pub run_effects : Shared → List Effect → Shared
unfolding run_effect
run_effects = foldl run_effect

-- What a writer is given: messages, and the orders to send what it holds.
pub data Output : Type 0 where
  message : PgMessage → Output
  flushed : Output

-- The messages that are written, with the flushes, and the events that are sent, in their order.
unfoldable pub written : List Effect → List Output
written [] = []
written (write m ∷ es) = message m ∷ written es
written (flush ∷ es) = flushed ∷ written es
written (send e ∷ es) = written es
written (update u ∷ es) = written es

unfoldable pub emitted : List Effect → List CaptureEvent
emitted [] = []
emitted (write m ∷ es) = emitted es
emitted (flush ∷ es) = emitted es
emitted (send e ∷ es) = e ∷ emitted es
emitted (update u ∷ es) = emitted es
