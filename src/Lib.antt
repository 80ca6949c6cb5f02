-- ===== src/Lib.antt =====
-- pg-retest captures the traffic of a PostgreSQL client and replays it against another server. The
-- proxy (src/proxy) stands between client and server and relays the messages of the wire protocol; its
-- relay tasks take server connections from a pool and send events to a collector, which makes sessions
-- of them. A profile (src/profile) is built of the sessions, its queries classified, their literals
-- masked if that is wanted, their transactions numbered. The profile may be scaled and is then replayed
-- (src/replay), session by session; the ids that the target assigns are registered in a map, and the
-- ids of later queries are substituted by it (src/correlate). Masking and substitution both stand on
-- the tokenizer (src/sql/lex.rs). The tuner (src/tuner) applies recommendations that its allowlists let
-- through.
--
-- A text is the list of its UTF-8 bytes, and a number is a natural number with the wrap-around of its
-- width written out where the code can reach it (release builds). `Prelude` has the shared names:
-- tests, lists, bytes, and maps with natural keys. `Text` has what is used of `str`.
--
--  - Sql.Lex (src/sql/lex.rs): `scan` is the dispatch of `advance`, `Sql.Lex.Scan` the scanners, which
--    give lengths where the code gives absolute offsets; `tokens` is the iterator, `visit_tokens` the
--    visitor. Both run on fuel, one step for each byte and one for the end (Sql.Lex.Tiling is about its
--    being enough), and give `none` when it is used up.
--  - Capture.Masking (src/capture/masking.rs).
--  - Correlate.Map and Correlate.Substitute (src/correlate/map.rs, substitute.rs): the `dashmap` crate
--    is the interface `DashMap`, a record of operations and laws; Correlate.Map.Store is an instance.
--    `step` is the closure that `substitute_ids` hands to `visit_tokens`.
--  - Correlate.Compile (src/correlate/compile.rs): the set of known ids is a list without repetitions.
--    The scan of a text runs on its length as fuel, of which each round takes one and a byte at least.
--  - Profile (src/profile/mod.rs, and `ResponseRow` of src/correlate/capture.rs): the time of a capture
--    and the snapshots of sequences and primary keys are left out of the records.
--  - Proxy.Pool (src/proxy/pool.rs): one round of the loop of `checkout` under the lock is
--    `checkout_round`; the wait for a notification and the deadline are left out, as they change
--    nothing in the pool. Proxy.Pool.System is the step relation of the tasks that share a pool: a task
--    checks out, its connection attempt succeeds or fails, it checks in or discards, an error ends it
--    while it holds a connection (handle_connection_inner of connection.rs), the reaper runs.
--    The socket of a connection and the address of the target are left out.
--  - Proxy.Protocol (src/proxy/protocol.rs): a stream is the list of the bytes to come. Extract has the
--    readers of message bodies, Startup the first message, Bind the Bind message, where `Outcome` tells
--    an absent value from a panic. `String::from_utf8_lossy` is the parameter `lossy`.
--  - Proxy.Relay (src/proxy/connection.rs): the two relay tasks of a connection. `client_turn` and
--    `server_turn` are the bodies of their loops, which give the effects of a message in the order of
--    the code: what is written and flushed, which events are sent, which of the shared, locked
--    variables change. What a task writes goes into a buffer, and `Traffic` holds what the two writers
--    are given, messages and flushes; when a full buffer sends something earlier is not modelled.
--    Relay.Connection lets the turns of both tasks alternate in any way, and the server's task in
--    between the first flush of a turn of the client's and the rest of it (`overtaken`); elsewhere
--    inside a turn nothing interleaves. Which SQL gives rows back, and the clause that is injected, are parameters, since
--    they come of a parser that is a library (src/sql/ast.rs). A timeout ends a loop as the end of the
--    stream does. Relay.Turns, Silence, Delivery, Passing and Transparent are about what is forwarded, the others
--    (Exchanges, Capturing, Receiving, Returning) about what is captured. Relay.Auth is the
--    authentication phase before them, on bytes; its fuel is one more than the server sends bytes.
--  - Proxy.Binary (src/proxy/pg_binary.rs): the decoders of binary parameters, one module for each
--    family of types. Literal is the dispatch on the type's oid, with the formatting and inlining of
--    bind parameters (src/proxy/protocol.rs). How Rust prints a floating-point number of given bits is
--    the parameter `Floats`. `Text.Decimal` is its printing of integers; the digits come on fuel, the
--    number itself and one more step, and a number has fewer digits than that.
--  - Proxy.Collector (src/proxy/capture.rs): `handle` is the body of the loop of `run_collector`;
--    Proxy.Collector.Build is `build_profile`. Instants are nanoseconds.
--  - Proxy.Staging (src/proxy/capture.rs, and `StagingRow` of staging.rs): the collector that hands
--    batches of rows to a database. `stage` is what an event adds, `run_staging_collector` the loop
--    with its timeouts; a batch that the database refuses is lost, which the model does not show.
--    Staging.Build is `build_profile_from_staging`. JSON is the interface `Json`.
--  - Proxy.Health (src/proxy/health.rs, and the counters of metrics.rs): the health check on the
--    outcomes of its probes.
--  - Replay.Session (src/replay/session.rs, mod.rs): the loop over the queries of a session as explicit
--    state passing; the database is a parameter that answers a statement and moves on to a new state.
--    Establishing the connection and the sleep before a statement are left out. Replay.Session.Atomic
--    takes a database that rolls back as documented as a parameter.
--  - Replay.Scaling (src/replay/scaling.rs): `scale_sessions`, the counts of `check_write_safety`, and
--    in ByClass `scale_sessions_by_class`, where the order of the classes in the hash map is a parameter.
--  - Classify (src/classify/mod.rs) and Compare (src/compare/mod.rs, threshold.rs): `Float` is the
--    interface of floating-point numbers, `IsMonotone` what is assumed of their rounding. The texts of
--    messages and the printing are left out. `Prelude.Sorting` is the stable sort of the standard
--    library.
--  - Tuner.Safety (src/tuner/safety.rs, and `Recommendation` of types.rs), Tuner.Apply
--    (src/tuner/apply.rs) and Tuner.Tuning (src/tuner/mod.rs): the database is a parameter that answers
--    a text of SQL and moves on to a new state; so are the replay of the workload, the context that is
--    collected and the advice of the language model. The loop makes at most `max_iterations` rounds.
--    Apply.Rollback and Tuning.Reverting look at the settings of the database, a function of its state.
--  - Tests: runs on concrete inputs, and the theorems applied to them.
--
-- Unicode tables (letters, letters and digits, case) are the parameter `Unicode`; `LetterLaw` says that
-- a letter is alphanumeric.
--
-- Not modelled: the web server and its database, the readers of other databases' logs, the
-- transformation of SQL, printed reports, the requests to language models and the catalogue queries
-- of the tuner, the control endpoints of the proxy, provisioning, configuration, the command line, TLS,
-- sockets and the setup of connections, which are input and output around the parts above.
mod Prelude
pub mod Tests
pub mod Float
pub mod Compare
pub mod Classify
pub mod Text
pub mod Tuner
pub mod Sql
pub mod Profile
pub mod Capture
pub mod Correlate
pub mod Proxy
pub mod Replay
