-- ===== src/Tests/Relaying.antt =====
-- Sessions on the wire, and what is captured of them.
use mathlib.Core.List.{Mem}
use pg_retest.Prelude.{
  ℕ, ◌≡◌, ◌≢◌, refl, sym, ap, ◌∙◌, if◌then◌else◌, arith, true, Option, none, some, List, [], ◌∷◌,
  ◌++◌, map, codes, take,
}
use pg_retest.Text.{contains}
use pg_retest.Proxy.Protocol.{PgMessage}
use pg_retest.Proxy.Protocol.Extract.{
  build_query_message, extract_query_sql, extract_row_description,
}
use pg_retest.Proxy.Protocol.Rows.{extract_data_row}
use pg_retest.Proxy.Protocol.Bind.{value}
use pg_retest.Proxy.Collector.{
  CaptureEvent, session_start, query_start, query_complete, query_returning, run_collector,
}
use pg_retest.Proxy.Collector.Interleaving.{events_of}
use pg_retest.Proxy.Collector.Trace.{captured}
use pg_retest.Proxy.Relay.{
  Setup, Shared, ImplicitCapture, stops, panicked, run_effects, run_effect, apply_update, written,
  emitted,
}
use pg_retest.Proxy.Relay.Client.{client_turn, decide, injected, is_currval_or_lastval}
use pg_retest.Proxy.Relay.Server.{server_turn, server_flow, capture_effects, deliver}
use pg_retest.Proxy.Relay.Connection.{
  Incoming, from_client, from_server, run_session, new_shared, new_correlate,
}
use pg_retest.Proxy.Relay.Transparent.{
  output_types, run_session-transparent, run_session-keeps_protocol,
}
use pg_retest.Proxy.Relay.Passing.{client_messages, server_messages, each}
use pg_retest.Proxy.Relay.Turns.{at_once}
use pg_retest.Proxy.Relay.Delivery.{non_rows, when_ready}
use pg_retest.Proxy.Relay as Relay
use pg_retest.Proxy.Relay.Exchanges.{Exchange, message_at, session_of}
use pg_retest.Proxy.Relay.Capturing.{run_session-captured}
use pg_retest.Proxy.Relay.Receiving.{idle, gives_rows, sent_as, holds_back}
use pg_retest.Proxy.Relay.Returning.{
  RowArrival, arriving, after_client, after_server, run_session-returning,
}
use pg_retest.Tests.Data.{ascii}

abbrev pub setup : Option ImplicitCapture → Setup
setup implicit = record {
  unicode = ascii;
  lossy = λ s. s;
  floats = record { show_f32 = λ n. []; show_f64 = λ n. [] };
  has_returning = contains (codes "RETURNING");
  session_id = 7;
  implicit_capture = implicit;
  extension_oids = record { vector = none; halfvec = none; sparsevec = none };
}

abbrev pub stealthy : ImplicitCapture
stealthy = record { inject_returning = λ sql. some (sql ++ codes " RETURNING id"); stealth = true }

abbrev select_1 : List ℕ
select_1 = codes "SELECT 1"

abbrev pub insert_row : List ℕ
insert_row = codes "INSERT"

abbrev pub message : ℕ → List ℕ → PgMessage
message t body = record { msg_type = t; payload = 0 ∷ 0 ∷ 0 ∷ 0 ∷ body }

abbrev pub complete : PgMessage
complete = message b'C' (codes "OK" ++ 0 ∷ [])

abbrev ready : PgMessage
ready = message b'Z' (codes "I")

abbrev terminate : PgMessage
terminate = message b'X' []

-- One column `id`, and a row in which it is 5.
abbrev pub heading : PgMessage
heading = message b'T' (
    0
    ∷ 1
    ∷ (codes "id"
        ++ 0 ∷ 0 ∷ 0 ∷ 0 ∷ 0 ∷ 0 ∷ 0 ∷ 0 ∷ 0 ∷ 0 ∷ 0 ∷ 0 ∷ 0 ∷ 0 ∷ 0 ∷ 0 ∷ 0 ∷ 0 ∷ 0 ∷ []))

abbrev pub row_arrival : RowArrival
row_arrival = record {
  msg = message b'D' (0 ∷ 1 ∷ 0 ∷ 0 ∷ 0 ∷ 1 ∷ codes "5");
  now = 30;
  values = some (codes "5") ∷ [];
}

abbrev uncorrelated : Shared
uncorrelated = new_shared none

abbrev pub correlated : Shared
correlated = new_shared (some new_correlate)

abbrev session : List Incoming
session =
    from_client (message_at (build_query_message select_1) 10)
    ∷ from_server (message_at heading 20)
    ∷ arriving row_arrival
    ∷ from_server (message_at complete 40)
    ∷ from_server (message_at ready 41)
    ∷ from_client (message_at terminate 50)
    ∷ from_server (message_at ready 60)
    ∷ []

stops≢panicked : stops ≢ panicked
stops≢panicked e = cc

plain-flow : (run_session (setup none) correlated session).flow ≡ stops
unfolding run_session client_turn server_turn server_flow capture_effects deliver run_effects
    run_effect apply_update decide build_query_message extract_query_sql extract_row_description
    extract_data_row contains
plain-flow = refl

plain-fine : (run_session (setup none) correlated session).flow ≢ panicked
plain-fine e = stops≢panicked (sym plain-flow ∙ e)

run_session-transparent_example :
    ((run_session (setup none) correlated session).to_server
      ≡ each at_once (client_messages session))
    × ((run_session (setup none) correlated session).to_client
        ≡ each when_ready (server_messages session))
run_session-transparent_example =
    run_session-transparent (setup none) correlated session refl refl plain-fine

-- The clause is injected, and the rows do not reach the client.
stealth-flow : (run_session (setup (some stealthy)) correlated session).flow ≡ stops
unfolding run_session client_turn server_turn server_flow capture_effects deliver run_effects
    run_effect apply_update decide build_query_message extract_query_sql extract_row_description
    extract_data_row contains is_currval_or_lastval
stealth-flow = refl

stealth-fine : (run_session (setup (some stealthy)) correlated session).flow ≢ panicked
stealth-fine e = stops≢panicked (sym stealth-flow ∙ e)

run_session-keeps_protocol_example :
    (output_types (run_session (setup (some stealthy)) correlated session).to_server
      ≡ output_types (each at_once (client_messages session)))
    × (non_rows (run_session (setup (some stealthy)) correlated session).to_client
        ≡ non_rows (each when_ready (server_messages session)))
run_session-keeps_protocol_example =
    run_session-keeps_protocol (setup (some stealthy)) correlated session stealth-fine

stealth-to_client :
    (run_session (setup (some stealthy)) correlated session).to_client
    ≡ Relay.message complete ∷ Relay.message ready ∷ Relay.flushed ∷ []
unfolding run_session client_turn server_turn server_flow capture_effects deliver run_effects
    run_effect apply_update written decide build_query_message extract_query_sql
    extract_row_description extract_data_row contains is_currval_or_lastval
stealth-to_client = refl

abbrev exchange : Exchange
exchange = record {
  statement = record { sql = select_1; sent = 10; answered = 40; error = none };
  before = message_at heading 20 ∷ [];
  closing = complete;
  after = message_at ready 41 ∷ [];
}

abbrev exchanges : List Exchange
exchanges = exchange ∷ exchange ∷ []

abbrev all_events : List CaptureEvent
all_events =
    session_start 7 (codes "eve") (codes "shop") 5
    ∷ (run_session (setup none) uncorrelated (session_of exchanges)).events

own-events : events_of 7 all_events ≡ all_events
unfolding run_session client_turn server_turn server_flow capture_effects deliver run_effects
    run_effect apply_update emitted decide build_query_message extract_query_sql
    extract_row_description contains
own-events = refl

run_session-captured_example :
    Mem
      (record {
        session_id = 7;
        user = codes "eve";
        database = codes "shop";
        queries = map (captured 5) (map (λ (x : Exchange). x.statement) exchanges);
      })
      (run_collector all_events)
run_session-captured_example =
    run_session-captured (setup none) refl all_events (codes "eve") (codes "shop") 5 uncorrelated
      exchange (exchange ∷ []) refl
      (
        (refl, refl, ((refl, refl), tt), ((refl, refl), tt)),
        ((refl, refl, ((refl, refl), tt), ((refl, refl), tt)), tt),
      )
      own-events

injects :
    decide (setup (some stealthy)) (some stealthy) insert_row
    ≡ injected (insert_row ++ codes " RETURNING id") true
unfolding decide is_currval_or_lastval contains
injects = refl

heading-columns : extract_row_description (λ s. s) heading ≡ some (codes "id" ∷ [])
unfolding extract_row_description
heading-columns = refl

row-values : extract_data_row (λ s. s) row_arrival.msg 1 ≡ value row_arrival.values
unfolding extract_data_row
row-values = refl

gives : gives_rows (decide (setup (some stealthy)) (some stealthy) insert_row) ≡ true
gives = ap gives_rows injects

run_session-returning_example :
    run_session (setup (some stealthy)) (idle uncorrelated) (
      from_client (message_at (build_query_message insert_row) 10)
      ∷ from_server (message_at heading 20)
      ∷ (map arriving (row_arrival ∷ []) ++ from_server (message_at complete 40) ∷ session))
    ≡ after_client
        (at_once (sent_as insert_row (decide (setup (some stealthy)) (some stealthy) insert_row)))
        (query_start 7 insert_row 10 ∷ [])
        (after_server
          ((if holds_back (decide (setup (some stealthy)) (some stealthy) insert_row)
              then []
              else Relay.message heading
                ∷ map (λ (r : RowArrival). Relay.message r.msg) (row_arrival ∷ []))
            ++ Relay.message complete ∷ [])
          (query_complete 7 40
            ∷ query_returning 7
                (codes "id" ∷ [])
                (take 100 (map (λ (r : RowArrival). r.values) (row_arrival ∷ [])))
                40
            ∷ [])
          (run_session (setup (some stealthy)) (idle uncorrelated) session))
run_session-returning_example =
    run_session-returning (setup (some stealthy)) uncorrelated insert_row 10 heading 20 (codes "id")
      [] row_arrival [] complete 40 session refl gives (refl, heading-columns) (omega arith)
      ((refl, row-values), tt) refl
