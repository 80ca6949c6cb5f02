-- ===== src/Tests/Losses.antt =====
-- Sessions of which the relay loses rows.
use pg_retest.Prelude.{ℕ, zero, suc, ◌≡◌, refl, none, some, List, [], ◌∷◌, ◌++◌, codes}
use pg_retest.Text.{contains}
use pg_retest.Proxy.Protocol.Extract.{
  build_query_message, extract_query_sql, extract_row_description,
}
use pg_retest.Proxy.Protocol.Rows.{extract_data_row}
use pg_retest.Proxy.Collector.{query_start, query_complete}
use pg_retest.Proxy.Relay.{run_effects, run_effect, apply_update, emitted, written}
use pg_retest.Proxy.Relay as Relay
use pg_retest.Proxy.Relay.Client.{client_turn, decide, is_currval_or_lastval}
use pg_retest.Proxy.Relay.Server.{server_turn, server_flow, capture_effects, deliver}
use pg_retest.Proxy.Relay.Connection.{Incoming, from_client, from_server, overtaken, run_session}
use pg_retest.Proxy.Relay.Exchanges.{message_at}
use pg_retest.Proxy.Relay.Returning.{arriving}
use pg_retest.Tests.Relaying.{
  setup, message, complete, heading, row_arrival, correlated, stealthy, insert_row,
}

-- An empty query is answered by a message that ends no query for the proxy: the rows of the query
-- after it are not captured, and its place in the queue is left over.
abbrev desynchronized : List Incoming
desynchronized =
    from_client (message_at (build_query_message []) 1)
    ∷ from_server (message_at (message b'I' []) 2)
    ∷ from_client (message_at (build_query_message (codes "INSERT RETURNING id")) 10)
    ∷ from_server (message_at heading 20)
    ∷ arriving row_arrival
    ∷ from_server (message_at complete 40)
    ∷ []

desynchronized-events :
    (run_session (setup none) correlated desynchronized).events
    ≡ query_start 7 [] 1 ∷ query_start 7 (codes "INSERT RETURNING id") 10 ∷ query_complete 7 40 ∷ []
unfolding run_session client_turn server_turn server_flow capture_effects deliver run_effects
    run_effect apply_update emitted decide build_query_message extract_query_sql
    extract_row_description extract_data_row contains
desynchronized-events = refl

-- Of a description of more than twenty columns twenty are kept, and then no row has as many values.
abbrev times : ℕ → List ℕ → List ℕ
times zero s = []
times (suc n) s = s ++ times n s

abbrev wide : List Incoming
wide =
    from_client (message_at (build_query_message (codes "INSERT RETURNING *")) 10)
    ∷ from_server
        (message_at (message b'T' (0 ∷ 21 ∷ times 21 (codes "c" ++ 0 ∷ times 18 (0 ∷ [])))) 20)
    ∷ from_server (message_at (message b'D' (0 ∷ 21 ∷ times 21 (255 ∷ 255 ∷ 255 ∷ 255 ∷ []))) 30)
    ∷ from_server (message_at complete 40)
    ∷ []

wide-events :
    (run_session (setup none) correlated wide).events
    ≡ query_start 7 (codes "INSERT RETURNING *") 10 ∷ query_complete 7 40 ∷ []
unfolding run_session client_turn server_turn server_flow capture_effects deliver run_effects
    run_effect apply_update emitted decide build_query_message extract_query_sql
    extract_row_description extract_data_row contains
wide-events = refl

-- The answer to a query with an injected clause is handled before the query is noted: the rows are
-- shown to the client, and the end of the query comes before its start.
abbrev hasty : List Incoming
hasty =
    overtaken (message_at (build_query_message insert_row) 10)
      (message_at heading 20 ∷ message_at row_arrival.msg 30 ∷ message_at complete 40 ∷ [])
    ∷ []

hasty-to_client :
    (run_session (setup (some stealthy)) correlated hasty).to_client
    ≡ Relay.message heading ∷ Relay.message row_arrival.msg ∷ Relay.message complete ∷ []
unfolding run_session client_turn server_turn server_flow capture_effects deliver run_effects
    run_effect apply_update written decide build_query_message extract_query_sql
    extract_row_description extract_data_row contains is_currval_or_lastval
hasty-to_client = refl

hasty-events :
    (run_session (setup (some stealthy)) correlated hasty).events
    ≡ query_complete 7 40 ∷ query_start 7 insert_row 10 ∷ []
unfolding run_session client_turn server_turn server_flow capture_effects deliver run_effects
    run_effect apply_update emitted decide build_query_message extract_query_sql
    extract_row_description extract_data_row contains is_currval_or_lastval
hasty-events = refl
