-- ===== src/Proxy/Relay/Server.antt =====
-- src/proxy/connection.rs: what the relay from the server to the client does on a message.
use pg_retest.Prelude.{
  ℕ, Bool, false, ◌&&◌, ◌||◌, Option, none, some, List, [], ◌∷◌, ◌++◌, ◌==◌, if◌then◌else◌, take,
  length, ltb,
}
use pg_retest.Proxy.Protocol.{PgMessage}
use pg_retest.Proxy.Protocol.Extract.{
  extract_error_message, extract_parameter_description, extract_row_description,
}
use pg_retest.Proxy.Protocol.Bind.{Outcome, value, absent, panics}
use pg_retest.Proxy.Protocol.Rows.{extract_data_row}
use pg_retest.Proxy.Collector.{query_complete, query_error, query_returning}
use pg_retest.Proxy.Relay.{
  Setup, Shared, CorrelateState, Effect, write, flush, send, update, pop_returning, set_suppress,
  set_columns, clear_rows, push_row, record_oids, set_describe, Arrival, Turn, goes_on, panicked,
  run_effects,
}

abbrev pub max_returning_columns : ℕ
max_returning_columns = 20

abbrev pub max_returning_rows : ℕ
max_returning_rows = 100

abbrev pub parameter_effects : Shared → Option (List ℕ) → List Effect
parameter_effects st none = []
parameter_effects st (some oids) = elim st.pending_describe [
  | none ↦ []
  | some name ↦ update (set_describe none) ∷ update (record_oids name oids) ∷ []
]

-- The query that is answered gives rows back.
abbrev pub front : List Bool → Bool
front [] = false
front (b ∷ queue) = b

abbrev pub column_effects : CorrelateState → Option (List (List ℕ)) → List Effect
column_effects cs none = []
column_effects cs (some columns) =
    if front cs.returning_queue
    then update (set_columns (take max_returning_columns columns)) ∷ update clear_rows ∷ []
    else []

abbrev pub kept_row : CorrelateState → List (Option (List ℕ)) → List Effect
kept_row cs row =
    if ltb (length cs.pending_rows) max_returning_rows then update (push_row row) ∷ [] else []

abbrev pub row_effects : CorrelateState → Outcome (List (Option (List ℕ))) → Outcome (List Effect)
row_effects cs absent = value []
row_effects cs (value row) = value (kept_row cs row)
row_effects cs panics = panics

abbrev pub rows_effects : Setup → CorrelateState → PgMessage → Outcome (List Effect)
rows_effects setup cs m = elim cs.pending_columns [
  | [] ↦ value []
  | c ∷ columns ↦ row_effects cs (extract_data_row setup.lossy m (length (c ∷ columns)))
]

-- The rows that were kept, behind the end of their query.
abbrev pub rows_event :
    Setup → Arrival → CorrelateState → List (List (Option (List ℕ))) → List Effect
rows_event setup a cs [] = []
rows_event setup a cs (r ∷ rows) =
    send (query_returning setup.session_id cs.pending_columns (r ∷ rows) a.now) ∷ []

abbrev pub returning_effects : Setup → Arrival → Option CorrelateState → List Effect
returning_effects setup a none = []
returning_effects setup a (some cs) =
    update pop_returning
    ∷ (if front cs.returning_queue
        then update (set_columns []) ∷ update clear_rows ∷ rows_event setup a cs cs.pending_rows
        else [])

abbrev pub complete_effects : Setup → Shared → Arrival → List Effect
complete_effects setup st a =
    send (query_complete setup.session_id a.now) ∷ returning_effects setup a st.correlate

abbrev pub forget_query : Option CorrelateState → List Effect
forget_query none = []
forget_query (some cs) =
    update pop_returning
    ∷ update (set_columns [])
    ∷ update clear_rows
    ∷ update (set_suppress false)
    ∷ []

abbrev pub error_event : Setup → Arrival → Option (List ℕ) → List Effect
error_event setup a none = []
error_event setup a (some text) = send (query_error setup.session_id text a.now) ∷ []

abbrev pub correlated :
    Option CorrelateState → (CorrelateState → Outcome (List Effect)) → Outcome (List Effect)
correlated none f = value []
correlated (some cs) f = f cs

unfoldable pub capture_effects : Setup → Shared → Arrival → Outcome (List Effect)
capture_effects setup st a =
    let t = a.msg.msg_type in
    if t == b't'
    then value (parameter_effects st (extract_parameter_description a.msg))
    else if t == b'T'
    then correlated st.correlate
        (λ cs. value (column_effects cs (extract_row_description setup.lossy a.msg)))
    else if t == b'D'
    then correlated st.correlate (λ cs. rows_effects setup cs a.msg)
    else if t == b'C'
    then value (complete_effects setup st a)
    else if t == b'E'
    then value
        (forget_query st.correlate ++ error_event setup a (extract_error_message setup.lossy a.msg))
    else value []

abbrev pub suppressing : Option CorrelateState → Bool
suppressing none = false
suppressing (some cs) = cs.suppress_response

-- Rows that the client has not asked for are held back, up to the end of their query. The buffer is
-- flushed behind ReadyForQuery only.
unfoldable pub deliver : Bool → PgMessage → List Effect
deliver suppress m =
    let t = m.msg_type in
    if suppress && ((t == b'T') || (t == b'D'))
    then []
    else (if suppress && (t == b'C') then update (set_suppress false) ∷ [] else [])
      ++ write m ∷ (if t == b'Z' then flush ∷ [] else [])

unfoldable pub server_flow : Shared → PgMessage → Outcome (List Effect) → Turn
unfolding run_effects deliver
server_flow st m panics = record { effects = []; flow = panicked }
server_flow st m absent = record { effects = deliver (suppressing st.correlate) m; flow = goes_on }
server_flow st m (value es) = record {
  effects = es ++ deliver (suppressing (run_effects st es).correlate) m;
  flow = goes_on;
}

unfoldable pub server_turn : Setup → Shared → Arrival → Turn
server_turn setup st a =
    server_flow st a.msg (if a.capturing then capture_effects setup st a else value [])
