-- ===== src/Proxy/Relay/Client.antt =====
-- src/proxy/connection.rs: what the relay from the client to the server does on a message.
use pg_retest.Prelude.{
  ℕ, Bool, true, false, ◌&&◌, ◌||◌, not, Option, none, some, List, [], ◌∷◌, ◌++◌, ◌==◌,
  if◌then◌else◌, codes, starts_with, any,
}
use pg_retest.Text.{to_uppercase, trim, trim_start, contains}
use pg_retest.Sql.Lex.Scan.{Unicode}
use pg_retest.Correlate.Map.Store.{assoc_get}
use pg_retest.Proxy.Protocol.{PgMessage}
use pg_retest.Proxy.Protocol.Extract.{
  ParseMessage, build_query_message, extract_query_sql, extract_parse, extract_describe_statement,
}
use pg_retest.Proxy.Protocol.Bind.{Outcome, value, absent, panics, ◌>>=◌, BindMessage, extract_bind}
use pg_retest.Proxy.Binary.Literal.{format_bind_params_typed_ext, inline_bind_params}
use pg_retest.Proxy.Collector.{query_start, session_end}
use pg_retest.Proxy.Relay.{
  Setup, Shared, CorrelateState, ImplicitCapture, Effect, write, flush, send, update,
  push_returning, set_suppress, cache_statement, record_oids, set_describe, Arrival, Turn, goes_on,
  stops, panicked,
}

unfoldable pub is_currval_or_lastval : Unicode → List ℕ → Bool
unfolding to_uppercase trim_start contains
is_currval_or_lastval u sql =
    let upper = to_uppercase u (trim_start sql) in
    starts_with (codes "SELECT") upper
    && (contains (codes "CURRVAL") upper || contains (codes "LASTVAL") upper)

-- Whether the client has a transaction open, which matters for a warning only.
unfoldable pub track_transaction : Setup → Bool → PgMessage → Bool
unfolding extract_query_sql to_uppercase trim
track_transaction setup in_transaction m = elim (extract_query_sql setup.lossy m) [
  | none ↦ in_transaction
  | some sql ↦
      let upper = to_uppercase setup.unicode (trim sql) in
      if starts_with (codes "BEGIN") upper || starts_with (codes "START TRANSACTION") upper
      then true
      else if starts_with (codes "COMMIT") upper
          || starts_with (codes "ROLLBACK") upper
          || starts_with (codes "END") upper
      then false
      else in_transaction
]

-- A query goes on as it is, and may give rows back, or it is sent with an injected clause.
pub data Decision : Type 0 where
  as_is : (has_ret : Bool) → Decision
  injected : (sql : List ℕ) (stealth : Bool) → Decision

abbrev or_injected : ImplicitCapture → Bool → Option (List ℕ) → Decision
or_injected ic has_ret none = as_is has_ret
or_injected ic has_ret (some sql) = injected sql ic.stealth

unfoldable pub decide : Setup → Option ImplicitCapture → List ℕ → Decision
unfolding is_currval_or_lastval
decide setup none sql = as_is (setup.has_returning sql)
decide setup (some ic) sql =
    if is_currval_or_lastval setup.unicode sql
    then as_is true
    else or_injected ic (setup.has_returning sql) (ic.inject_returning sql)

-- Whether a prepared statement gives rows back, or would if it were sent as a query.
unfoldable pub parse_returns : Setup → Option ImplicitCapture → List ℕ → Bool
unfolding is_currval_or_lastval
parse_returns setup none sql = setup.has_returning sql
parse_returns setup (some ic) sql = elim (ic.inject_returning sql) [
  | some _ ↦ true
  | none ↦ is_currval_or_lastval setup.unicode sql || setup.has_returning sql
]

abbrev pub if_correlating : Option CorrelateState → List Effect → List Effect
if_correlating none es = []
if_correlating (some cs) es = es

-- What is done before the message itself is written, or in place of it.
abbrev pub query_turn : Setup → Shared → Arrival → List ℕ → Decision → Turn
query_turn setup st a sql (as_is has_ret) = record {
  effects =
      if_correlating st.correlate (update (push_returning has_ret) ∷ [])
      ++ send (query_start setup.session_id sql a.now) ∷ write a.msg ∷ flush ∷ [];
  flow = goes_on;
}
query_turn setup st a sql (injected rewritten stealth) = record {
  effects =
      write (build_query_message rewritten)
      ∷ flush
      ∷ (if_correlating st.correlate (
            update (push_returning true)
            ∷ (if stealth then update (set_suppress true) ∷ [] else []))
          ++ send (query_start setup.session_id sql a.now) ∷ []);
  flow = goes_on;
}

abbrev pub known_oids : List ℕ → List Effect → List Effect
known_oids oids es = if any (λ o. not (o == 0)) oids then es else []

abbrev pub parse_effects : Setup → Shared → ParseMessage → List Effect
parse_effects setup st p =
    if_correlating st.correlate
      (update (push_returning (parse_returns setup setup.implicit_capture p.sql)) ∷ [])
    ++ update (cache_statement p.statement_name p.sql)
      ∷ known_oids p.param_oids (update (record_oids p.statement_name p.param_oids) ∷ [])

abbrev oids_of : Shared → List ℕ → List ℕ
oids_of st name = elim (assoc_get name st.stmt_oids) [ none ↦ [] | some oids ↦ oids ]

-- The statement with its parameters, if the statement is known.
unfoldable pub bound_sql : Setup → Shared → BindMessage → Outcome (List ℕ)
unfolding format_bind_params_typed_ext inline_bind_params
bound_sql setup st bind = elim (assoc_get bind.statement_name st.stmt_cache) [
  | none ↦ absent
  | some template ↦
      format_bind_params_typed_ext setup.floats bind.parameters bind.param_formats
        (oids_of st bind.statement_name) setup.extension_oids
      >>= (λ params. value (inline_bind_params template params))
]

abbrev pub forward_after : PgMessage → List Effect → Turn
forward_after m es = record { effects = es ++ write m ∷ flush ∷ []; flow = goes_on }

abbrev pub bind_turn : Setup → Arrival → Outcome (List ℕ) → Turn
bind_turn setup a absent = forward_after a.msg []
bind_turn setup a (value sql) =
    forward_after a.msg (send (query_start setup.session_id sql a.now) ∷ [])
bind_turn setup a panics = record { effects = []; flow = panicked }

abbrev pub captured_query : Setup → Shared → Arrival → Option (List ℕ) → Turn
captured_query setup st a none = forward_after a.msg []
captured_query setup st a (some sql) =
    query_turn setup st a sql (decide setup setup.implicit_capture sql)

abbrev pub captured_parse : Setup → Shared → Arrival → Option ParseMessage → Turn
captured_parse setup st a none = forward_after a.msg []
captured_parse setup st a (some p) = forward_after a.msg (parse_effects setup st p)

abbrev pub captured_describe : Arrival → Option (List ℕ) → Turn
captured_describe a none = forward_after a.msg []
captured_describe a (some name) = forward_after a.msg (update (set_describe (some name)) ∷ [])

abbrev pub captured_turn : Setup → Shared → Arrival → Turn
captured_turn setup st a =
    let t = a.msg.msg_type in
    if t == b'Q'
    then captured_query setup st a (extract_query_sql setup.lossy a.msg)
    else if t == b'P'
    then captured_parse setup st a (extract_parse setup.lossy a.msg)
    else if t == b'D'
    then captured_describe a (extract_describe_statement setup.lossy a.msg)
    else if t == b'B'
    then bind_turn setup a (extract_bind setup.lossy a.msg >>= bound_sql setup st)
    else if t == b'X'
    then record {
      effects = write a.msg ∷ flush ∷ send (session_end setup.session_id) ∷ [];
      flow = stops;
    }
    else forward_after a.msg []

abbrev pub plain_turn : Arrival → Turn
plain_turn a = record {
  effects = write a.msg ∷ flush ∷ [];
  flow = if a.msg.msg_type == b'X' then stops else goes_on;
}

unfoldable pub client_turn : Setup → Shared → Arrival → Turn
client_turn setup st a = if a.capturing then captured_turn setup st a else plain_turn a
