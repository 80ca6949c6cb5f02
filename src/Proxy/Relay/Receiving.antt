-- ===== src/Proxy/Relay/Receiving.antt =====
-- src/proxy/connection.rs: the turns on a query that gives rows back, and on its answer.
use pg_retest.Prelude.{
  ℕ, suc, ◌≡◌, refl, Bool, true, false, Option, some, List, [], ◌∷◌, ◌++◌, ◌==◌, if◌then◌else◌, ltb,
  length, take, Bool-cases, ==_iff, inl, inr,
}
use pg_retest.Proxy.Protocol.{PgMessage}
use pg_retest.Proxy.Protocol.Extract.{extract_row_description, build_query_message}
use pg_retest.Proxy.Protocol.Extract.RoundTrip.{extract_query_sql-build_query_message}
use pg_retest.Proxy.Protocol.Bind.{value}
use pg_retest.Proxy.Protocol.Rows.{extract_data_row}
use pg_retest.Proxy.Collector.{CaptureEvent, query_start, query_complete, query_returning}
use pg_retest.Proxy.Relay.{
  Setup, Shared, Turn, goes_on, run_effect, run_effects, apply_update, written, emitted, Output,
  message,
}
use pg_retest.Proxy.Relay.Client.{client_turn, query_turn, Decision, as_is, injected, decide}
use pg_retest.Proxy.Relay.Server.{capture_effects, server_flow, server_turn, deliver}
use pg_retest.Proxy.Relay.Connection.{new_correlate}
use pg_retest.Proxy.Relay.Turns.{at_once}
use pg_retest.Proxy.Relay.Exchanges.{message_at}

abbrev pub Row : Type 0
Row = List (Option (List ℕ))

-- The state while the rows of one query come in.
abbrev pub receiving : Shared → Bool → List (List ℕ) → List Row → Shared
receiving st suppress columns rows = record st {
  correlate = some (record {
    returning_queue = true ∷ [];
    pending_columns = columns;
    pending_rows = rows;
    suppress_response = suppress;
  });
}

abbrev pub kept : List Row → Row → List Row
kept rows row = if ltb (length rows) 100 then rows ++ row ∷ [] else rows

-- What a turn does: it goes on to a state, and these are its outputs and its events.
abbrev pub Does : Shared → Turn → Shared → List Output → List CaptureEvent → Type 0
Does st t st' outputs events =
    (t.flow ≡ goes_on)
    × (run_effects st t.effects ≡ st')
    × (written t.effects ≡ outputs)
    × (emitted t.effects ≡ events)

pub row_turn :
    (setup : Setup) (st : Shared) (b : Bool) (c : List ℕ) (columns : List (List ℕ))
    (rows : List Row) (m : PgMessage) (t : ℕ) (row : Row)
    → m.msg_type ≡ b'D'
    → extract_data_row setup.lossy m (suc (length columns)) ≡ value row
    → Does
        (receiving st b (c ∷ columns) rows)
        (server_turn setup (receiving st b (c ∷ columns) rows) (message_at m t))
        (receiving st b (c ∷ columns) (kept rows row))
        (if b then [] else message m ∷ [])
        []
unfolding server_turn capture_effects server_flow deliver run_effects run_effect apply_update
    written emitted
row_turn setup st false c columns rows m t row e x = elim (Bool-cases (ltb (length rows) 100)) [
  | inl short ↦ rw (x, e, short) (refl, refl, refl, refl)
  | inr full ↦ rw (x, e, full) (refl, refl, refl, refl)
]
row_turn setup st true c columns rows m t row e x = elim (Bool-cases (ltb (length rows) 100)) [
  | inl short ↦ rw (x, e, short) (refl, refl, refl, refl)
  | inr full ↦ rw (x, e, full) (refl, refl, refl, refl)
]

pub heading_turn :
    (setup : Setup) (st : Shared) (b : Bool) (old columns : List (List ℕ)) (rows : List Row)
    (m : PgMessage) (t : ℕ)
    → m.msg_type ≡ b'T'
    → extract_row_description setup.lossy m ≡ some columns
    → Does
        (receiving st b old rows)
        (server_turn setup (receiving st b old rows) (message_at m t))
        (receiving st b (take 20 columns) [])
        (if b then [] else message m ∷ [])
        []
unfolding server_turn capture_effects server_flow deliver run_effects run_effect apply_update
    written emitted
heading_turn setup st false old columns rows m t e x = rw (x, e) (refl, refl, refl, refl)
heading_turn setup st true old columns rows m t e x = rw (x, e) (refl, refl, refl, refl)

-- Between two queries.
abbrev pub idle : Shared → Shared
idle st = record st { correlate = some new_correlate }

pub closing_turn :
    (setup : Setup) (st : Shared) (b : Bool) (columns : List (List ℕ)) (r : Row) (rows : List Row)
    (m : PgMessage) (t : ℕ)
    → m.msg_type ≡ b'C'
    → Does
        (receiving st b columns (r ∷ rows))
        (server_turn setup (receiving st b columns (r ∷ rows)) (message_at m t))
        (idle st)
        (message m ∷ [])
        (query_complete setup.session_id t
          ∷ query_returning setup.session_id columns (r ∷ rows) t
          ∷ [])
unfolding server_turn capture_effects server_flow deliver run_effects run_effect apply_update
    written emitted
closing_turn setup st false columns r rows m t e = rw e (refl, refl, refl, refl)
closing_turn setup st true columns r rows m t e = rw e (refl, refl, refl, refl)

-- Whether the rows of a query are to come, whether they are held back, and what is sent of it.
abbrev pub gives_rows : Decision → Bool
gives_rows (as_is b) = b
gives_rows (injected sql stealth) = true

abbrev pub holds_back : Decision → Bool
holds_back (as_is b) = false
holds_back (injected sql stealth) = stealth

abbrev pub sent_as : List ℕ → Decision → PgMessage
sent_as sql (as_is b) = build_query_message sql
sent_as sql (injected text stealth) = build_query_message text

pub query_turn-Does :
    (setup : Setup) (st : Shared) (sql : List ℕ) (t : ℕ) (d : Decision)
    → gives_rows d ≡ true
    → Does
        (idle st)
        (query_turn setup (idle st) (message_at (build_query_message sql) t) sql d)
        (receiving st (holds_back d) [] [])
        (at_once (sent_as sql d))
        (query_start setup.session_id sql t ∷ [])
unfolding run_effects run_effect apply_update written emitted
query_turn-Does setup st sql t (as_is true) h = (refl, refl, refl, refl)
query_turn-Does setup st sql t (as_is false) h = cc
query_turn-Does setup st sql t (injected text true) h = (refl, refl, refl, refl)
query_turn-Does setup st sql t (injected text false) h = (refl, refl, refl, refl)

query-type : (sql : List ℕ) → (build_query_message sql).msg_type ≡ b'Q'
unfolding build_query_message
query-type sql = refl

pub query_turn_of :
    (setup : Setup) (st : Shared) (sql : List ℕ) (t : ℕ)
    → setup.lossy sql ≡ sql
    → client_turn setup st (message_at (build_query_message sql) t)
      ≡ query_turn setup st
          (message_at (build_query_message sql) t)
          sql
          (decide setup setup.implicit_capture sql)
unfolding client_turn
query_turn_of setup st sql t utf8 =
    let m = build_query_message sql in
    let e = extract_query_sql-build_query_message setup.lossy sql utf8 in
    let q : (m.msg_type == b'Q') ≡ true = (==_iff m.msg_type b'Q').1 (query-type sql) in
    rw (q, e) refl
