-- ===== src/Proxy/Relay/Returning.antt =====
-- src/proxy/connection.rs: the rows that a query gives back, captured for correlation.
use mathlib.Core.List.{append_assoc, append-nil}
use pg_retest.Prelude.{
  length-append, take-all, take-append-le, subst, ℕ, suc, ◌≤◌, ◌≡◌, refl, sym, ap, ◌∙◌, Bool, true,
  false, some, List, [], ◌∷◌, ◌++◌, if◌then◌else◌, map, All, arith, ltb, length, take, Bool-cases,
  inl, inr,
}
use pg_retest.Proxy.Protocol.{PgMessage}
use pg_retest.Proxy.Protocol.Extract.{extract_row_description, build_query_message}
use pg_retest.Proxy.Protocol.Bind.{value}
use pg_retest.Proxy.Protocol.Rows.{extract_data_row}
use pg_retest.Proxy.Collector.{CaptureEvent, query_start, query_complete, query_returning}
use pg_retest.Proxy.Relay.{Setup, Shared, Arrival, Turn, Output, message}
use pg_retest.Proxy.Relay.Client.{client_turn, decide}
use pg_retest.Proxy.Relay.Server.{server_turn}
use pg_retest.Proxy.Relay.Connection.{
  Incoming, from_client, from_server, Traffic, serve, run_session,
}
use pg_retest.Proxy.Relay.Turns.{at_once}
use pg_retest.Proxy.Relay.Exchanges.{message_at}
use pg_retest.Proxy.Relay.Receiving.{
  Row, receiving, kept, Does, row_turn, heading_turn, idle, closing_turn, gives_rows, holds_back,
  sent_as, query_turn-Does, query_turn_of,
}

-- A session behind outputs and events.
abbrev pub after_client : List Output → List CaptureEvent → Traffic → Traffic
after_client ms es s = record s { to_server = ms ++ s.to_server; events = es ++ s.events }

abbrev pub after_server : List Output → List CaptureEvent → Traffic → Traffic
after_server ms es s = record s { to_client = ms ++ s.to_client; events = es ++ s.events }

server_step :
    (setup : Setup) (st st' : Shared) (a : Arrival) (ms : List Output) (es : List CaptureEvent)
    (rest : List Incoming)
    → Does st (server_turn setup st a) st' ms es
    → run_session setup st (from_server a ∷ rest) ≡ after_server ms es (run_session setup st' rest)
unfolding run_session serve
server_step setup st st' a ms es rest (flow, state, w, e) = rw (flow, state, w, e) refl

client_step :
    (setup : Setup) (st st' : Shared) (a : Arrival) (ms : List Output) (es : List CaptureEvent)
    (rest : List Incoming)
    → Does st (client_turn setup st a) st' ms es
    → run_session setup st (from_client a ∷ rest) ≡ after_client ms es (run_session setup st' rest)
unfolding run_session
client_step setup st st' a ms es rest (flow, state, w, e) = rw (flow, state, w, e) refl

-- A row on the wire: its message, when it was read, and its values.
pub record RowArrival : Type 0 where
  pub msg : PgMessage
  pub now : ℕ
  pub values : Row

abbrev pub arriving : RowArrival → Incoming
arriving r = from_server (message_at r.msg r.now)

abbrev pub IsRow : (List ℕ → List ℕ) → ℕ → RowArrival → Type 0
IsRow lossy columns r =
    (r.msg.msg_type ≡ b'D') × (extract_data_row lossy r.msg columns ≡ value r.values)

abbrev hidden : Bool → List Output → List Output
hidden b ms = if b then [] else ms

kept_all : List Row → List RowArrival → List Row
kept_all rows [] = rows
kept_all rows (r ∷ rs) = kept_all (kept rows r.values) rs

kept_all-take :
    (rows : List Row) (rs : List RowArrival)
    → length rows ≤ 100
    → kept_all rows rs ≡ take 100 (rows ++ map (λ (r : RowArrival). r.values) rs)
unfolding kept_all
kept_all-take rows [] h = sym (
    take-all 100 (rows ++ []) (let e : length (rows ++ []) ≤ 100 = rw (append-nil rows) h in e)
    ∙ append-nil rows)
kept_all-take rows (r ∷ rs) h =
    let v = r.values in
    let vs = map (λ (r : RowArrival). r.values) rs in
    elim (Bool-cases (ltb (length rows) 100)) [
      | inl short ↦ rw short (
          kept_all-take (rows ++ v ∷ []) rs (ground (arith, length-append rows (v ∷ []), short))
          ∙ ap (take 100) (append_assoc rows (v ∷ []) vs))
      | inr full ↦ rw full (
          kept_all-take rows rs h
          ∙ take-append-le 100 rows vs (ground (arith, full))
          ∙ sym (take-append-le 100 rows (v ∷ vs) (ground (arith, full))))
    ]

rows_events :
    (setup : Setup) (st : Shared) (b : Bool) (c : List ℕ) (columns : List (List ℕ))
    (rows : List Row) (rs : List RowArrival) (rest : List Incoming)
    → All (IsRow setup.lossy (suc (length columns))) rs
    → run_session setup (receiving st b (c ∷ columns) rows) (map arriving rs ++ rest)
      ≡ after_server
          (hidden b (map (λ (r : RowArrival). message r.msg) rs))
          []
          (run_session setup (receiving st b (c ∷ columns) (kept_all rows rs)) rest)
unfolding kept_all
rows_events setup st true c columns rows [] rest h = refl
rows_events setup st false c columns rows [] rest h = refl
rows_events setup st true c columns rows (r ∷ rs) rest ((e, x), h) =
    server_step setup _ _ _ _ _ _ (row_turn setup st true c columns rows r.msg r.now r.values e x)
    ∙ ap (after_server [] []) (rows_events setup st true c columns (kept rows r.values) rs rest h)
rows_events setup st false c columns rows (r ∷ rs) rest ((e, x), h) =
    server_step setup _ _ _ _ _ _ (row_turn setup st false c columns rows r.msg r.now r.values e x)
    ∙ ap (after_server (message r.msg ∷ []) [])
        (rows_events setup st false c columns (kept rows r.values) rs rest h)

after_after :
    (ms ns : List Output) (es : List CaptureEvent) (s : Traffic)
    → after_server ms [] (after_server ns es s) ≡ after_server (ms ++ ns) es s
after_after ms ns es s =
    ap (λ (l : List Output). record s { to_client = l; events = es ++ s.events })
      (sym (append_assoc ms ns s.to_client))

-- The answer, from its description to its end.
module _ (setup : Setup) (st : Shared) (heading : PgMessage) (headed : ℕ) (c : List ℕ)
    (columns : List (List ℕ)) (r : RowArrival) (rs : List RowArrival) (closing : PgMessage)
    (answered : ℕ) (rest : List Incoming) (h : heading.msg_type ≡ b'T')
    (names : extract_row_description setup.lossy heading ≡ some (c ∷ columns))
    (few : suc (length columns) ≤ 20)
    (rows : All (IsRow setup.lossy (suc (length columns))) (r ∷ rs))
    (e : closing.msg_type ≡ b'C') where
  heading_step :
      (b : Bool)
      → Does
          (receiving st b [] [])
          (server_turn setup (receiving st b [] []) (message_at heading headed))
          (receiving st b (c ∷ columns) [])
          (if b then [] else message heading ∷ [])
          []
  heading_step b =
      subst
        (λ (cs : List (List ℕ)).
          Does (receiving st b [] [])
            (server_turn setup (receiving st b [] []) (message_at heading headed))
            (receiving st b cs []) (if b then [] else message heading ∷ []) [])
        (take-all 20 (c ∷ columns) few)
        (heading_turn setup st b [] (c ∷ columns) [] heading headed h names)

  closing_step :
      (b : Bool)
      → run_session setup
          (receiving st b (c ∷ columns) (kept_all [] (r ∷ rs)))
          (from_server (message_at closing answered) ∷ rest)
        ≡ after_server
            (message closing ∷ [])
            (query_complete setup.session_id answered
              ∷ query_returning setup.session_id
                  (c ∷ columns)
                  (take 100 (map (λ (r : RowArrival). r.values) (r ∷ rs)))
                  answered
              ∷ [])
            (run_session setup (idle st) rest)
  closing_step b =
      ap
        (λ (kept : List Row).
          run_session setup (receiving st b (c ∷ columns) kept)
            (from_server (message_at closing answered) ∷ rest))
        (kept_all-take [] (r ∷ rs) (omega arith))
      ∙ server_step setup _ _ _ _ _ _ (
          closing_turn setup st b (c ∷ columns) r.values
            (take 99 (map (λ (r : RowArrival). r.values) rs)) closing answered e)

  answer_step :
      (b : Bool)
      → run_session setup (receiving st b [] []) (
          from_server (message_at heading headed)
          ∷ (map arriving (r ∷ rs) ++ from_server (message_at closing answered) ∷ rest))
        ≡ after_server
            ((if b then [] else message heading ∷ map (λ (r : RowArrival). message r.msg) (r ∷ rs))
              ++ message closing ∷ [])
            (query_complete setup.session_id answered
              ∷ query_returning setup.session_id
                  (c ∷ columns)
                  (take 100 (map (λ (r : RowArrival). r.values) (r ∷ rs)))
                  answered
              ∷ [])
            (run_session setup (idle st) rest)
  answer_step true =
      server_step setup _ _ _ _ _ _ (heading_step true)
      ∙ ap (after_server [] []) (rows_events setup st true c columns [] (r ∷ rs) _ rows)
      ∙ ap (after_server [] []) (closing_step true)
  answer_step false =
      server_step setup _ _ _ _ _ _ (heading_step false)
      ∙ ap (after_server (message heading ∷ []) [])
          (rows_events setup st false c columns [] (r ∷ rs) _ rows)
      ∙ ap (after_server (message heading ∷ []) []) (
          ap (after_server (map (λ (r : RowArrival). message r.msg) (r ∷ rs)) [])
            (closing_step false))
      ∙ after_after (message heading ∷ map (λ (r : RowArrival). message r.msg) (r ∷ rs))
          (message closing ∷ [])
          (query_complete setup.session_id answered
            ∷ query_returning setup.session_id (c ∷ columns)
                (take 100 (map (λ (r : RowArrival). r.values) (r ∷ rs))) answered
            ∷ [])
          (run_session setup (idle st) rest)

-- The rows of one query after the other are captured with their own query. With correlation on and no
-- query open, and with capture on, where the turn of a query is over before its answer is read: a query that gives rows back, be it by its own clause or by one
-- that is injected, and whose answer is a description of one to twenty columns, at least one row of
-- that many values and the end of the query, is captured, ended, and followed by an event with these
-- columns and its first 100 rows; the query is sent to the server at once, with the clause if one is
-- injected; the buffer of the client is given the whole answer, or just its end if the rows are held
-- back, without a flush; and then no query is open, so that the session goes on as from its start.
pub run_session-returning :
    (setup : Setup) (st : Shared) (sql : List ℕ) (sent : ℕ) (heading : PgMessage) (headed : ℕ)
    (c : List ℕ) (columns : List (List ℕ)) (r : RowArrival) (rs : List RowArrival)
    (closing : PgMessage) (answered : ℕ) (rest : List Incoming)
    → setup.lossy sql ≡ sql
    → gives_rows (decide setup setup.implicit_capture sql) ≡ true
    → (heading.msg_type ≡ b'T') × (extract_row_description setup.lossy heading ≡ some (c ∷ columns))
    → suc (length columns) ≤ 20
    → All (IsRow setup.lossy (suc (length columns))) (r ∷ rs)
    → closing.msg_type ≡ b'C'
    → run_session setup (idle st) (
        from_client (message_at (build_query_message sql) sent)
        ∷ from_server (message_at heading headed)
        ∷ (map arriving (r ∷ rs) ++ from_server (message_at closing answered) ∷ rest))
      ≡ after_client
          (at_once (sent_as sql (decide setup setup.implicit_capture sql)))
          (query_start setup.session_id sql sent ∷ [])
          (after_server
            ((if holds_back (decide setup setup.implicit_capture sql)
                then []
                else message heading ∷ map (λ (r : RowArrival). message r.msg) (r ∷ rs))
              ++ message closing ∷ [])
            (query_complete setup.session_id answered
              ∷ query_returning setup.session_id
                  (c ∷ columns)
                  (take 100 (map (λ (r : RowArrival). r.values) (r ∷ rs)))
                  answered
              ∷ [])
            (run_session setup (idle st) rest))
run_session-returning setup st sql sent heading headed c columns r rs closing answered rest utf8
      gives (h, names) few rows e =
    let d = decide setup setup.implicit_capture sql in
    client_step setup _ _ _ _ _ _ (
      subst
        (λ (t : Turn).
          Does (idle st) t (receiving st (holds_back d) [] []) (at_once (sent_as sql d))
            (query_start setup.session_id sql sent ∷ []))
        (sym (query_turn_of setup (idle st) sql sent utf8))
        (query_turn-Does setup st sql sent d gives))
    ∙ ap (after_client (at_once (sent_as sql d)) (query_start setup.session_id sql sent ∷ [])) (
        answer_step setup st heading headed c columns r rs closing answered rest h names few rows e
          (holds_back d))
