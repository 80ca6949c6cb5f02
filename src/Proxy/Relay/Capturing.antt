-- ===== src/Proxy/Relay/Capturing.antt =====
-- src/proxy/connection.rs, src/proxy/capture.rs: simple queries, from the wire to the collector.
use mathlib.Core.List.{Mem}
use pg_retest.Prelude.{ℕ, ◌≡◌, refl, ap, ◌∙◌, none, List, [], ◌∷◌, ◌++◌, map, All}
use pg_retest.Proxy.Protocol.Extract.{build_query_message}
use pg_retest.Proxy.Collector.{CaptureEvent, session_start, query_start, run_collector}
use pg_retest.Proxy.Collector.Interleaving.{events_of}
use pg_retest.Proxy.Collector.Trace.{answer, trace, captured, run_collector-trace}
use pg_retest.Proxy.Relay.{Setup, Shared, Arrival, run_effects}
use pg_retest.Proxy.Relay.Client.{client_turn}
use pg_retest.Proxy.Relay.Server.{server_turn}
use pg_retest.Proxy.Relay.Connection.{Incoming, from_server, run_session}
use pg_retest.Proxy.Relay.Exchanges.{
  Exchange, message_at, incoming_of, session_of, IsQuiet, IsExchange, quiet_turn,
  run_effects-uncorrelated, closing_turn, query_turn-Sends,
}

module _ (setup : Setup) (plain : setup.implicit_capture ≡ none) where
  -- Quiet messages are passed without an event.
  quiet_events :
      (st : Shared) (before : List Arrival) (rest : List Incoming) (events : List CaptureEvent)
      → st.correlate ≡ none
      → All IsQuiet before
      → ((st' : Shared) → st'.correlate ≡ none → (run_session setup st' rest).events ≡ events)
      → (run_session setup st (map from_server before ++ rest)).events ≡ events
  unfolding run_session
  quiet_events st [] rest events h q k = k st h
  quiet_events st (a ∷ before) rest events h (qa, q) k =
      let t = server_turn setup st a in
      let (flow, none_sent) = quiet_turn setup st a h qa in
      rw (flow, none_sent)
        (quiet_events (run_effects st t.effects) before rest events
          (run_effects-uncorrelated st t.effects h) q k)

  exchange_events :
      (st : Shared) (x : Exchange) (rest : List Incoming) (events : List CaptureEvent)
      → st.correlate ≡ none
      → IsExchange setup.lossy x
      → ((st' : Shared) → st'.correlate ≡ none → (run_session setup st' rest).events ≡ events)
      → (run_session setup st (incoming_of x rest)).events
        ≡ query_start setup.session_id x.statement.sql x.statement.sent
          ∷ answer setup.session_id x.statement.answered x.statement.error
          ∷ events
  unfolding run_session
  exchange_events st x rest events h (utf8, closes, before, after) k =
      let s = x.statement in
      let q = client_turn setup st (message_at (build_query_message s.sql) s.sent) in
      let (q_flow, q_sent) = query_turn-Sends setup st s.sql s.sent plain h utf8 in
      let end = answer setup.session_id s.answered s.error in
      rw (q_flow, q_sent)
        (ap (λ (l : List CaptureEvent). query_start setup.session_id s.sql s.sent ∷ l)
          (quiet_events (run_effects st q.effects) x.before _ (end ∷ events)
            (run_effects-uncorrelated st q.effects h) before
            (λ st1 h1.
              let t = server_turn setup st1 (message_at x.closing s.answered) in
              let (flow, sent) = closing_turn setup st1 x.closing s.answered s.error h1 closes in
              rw (flow, sent)
                (ap (λ (l : List CaptureEvent). end ∷ l)
                  (quiet_events (run_effects st1 t.effects) x.after rest events
                    (run_effects-uncorrelated st1 t.effects h1) after k)))))

  session_of-events :
      (st : Shared) (xs : List Exchange)
      → st.correlate ≡ none
      → All (IsExchange setup.lossy) xs
      → (run_session setup st (session_of xs)).events
        ≡ trace setup.session_id (map (λ (x : Exchange). x.statement) xs)
  unfolding run_session
  session_of-events st [] h v = refl
  session_of-events st (x ∷ xs) h (vx, v) =
      exchange_events st x (session_of xs) _ h vx (λ st' h'. session_of-events st' xs h' v)

  -- From the wire to the captured session. Where nothing is injected and nothing correlated, a client
  -- that sends statements as simple queries, at least one, each answered by some messages of which
  -- just one ends it or is an error, with capture on at the queries and at those, is captured under
  -- its user and database with exactly these statements, in order, with their offsets, durations and
  -- errors, in whatever way the collector's events of other sessions stand between this one's. The
  -- texts are such that decoding leaves them as they are.
  pub run_session-captured :
      (events : List CaptureEvent) (user database : List ℕ) (start : ℕ) (st : Shared) (x : Exchange)
      (xs : List Exchange)
      → st.correlate ≡ none
      → All (IsExchange setup.lossy) (x ∷ xs)
      → events_of setup.session_id events
        ≡ session_start setup.session_id user database start
          ∷ (run_session setup st (session_of (x ∷ xs))).events
      → Mem
          (record {
            session_id = setup.session_id;
            user = user;
            database = database;
            queries = map (captured start) (map (λ (x : Exchange). x.statement) (x ∷ xs));
          })
          (run_collector events)
  run_session-captured events user database start st x xs h v e =
      run_collector-trace events setup.session_id user database start x.statement
        (map (λ (x : Exchange). x.statement) xs)
        (e
          ∙ ap (λ (l : List CaptureEvent). session_start setup.session_id user database start ∷ l)
              (session_of-events st (x ∷ xs) h v))
