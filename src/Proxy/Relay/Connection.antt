-- ===== src/Proxy/Relay/Connection.antt =====
-- src/proxy/connection.rs: a connection, in which the turns of the two tasks alternate in any way.
-- The turn of the client's task may be interrupted once it has flushed its first message, since the
-- server can answer from there on.
use pg_retest.Prelude.{false, Option, none, List, [], ◌∷◌, ◌++◌}
use pg_retest.Proxy.Collector.{CaptureEvent}
use pg_retest.Proxy.Relay.{
  Setup, Shared, CorrelateState, Effect, write, flush, send, update, Arrival, Flow, goes_on, stops,
  panicked, run_effects, Output, written, emitted,
}
use pg_retest.Proxy.Relay.Client.{client_turn}
use pg_retest.Proxy.Relay.Server.{server_turn}

-- A message that one of the tasks reads. A message of the client is overtaken by those of the server
-- that are handled between its first flush and the rest of its turn.
pub data Incoming : Type 0 where
  from_client from_server : Arrival → Incoming
  overtaken : Arrival → List Arrival → Incoming

-- What the two writers have been given, the events, and what is shared; the session ends with the
-- first task.
pub record Traffic : Type 0 where
  pub to_server : List Output
  pub to_client : List Output
  pub events : List CaptureEvent
  pub shared : Shared
  pub flow : Flow

abbrev pub new_shared : Option CorrelateState → Shared
new_shared correlate = record {
  stmt_cache = [];
  stmt_oids = [];
  pending_describe = none;
  correlate = correlate;
}

abbrev pub new_correlate : CorrelateState
new_correlate = record {
  returning_queue = [];
  pending_columns = [];
  pending_rows = [];
  suppress_response = false;
}

-- The effects up to the first flush, and those behind it.
unfoldable pub until_flush : List Effect → List Effect
until_flush [] = []
until_flush (flush ∷ es) = flush ∷ []
until_flush (write m ∷ es) = write m ∷ until_flush es
until_flush (send e ∷ es) = send e ∷ until_flush es
until_flush (update u ∷ es) = update u ∷ until_flush es

unfoldable pub behind_flush : List Effect → List Effect
behind_flush [] = []
behind_flush (flush ∷ es) = es
behind_flush (write m ∷ es) = behind_flush es
behind_flush (send e ∷ es) = behind_flush es
behind_flush (update u ∷ es) = behind_flush es

abbrev pub by_client : List Effect → Traffic → Traffic
by_client es s = record s { to_server = written es ++ s.to_server; events = emitted es ++ s.events }

abbrev by_server : List Effect → Traffic → Traffic
by_server es s = record s { to_client = written es ++ s.to_client; events = emitted es ++ s.events }

abbrev pub ended : Shared → Flow → Traffic
ended st flow = record { to_server = []; to_client = []; events = []; shared = st; flow = flow }

-- A task goes on, or its end is that of the session.
abbrev pub proceed : Flow → Shared → (Shared → Traffic) → Traffic
proceed goes_on st next = next st
proceed stops st next = ended st stops
proceed panicked st next = ended st panicked

module _ (setup : Setup) where
  -- The relay from the server handles messages, and then something else happens.
  unfoldable pub serve : Shared → List Arrival → (Shared → Traffic) → Traffic
  unfolding run_effects
  serve st [] next = next st
  serve st (a ∷ arrivals) next =
      let t = server_turn setup st a in
      by_server t.effects
        (proceed t.flow (run_effects st t.effects) (λ st'. serve st' arrivals next))

  unfoldable pub run_session : Shared → List Incoming → Traffic
  unfolding run_effects serve until_flush behind_flush
  run_session st [] = ended st goes_on
  run_session st (from_client a ∷ incoming) =
      let t = client_turn setup st a in
      by_client t.effects
        (proceed t.flow (run_effects st t.effects) (λ st'. run_session st' incoming))
  run_session st (from_server a ∷ incoming) = serve st (a ∷ []) (λ st'. run_session st' incoming)
  run_session st (overtaken a arrivals ∷ incoming) =
      let t = client_turn setup st a in
      let first = until_flush t.effects in
      let rest = behind_flush t.effects in
      by_client first (
        serve (run_effects st first) arrivals (λ st'.
          by_client rest
            (proceed t.flow (run_effects st' rest) (λ st''. run_session st'' incoming))))
