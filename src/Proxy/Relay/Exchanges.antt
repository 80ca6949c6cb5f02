-- ===== src/Proxy/Relay/Exchanges.antt =====
-- src/proxy/connection.rs: the turns of a simple query and its answer, where nothing is correlated.
use pg_retest.Prelude.{
  ℕ, ◌≡◌, refl, sym, ap, ◌∙◌, Bool, true, false, Option, none, some, List, [], ◌∷◌, ◌++◌, ◌==◌,
  if◌then◌else◌, if_intro, map, All,
}
use pg_retest.Proxy.Protocol.{PgMessage}
use pg_retest.Proxy.Protocol.Extract.{
  build_query_message, extract_error_message, extract_parameter_description,
}
use pg_retest.Proxy.Protocol.Extract.RoundTrip.{extract_query_sql-build_query_message}
use pg_retest.Proxy.Protocol.Bind.{Outcome, value}
use pg_retest.Proxy.Collector.{CaptureEvent, query_start}
use pg_retest.Proxy.Collector.Trace.{Statement, answer}
use pg_retest.Proxy.Relay.{
  Setup, Shared, CorrelateState, Effect, write, flush, send, update, set_suppress, Arrival, Turn,
  goes_on, run_effect, run_effects, emitted,
}
use pg_retest.Proxy.Relay.Client.{client_turn, decide}
use pg_retest.Proxy.Relay.Server.{
  capture_effects, parameter_effects, correlated, server_flow, server_turn, deliver, suppressing,
  forget_query,
}
use pg_retest.Proxy.Relay.Connection.{Incoming, from_client, from_server}
use pg_retest.Proxy.Relay.Delivery.{apply_update-correlate, is_row}

-- A statement, the message that answers it, and what else the server sends before and after that.
pub record Exchange : Type 0 where
  pub statement : Statement
  pub before : List Arrival
  pub closing : PgMessage
  pub after : List Arrival

abbrev pub message_at : PgMessage → ℕ → Arrival
message_at m t = record { msg = m; capturing = true; now = t }

-- The messages of an exchange in front of those that follow.
abbrev pub incoming_of : Exchange → List Incoming → List Incoming
incoming_of x rest =
    from_client (message_at (build_query_message x.statement.sql) x.statement.sent)
    ∷ (map from_server x.before
        ++ from_server (message_at x.closing x.statement.answered)
          ∷ (map from_server x.after ++ rest))

abbrev pub session_of : List Exchange → List Incoming
session_of [] = []
session_of (x ∷ xs) = incoming_of x (session_of xs)

-- Neither the end of a query nor an error.
abbrev pub IsQuiet : Arrival → Type 0
IsQuiet a = ((a.msg.msg_type == b'C') ≡ false) × ((a.msg.msg_type == b'E') ≡ false)

-- A message ends a query, with an error or without.
abbrev pub Answers : (List ℕ → List ℕ) → PgMessage → Option (List ℕ) → Type 0
Answers lossy m none = m.msg_type ≡ b'C'
Answers lossy m (some text) = (m.msg_type ≡ b'E') × (extract_error_message lossy m ≡ some text)

abbrev pub IsExchange : (List ℕ → List ℕ) → Exchange → Type 0
IsExchange lossy x =
    (lossy x.statement.sql ≡ x.statement.sql)
    × Answers lossy x.closing x.statement.error
    × All IsQuiet x.before
    × All IsQuiet x.after

emitted-append : (es fs : List Effect) → emitted (es ++ fs) ≡ emitted es ++ emitted fs
unfolding emitted
emitted-append [] fs = refl
emitted-append (write m ∷ es) fs = emitted-append es fs
emitted-append (flush ∷ es) fs = emitted-append es fs
emitted-append (send e ∷ es) fs = ap (λ (l : List CaptureEvent). e ∷ l) (emitted-append es fs)
emitted-append (update u ∷ es) fs = emitted-append es fs

deliver_cases :
    (m : PgMessage) (row complete ready : Bool)
    → emitted (
        if row
        then []
        else (if complete then update (set_suppress false) ∷ [] else [])
          ++ write m ∷ (if ready then flush ∷ [] else []))
      ≡ []
unfolding emitted
deliver_cases m true complete ready = refl
deliver_cases m false true true = refl
deliver_cases m false true false = refl
deliver_cases m false false true = refl
deliver_cases m false false false = refl

emitted-deliver : (b : Bool) (m : PgMessage) → emitted (deliver b m) ≡ []
unfolding emitted deliver
emitted-deliver false m = deliver_cases m false false (m.msg_type == b'Z')
emitted-deliver true m = deliver_cases m (is_row m) (m.msg_type == b'C') (m.msg_type == b'Z')

server_flow-emitted :
    (st : Shared) (m : PgMessage) (es : List Effect)
    → emitted (server_flow st m (value es)).effects ≡ emitted es ++ []
unfolding server_flow
server_flow-emitted st m es =
    let b = suppressing (run_effects st es).correlate in
    emitted-append es (deliver b m)
    ∙ ap (λ (l : List CaptureEvent). emitted es ++ l) (emitted-deliver b m)

-- What a server turn does for the collector: it goes on, and sends these events.
abbrev pub Sends : List CaptureEvent → Turn → Type 0
Sends events t = (t.flow ≡ goes_on) × (emitted t.effects ≡ events)

server_flow-Sends :
    (st : Shared) (m : PgMessage) (es : List Effect) (events : List CaptureEvent)
    → emitted es ++ [] ≡ events
    → Sends events (server_flow st m (value es))
unfolding server_flow
server_flow-Sends st m es events h = (refl, server_flow-emitted st m es ∙ h)

parameter_effects-emitted :
    (st : Shared) (o d : Option (List ℕ))
    → d ≡ st.pending_describe
    → emitted (parameter_effects st o) ++ [] ≡ []
unfolding emitted
parameter_effects-emitted st none d h = refl
parameter_effects-emitted st (some oids) none h = rw (sym h) refl
parameter_effects-emitted st (some oids) (some name) h = rw (sym h) refl

correlated-Sends :
    (st : Shared) (m : PgMessage) (o : Option CorrelateState)
    (f : CorrelateState → Outcome (List Effect))
    → o ≡ none
    → Sends [] (server_flow st m (correlated o f))
unfolding emitted
correlated-Sends st m none f h = server_flow-Sends st m [] [] refl
correlated-Sends st m (some cs) f h = cc

pub quiet_turn :
    (setup : Setup) (st : Shared) (a : Arrival)
    → st.correlate ≡ none
    → IsQuiet a
    → Sends [] (server_turn setup st a)
unfolding server_turn capture_effects emitted
quiet_turn setup st a h (c, e) =
    let P = λ (o : Outcome (List Effect)). Sends [] (server_flow st a.msg o) in
    let t = a.msg.msg_type in
    if_intro P a.capturing
      (λ _.
        if_intro P (t == b't')
          (λ _.
            let o = extract_parameter_description a.msg in
            server_flow-Sends st a.msg (parameter_effects st o) []
              (parameter_effects-emitted st o st.pending_describe refl))
          (λ _.
            if_intro P (t == b'T') (λ _. correlated-Sends st a.msg st.correlate _ h)
              (λ _.
                if_intro P (t == b'D') (λ _. correlated-Sends st a.msg st.correlate _ h)
                  (λ _. rw (c, e) (server_flow-Sends st a.msg [] [] refl)))))
      (λ _. server_flow-Sends st a.msg [] [] refl)

pub run_effects-uncorrelated :
    (st : Shared) (es : List Effect) → st.correlate ≡ none → (run_effects st es).correlate ≡ none
unfolding run_effects run_effect
run_effects-uncorrelated st [] h = h
run_effects-uncorrelated st (write m ∷ es) h = run_effects-uncorrelated st es h
run_effects-uncorrelated st (flush ∷ es) h = run_effects-uncorrelated st es h
run_effects-uncorrelated st (send e ∷ es) h = run_effects-uncorrelated st es h
run_effects-uncorrelated st (update u ∷ es) h =
    run_effects-uncorrelated (run_effect st (update u)) es (apply_update-correlate u st ∙ rw h refl)

forget-none : (o : Option CorrelateState) (es : List Effect) → o ≡ none → forget_query o ++ es ≡ es
forget-none none es h = refl
forget-none (some cs) es h = cc

pub closing_turn :
    (setup : Setup) (st : Shared) (m : PgMessage) (t : ℕ) (error : Option (List ℕ))
    → st.correlate ≡ none
    → Answers setup.lossy m error
    → Sends (answer setup.session_id t error ∷ []) (server_turn setup st (message_at m t))
unfolding server_turn capture_effects emitted
closing_turn setup st m t none h e = rw (e, h) (server_flow-Sends _ _ _ _ refl)
closing_turn setup st m t (some text) h (e, x) = rw (x, e, h) (server_flow-Sends _ _ _ _ refl)

query-type : (sql : List ℕ) → (build_query_message sql).msg_type ≡ b'Q'
unfolding build_query_message
query-type sql = refl

pub query_turn-Sends :
    (setup : Setup) (st : Shared) (sql : List ℕ) (t : ℕ)
    → setup.implicit_capture ≡ none
    → st.correlate ≡ none
    → setup.lossy sql ≡ sql
    → Sends
        (query_start setup.session_id sql t ∷ [])
        (client_turn setup st (message_at (build_query_message sql) t))
unfolding client_turn decide emitted
query_turn-Sends setup st sql t i h l =
    let e = extract_query_sql-build_query_message setup.lossy sql l in
    let kind : (build_query_message sql).msg_type ≡ b'Q' = query-type sql in
    rw (e, kind, i, h) (refl, refl)
