-- ===== src/Proxy/Relay/Transparent.antt =====
-- src/proxy/connection.rs: what comes in on one side goes out on the other.
use pg_retest.Prelude.{
  ℕ, ◌≡◌, ◌≢◌, refl, sym, ap, ◌∙◌, Bool, true, false, inl, inr, Option, none, some, List, [], ◌∷◌,
  ◌++◌, ◌==◌, Bool-cases, ==_iff,
}
use pg_retest.Proxy.Protocol.{PgMessage}
use pg_retest.Proxy.Protocol.Extract.{build_query_message}
use pg_retest.Proxy.Relay.{
  Setup, Shared, CorrelateState, ImplicitCapture, Effect, write, flush, send, update, Arrival,
  Output, message, flushed, panicked, written,
}
use pg_retest.Proxy.Relay.Client.{client_turn, Decision, as_is, injected, decide, query_turn}
use pg_retest.Proxy.Relay.Server.{suppressing}
use pg_retest.Proxy.Relay.Connection.{Incoming, run_session, until_flush, behind_flush}
use pg_retest.Proxy.Relay.Turns.{
  Turned, Forwards, KeepsType, calm, at_once, client_turn-Turned, query-Forwards,
}
use pg_retest.Proxy.Relay.Delivery.{
  non_rows, is_row, when_ready, server_turn-Served, run_effects-suppressing, calm-append, calm-tail,
}
use pg_retest.Proxy.Relay.Passing.{client_messages, server_messages, each, run_session-Passes}

as_is-Forwards :
    (setup : Setup) (st : Shared) (a : Arrival) (sql : List ℕ) (o : Option ImplicitCapture)
    → o ≡ none
    → Forwards a.msg (query_turn setup st a sql (decide setup o sql)).effects
unfolding decide
as_is-Forwards setup st a sql none h =
    query-Forwards setup st a sql (setup.has_returning sql) st.correlate refl
as_is-Forwards setup st a sql (some ic) h = cc

plain-Turned :
    (setup : Setup) (st : Shared) (a : Arrival)
    → setup.implicit_capture ≡ none
    → Turned (Forwards a.msg) a.msg (client_turn setup st a)
plain-Turned setup st a h =
    client_turn-Turned setup st a (Forwards a.msg) (λ es f. f)
      (λ sql _. as_is-Forwards setup st a sql setup.implicit_capture h)

calm-cons :
    (e : Effect) (es : List Effect) → calm (e ∷ []) ≡ true → calm es ≡ true → calm (e ∷ es) ≡ true
calm-cons e es h k = calm-append (e ∷ []) es h k

-- Both parts of effects that do not begin to hold messages back do not.
calm-parts :
    (es : List Effect)
    → calm es ≡ true
    → (calm (until_flush es) ≡ true) × (calm (behind_flush es) ≡ true)
unfolding until_flush behind_flush
calm-parts [] h = (refl, refl)
calm-parts (flush ∷ es) h = (refl, h)
calm-parts (write m ∷ es) h = calm-parts es h
calm-parts (send e ∷ es) h = calm-parts es h
calm-parts (update u ∷ es) h =
    let (first, rest) = calm-tail (update u) es h in
    let (k, l) = calm-parts es rest in (calm-cons (update u) (until_flush es) first k, l)

-- A relay that injects no clause, and holds nothing back at first, is transparent, whether capture is
-- on or off at each message, whether it correlates or not, and whatever messages of the server come
-- in between: unless a task panics, every message of the client up to its last is written to the
-- server and flushed at once; every message of the server until then is written to the buffer of the
-- client, which is flushed behind each ReadyForQuery and at no other time; both unchanged and in
-- order.
pub run_session-transparent :
    (setup : Setup) (st : Shared) (incoming : List Incoming)
    → setup.implicit_capture ≡ none
    → suppressing st.correlate ≡ false
    → (run_session setup st incoming).flow ≢ panicked
    → ((run_session setup st incoming).to_server ≡ each at_once (client_messages incoming))
      × ((run_session setup st incoming).to_client ≡ each when_ready (server_messages incoming))
run_session-transparent setup st incoming h k f =
    run_session-Passes setup (λ (o : List Output). o) (λ (o : List Output). o) (λ x y. refl)
      (λ x y. refl) (λ (st : Shared). suppressing st.correlate ≡ false)
      (λ (es : List Effect). calm es ≡ true) (λ st es c i. run_effects-suppressing st es c i)
      calm-parts (λ st a. plain-Turned setup st a h)
      (λ st a i. elim (server_turn-Served setup st a) [
        | inl bad ↦ inl bad
        | inr (n, e, w) ↦ inr ((w i).0, e, (w i).1)
      ])
      st incoming k f

-- What a writer is given, without the contents of the messages.
abbrev pub output_types : List Output → List (Option ℕ)
output_types [] = []
output_types (message m ∷ os) = some m.msg_type ∷ output_types os
output_types (flushed ∷ os) = none ∷ output_types os

injected-KeepsType :
    (setup : Setup) (st : Shared) (a : Arrival) (sql text : List ℕ) (stealth : Bool)
    (cs : Option CorrelateState)
    → cs ≡ st.correlate
    → (a.msg.msg_type == b'Q') ≡ true
    → KeepsType a.msg (query_turn setup st a sql (injected text stealth)).effects
unfolding written build_query_message
injected-KeepsType setup st a sql text stealth none h q =
    rw (sym h) (build_query_message text, sym ((==_iff a.msg.msg_type b'Q').0 q), refl)
injected-KeepsType setup st a sql text false (some cs) h q =
    rw (sym h) (build_query_message text, sym ((==_iff a.msg.msg_type b'Q').0 q), refl)
injected-KeepsType setup st a sql text true (some cs) h q =
    rw (sym h) (build_query_message text, sym ((==_iff a.msg.msg_type b'Q').0 q), refl)

query-KeepsType :
    (setup : Setup) (st : Shared) (a : Arrival) (sql : List ℕ) (d : Decision)
    → (a.msg.msg_type == b'Q') ≡ true
    → KeepsType a.msg (query_turn setup st a sql d).effects
query-KeepsType setup st a sql (as_is b) q =
    (a.msg, refl, (query-Forwards setup st a sql b st.correlate refl).0)
query-KeepsType setup st a sql (injected text stealth) q =
    injected-KeepsType setup st a sql text stealth st.correlate refl q

KeepsType-types :
    (m : PgMessage) (es : List Effect)
    → KeepsType m es
    → output_types (written es) ≡ output_types (at_once m)
KeepsType-types m es (n, e, w) = ap output_types w ∙ ap (λ (t : ℕ). some t ∷ none ∷ []) e

any-Turned :
    (setup : Setup) (st : Shared) (a : Arrival)
    → Turned
        (λ es. (output_types (written es) ≡ output_types (at_once a.msg)) × Unit)
        a.msg
        (client_turn setup st a)
any-Turned setup st a =
    client_turn-Turned setup st a
      (λ es. (output_types (written es) ≡ output_types (at_once a.msg)) × Unit)
      (λ es f. (ap output_types f.0, tt))
      (λ sql q. (
        KeepsType-types a.msg _
            (query-KeepsType setup st a sql (decide setup setup.implicit_capture sql) q),
        tt,
      ))

types-append : (x y : List Output) → output_types (x ++ y) ≡ output_types x ++ output_types y
types-append [] y = refl
types-append (message m ∷ x) y =
    ap (λ (ts : List (Option ℕ)). some m.msg_type ∷ ts) (types-append x y)
types-append (flushed ∷ x) y = ap (λ (ts : List (Option ℕ)). none ∷ ts) (types-append x y)

non_rows-append : (x y : List Output) → non_rows (x ++ y) ≡ non_rows x ++ non_rows y
non_rows-append [] y = refl
non_rows-append (message m ∷ x) y = elim (Bool-cases (is_row m)) [
  | inl row ↦ rw row (non_rows-append x y)
  | inr other ↦ rw other (ap (λ (ms : List Output). message m ∷ ms) (non_rows-append x y))
]
non_rows-append (flushed ∷ x) y = ap (λ (ms : List Output). flushed ∷ ms) (non_rows-append x y)

-- Whatever is injected, held back and captured, and whatever messages of the server come in between:
-- unless a task panics, the server is sent, each at once, one message of the same type for each
-- message of the client up to its last, in order; and apart from rows and descriptions of rows the
-- buffer of the client is given every message of the server until then, in order, and is flushed
-- behind each ReadyForQuery and at no other time.
pub run_session-keeps_protocol :
    (setup : Setup) (st : Shared) (incoming : List Incoming)
    → (run_session setup st incoming).flow ≢ panicked
    → (output_types (run_session setup st incoming).to_server
        ≡ output_types (each at_once (client_messages incoming)))
      × (non_rows (run_session setup st incoming).to_client
          ≡ non_rows (each when_ready (server_messages incoming)))
run_session-keeps_protocol setup st incoming f =
    run_session-Passes setup output_types non_rows types-append non_rows-append
      (λ (st : Shared). Unit) (λ (es : List Effect). Unit) (λ st es c i. tt) (λ es c. (tt, tt))
      (λ st a. any-Turned setup st a)
      (λ st a i. elim (server_turn-Served setup st a) [
        | inl bad ↦ inl bad
        | inr (n, e, w) ↦ inr (n, e, tt)
      ])
      st incoming tt f
