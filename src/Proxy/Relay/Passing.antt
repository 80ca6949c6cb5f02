-- ===== src/Proxy/Relay/Passing.antt =====
-- src/proxy/connection.rs: what a session writes, from what its turns write.
use mathlib.Core.List.{append_assoc}
use mathlib.Core.Logic.{◌⊎◌}
use pg_retest.Prelude.{
  ◌≡◌, ◌≢◌, refl, sym, ap, ◌∙◌, subst, Bool-cases, inl, inr, List, [], ◌∷◌, ◌++◌, ◌==◌,
  if◌then◌else◌, map,
}
use pg_retest.Proxy.Protocol.{PgMessage}
use pg_retest.Proxy.Relay.{
  Setup, Shared, Effect, write, flush, send, update, Arrival, Output, message, goes_on, panicked,
  run_effects, written,
}
use pg_retest.Proxy.Relay.Client.{client_turn}
use pg_retest.Proxy.Relay.Server.{server_turn}
use pg_retest.Proxy.Relay.Connection.{
  Incoming, from_client, from_server, overtaken, Traffic, proceed, until_flush, behind_flush,
  by_client, serve, run_session,
}
use pg_retest.Proxy.Relay.Turns.{Turned, ending, at_once}
use pg_retest.Proxy.Relay.Delivery.{when_ready, server_turn-Served}

abbrev arrived : List Arrival → List PgMessage
arrived = map (λ (a : Arrival). a.msg)

-- The messages of each side, up to the one with which the client ends the session.
abbrev pub client_messages : List Incoming → List PgMessage
client_messages [] = []
client_messages (from_client a ∷ rest) =
    let more = client_messages rest in a.msg ∷ (if a.msg.msg_type == b'X' then [] else more)
client_messages (from_server a ∷ rest) = client_messages rest
client_messages (overtaken a arrivals ∷ rest) =
    let more = client_messages rest in a.msg ∷ (if a.msg.msg_type == b'X' then [] else more)

abbrev pub server_messages : List Incoming → List PgMessage
server_messages [] = []
server_messages (from_client a ∷ rest) =
    let more = server_messages rest in if a.msg.msg_type == b'X' then [] else more
server_messages (from_server a ∷ rest) = a.msg ∷ server_messages rest
server_messages (overtaken a arrivals ∷ rest) =
    let more = server_messages rest in
    arrived arrivals ++ (if a.msg.msg_type == b'X' then [] else more)

-- The outputs for one message after the other.
abbrev pub each : (PgMessage → List Output) → List PgMessage → List Output
each f [] = []
each f (m ∷ ms) = f m ++ each f ms

written-split :
    (es : List Effect) → written (until_flush es) ++ written (behind_flush es) ≡ written es
unfolding written until_flush behind_flush
written-split [] = refl
written-split (flush ∷ es) = refl
written-split (write m ∷ es) = ap (λ (l : List Output). message m ∷ l) (written-split es)
written-split (send e ∷ es) = written-split es
written-split (update u ∷ es) = written-split es

-- Two views of the outputs, one for each side, that go through them one by one, and what the turns
-- keep of the shared state.
module _ {A B : Type 0} (setup : Setup) (q : List Output → List A) (p : List Output → List B)
    (q-append : (x y : List Output) → q (x ++ y) ≡ q x ++ q y)
    (p-append : (x y : List Output) → p (x ++ y) ≡ p x ++ p y) (Inv : Shared → Type 0)
    (Keeps : List Effect → Type 0)
    (keeps : (st : Shared) (es : List Effect) → Keeps es → Inv st → Inv (run_effects st es))
    (split : (es : List Effect) → Keeps es → Keeps (until_flush es) × Keeps (behind_flush es))
    (client : (st : Shared) (a : Arrival)
      → Turned
          (λ es. (q (written es) ≡ q (at_once a.msg)) × Keeps es)
          a.msg
          (client_turn setup st a))
    (server : (st : Shared) (a : Arrival)
      → Inv st
      → let t = server_turn setup st a in
        (t.flow ≡ panicked)
        ⊎ ((p (written t.effects) ≡ p (when_ready a.msg))
            × (t.flow ≡ goes_on)
            × Keeps t.effects)) where
  -- A session that does not panic shows this to the server, and of these messages to the client.
  abbrev Passes : List A → List PgMessage → Traffic → Type 0
  Passes xs s t = t.flow ≢ panicked → (q t.to_server ≡ xs) × (p t.to_client ≡ p (each when_ready s))

  serve-Passes :
      (st : Shared) (arrivals : List Arrival) (next : Shared → Traffic) (xs : List A)
      (s : List PgMessage)
      → Inv st
      → ((st' : Shared) → Inv st' → Passes xs s (next st'))
      → Passes xs (arrived arrivals ++ s) (serve setup st arrivals next)
  unfolding serve
  serve-Passes st [] next xs s i k = k st i
  serve-Passes st (a ∷ arrivals) next xs s i k = elim (server st a i) [
    | inl bad ↦ λ f. absurd (f (rw bad refl))
    | inr (w, e, c) ↦
        let t = server_turn setup st a in
        let rest = serve setup (run_effects st t.effects) arrivals next in
        rw e (λ f.
          let (up, down) =
            serve-Passes (run_effects st t.effects) arrivals next xs s (keeps st t.effects c i) k
              f in
          (
            up,
            p-append (written t.effects) rest.to_client
                ∙ ap (λ (l : List B). l ++ p rest.to_client) w
                ∙ ap (λ (l : List B). p (when_ready a.msg) ++ l) down
                ∙ sym (p-append (when_ready a.msg) (each when_ready (arrived arrivals ++ s))),
          ))
  ]

  serve-panicked :
      (st : Shared) (arrivals : List Arrival) (next : Shared → Traffic)
      → ((st' : Shared) → (next st').flow ≡ panicked)
      → (serve setup st arrivals next).flow ≡ panicked
  unfolding serve
  serve-panicked st [] next k = k st
  serve-panicked st (a ∷ arrivals) next k = elim (server_turn-Served setup st a) [
    | inl bad ↦ rw bad refl
    | inr (w, e, c) ↦
        rw e (serve-panicked (run_effects st (server_turn setup st a).effects) arrivals next k)
  ]

  -- Behind a turn of the client that ends as it should.
  proceed-Passes :
      (m : PgMessage) (st : Shared) (next : Shared → Traffic) (c s : List PgMessage)
      → Passes (q (each at_once c)) s (next st)
      → Passes
          (q (each at_once (if m.msg_type == b'X' then [] else c)))
          (if m.msg_type == b'X' then [] else s)
          (proceed (ending m) st next)
  proceed-Passes m st next c s h = elim (Bool-cases (m.msg_type == b'X')) [
    | inl x ↦ rw x (λ f. (refl, refl))
    | inr other ↦ rw other h
  ]

  on_client :
      (es : List Effect) (xs : List A) (s : List PgMessage) (t : Traffic)
      → Passes xs s t
      → Passes (q (written es) ++ xs) s (by_client es t)
  on_client es xs s t h f =
      let (up, down) = h f in
      (q-append (written es) t.to_server ∙ ap (λ (l : List A). q (written es) ++ l) up, down)

  -- A message of the client in front.
  first_message :
      (m : PgMessage) (ms : List PgMessage) (es : List Effect)
      → q (written es) ≡ q (at_once m)
      → q (written es) ++ q (each at_once ms) ≡ q (each at_once (m ∷ ms))
  first_message m ms es h =
      ap (λ (l : List A). l ++ q (each at_once ms)) h ∙ sym (q-append (at_once m) (each at_once ms))

  two_parts :
      (es : List Effect) (xs : List A)
      → q (written (until_flush es)) ++ (q (written (behind_flush es)) ++ xs) ≡ q (written es) ++ xs
  two_parts es xs =
      sym (append_assoc (q (written (until_flush es))) (q (written (behind_flush es))) xs)
      ∙ ap (λ (l : List A). l ++ xs)
          (sym (q-append (written (until_flush es)) (written (behind_flush es)))
            ∙ ap q (written-split es))

  -- So the whole session shows each side the messages of the other.
  pub run_session-Passes :
      (st : Shared) (incoming : List Incoming)
      → Inv st
      → Passes
          (q (each at_once (client_messages incoming)))
          (server_messages incoming)
          (run_session setup st incoming)
  unfolding run_session
  run_session-Passes st [] i = λ f. (refl, refl)
  run_session-Passes st (from_server a ∷ rest) i =
      serve-Passes st (a ∷ []) (λ st'. run_session setup st' rest) _ (server_messages rest) i
        (λ st' i'. run_session-Passes st' rest i')
  run_session-Passes st (from_client a ∷ rest) i = elim (client st a) [
    | inl bad ↦ λ f. absurd (f (rw bad refl))
    | inr ((w, c), e) ↦
        let es = (client_turn setup st a).effects in
        let st' = run_effects st es in
        let more = if a.msg.msg_type == b'X' then [] else client_messages rest in
        let s = if a.msg.msg_type == b'X' then [] else server_messages rest in
        let next = λ (st : Shared). run_session setup st rest in
        let tail =
          proceed-Passes a.msg st' next (client_messages rest) (server_messages rest)
            (run_session-Passes st' rest (keeps st es c i)) in
        rw e (
          subst (λ (xs : List A). Passes xs s (by_client es (proceed (ending a.msg) st' next)))
            (first_message a.msg more es w)
            (on_client es (q (each at_once more)) s (proceed (ending a.msg) st' next) tail))
  ]
  run_session-Passes st (overtaken a arrivals ∷ rest) i = elim (client st a) [
    | inl bad ↦ λ f. absurd (f (serve-panicked _ arrivals _ (λ st'. rw bad refl)))
    | inr ((w, c), e) ↦
        let es = (client_turn setup st a).effects in
        let first = until_flush es in
        let behind = behind_flush es in
        let (k, l) = split es c in
        let more = if a.msg.msg_type == b'X' then [] else client_messages rest in
        let s = if a.msg.msg_type == b'X' then [] else server_messages rest in
        let next = λ (st : Shared). run_session setup st rest in
        let finish = λ (st' : Shared).
          by_client behind (proceed (ending a.msg) (run_effects st' behind) next) in
        rw e (
          subst
            (λ (xs : List A).
              Passes xs (arrived arrivals ++ s)
                (by_client first (serve setup (run_effects st first) arrivals finish)))
            (two_parts es (q (each at_once more)) ∙ first_message a.msg more es w)
            (on_client first (q (written behind) ++ q (each at_once more)) (arrived arrivals ++ s)
              (serve setup (run_effects st first) arrivals finish)
              (serve-Passes (run_effects st first) arrivals finish _ s (keeps st first k i)
                (λ st' i'.
                  on_client behind (q (each at_once more)) s
                    (proceed (ending a.msg) (run_effects st' behind) next)
                    (proceed-Passes a.msg (run_effects st' behind) next (client_messages rest)
                      (server_messages rest)
                      (run_session-Passes (run_effects st' behind) rest
                        (keeps st' behind l i')))))))
  ]
