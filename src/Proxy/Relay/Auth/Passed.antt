-- ===== src/Proxy/Relay/Auth/Passed.antt =====
-- The authentication phase passes on what it reads.
use mathlib.Core.List.{append_assoc}
use pg_retest.Prelude.{
  ℕ, zero, suc, ◌<◌, ◌≡◌, ◌≢◌, refl, ap, ◌∙◌, ◌⊎◌, inl, inr, Bool, true, false, List, [], ◌∷◌, ◌++◌,
  ◌==◌, if◌then◌else◌, length, All, Bool-cases, arith,
}
use pg_retest.Proxy.Protocol.{
  PgMessage, Read, message, closed, failed, ReadError, read_message, write_message,
}
use pg_retest.Proxy.Protocol.Framing.{write_message-read_message, read_message-shorter}
use pg_retest.Proxy.Relay.Auth.{
  AuthOutcome, ready, lost, out_of_fuel, broken, AuthRun, expects_response, relay_answer,
  relay_auth, ended, to_client_first, to_server_first,
}

-- The bytes that are written for messages.
abbrev pub bytes_of : List PgMessage → List ℕ
bytes_of [] = []
bytes_of (m ∷ ms) = write_message m ++ bytes_of ms

abbrev pub Typed : List PgMessage → Type 0
Typed = All (λ (m : PgMessage). m.msg_type ≢ 0)

abbrev is_empty : List PgMessage → Bool
is_empty [] = true
is_empty (m ∷ ms) = false

-- The last message, and no other, is ReadyForQuery.
abbrev pub ready_last : List PgMessage → Bool
ready_last [] = false
ready_last (m ∷ ms) = if m.msg_type == b'Z' then is_empty ms else ready_last ms

-- The messages that the client has to answer.
abbrev pub count_requests : List PgMessage → ℕ
count_requests [] = 0
count_requests (m ∷ ms) = if expects_response m then suc (count_requests ms) else count_requests ms

-- What is written to the client and what is left are the bytes of the server, and the other way
-- round; the phase has ended, and where it has succeeded, ReadyForQuery was the last message of the
-- server, and each of its requests has been answered by one message.
pub record Passed (server client : List ℕ) (r : AuthRun) : Type 0 where
  pub server_bytes : bytes_of r.to_client ++ r.server_left ≡ server
  pub client_bytes : bytes_of r.to_server ++ r.client_left ≡ client
  pub ends : r.outcome ≢ out_of_fuel
  pub succeeds : r.outcome ≡ ready → ready_last r.to_client ≡ true
  pub answered : r.outcome ≡ ready → length r.to_server ≡ count_requests r.to_client

Read-cases :
    (r : Read)
    → (r ≡ closed)
      ⊎ ((e : ReadError) × (r ≡ failed e))
      ⊎ ((m : PgMessage) × (left : List ℕ) × (r ≡ message m left))
Read-cases closed = inl refl
Read-cases (failed e) = inr (inl (e, refl))
Read-cases (message m left) = inr (inr (m, left, refl))

-- One message of a stream, with the bytes that follow.
glue :
    (m : PgMessage) (ms : List PgMessage) (max : ℕ) (s rest left : List ℕ)
    → read_message s max ≡ message m rest
    → m.msg_type ≢ 0
    → bytes_of ms ++ left ≡ rest
    → bytes_of (m ∷ ms) ++ left ≡ s
glue m ms max s rest left e typed h =
    append_assoc (write_message m) (bytes_of ms) left
    ∙ ap (λ (t : List ℕ). write_message m ++ t) h
    ∙ (write_message-read_message s max m rest e typed).0

ended-Passed :
    (o : AuthOutcome) (server client : List ℕ)
    → o ≢ out_of_fuel
    → o ≢ ready
    → Passed server client (ended o server client)
ended-Passed o server client h k = record {
  server_bytes = refl;
  client_bytes = refl;
  ends = h;
  succeeds = λ e. absurd (k e);
  answered = λ e. absurd (k e);
}

module _ (max : ℕ) (m : PgMessage) (server rest : List ℕ)
    (e : read_message server max ≡ message m rest) where
  -- ReadyForQuery ends the phase.
  ready-Passed :
      (client : List ℕ)
      → m.msg_type ≢ 0
      → (m.msg_type == b'Z') ≡ true
      → expects_response m ≡ false
      → Passed server client (to_client_first m (ended ready rest client))
  ready-Passed client typed z silent = record {
    server_bytes = glue m [] max server rest rest e typed refl;
    client_bytes = refl;
    ends = λ x. cc;
    succeeds = λ x. rw z refl;
    answered = λ x. rw silent refl;
  }

  -- Another message that needs no answer.
  silent-Passed :
      (client : List ℕ) (r : AuthRun)
      → m.msg_type ≢ 0
      → (m.msg_type == b'Z') ≡ false
      → expects_response m ≡ false
      → Passed rest client r
      → Passed server client (to_client_first m r)
  silent-Passed client r typed z silent p = record {
    server_bytes = glue m r.to_client max server rest r.server_left e typed p.server_bytes;
    client_bytes = p.client_bytes;
    ends = p.ends;
    succeeds = λ x. rw z (p.succeeds x);
    answered = λ x. rw silent (p.answered x);
  }

  -- A request, and its answer.
  asked-Passed :
      (client left : List ℕ) (n : PgMessage) (r : AuthRun)
      → m.msg_type ≢ 0
      → n.msg_type ≢ 0
      → read_message client max ≡ message n left
      → (m.msg_type == b'Z') ≡ false
      → expects_response m ≡ true
      → Passed rest left r
      → Passed server client (to_client_first m (to_server_first n r))
  asked-Passed client left n r typed typed' e' z asks p = record {
    server_bytes = glue m r.to_client max server rest r.server_left e typed p.server_bytes;
    client_bytes = glue n r.to_server max client left r.client_left e' typed' p.client_bytes;
    ends = p.ends;
    succeeds = λ x. rw z (p.succeeds x);
    answered = λ x. rw asks (ap suc (p.answered x));
  }

  -- A request that is not answered.
  unanswered-Passed :
      (client : List ℕ) (o : AuthOutcome)
      → m.msg_type ≢ 0
      → o ≢ out_of_fuel
      → o ≢ ready
      → Passed server client (to_client_first m (ended o rest client))
  unanswered-Passed client o typed h k = record {
    server_bytes = glue m [] max server rest rest e typed refl;
    client_bytes = refl;
    ends = h;
    succeeds = λ x. absurd (k x);
    answered = λ x. absurd (k x);
  }

ready-expects : (m : PgMessage) → (m.msg_type == b'Z') ≡ true → expects_response m ≡ false
unfolding expects_response
ready-expects m z =
    let other : (m.msg_type == b'R') ≡ false = ground arith in rw (other, expects_response) refl

-- Whatever the two sides send, with more fuel than the server sends bytes and no message of type 0:
-- the phase ends; every byte is passed on unchanged or left in its stream; and where it succeeds, the
-- last message passed to the client, and no earlier one, is ReadyForQuery, and the server was sent as
-- many messages as it asked for.
pub relay_auth-Passed :
    (fuel max : ℕ) (server client : List ℕ)
    → length server < fuel
    → Typed (relay_auth fuel max server client).to_client
    → Typed (relay_auth fuel max server client).to_server
    → Passed server client (relay_auth fuel max server client)
unfolding relay_auth relay_answer
relay_auth-Passed zero max server client h t t' = absurd (omega arith)
relay_auth-Passed (suc n) max server client h t t' = elim (Read-cases (read_message server max)) [
  | inl e ↦ rw (e, relay_auth) (ended-Passed lost server client (λ x. cc) (λ x. cc))
  | inr (inl (x, e)) ↦
      rw (e, relay_auth) (ended-Passed (broken x) server client (λ y. cc) (λ y. cc))
  | inr (inr (m, rest, e)) ↦
      let shorter = read_message-shorter server max m rest e in
      elim (Bool-cases (m.msg_type == b'Z')) [
        | inl z ↦
            let typed = rw (e, relay_auth, z) at t in
            rw (e, relay_auth, z)
              (ready-Passed max m server rest e client typed.0 z (ready-expects m z))
        | inr z ↦ elim (Bool-cases (expects_response m)) [
          | inr silent ↦
              let typed = rw (e, relay_auth, z, silent) at t in
              let typed' = rw (e, relay_auth, z, silent) at t' in
              rw (e, relay_auth, z, silent)
                (silent-Passed max m server rest e client (relay_auth n max rest client) typed.0 z
                  silent (relay_auth-Passed n max rest client (omega arith) typed.1 typed'))
          | inl asks ↦ elim (Read-cases (read_message client max)) [
            | inl e' ↦
                let typed = rw (e, relay_auth, z, asks, e', relay_answer) at t in
                rw (e, relay_auth, z, asks, e', relay_answer)
                  (unanswered-Passed max m server rest e client lost typed.0 (λ x. cc) (λ x. cc))
            | inr (inl (x, e')) ↦
                let typed = rw (e, relay_auth, z, asks, e', relay_answer) at t in
                rw (e, relay_auth, z, asks, e', relay_answer)
                  (unanswered-Passed max m server rest e client (broken x) typed.0 (λ y. cc)
                    (λ y. cc))
            | inr (inr (r, left, e')) ↦
                let typed = rw (e, relay_auth, z, asks, e', relay_answer) at t in
                let typed' = rw (e, relay_auth, z, asks, e', relay_answer) at t' in
                rw (e, relay_auth, z, asks, e', relay_answer)
                  (asked-Passed max m server rest e client left r (relay_auth n max rest left)
                    typed.0 typed'.0 e' z asks
                    (relay_auth-Passed n max rest left (omega arith) typed.1 typed'.1))
          ]
        ]
      ]
]
