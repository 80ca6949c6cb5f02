-- ===== src/Proxy/Relay/Auth.antt =====
-- src/proxy/connection.rs, `relay_auth`: the authentication phase of a connection. Both streams are
-- bytes; the fuel counts the messages of the server.
pub mod Passed
use pg_retest.Prelude.{
  ℕ, zero, suc, Bool, true, false, ◌||◌, List, [], ◌∷◌, ◌++◌, ltb, ◌==◌, if◌then◌else◌, length,
}
use pg_retest.Proxy.Protocol.{
  PgMessage, body, u32_from, Read, message, closed, failed, ReadError, read_message, write_message,
}

-- `Ok(true)`, `Ok(false)`, an error, and the end of the fuel.
pub data AuthOutcome : Type 0 where
  ready lost out_of_fuel : AuthOutcome
  broken : ReadError → AuthOutcome

-- What was written to each side, and what is left of the streams.
pub record AuthRun : Type 0 where
  pub outcome : AuthOutcome
  pub to_client : List PgMessage
  pub to_server : List PgMessage
  pub server_left : List ℕ
  pub client_left : List ℕ

-- An authentication request that the client has to answer: neither AuthenticationOk nor
-- AuthenticationSASLFinal.
unfoldable pub expects_response : PgMessage → Bool
expects_response m =
    if m.msg_type == b'R'
    then (if ltb (length (body m)) 4
        then false
        else if u32_from (body m) == 0 || u32_from (body m) == 12
        then false
        else true)
    else false

abbrev pub ended : AuthOutcome → (server client : List ℕ) → AuthRun
ended o server client = record {
  outcome = o;
  to_client = [];
  to_server = [];
  server_left = server;
  client_left = client;
}

abbrev pub to_client_first : PgMessage → AuthRun → AuthRun
to_client_first m r = record r { to_client = m ∷ r.to_client }

abbrev pub to_server_first : PgMessage → AuthRun → AuthRun
to_server_first m r = record r { to_server = m ∷ r.to_server }

-- The answer of the client, behind which the loop goes on with `next`.
unfoldable pub relay_answer : Read → (server client : List ℕ) → (List ℕ → AuthRun) → AuthRun
relay_answer closed server client next = ended lost server client
relay_answer (failed e) server client next = ended (broken e) server client
relay_answer (message m rest) server client next = to_server_first m (next rest)

unfoldable pub relay_auth : (fuel max_message_size : ℕ) → (server client : List ℕ) → AuthRun
unfolding read_message expects_response relay_answer
relay_auth zero max server client = ended out_of_fuel server client
relay_auth (suc n) max server client = elim (read_message server max) [
  | closed ↦ ended lost server client
  | failed e ↦ ended (broken e) server client
  | message m rest ↦ to_client_first m (elim (m.msg_type == b'Z') [
    | true ↦ ended ready rest client
    | false ↦ elim (expects_response m) [
      | true ↦
          relay_answer (read_message client max) rest client (λ left. relay_auth n max rest left)
      | false ↦ relay_auth n max rest client
    ]
  ])
]
