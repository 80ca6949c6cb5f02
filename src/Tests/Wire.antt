-- ===== src/Tests/Wire.antt =====
-- Messages of the wire protocol.
use pg_retest.Prelude.{
  ℕ, ◌≡◌, ◌≤◌, refl, inl, ◌⊎◌, Option, none, some, List, [], ◌∷◌, ◌++◌, codes, arith,
}
use pg_retest.Proxy.Protocol.{PgMessage, message, read_message, write_message, to_be_bytes}
use pg_retest.Proxy.Protocol.Framing.{IsFramed, write_message-read_message}
use pg_retest.Proxy.Protocol.Extract.{build_error_response, extract_error_message}
use pg_retest.Proxy.Protocol.Extract.RoundTrip.{read_message-build_error_response}
use pg_retest.Proxy.Protocol.Startup.{encode_params, AreParams}
use pg_retest.Proxy.Protocol.Bind.{panics, bind_params}
use pg_retest.Proxy.Protocol.Bind.Values.{bind_params-negative}
use pg_retest.Tests.Data.{all_differ}

abbrev lossy : List ℕ → List ℕ
lossy s = s

-- A Sync message, with a byte behind it.
abbrev stream : List ℕ
stream = b'S' ∷ 0 ∷ 0 ∷ 0 ∷ 4 ∷ 7 ∷ []

abbrev sync : PgMessage
sync = record { msg_type = b'S'; payload = 0 ∷ 0 ∷ 0 ∷ 4 ∷ [] }

write_message-read_message_example :
    (write_message sync ++ 7 ∷ [] ≡ stream) × ((◌≡◌ {A = ℕ} 1000 0) ⊎ (4 ≤ 1000))
unfolding read_message
write_message-read_message_example =
    write_message-read_message stream 1000 sync (7 ∷ []) refl
      (λ e. (let no : ⊥ = omega (arith, e) in no))

sync-IsFramed : IsFramed sync
unfolding to_be_bytes
sync-IsFramed = record {
  typed = λ e. (let no : ⊥ = omega (arith, e) in no);
  framed = ([], refl);
  short = omega arith;
}

read_message-build_error_response_example :
    (m : PgMessage) × (read_message
        (build_error_response (codes "FATAL") (codes "53300") (codes "no") ++ 9 ∷ [])
        0
      ≡ message m (9 ∷ []))
    × (extract_error_message lossy m ≡ some (codes "no"))
read_message-build_error_response_example =
    read_message-build_error_response lossy (codes "FATAL") (codes "53300") (codes "no") (9 ∷ []) 0
      (all_differ 0 (codes "FATAL") refl) (all_differ 0 (codes "53300") refl)
      (all_differ 0 (codes "no") refl) (omega arith) (inl refl)

abbrev params : List (List ℕ × List ℕ)
params = (codes "user", codes "eve") ∷ (codes "database", codes "shop") ∷ []

abbrev startup : PgMessage
startup = record { msg_type = 0; payload = 0 ∷ 0 ∷ 0 ∷ 31 ∷ 0 ∷ 3 ∷ 0 ∷ 0 ∷ encode_params params }

params-AreParams : AreParams params
params-AreParams = (
  (λ e. cc),
  all_differ 0 (codes "user") refl,
  all_differ 0 (codes "eve") refl,
  ((λ e. cc), all_differ 0 (codes "database") refl, all_differ 0 (codes "shop") refl, tt),
)

-- The bytes of a Bind message from some position on: a null and a text.
abbrev values : List (Option (List ℕ))
values = none ∷ some (codes "eve") ∷ []

-- The length -2, with four bytes before it.
bind_params-negative_example : bind_params (0 ∷ 0 ∷ 0 ∷ 0 ∷ 255 ∷ 255 ∷ 255 ∷ 254 ∷ []) 1 4 ≡ panics
bind_params-negative_example =
    bind_params-negative (0 ∷ 0 ∷ 0 ∷ 0 ∷ 255 ∷ 255 ∷ 255 ∷ 254 ∷ []) 0 4 (omega arith)
      (omega arith) (omega arith) (omega arith) (omega arith)
