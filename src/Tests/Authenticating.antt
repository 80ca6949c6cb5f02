-- ===== src/Tests/Authenticating.antt =====
-- The authentication phase with a password in clear text.
use pg_retest.Prelude.{ℕ, ◌≡◌, refl, List, [], ◌∷◌, arith}
use pg_retest.Proxy.Relay.Auth.{relay_auth, ready, lost}
use pg_retest.Proxy.Relay.Auth.Passed.{Passed, relay_auth-Passed}

-- A request for a password, AuthenticationOk, ReadyForQuery, and a byte more.
abbrev server : List ℕ
server =
    b'R' ∷ 0 ∷ 0 ∷ 0 ∷ 8 ∷ 0 ∷ 0 ∷ 0 ∷ 3 ∷ b'R' ∷ 0 ∷ 0 ∷ 0 ∷ 8 ∷ 0 ∷ 0 ∷ 0 ∷ 0 ∷ b'Z' ∷ 0 ∷ 0 ∷ 0
    ∷ 5 ∷ b'I' ∷ 1 ∷ []

-- The password, and a byte more.
abbrev client : List ℕ
client = b'p' ∷ 0 ∷ 0 ∷ 0 ∷ 7 ∷ b'p' ∷ b'w' ∷ 0 ∷ 2 ∷ []

relay_auth-Passed_example : Passed server client (relay_auth 30 100 server client)
unfolding relay_auth
relay_auth-Passed_example =
    relay_auth-Passed 30 100 server client (omega arith)
      ((λ e. omega (arith, e)), ((λ e. omega (arith, e)), ((λ e. omega (arith, e)), tt)))
      ((λ e. omega (arith, e)), tt)

auth_run : (relay_auth 30 100 server client).outcome ≡ ready
unfolding relay_auth
auth_run = refl

-- Without an answer the connection is lost.
auth_lost : (relay_auth 30 100 server []).outcome ≡ lost
unfolding relay_auth
auth_lost = refl
