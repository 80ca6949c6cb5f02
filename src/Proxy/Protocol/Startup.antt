-- ===== src/Proxy/Protocol/Startup.antt =====
-- src/proxy/protocol.rs: the first message of a connection. `lossy` is `String::from_utf8_lossy`.
use pg_retest.Prelude.{
  ℕ, ◌≡◌, ◌≢◌, refl, ap, ◌∙◌, false, Option, none, some, List, [], ◌∷◌, ◌++◌, arith, ltb, ◌==◌,
  if◌then◌else◌, length, drop, length-append, drop-append, bytes_eq, codes, subst,
}
use pg_retest.Proxy.Protocol.{PgMessage, body, u32_from}
use pg_retest.Proxy.Protocol.Extract.RoundTrip.{NoNul}

pub data StartupType : Type 0 where
  ssl_request cancel_request startup_message unknown : StartupType

abbrev ssl_request_code : ℕ
ssl_request_code = 80877103

abbrev cancel_request_code : ℕ
cancel_request_code = 80877102

abbrev protocol_version_3 : ℕ
protocol_version_3 = 196608

unfoldable pub classify_startup : PgMessage → StartupType
classify_startup m =
    let code = u32_from (drop 4 m.payload) in
    if ltb (length m.payload) 8
    then unknown
    else if code == ssl_request_code
    then ssl_request
    else if code == cancel_request_code
    then cancel_request
    else if code == protocol_version_3
    then startup_message
    else unknown

abbrev cons_head : ℕ → List (List ℕ) → List (List ℕ)
cons_head b [] = (b ∷ []) ∷ []
cons_head b (s ∷ ss) = (b ∷ s) ∷ ss

-- `split(|&b| b == 0)`
unfoldable pub split_nul : List ℕ → List (List ℕ)
split_nul [] = [] ∷ []
split_nul (b ∷ s) = if b == 0 then [] ∷ split_nul s else cons_head b (split_nul s)

-- The user and the database that have been found.
pub record Params : Type 0 where
  pub user : Option (List ℕ)
  pub database : Option (List ℕ)

module _ (lossy : List ℕ → List ℕ) where
  unfoldable pub set_param : Params → List ℕ → List ℕ → Params
  set_param p key value =
      if bytes_eq key (codes "user")
      then record p { user = some (lossy value) }
      else if bytes_eq key (codes "database")
      then record p { database = some (lossy value) }
      else p

  unfoldable pub param_loop : Params → List (List ℕ) → Params
  unfolding set_param
  param_loop p [] = p
  param_loop p ([] ∷ rest) = p
  param_loop p (key ∷ []) = p
  param_loop p (key ∷ value ∷ rest) = param_loop (set_param p key value) rest

  unfoldable pub parse_startup_params : PgMessage → Params
  unfolding param_loop split_nul
  parse_startup_params m =
      let start : Params = record { user = none; database = none } in
      if ltb (length (body m)) 4 then start else param_loop start (split_nul (drop 4 (body m)))

  abbrev pub set_all : Params → List (List ℕ × List ℕ) → Params
  set_all p [] = p
  set_all p ((key, value) ∷ ps) = set_all (set_param p key value) ps

-- The parameters of a startup message, as a client writes them behind the version.
abbrev pub encode_params : List (List ℕ × List ℕ) → List ℕ
encode_params [] = 0 ∷ []
encode_params ((key, value) ∷ ps) = key ++ 0 ∷ (value ++ 0 ∷ encode_params ps)

-- Keys and values without null bytes, and no empty key.
abbrev pub AreParams : List (List ℕ × List ℕ) → Type 0
AreParams [] = Unit
AreParams ((key, value) ∷ ps) = (key ≢ []) × NoNul key × NoNul value × AreParams ps

split_nul-field : (s rest : List ℕ) → NoNul s → split_nul (s ++ 0 ∷ rest) ≡ s ∷ split_nul rest
unfolding split_nul
split_nul-field [] rest h = refl
split_nul-field (b ∷ s) rest h =
    let not_nul : (b == 0) ≡ false = ground (arith, h.0) in
    rw (not_nul, split_nul) (rw (split_nul-field s rest h.1) refl)

module _ (lossy : List ℕ → List ℕ) where
  param_loop-encode :
      (p : Params) (ps : List (List ℕ × List ℕ))
      → AreParams ps
      → param_loop lossy p (split_nul (encode_params ps)) ≡ set_all lossy p ps
  unfolding param_loop split_nul
  param_loop-encode p [] h = refl
  param_loop-encode p (([], value) ∷ ps) h = absurd (h.0 refl)
  param_loop-encode p ((b ∷ key, value) ∷ ps) (ne, hk, hv, hs) =
      ap (param_loop lossy p) (
        split_nul-field (b ∷ key) (value ++ 0 ∷ encode_params ps) hk
        ∙ ap (λ r. (b ∷ key) ∷ r) (split_nul-field value (encode_params ps) hv))
      ∙ param_loop-encode (set_param lossy p (b ∷ key) value) ps hs

  -- A startup message that carries a version of four bytes and well-formed parameters is read as the
  -- parameters one after the other, so that the last user and the last database count.
  pub parse_startup_params-encode :
      (m : PgMessage) (version : List ℕ) (ps : List (List ℕ × List ℕ))
      → length version ≡ 4
      → body m ≡ version ++ encode_params ps
      → AreParams ps
      → parse_startup_params lossy m ≡ set_all lossy (record { user = none; database = none }) ps
  unfolding parse_startup_params
  parse_startup_params-encode m version ps four content h =
      let start : Params = record { user = none; database = none } in
      let long : ltb (length (version ++ encode_params ps)) 4 ≡ false =
        ground (arith, length-append version (encode_params ps)) in
      let tail : drop 4 (version ++ encode_params ps) ≡ encode_params ps =
        subst (λ n. drop n (version ++ encode_params ps) ≡ encode_params ps) four
          (drop-append version (encode_params ps)) in
      ap (λ s. if ltb (length s) 4 then start else param_loop lossy start (split_nul (drop 4 s)))
        content
      ∙ rw (long, tail) (param_loop-encode start ps h)
