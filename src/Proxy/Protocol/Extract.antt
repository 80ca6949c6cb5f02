-- ===== src/Proxy/Protocol/Extract.antt =====
-- src/proxy/protocol.rs: the content of messages. `lossy` is `String::from_utf8_lossy`, which gives
-- back bytes that are UTF-8.
pub mod RoundTrip
use mathlib.Core.Option
use pg_retest.Prelude.{
  ◌>>=◌, ℕ, zero, suc, ◌+◌, ◌-◌, ◌*◌, ◌%◌, ◌^◌, Bool, true, false, ◌||◌, ◌&&◌, not, Option, none,
  some, List, [], ◌∷◌, ◌++◌, ltb, leb, ◌==◌, if◌then◌else◌, length, take, drop, starts_with,
}
use pg_retest.Proxy.Protocol.{
  PgMessage, body, to_be_bytes, u16_from, u32_from, i16_as_usize, i32_as_usize,
}

-- `position(|&b| b == 0)`
unfoldable pub position_nul : List ℕ → Option ℕ
position_nul [] = none
position_nul (b ∷ s) = if b == 0 then some 0 else Option.map suc (position_nul s)

-- A field that ends in a null byte, and what follows.
unfoldable pub c_string : List ℕ → Option (List ℕ × List ℕ)
unfolding position_nul
c_string s = Option.map (λ n. (take n s, drop (n + 1) s)) (position_nul s)

-- `n` values of `width` bytes each.
unfoldable pub read_array : (List ℕ → ℕ) → ℕ → ℕ → List ℕ → List ℕ
read_array read width zero s = []
read_array read width (suc n) s = read s ∷ read_array read width n (drop width s)

unfoldable pub build_query_message : List ℕ → PgMessage
unfolding to_be_bytes
build_query_message sql = record {
  msg_type = b'Q';
  payload = to_be_bytes ((4 + length sql + 1) % 2 ^ 32) ++ (sql ++ 0 ∷ []);
}

-- Severity, severity, code and message, each behind its letter and ended by a null byte.
abbrev pub error_body : List ℕ → List ℕ → List ℕ → List ℕ
error_body severity code message =
    b'S'
    ∷ (severity ++ 0 ∷ b'V' ∷ (severity ++ 0 ∷ b'C' ∷ (code ++ 0 ∷ b'M' ∷ (message ++ 0 ∷ 0 ∷ []))))

unfoldable pub build_error_response : List ℕ → List ℕ → List ℕ → List ℕ
unfolding to_be_bytes
build_error_response severity code message =
    let content = error_body severity code message in
    b'E' ∷ (to_be_bytes ((length content + 4) % 2 ^ 32) ++ content)

-- The body without its last byte, if that is null.
strip_nul : List ℕ → List ℕ
strip_nul s = if starts_with (0 ∷ []) (drop (length s - 1) s) then take (length s - 1) s else s

pub data TxnState : Type 0 where
  idle in_transaction failed : TxnState

pub record ParseMessage : Type 0 where
  pub statement_name : List ℕ
  pub sql : List ℕ
  pub param_oids : List ℕ

-- The OIDs behind the SQL text; none if the count does not fit the bytes.
parse_oids : List ℕ → List ℕ
unfolding read_array
parse_oids s =
    let count = i16_as_usize (u16_from s) in
    if ltb (length s) 2
    then []
    else if ltb (length s) ((2 + count * 4) % 2 ^ 64)
    then []
    else read_array u32_from 4 count (drop 2 s)

abbrev only {ℓ} : {A : Type ℓ} → ℕ → PgMessage → Option A → Option A
only t m r = if m.msg_type == t then r else none

module _ (lossy : List ℕ → List ℕ) where
  unfoldable pub extract_query_sql : PgMessage → Option (List ℕ)
  unfolding strip_nul
  extract_query_sql m = only b'Q' m (some (lossy (strip_nul (body m))))

  unfoldable pub extract_parse : PgMessage → Option ParseMessage
  unfolding c_string parse_oids
  extract_parse m = only b'P' m do
    (name, rest) ← c_string (body m)
    (sql, after) ← c_string rest
    some (record { statement_name = lossy name; sql = lossy sql; param_oids = parse_oids after })

  unfoldable pub extract_describe_statement : PgMessage → Option (List ℕ)
  unfolding c_string
  extract_describe_statement m = only b'D' m (
      if starts_with (b'S' ∷ []) (body m)
      then (do (name, rest) ← c_string (drop 1 (body m)); some (lossy name))
      else none)

  unfoldable pub extract_command_complete : PgMessage → Option (List ℕ)
  unfolding c_string
  extract_command_complete m = only b'C' m (elim (c_string (body m)) [
    | some (tag, rest) ↦ some (lossy tag)
    | none ↦ some (lossy (body m))
  ])

  -- The loop over the fields, each a letter and a null-ended value; a field has two bytes at least.
  unfoldable pub error_from : ℕ → List ℕ → Option (List ℕ)
  unfolding position_nul
  error_from zero s = none
  error_from (suc fuel) [] = none
  error_from (suc fuel) (t ∷ s) = if t == 0 then none else elim (position_nul s) [
    | none ↦ none
    | some n ↦ elim (t == b'M') [
      | true ↦ some (lossy (take n s))
      | false ↦ error_from fuel (drop (n + 1) s)
    ]
  ]

  unfoldable pub extract_error_message : PgMessage → Option (List ℕ)
  unfolding error_from
  extract_error_message m = only b'E' m (error_from (length (body m)) (body m))

  -- The loop over the columns of a RowDescription: a name, and 18 bytes that are skipped.
  row_columns : ℕ → List ℕ → Option (List (List ℕ))
  unfolding c_string
  row_columns zero s = some []
  row_columns (suc n) s = elim (c_string s) [
    | none ↦ none
    | some (name, rest) ↦ elim (ltb (length rest) 18) [
      | true ↦ none
      | false ↦ Option.map (λ cols. lossy name ∷ cols) (row_columns n (drop 18 rest))
    ]
  ]

  unfoldable pub extract_row_description : PgMessage → Option (List (List ℕ))
  unfolding row_columns
  extract_row_description m =
      only b'T' m (
        if ltb (length (body m)) 2 then none else row_columns (u16_from (body m)) (drop 2 (body m)))

unfoldable pub extract_parameter_description : PgMessage → Option (List ℕ)
unfolding read_array
extract_parameter_description m =
    let count = i16_as_usize (u16_from (body m)) in
    only b't' m (
      if ltb (length (body m)) 2
      then none
      else if ltb (length (body m)) ((2 + count * 4) % 2 ^ 64)
      then none
      else some (read_array u32_from 4 count (drop 2 (body m))))

abbrev txn_state : List ℕ → Option TxnState
txn_state [] = none
txn_state (b ∷ s) =
    if b == b'I'
    then some idle
    else if b == b'T'
    then some in_transaction
    else if b == b'E'
    then some failed
    else none

unfoldable pub extract_ready_for_query : PgMessage → Option TxnState
extract_ready_for_query m = only b'Z' m (txn_state (body m))

-- The process and the secret, as the bits of two `i32`.
unfoldable pub extract_backend_key_data : PgMessage → Option (ℕ × ℕ)
extract_backend_key_data m =
    only b'K' m (
      if ltb (length (body m)) 8
      then none
      else some (u32_from (body m), u32_from (drop 4 (body m))))
