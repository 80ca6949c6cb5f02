-- ===== src/Proxy/Binary/Arrays.antt =====
-- src/proxy/pg_binary.rs: arrays of one dimension. Positions are those of a release build, which wrap
-- at 2^64; a vector of that many strings, of 24 bytes each, may not be had.
use mathlib.Core.Option
use pg_retest.Prelude.{
  ℕ, zero, suc, ◌+◌, ◌-◌, ◌^◌, Bool, true, false, ◌||◌, ◌&&◌, not, Option, none, some, List, [],
  ◌∷◌, ◌++◌, map, ltb, ◌==◌, if◌then◌else◌, length, drop, codes, any, starts_with, bytes_eq,
}
use pg_retest.Text.{join, is_utf8, to_ascii_lower}
use pg_retest.Text.Decimal.{signed_decimal}
use pg_retest.Sql.Lex.Scan.{first_char, is_whitespace}
use pg_retest.Proxy.Protocol.{u32_from, i32_as_usize}
use pg_retest.Proxy.Protocol.Bind.{Outcome, value, absent, ◌>>=◌, add64, slice, with_capacity}
use pg_retest.Proxy.Binary.Scalars.{
  Floats, i16_from, i32_from, i64_from, from_be_bytes, format_uuid, hex_encode,
}
use pg_retest.Proxy.Binary.Dates.{
  format_pg_date, format_pg_time, format_pg_timestamp, decode_interval,
}
use pg_retest.Proxy.Binary.Numeric.{decode_numeric}

-- `any` of the characters calls for quotes; the number counts the bytes of a character that is passed.
needs_quote_from : ℕ → List ℕ → Bool
needs_quote_from _ [] = false
needs_quote_from (suc k) (b ∷ s) = needs_quote_from k s
needs_quote_from zero (b ∷ s) =
    let c = first_char b s in
    let rest = needs_quote_from (c.len_utf8 - 1) s in
    (any (λ d. d == c.char) (codes ",{}\"\\") || is_whitespace c.char) || rest

escape : List ℕ → List ℕ
escape [] = []
escape (c ∷ s) =
    let rest = escape s in if (c == b'"') || (c == b'\\') then b'\\' ∷ c ∷ rest else c ∷ rest

unfoldable pub pg_array_quote : List ℕ → List ℕ
unfolding needs_quote_from escape is_whitespace first_char
pg_array_quote s =
    if bytes_eq s [] || bytes_eq (codes "null") (map to_ascii_lower s) || needs_quote_from 0 s
    then b'"' ∷ (escape s ++ b'"' ∷ [])
    else s

-- A value of `n` bytes.
abbrev pub sized : ℕ → List ℕ → Option (List ℕ) → Option (List ℕ)
sized n bytes r = if length bytes == n then r else none

-- JSON behind its version byte.
abbrev pub jsonb_text : List ℕ → Option (List ℕ)
jsonb_text [] = none
jsonb_text (v ∷ s) = if v == 1 then (if is_utf8 s then some s else none) else none

abbrev pub of_option {ℓ} : {A : Type ℓ} → Option A → Outcome A
of_option none = absent
of_option (some a) = value a

abbrev pub one_of : ℕ → List ℕ → Bool
one_of oid oids = any (λ o. o == oid) oids

module _ (floats : Floats) where
  scalar_text : ℕ → List ℕ → Option (List ℕ)
  unfolding pg_array_quote format_pg_date format_pg_time format_pg_timestamp decode_interval
      format_uuid hex_encode from_be_bytes signed_decimal is_utf8
  scalar_text oid bytes =
      if oid == 16
      then some (if starts_with (0 ∷ []) bytes then codes "f" else codes "t")
      else if oid == 21
      then sized 2 bytes (some (signed_decimal (i16_from bytes)))
      else if oid == 23
      then sized 4 bytes (some (signed_decimal (i32_from bytes)))
      else if oid == 20
      then sized 8 bytes (some (signed_decimal (i64_from bytes)))
      else if oid == 700
      then sized 4 bytes (some (floats.show_f32 (from_be_bytes bytes)))
      else if oid == 701
      then sized 8 bytes (some (floats.show_f64 (from_be_bytes bytes)))
      else if oid == 2950
      then sized 16 bytes (some (format_uuid bytes))
      else if one_of oid (25 ∷ 19 ∷ 1042 ∷ 1043 ∷ 18 ∷ [])
      then (if is_utf8 bytes then some (pg_array_quote bytes) else none)
      else if oid == 17
      then some (pg_array_quote (codes "\\x" ++ hex_encode bytes))
      else Option.map pg_array_quote (quoted oid bytes)
    where
      quoted : ℕ → List ℕ → Option (List ℕ)
      quoted oid bytes =
          if oid == 1082
          then sized 4 bytes (some (format_pg_date (i32_from bytes)))
          else if oid == 1114
          then sized 8 bytes (format_pg_timestamp (i64_from bytes) false)
          else if oid == 1184
          then sized 8 bytes (format_pg_timestamp (i64_from bytes) true)
          else if oid == 1083
          then sized 8 bytes (format_pg_time (i64_from bytes))
          else if oid == 1186
          then decode_interval bytes
          else if oid == 3802
          then jsonb_text bytes
          else none

  unfoldable pub array_element_text : ℕ → List ℕ → Outcome (List ℕ)
  unfolding scalar_text decode_numeric
  array_element_text oid bytes =
      if oid == 1700 then decode_numeric bytes else of_option (scalar_text oid bytes)

  -- The loop over the elements, from the position `pos` on.
  array_parts : ℕ → List ℕ → ℕ → ℕ → Outcome (List (List ℕ))
  unfolding array_element_text
  array_parts oid bytes zero pos = value []
  array_parts oid bytes (suc n) pos =
      let len = u32_from (drop pos bytes) in
      let start = pos + 4 in
      let end = add64 start (i32_as_usize len) in
      if ltb (length bytes) start then absent else elim (len == 2 ^ 32 - 1) [
        | true ↦ array_parts oid bytes n start >>= (λ rest. value (codes "NULL" ∷ rest))
        | false ↦ if ltb (length bytes) end then absent else do
          elem ← slice bytes start end
          text ← array_element_text oid elem
          rest ← array_parts oid bytes n end
          value (text ∷ rest)
      ]

  unfoldable pub decode_array : List ℕ → Outcome (List ℕ)
  unfolding array_parts
  decode_array bytes =
      let ndims = u32_from bytes in
      let dim_len = i32_as_usize (u32_from (drop 12 bytes)) in
      let elements = (do
        _ ← with_capacity dim_len 24
        parts ← array_parts (u32_from (drop 8 bytes)) bytes dim_len 20
        value (b'{' ∷ (join (codes ",") parts ++ b'}' ∷ []))) in
      if ltb (length bytes) 12
      then absent
      else if ndims == 0
      then value (codes "{}")
      else if (ndims == 1) && not (ltb (length bytes) 20) && (u32_from (drop 16 bytes) == 1)
      then elements
      else absent
