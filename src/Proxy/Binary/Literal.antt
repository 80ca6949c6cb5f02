-- ===== src/Proxy/Binary/Literal.antt =====
-- src/proxy/pg_binary.rs, src/proxy/protocol.rs: a bind parameter as an SQL literal, and the literals
-- in the place of a statement's parameters.
pub mod Faithful
use mathlib.Core.Option
use pg_retest.Prelude.{
  ℕ, zero, suc, ◌+◌, ◌-◌, ◌*◌, ◌/◌, ◌%◌, ◌^◌, Bool, true, false, ◌||◌, Option, none, some, List, [],
  ◌∷◌, ◌++◌, map, lookup, ltb, ◌==◌, if◌then◌else◌, length, drop, take, codes, ℤ, is_negative,
  unsigned_abs, get_elem?, starts_with,
}
use pg_retest.Text.{is_utf8}
use pg_retest.Text.Decimal.{decimal, signed_decimal, padded}
use pg_retest.Proxy.Protocol.Bind.{Outcome, value, absent, panics, ◌>>=◌}
use pg_retest.Proxy.Binary.Scalars.{
  Floats, i16_from, i32_from, i64_from, from_be_bytes, format_uuid, hex_encode, sql_quote_text,
  decode_bit_string,
}
use pg_retest.Proxy.Binary.Dates.{
  format_pg_date, format_pg_time, format_pg_timestamp, decode_interval, decode_timetz,
}
use pg_retest.Proxy.Binary.Numeric.{decode_numeric}
use pg_retest.Proxy.Binary.Network.{decode_inet_cidr, mac_text}
use pg_retest.Proxy.Binary.Vectors.{decode_vector, decode_halfvec, decode_sparsevec}
use pg_retest.Proxy.Binary.Arrays.{decode_array, sized, jsonb_text, of_option, one_of}

pub record ExtensionOids : Type 0 where
  pub vector : Option ℕ
  pub halfvec : Option ℕ
  pub sparsevec : Option ℕ

abbrev pub quoted : List ℕ → List ℕ
quoted s = b'\'' ∷ (s ++ b'\'' ∷ [])

abbrev cast : List ℕ → List ℕ → List ℕ
cast type s = quoted s ++ type

array_casts : List (ℕ × List ℕ)
array_casts =
    (1000, codes "boolean[]")
    ∷ (1001, codes "bytea[]")
    ∷ (1005, codes "int2[]")
    ∷ (1007, codes "int4[]")
    ∷ (1009, codes "text[]")
    ∷ (1014, codes "bpchar[]")
    ∷ (1015, codes "varchar[]")
    ∷ (1016, codes "int8[]")
    ∷ (1021, codes "float4[]")
    ∷ (1022, codes "float8[]")
    ∷ (1115, codes "timestamp[]")
    ∷ (1182, codes "date[]")
    ∷ (1183, codes "time[]")
    ∷ (1185, codes "timestamptz[]")
    ∷ (1187, codes "interval[]")
    ∷ (1231, codes "numeric[]")
    ∷ (2951, codes "uuid[]")
    ∷ (3807, codes "jsonb[]")
    ∷ []

-- A name for each array type of the dispatch, which calls it for no other.
unfoldable pub array_cast_name : ℕ → Option (List ℕ)
unfolding array_casts
array_cast_name oid = lookup oid array_casts

money_text : ℤ → List ℕ
unfolding decimal padded
money_text v =
    (if is_negative v then b'-' ∷ [] else [])
    ++ (decimal (unsigned_abs v / 100) ++ b'.' ∷ padded 2 (unsigned_abs v % 100))

if_utf8 : List ℕ → Option (List ℕ)
unfolding is_utf8
if_utf8 s = if is_utf8 s then some s else none

-- Booleans, numbers and texts.
module _ (floats : Floats) where
  unfoldable pub plain_literal : ℕ → List ℕ → Option (List ℕ)
  unfolding from_be_bytes signed_decimal decimal hex_encode if_utf8 sql_quote_text
  plain_literal oid bytes =
      if oid == 16
      then sized 1 bytes (some (if starts_with (0 ∷ []) bytes then codes "'f'" else codes "'t'"))
      else if oid == 20
      then sized 8 bytes (some (quoted (signed_decimal (i64_from bytes))))
      else if oid == 21
      then sized 2 bytes (some (quoted (signed_decimal (i16_from bytes))))
      else if oid == 23
      then sized 4 bytes (some (quoted (signed_decimal (i32_from bytes))))
      else if one_of oid (25 ∷ 19 ∷ 1042 ∷ 1043 ∷ 18 ∷ 114 ∷ [])
      then Option.map sql_quote_text (if_utf8 bytes)
      else if one_of oid (26 ∷ 28 ∷ 29 ∷ 24 ∷ 2202 ∷ 2203 ∷ 2204 ∷ 2205 ∷ 2206 ∷ [])
      then sized 4 bytes (some (quoted (decimal (from_be_bytes bytes))))
      else if oid == 700
      then sized 4 bytes (some (quoted (floats.show_f32 (from_be_bytes bytes))))
      else if oid == 701
      then sized 8 bytes (some (quoted (floats.show_f64 (from_be_bytes bytes))))
      else if oid == 17
      then some (codes "E'\\\\x" ++ (hex_encode bytes ++ codes "'"))
      else none

-- Dates and times, documents, money, bits and addresses.
timed_literal : ℕ → List ℕ → Option (List ℕ)
unfolding from_be_bytes format_pg_date format_pg_time format_pg_timestamp decode_interval
    decode_timetz
timed_literal oid bytes =
    if oid == 1082
    then sized 4 bytes (some (cast (codes "::date") (format_pg_date (i32_from bytes))))
    else if oid == 1083
    then sized 8 bytes (Option.map (cast (codes "::time")) (format_pg_time (i64_from bytes)))
    else if oid == 1114
    then sized 8 bytes
        (Option.map (cast (codes "::timestamp")) (format_pg_timestamp (i64_from bytes) false))
    else if oid == 1184
    then sized 8 bytes
        (Option.map (cast (codes "::timestamptz")) (format_pg_timestamp (i64_from bytes) true))
    else if oid == 1186
    then Option.map (cast (codes "::interval")) (decode_interval bytes)
    else if oid == 1266
    then Option.map (cast (codes "::timetz")) (decode_timetz bytes)
    else none

other_literal : ℕ → List ℕ → Option (List ℕ)
unfolding format_uuid sql_quote_text if_utf8 money_text decode_bit_string decode_inet_cidr mac_text
    from_be_bytes
other_literal oid bytes =
    if oid == 2950
    then sized 16 bytes (some (quoted (format_uuid bytes)))
    else if oid == 3802
    then Option.map (λ s. sql_quote_text s ++ codes "::jsonb") (jsonb_text bytes)
    else if oid == 142
    then Option.map (λ s. sql_quote_text s ++ codes "::xml") (if_utf8 bytes)
    else if oid == 790
    then sized 8 bytes (some (cast (codes "::money") (money_text (i64_from bytes))))
    else if one_of oid (1560 ∷ 1562 ∷ [])
    then Option.map (λ s. b'B' ∷ quoted s) (decode_bit_string bytes)
    else if one_of oid (869 ∷ 650 ∷ [])
    then Option.map (cast (if oid == 650 then codes "::cidr" else codes "::inet"))
        (decode_inet_cidr bytes)
    else if oid == 829
    then sized 6 bytes (some (cast (codes "::macaddr") (mac_text bytes)))
    else if oid == 774
    then sized 8 bytes (some (cast (codes "::macaddr8") (mac_text bytes)))
    else none

abbrev or_else : Option (List ℕ) → Option (List ℕ) → Option (List ℕ)
or_else none b = b
or_else (some s) b = some s

abbrev outcome_map : (List ℕ → List ℕ) → Outcome (List ℕ) → Outcome (List ℕ)
outcome_map f r = r >>= (λ s. value (f s))

abbrev pub is_oid : ℕ → Option ℕ → Bool
is_oid oid none = false
is_oid oid (some o) = o == oid

module _ (floats : Floats) where
  -- Arrays and numeric values, and all the others, whose numbers differ.
  unfoldable pub builtin_literal : ℕ → List ℕ → Outcome (List ℕ)
  unfolding array_cast_name decode_array decode_numeric plain_literal timed_literal other_literal
  builtin_literal oid bytes = elim (array_cast_name oid) [
    | some type ↦ outcome_map (cast (codes "::" ++ type)) (decode_array floats bytes)
    | none ↦
        if oid == 1700
        then outcome_map quoted (decode_numeric bytes)
        else of_option (
            or_else (plain_literal floats oid bytes)
              (or_else (timed_literal oid bytes) (other_literal oid bytes)))
  ]

  unfoldable pub binary_to_sql_literal_ext : ℕ → List ℕ → ExtensionOids → Outcome (List ℕ)
  unfolding builtin_literal decode_vector decode_halfvec decode_sparsevec
  binary_to_sql_literal_ext oid bytes ext =
      if is_oid oid ext.vector
      then of_option (Option.map (cast (codes "::vector")) (decode_vector floats bytes))
      else if is_oid oid ext.halfvec
      then of_option (Option.map (cast (codes "::halfvec")) (decode_halfvec floats bytes))
      else if is_oid oid ext.sparsevec
      then of_option (Option.map (cast (codes "::sparsevec")) (decode_sparsevec floats bytes))
      else builtin_literal oid bytes

  abbrev pub placeholder : List ℕ → List ℕ
  placeholder bytes = codes "'<binary " ++ (decimal (length bytes) ++ codes " bytes>'")

  abbrev or_placeholder : List ℕ → Outcome (List ℕ) → Outcome (List ℕ)
  or_placeholder bytes absent = value (placeholder bytes)
  or_placeholder bytes (value s) = value s
  or_placeholder bytes panics = panics

  abbrev code_at : List ℕ → ℕ → ℕ
  code_at s i = elim (get_elem? s i) [ none ↦ 0 | some c ↦ c ]

  unfoldable pub format_param : Option (List ℕ) → ℕ → ℕ → ExtensionOids → Outcome (List ℕ)
  unfolding binary_to_sql_literal_ext is_utf8 sql_quote_text decimal
  format_param none fmt oid ext = value (codes "NULL")
  format_param (some bytes) fmt oid ext =
      let binary = binary_to_sql_literal_ext oid bytes ext in
      if fmt == 0
      then value (if is_utf8 bytes then sql_quote_text bytes else placeholder bytes)
      else or_placeholder bytes binary

  -- From the parameter `i` on.
  format_params_from :
      ℕ → List (Option (List ℕ)) → List ℕ → List ℕ → ExtensionOids → Outcome (List (List ℕ))
  unfolding format_param
  format_params_from i [] formats oids ext = value []
  format_params_from i (p ∷ params) formats oids ext = do
    text ← format_param p (code_at formats i) (code_at oids i) ext
    rest ← format_params_from (i + 1) params formats oids ext
    value (text ∷ rest)

  unfoldable pub format_bind_params_typed_ext :
      List (Option (List ℕ)) → List ℕ → List ℕ → ExtensionOids → Outcome (List (List ℕ))
  unfolding format_params_from
  format_bind_params_typed_ext = format_params_from 0

-- `replace_text`: the number counts the bytes of a match that are passed.
replace_from : List ℕ → List ℕ → ℕ → List ℕ → List ℕ
replace_from pattern text _ [] = []
replace_from pattern text (suc k) (b ∷ s) = replace_from pattern text k s
replace_from pattern text zero (b ∷ s) = elim (starts_with pattern (b ∷ s)) [
  | true ↦ text ++ replace_from pattern text (length pattern - 1) s
  | false ↦ b ∷ replace_from pattern text zero s
]

unfoldable pub replace_text : List ℕ → List ℕ → List ℕ → List ℕ
unfolding replace_from
replace_text pattern text = replace_from pattern text 0

-- The values from the number `i` on, the last one first.
inline_from : ℕ → List (List ℕ) → List ℕ → List ℕ
unfolding replace_text decimal
inline_from i [] sql = sql
inline_from i (value_text ∷ params) sql =
    replace_text (b'$' ∷ decimal i) value_text (inline_from (i + 1) params sql)

unfoldable pub inline_bind_params : List ℕ → List (List ℕ) → List ℕ
unfolding inline_from
inline_bind_params sql params = inline_from 1 params sql
