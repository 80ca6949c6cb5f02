-- ===== src/Tests/Values.antt =====
-- Binary values and their literals.
use pg_retest.Prelude.{
  ℕ, ◌*◌, ◌/◌, ◌^◌, ◌≤◌, ◌≡◌, refl, true, none, some, List, [], ◌∷◌, ◌++◌, codes, arith, pos,
  negsuc,
}
use pg_retest.Text.{is_utf8}
use pg_retest.Text.Decimal.{decimal, padded, signed_padded, hex, signed_decimal}
use pg_retest.Sql.Lex.{SqlLexer, advance}
use pg_retest.Sql.Lex.Literals.{quote, literal_at}
use pg_retest.Proxy.Protocol.Bind.{value, panics}
use pg_retest.Proxy.Binary.Scalars.{Floats, i32_from, from_be_bytes}
use pg_retest.Proxy.Binary.Dates.{civil_from_days, format_pg_date}
use pg_retest.Proxy.Binary.Dates.Civil.{days_from_civil, civil_from_days-days_from_civil}
use pg_retest.Proxy.Binary.Numeric.{decode_numeric}
use pg_retest.Proxy.Binary.Network.{compress_ipv6}
use pg_retest.Proxy.Binary.Vectors.{f16_to_f32}
use pg_retest.Proxy.Binary.Vectors.Half.{half_units, single_units, f16_to_f32-exact}
use pg_retest.Proxy.Binary.Arrays.{decode_array}
use pg_retest.Proxy.Binary.Literal.{
  ExtensionOids, quoted, format_param, binary_to_sql_literal_ext, inline_bind_params,
}
use pg_retest.Proxy.Binary.Literal.Faithful.{format_param-one_token}
use pg_retest.Tests.Data.{ascii}

civil_from_days-days_from_civil_example :
    (1 ≤ (civil_from_days (negsuc 0)).1)
    × ((civil_from_days (negsuc 0)).1 ≤ 12)
    × (1 ≤ (civil_from_days (negsuc 0)).2)
    × ((civil_from_days (negsuc 0)).2 ≤ 31)
    × (days_from_civil
          (civil_from_days (negsuc 0)).0
          (civil_from_days (negsuc 0)).1
          (civil_from_days (negsuc 0)).2
        ≡ negsuc 0)
civil_from_days-days_from_civil_example = civil_from_days-days_from_civil (negsuc 0)

date : format_pg_date (pos 9000) ≡ codes "2024-08-22"
unfolding format_pg_date signed_padded
date = refl

date-negative : format_pg_date (negsuc 0) ≡ codes "1999-12-31"
unfolding format_pg_date signed_padded
date-negative = refl

-- A small number, 3 units of 2^-24.
f16_to_f32-exact_example :
    (f16_to_f32 3 / 2 ^ 31 ≡ 3 / 2 ^ 15) × (single_units (f16_to_f32 3) ≡ half_units 3 * 2 ^ 125)
f16_to_f32-exact_example = f16_to_f32-exact 3 (omega arith) refl

abbrev floats : Floats
floats = record { show_f32 = λ n. []; show_f64 = λ n. [] }

abbrev no_extensions : ExtensionOids
no_extensions = record { vector = none; halfvec = none; sparsevec = none }

abbrev lexer : List ℕ → SqlLexer
lexer s = record { src = s; pos = 0; last_punct = none }

utf8 : is_utf8 (codes "it's") ≡ true
unfolding is_utf8
utf8 = refl

format_param-one_token_example :
    (format_param floats (some (codes "it's")) 0 25 no_extensions ≡ value (quote (codes "it's")))
    × (advance ascii (lexer (quote (codes "it's") ++ codes ";"))
        ≡ some (literal_at ascii (lexer (quote (codes "it's") ++ codes ";")) (codes "it's")))
format_param-one_token_example =
    format_param-one_token floats ascii (lexer (quote (codes "it's") ++ codes ";")) (codes "it's")
      (codes ";") 25 no_extensions utf8 refl refl

-- The bytes of -2.
abbrev minus_two : List ℕ
minus_two = 255 ∷ 255 ∷ 255 ∷ 254 ∷ []

abbrev int_lexer : SqlLexer
int_lexer = lexer (quoted (signed_decimal (i32_from minus_two)) ++ codes ")")

-- 12.5
numeric :
    decode_numeric (0 ∷ 2 ∷ 0 ∷ 0 ∷ 0 ∷ 0 ∷ 0 ∷ 1 ∷ 0 ∷ 12 ∷ 19 ∷ 136 ∷ []) ≡ value (codes "12.5")
unfolding decode_numeric from_be_bytes decimal padded
numeric = refl

-- 0.05 is one group, 500, behind the point; it is printed in front of the point too.
numeric-below_one :
    decode_numeric (0 ∷ 1 ∷ 255 ∷ 255 ∷ 0 ∷ 0 ∷ 0 ∷ 2 ∷ 1 ∷ 244 ∷ []) ≡ value (codes "500.05")
unfolding decode_numeric from_be_bytes decimal padded
numeric-below_one = refl

-- A count of -1 groups.
numeric-panics : decode_numeric (255 ∷ 255 ∷ 0 ∷ 0 ∷ 0 ∷ 0 ∷ 0 ∷ 2 ∷ []) ≡ panics
unfolding decode_numeric from_be_bytes decimal padded
numeric-panics = refl

-- An array of the text `it's`, whose quote ends the literal early.
array :
    binary_to_sql_literal_ext floats 1009
      (0
        ∷ 0
        ∷ 0
        ∷ 1
        ∷ 0
        ∷ 0
        ∷ 0
        ∷ 0
        ∷ 0
        ∷ 0
        ∷ 0
        ∷ 25
        ∷ 0
        ∷ 0
        ∷ 0
        ∷ 1
        ∷ 0
        ∷ 0
        ∷ 0
        ∷ 1
        ∷ 0
        ∷ 0
        ∷ 0
        ∷ 4
        ∷ codes "it's")
      no_extensions
    ≡ value (codes "'{it's}'::text[]")
unfolding binary_to_sql_literal_ext
array = refl

-- A number of -1 elements.
array-panics :
    decode_array floats
      (0 ∷ 0 ∷ 0 ∷ 1 ∷ 0 ∷ 0 ∷ 0 ∷ 0 ∷ 0 ∷ 0 ∷ 0 ∷ 25 ∷ 255 ∷ 255 ∷ 255 ∷ 255 ∷ 0 ∷ 0 ∷ 0 ∷ 1 ∷ [])
    ≡ panics
unfolding decode_array
array-panics = refl

ipv6 : compress_ipv6 (0x2001 ∷ 0xDB8 ∷ 0 ∷ 0 ∷ 0 ∷ 0 ∷ 0 ∷ 1 ∷ []) ≡ codes "2001:db8::1"
unfolding compress_ipv6 hex
ipv6 = refl

-- A value that holds a placeholder is taken for one.
inlined :
    inline_bind_params (codes "VALUES ($1, $2)") (codes "'a'" ∷ codes "'$1'" ∷ [])
    ≡ codes "VALUES ('a', ''a'')"
unfolding inline_bind_params
inlined = refl
