-- ===== src/Proxy/Binary/Literal/Faithful.antt =====
-- src/proxy/protocol.rs, src/proxy/pg_binary.rs: a parameter in the captured text stands for its value.
use pg_retest.Prelude.{
  ℕ, ◌+◌, ◌≡◌, refl, sym, ap, ◌∙◌, true, false, some, List, [], ◌∷◌, ◌++◌, ◌==◌, drop, length,
  starts_with, All, arith, ℤ, pos, negsuc,
}
use pg_retest.Text.{is_utf8}
use pg_retest.Text.Decimal.{
  decimal, signed_decimal, IsDigit, decimal-IsDigit, read_signed, read_signed-signed_decimal,
}
use pg_retest.Sql.Lex.{SqlLexer, advance}
use pg_retest.Sql.Lex.Scan.{Unicode}
use pg_retest.Sql.Lex.Literals.{double, quote, literal_at, advance-quote}
use pg_retest.Proxy.Protocol.Bind.{value}
use pg_retest.Proxy.Binary.Scalars.{Floats, i32_from, sql_quote_text, double_quotes}
use pg_retest.Proxy.Binary.Literal.{
  ExtensionOids, quoted, is_oid, format_param, binary_to_sql_literal_ext, builtin_literal,
  plain_literal, array_cast_name,
}

double_quotes-double : (s : List ℕ) → double_quotes s ≡ double b'\'' s
unfolding double double_quotes
double_quotes-double [] = refl
double_quotes-double (c ∷ s) = rw (double_quotes-double s) refl

sql_quote_text-quote : (s : List ℕ) → sql_quote_text s ≡ quote s
unfolding sql_quote_text quote
sql_quote_text-quote s = ap (λ (l : List ℕ). b'\'' ∷ (l ++ b'\'' ∷ [])) (double_quotes-double s)

-- A parameter in the text format that is UTF-8 becomes one string literal, whatever it holds: where the
-- statement goes on with it, and then with something that does not begin with a quote, the lexer takes
-- just the literal as its next token, and stands behind it.
pub format_param-one_token :
    (floats : Floats) (u : Unicode) (s : SqlLexer) (bytes rest : List ℕ) (oid : ℕ)
    (ext : ExtensionOids)
    → is_utf8 bytes ≡ true
    → drop s.pos s.src ≡ quote bytes ++ rest
    → starts_with (b'\'' ∷ []) rest ≡ false
    → (format_param floats (some bytes) 0 oid ext ≡ value (quote bytes))
      × (advance u s ≡ some (literal_at u s bytes))
unfolding format_param
format_param-one_token floats u s bytes rest oid ext utf8 e h =
    (rw utf8 (ap value (sql_quote_text-quote bytes)), advance-quote u s bytes rest e h)

-- No quote stands in a printed integer.
plain : (s : List ℕ) → All IsDigit s → double b'\'' s ≡ s
unfolding double
plain [] h = refl
plain (c ∷ s) (d, h) = let e : (c == b'\'') ≡ false = ground (arith, d) in rw (e, plain s h) refl

plain_integer : (z : ℤ) → double b'\'' (signed_decimal z) ≡ signed_decimal z
unfolding signed_decimal double
plain_integer (pos n) = plain (decimal n) (decimal-IsDigit n)
plain_integer (negsuc n) =
    ap (λ (s : List ℕ). b'-' ∷ s) (plain (decimal (n + 1)) (decimal-IsDigit (n + 1)))

-- A binary `int4` of four bytes becomes a literal whose text, between its quotes, is read back as the
-- number of the bytes, its sign included; and the lexer takes the literal as one token. The oids of
-- extension types are not that of `int4`.
pub format_param-int4 :
    (floats : Floats) (u : Unicode) (s : SqlLexer) (bytes rest : List ℕ) (ext : ExtensionOids)
    → length bytes ≡ 4
    → (is_oid 23 ext.vector ≡ false)
      × (is_oid 23 ext.halfvec ≡ false)
      × (is_oid 23 ext.sparsevec ≡ false)
    → drop s.pos s.src ≡ quoted (signed_decimal (i32_from bytes)) ++ rest
    → starts_with (b'\'' ∷ []) rest ≡ false
    → (text : List ℕ) × (format_param floats (some bytes) 1 23 ext ≡ value (quoted text))
      × (read_signed text ≡ i32_from bytes)
      × (advance u s ≡ some (literal_at u s text))
unfolding format_param binary_to_sql_literal_ext builtin_literal plain_literal array_cast_name quote
format_param-int4 floats u s bytes rest ext four (v, h, p) e n =
    let text = signed_decimal (i32_from bytes) in
    let four' : (length bytes == 4) ≡ true = ground (arith, four) in
    (
      text,
      rw (v, h, p, four') refl,
      read_signed-signed_decimal (i32_from bytes),
      advance-quote u s text rest
          (e
            ∙ ap (λ (l : List ℕ). b'\'' ∷ (l ++ b'\'' ∷ []) ++ rest)
                (sym (plain_integer (i32_from bytes))))
          n,
    )
