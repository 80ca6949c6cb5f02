-- ===== src/Sql/Lex/Literals.antt =====
-- Text in single quotes, every quote in it doubled, is one token.
use pg_retest.Prelude.{
  ℕ, suc, ◌+◌, ◌≡◌, refl, sym, ap, ◌∙◌, false, Option, none, some, List, [], ◌∷◌, ◌++◌, arith, ◌==◌,
  if◌then◌else◌, length, length-append, drop, take-append, starts_with, Bool-cases, inl, inr,
}
use pg_retest.Sql.Lex.{Token, string_literal, SqlLexer, advance, advance_at, advance_emit, scan}
use pg_retest.Sql.Lex.Scan.{Unicode, first_char, is_whitespace, quoted_body, scan_single_quoted}
use mathlib.Core.List.{append_assoc}

-- `s.replace('\'', "''")`, for any quote.
unfoldable pub double : ℕ → List ℕ → List ℕ
double q [] = []
double q (b ∷ s) = if b == q then q ∷ q ∷ double q s else b ∷ double q s

unfoldable pub quote : List ℕ → List ℕ
unfolding double
quote s = b'\'' ∷ double b'\'' s ++ b'\'' ∷ []

quoted_body-other :
    (q b : ℕ) (s : List ℕ) → (b == q) ≡ false → quoted_body q (b ∷ s) ≡ suc (quoted_body q s)
unfolding quoted_body
quoted_body-other q b [] h = refl
quoted_body-other q b (c ∷ s) h = rw (h, quoted_body) refl

quoted_body-end :
    (q : ℕ) (rest : List ℕ) → starts_with (q ∷ []) rest ≡ false → quoted_body q (q ∷ rest) ≡ 1
unfolding quoted_body
quoted_body-end q [] h = refl
quoted_body-end q (c ∷ s) h = ground arith

quoted_body-two : (q : ℕ) (s : List ℕ) → quoted_body q (q ∷ q ∷ s) ≡ suc (suc (quoted_body q s))
unfolding quoted_body
quoted_body-two q s = ground arith

quoted_body-double :
    (q : ℕ) (s rest : List ℕ)
    → starts_with (q ∷ []) rest ≡ false
    → quoted_body q (double q s ++ q ∷ rest) ≡ suc (length (double q s))
unfolding double
quoted_body-double q [] rest h = quoted_body-end q rest h
quoted_body-double q (b ∷ s) rest h = elim (Bool-cases (b == q)) [
  | inl e ↦
      rw (e, double) (quoted_body-two q _ ∙ ap (λ n. suc (suc n)) (quoted_body-double q s rest h))
  | inr e ↦ rw (e, double) (quoted_body-other q b _ e ∙ ap suc (quoted_body-double q s rest h))
]

quote-append : (s rest : List ℕ) → quote s ++ rest ≡ b'\'' ∷ double b'\'' s ++ b'\'' ∷ rest
unfolding quote
quote-append s rest = ap (λ l. b'\'' ∷ l) (append_assoc (double b'\'' s) (b'\'' ∷ []) rest)

length-quote : (s : List ℕ) → length (quote s) ≡ suc (suc (length (double b'\'' s)))
unfolding quote
length-quote s = omega (arith, length-append (double b'\'' s) (b'\'' ∷ []))

module _ (u : Unicode) where
  scan-quote :
      (last : Option (List ℕ)) (s rest : List ℕ)
      → starts_with (b'\'' ∷ []) rest ≡ false
      → scan u last b'\'' (double b'\'' s ++ b'\'' ∷ rest) ≡ (string_literal, length (quote s))
  unfolding scan first_char is_whitespace scan_single_quoted
  scan-quote last s rest h =
      ap (λ n. (string_literal, n))
        (ap suc (quoted_body-double b'\'' s rest h) ∙ sym (length-quote s))

  abbrev pub literal_at : SqlLexer → List ℕ → Token × SqlLexer
  literal_at s text = (
    record {
      kind = string_literal;
      text = quote text;
      start = s.pos;
      end = s.pos + length (quote text);
    },
    record s { pos = s.pos + length (quote text); last_punct = none },
  )

  advance_emit-quote :
      (s : SqlLexer) (text rest : List ℕ)
      → drop s.pos s.src ≡ quote text ++ rest
      → advance_emit s (string_literal, length (quote text)) ≡ literal_at s text
  unfolding advance_emit
  advance_emit-quote s text rest e = rw e (rw take-append refl)

  -- Where the rest of the input is a quoted text and something that does not begin with a quote, the
  -- next token is a string literal that is the quoted text, whatever the text holds; the lexer
  -- then stands behind it.
  pub advance-quote :
      (s : SqlLexer) (text rest : List ℕ)
      → drop s.pos s.src ≡ quote text ++ rest
      → starts_with (b'\'' ∷ []) rest ≡ false
      → advance u s ≡ some (literal_at s text)
  unfolding advance
  advance-quote s text rest e h = rw (e ∙ quote-append text rest) (
      unfold advance_at in
      rw (scan-quote s.last_punct text rest h) (ap some (advance_emit-quote s text rest e)))
