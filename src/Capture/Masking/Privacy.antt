-- ===== src/Capture/Masking/Privacy.antt =====
-- What masking keeps and what it hides.
use mathlib.Core.List.{append-nil, append_assoc}
use mathlib.Core.Option
use pg_retest.Prelude.{
  ℕ, zero, suc, ◌≡◌, refl, sym, ap, ◌∙◌, Bool, true, false, if◌then◌else◌, some, List, [], ◌∷◌,
  ◌++◌, length, drop, drop-drop, drop-append, starts_with, codes,
}
use pg_retest.Sql.Lex.{
  Token, TokenKind, string_literal, dollar_string, number, SqlLexer, tokens, visit_from,
}
use pg_retest.Sql.Lex.Scan.{Unicode}
use pg_retest.Sql.Lex.Literals.{quote, literal_at, advance-quote}
use pg_retest.Sql.Lex.Suffix.{visit_from-SameRest}
use pg_retest.Sql.Lex.Tiling.{NoVerticalTab, Tiles, texts, tokens-Tiles}
use pg_retest.Sql.Lex.Visit.{visit_all, visit_tokens-tokens}
use pg_retest.Sql.Lex.Widths.{LetterLaw}
use pg_retest.Capture.Masking.{mask_token, mask_step, mask_sql_literals}

-- Strings in single quotes or dollar quotes, and numbers.
abbrev is_string : TokenKind → Bool
is_string string_literal = true
is_string dollar_string = true
is_string _ = false

abbrev is_number : TokenKind → Bool
is_number number = true
is_number _ = false

-- The text of a list of tokens, with `$S` for the strings and `$N` for the numbers.
abbrev pub masked : List Token → List ℕ
masked [] = []
masked (t ∷ ts) =
    (if is_string t.kind then codes "$S" else if is_number t.kind then codes "$N" else t.text)
    ++ masked ts

mask_token-placeholder :
    (k : TokenKind) (text : List ℕ)
    → mask_token k text
      ≡ (if is_string k then codes "$S" else if is_number k then codes "$N" else text)
unfolding mask_token
mask_token-placeholder string_literal text = refl
mask_token-placeholder dollar_string text = refl
mask_token-placeholder number text = refl
mask_token-placeholder _ text = refl

visit_all-masked : (out : List ℕ) (ts : List Token) → visit_all mask_step out ts ≡ out ++ masked ts
unfolding visit_all mask_step
visit_all-masked out [] = sym (append-nil out)
visit_all-masked out (t ∷ ts) =
    visit_all-masked (out ++ mask_token t.kind t.text) ts
    ∙ append_assoc out (mask_token t.kind t.text) (masked ts)
    ∙ ap (λ (l : List ℕ). out ++ (l ++ masked ts)) (mask_token-placeholder t.kind t.text)

-- With Unicode tables in which every letter is alphanumeric, masking ends on text without a
-- vertical tab. The tokens that the tokenizer gives for the text tile it, and the output is, token by
-- token, `$S` for a string in single or dollar quotes, `$N` for a number, and the token itself
-- otherwise.
pub mask_sql_literals-masked :
    (u : Unicode) (sql : List ℕ)
    → LetterLaw u
    → NoVerticalTab sql
    → (ts : List Token) × (tokens u sql ≡ some ts)
      × Tiles 0 (length sql) ts
      × (texts ts ≡ sql)
      × (mask_sql_literals u sql ≡ some (masked ts))
unfolding mask_sql_literals
mask_sql_literals-masked u sql law v =
    let (ts, run, tiles, joined) = tokens-Tiles u law sql v in
    (
      ts,
      run,
      tiles,
      joined,
      visit_tokens-tokens mask_step u sql []
          ∙ ap (Option.map (visit_all mask_step [])) run
          ∙ ap some (visit_all-masked [] ts),
    )

module _ (u : Unicode) where
  -- Behind a quoted text masking goes on from the placeholder.
  visit_from-quote :
      (fuel : ℕ) (s : SqlLexer) (text rest out : List ℕ)
      → drop s.pos s.src ≡ quote text ++ rest
      → starts_with (b'\'' ∷ []) rest ≡ false
      → visit_from mask_step u (suc fuel) s out
        ≡ visit_from mask_step u fuel (literal_at u s text).1 (out ++ codes "$S")
  unfolding visit_from mask_step
  visit_from-quote fuel s text rest out e h = rw (advance-quote u s text rest e h, visit_from) refl

  behind-quote :
      (s : SqlLexer) (text rest : List ℕ)
      → drop s.pos s.src ≡ quote text ++ rest
      → drop (literal_at u s text).1.pos (literal_at u s text).1.src ≡ rest
  behind-quote s text rest e =
      sym (drop-drop s.pos (length (quote text)) s.src)
      ∙ ap (λ (l : List ℕ). drop (length (quote text)) l) e
      ∙ drop-append (quote text) rest

  -- Where the tokenizer stands on a quoted text, with something behind it that does not begin with
  -- a quote, the masked output does not depend on that text: two inputs that differ only in what
  -- is quoted there, whatever its content and its length, are masked alike from there on.
  pub mask-hides_text :
      (fuel : ℕ) (s t : SqlLexer) (a b rest out : List ℕ)
      → drop s.pos s.src ≡ quote a ++ rest
      → drop t.pos t.src ≡ quote b ++ rest
      → starts_with (b'\'' ∷ []) rest ≡ false
      → visit_from mask_step u fuel s out ≡ visit_from mask_step u fuel t out
  unfolding visit_from
  mask-hides_text zero s t a b rest out e f h = refl
  mask-hides_text (suc fuel) s t a b rest out e f h =
      visit_from-quote fuel s a rest out e h
      ∙ visit_from-SameRest mask_step u fuel (literal_at u s a).1 (literal_at u t b).1
          (out ++ codes "$S")
          (record { rest = behind-quote s a rest e ∙ sym (behind-quote t b rest f); punct = refl })
      ∙ sym (visit_from-quote fuel t b rest out f h)
