-- ===== src/Tests/Lexer.antt =====
-- Tokens and masking.
use pg_retest.Prelude.{ℕ, ◌≡◌, refl, none, some, List, [], ◌∷◌, ◌++◌, codes, length}
use pg_retest.Sql.Lex.{SqlLexer, Token, advance, scan, tokens, tokens_from, visit_from}
use pg_retest.Sql.Lex.Scan.{is_whitespace, first_char, ident_run, scan_single_quoted, scan_number}
use pg_retest.Sql.Lex.Tiling.{Tiles, texts, NoVerticalTab, tokens-Tiles}
use pg_retest.Sql.Lex.Literals.{quote}
use pg_retest.Sql.Lex.VerticalTab.{tokens_from-vertical_tab}
use pg_retest.Capture.Masking.{mask_step, mask_sql_literals}
use pg_retest.Capture.Masking.Privacy.{masked, mask_sql_literals-masked, mask-hides_text}
use pg_retest.Tests.Data.{ascii, ascii-LetterLaw, all_differ}

abbrev sql : List ℕ
sql = codes "SELECT 'it''s' -- x"

sql-NoVerticalTab : NoVerticalTab sql
sql-NoVerticalTab = all_differ 11 sql refl

mask_run : mask_sql_literals ascii (codes "f('a',-1,x1)") ≡ some (codes "f($S,$N,x1)")
unfolding mask_sql_literals advance scan is_whitespace first_char ident_run scan_single_quoted
    scan_number
mask_run = refl

tokens-Tiles_example :
    (ts : List Token) × (tokens ascii sql ≡ some ts) × Tiles 0 (length sql) ts × (texts ts ≡ sql)
tokens-Tiles_example = tokens-Tiles ascii ascii-LetterLaw sql sql-NoVerticalTab

-- A lexer on `it's`, behind `= `.
abbrev lexer : SqlLexer
lexer = record {
  src = codes "= " ++ (quote (codes "it's") ++ codes ";");
  pos = 2;
  last_punct = some (codes "=");
}

tokens_from-vertical_tab_example :
    tokens_from ascii 9 (record { src = 65 ∷ 11 ∷ []; pos = 1; last_punct = none }) ≡ none
tokens_from-vertical_tab_example =
    tokens_from-vertical_tab ascii 9 (record { src = 65 ∷ 11 ∷ []; pos = 1; last_punct = none }) []
      refl

mask_sql_literals-masked_example :
    (ts : List Token) × (tokens ascii sql ≡ some ts)
    × Tiles 0 (length sql) ts
    × (texts ts ≡ sql)
    × (mask_sql_literals ascii sql ≡ some (masked ts))
mask_sql_literals-masked_example =
    mask_sql_literals-masked ascii sql ascii-LetterLaw sql-NoVerticalTab

abbrev other_lexer : SqlLexer
other_lexer = record {
  src = quote (codes "a longer secret") ++ codes ";";
  pos = 0;
  last_punct = none;
}

mask-hides_text_example :
    visit_from mask_step ascii 5 lexer [] ≡ visit_from mask_step ascii 5 other_lexer []
mask-hides_text_example =
    mask-hides_text ascii 5 lexer other_lexer (codes "it's") (codes "a longer secret") (codes ";")
      [] refl refl refl
