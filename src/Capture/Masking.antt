-- ===== src/Capture/Masking.antt =====
-- src/capture/masking.rs: literals are replaced by placeholders, token by token.
pub mod Privacy
use pg_retest.Prelude.{ℕ, Option, List, [], ◌++◌, codes}
use pg_retest.Sql.Lex.{TokenKind, string_literal, dollar_string, number, visit_tokens}
use pg_retest.Sql.Lex.Scan.{Unicode}

pub mask_token : TokenKind → List ℕ → List ℕ
mask_token string_literal text = codes "$S"
mask_token dollar_string text = codes "$S"
mask_token number text = codes "$N"
mask_token _ text = text

pub mask_step : List ℕ → TokenKind → List ℕ → List ℕ
unfolding mask_token
mask_step out kind text = out ++ mask_token kind text

-- `none` means that the tokenizer does not end.
unfoldable pub mask_sql_literals : Unicode → List ℕ → Option (List ℕ)
unfolding visit_tokens mask_step
mask_sql_literals u sql = visit_tokens mask_step u sql []
