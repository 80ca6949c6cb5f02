-- ===== src/Sql/Lex.antt =====
-- src/sql/lex.rs: the SQL tokenizer. Text is a list of bytes, as the source walks it; the scanners
-- stand in the child `Scan`.
pub mod Scan
pub mod Widths
pub mod Tiling
pub mod Visit
pub mod Suffix
pub mod VerticalTab
pub mod Literals
use mathlib.Core.Option
use pg_retest.Prelude.{
  ℕ, zero, suc, ◌+◌, Bool, true, false, ◌&&◌, ◌||◌, Option, none, some, List, [], ◌∷◌, ◌==◌,
  if◌then◌else◌, length, take, drop, any, bytes_eq, starts_with, is_ascii_digit, is_ascii_upper,
  is_ascii_lower, leb,
}
use Scan.{
  Unicode, first_char, is_whitespace, whitespace_run, ident_run, scan_line_comment, block_body,
  scan_single_quoted, scan_quoted_ident, scan_dollar_quoted, scan_bind_param, scan_number,
}

pub data TokenKind : Type 0 where
  whitespace ident string_literal dollar_string quoted_ident number bind_param : TokenKind
  line_comment block_comment punct : TokenKind

pub record Token : Type 0 where
  pub kind : TokenKind
  pub text : List ℕ
  pub start : ℕ
  pub end : ℕ

pub record SqlLexer : Type 0 where
  pub src : List ℕ
  pub pos : ℕ
  pub last_punct : Option (List ℕ)

abbrev pub new : List ℕ → SqlLexer
new src = record { src = src; pos = 0; last_punct = none }

abbrev operators : List ℕ
operators = b'(' ∷ b',' ∷ b'=' ∷ b'<' ∷ b'>' ∷ b'+' ∷ b'-' ∷ b'*' ∷ b'/' ∷ b'|' ∷ []

unfoldable pub is_numeric_context : Option (List ℕ) → List ℕ → Bool
is_numeric_context last_punct rest =
    any is_ascii_digit (take 1 (drop 1 rest))
    && elim last_punct [ none ↦ true | some p ↦ any (λ c. bytes_eq p (c ∷ [])) operators ]

-- `char::is_alphabetic`: the ASCII letters, and the tables beyond.
abbrev is_alphabetic : Unicode → ℕ → Bool
is_alphabetic u c = is_ascii_upper c || is_ascii_lower c || (leb 0x80 c && u.alphabetic c)

-- The branch on `$`.
scan_dollar : List ℕ → TokenKind × ℕ
scan_dollar rest = elim (scan_dollar_quoted rest) [
  | some n ↦ (dollar_string, n)
  | none ↦ elim (scan_bind_param rest) [ some n ↦ (bind_param, n) | none ↦ (punct, 1) ]
]

-- The kind and the length of the token that begins with the byte `b`.
unfoldable pub scan : Unicode → Option (List ℕ) → ℕ → List ℕ → TokenKind × ℕ
unfolding scan_dollar is_numeric_context
scan u last_punct b s =
    let rest = b ∷ s in
    let first = (first_char b s).char in
    if starts_with (b'-' ∷ b'-' ∷ []) rest
    then (line_comment, scan_line_comment rest)
    else if starts_with (b'/' ∷ b'*' ∷ []) rest
    then (block_comment, 2 + block_body (drop 2 rest))
    else if is_whitespace first
    then (whitespace, whitespace_run rest)
    else if first == b'\''
    then (string_literal, scan_single_quoted rest)
    else if first == b'$'
    then scan_dollar rest
    else if first == b'"'
    then (quoted_ident, scan_quoted_ident rest)
    else if is_ascii_digit first || (first == b'-' && is_numeric_context last_punct rest)
    then (number, scan_number rest)
    else if is_alphabetic u first || first == b'_'
    then (ident, ident_run u rest)
    else (punct, (first_char b s).len_utf8)

abbrev pub next_punct : TokenKind → List ℕ → Option (List ℕ) → Option (List ℕ)
next_punct whitespace text last = last
next_punct punct text last = some text
next_punct _ text last = none

advance_emit : SqlLexer → TokenKind × ℕ → Token × SqlLexer
advance_emit s (kind, n) =
    let text = take n (drop s.pos s.src) in
    (
      record { kind = kind; text = text; start = s.pos; end = s.pos + n },
      record s { pos = s.pos + n; last_punct = next_punct kind text s.last_punct },
    )

advance_at : Unicode → SqlLexer → List ℕ → Option (Token × SqlLexer)
unfolding advance_emit
advance_at u s [] = none
advance_at u s (b ∷ r) = some (advance_emit s (scan u s.last_punct b r))

-- One token, and the lexer behind it; `none` at the end of the input.
unfoldable pub advance : Unicode → SqlLexer → Option (Token × SqlLexer)
unfolding advance_at
advance u s = advance_at u s (drop s.pos s.src)

-- All tokens, by repeated `Iterator::next`; `none` means that the fuel ran out.
unfoldable pub tokens_from : Unicode → ℕ → SqlLexer → Option (List Token)
tokens_from u zero s = none
tokens_from u (suc fuel) s = elim (advance u s) [
  | none ↦ some []
  | some (t, s') ↦ Option.map (λ ts. t ∷ ts) (tokens_from u fuel s')
]

-- One call of `next` for each byte, and one that meets the end.
unfoldable pub tokens : Unicode → List ℕ → Option (List Token)
unfolding tokens_from
tokens u src = tokens_from u (suc (length src)) (new src)

-- `visit_tokens` calls a closure on each token; its captured variables are the state `S`.
module _ {ℓ} {S : Type ℓ} (f : S → TokenKind → List ℕ → S) where
  unfoldable pub visit_from : Unicode → ℕ → SqlLexer → S → Option S
  visit_from u zero s acc = none
  visit_from u (suc fuel) s acc = elim (advance u s) [
    | none ↦ some acc
    | some (t, s') ↦ visit_from u fuel s' (f acc t.kind t.text)
  ]

  unfoldable pub visit_tokens : Unicode → List ℕ → S → Option S
  unfolding visit_from
  visit_tokens u sql acc = visit_from u (suc (length sql)) (new sql) acc
