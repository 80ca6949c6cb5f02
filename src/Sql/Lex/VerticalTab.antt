-- ===== src/Sql/Lex/VerticalTab.antt =====
-- A token that begins with a vertical tab: white space by `char::is_whitespace`, which chooses the
-- branch, and not by `u8::is_ascii_whitespace`, which drives the loop.
use native.Mathlib.Nat.{add-zero}
use pg_retest.Prelude.{ℕ, zero, suc, ◌≡◌, refl, Option, none, some, List, [], ◌∷◌, drop}
use pg_retest.Sql.Lex.{Token, whitespace, SqlLexer, advance, advance_at, tokens_from, scan}
use pg_retest.Sql.Lex.Scan.{Unicode, first_char, is_whitespace, is_ascii_whitespace, whitespace_run}

module _ (u : Unicode) where
  scan-vertical_tab : (last : Option (List ℕ)) (r : List ℕ) → scan u last 11 r ≡ (whitespace, 0)
  unfolding scan first_char is_whitespace whitespace_run is_ascii_whitespace
  scan-vertical_tab last r = refl

  -- The lexer is where it was: the next call is the same call.
  advance_at-vertical_tab :
      (s : SqlLexer) (r : List ℕ) → (t : Token) × (advance_at u s (11 ∷ r) ≡ some (t, s))
  unfolding advance_at
  advance_at-vertical_tab s r = (
    record { kind = whitespace; text = []; start = s.pos; end = s.pos },
    rw (scan-vertical_tab s.last_punct r) (rw add-zero refl),
  )

  -- A lexer that stands on a vertical tab never ends: no amount of fuel gives a token list.
  pub tokens_from-vertical_tab :
      (fuel : ℕ) (s : SqlLexer) (r : List ℕ)
      → drop s.pos s.src ≡ 11 ∷ r
      → tokens_from u fuel s ≡ none
  unfolding tokens_from
  tokens_from-vertical_tab zero s r e = refl
  tokens_from-vertical_tab (suc fuel) s r e =
      let (t, a) = advance_at-vertical_tab s r in
      let step : advance u s ≡ some (t, s) = unfold advance in rw e a in
      rw (step, tokens_from) (rw (tokens_from-vertical_tab fuel s r e) refl)
