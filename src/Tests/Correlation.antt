-- ===== src/Tests/Correlation.antt =====
-- Substitution of ids, transactions.
use pg_retest.Prelude.{ℕ, ◌≡◌, refl, none, some, List, [], ◌∷◌, ◌++◌, codes, get_elem?}
use pg_retest.Sql.Lex.{Token, TokenKind, ident, whitespace, number, advance, scan}
use pg_retest.Sql.Lex.Scan.{
  is_whitespace, first_char, ident_run, whitespace_run, is_ascii_whitespace, scan_number,
}
use pg_retest.Sql.Lex.Tiling.{texts}
use pg_retest.Sql.Lex.Visit.{visit_all}
use pg_retest.Correlate.Map.Store.{assoc, Assoc}
use pg_retest.Correlate.Substitute.{
  State, neutral, eligible, step, after_ident, after_punct, substitute_ids,
}
use pg_retest.Correlate.Substitute.Sound.{Substituted, substitute_ids-Substituted}
use pg_retest.Correlate.Substitute.Context.{counting-keeps_literal}
use pg_retest.Profile.{Query, QueryKind, begin, commit, update, assign_transaction_ids}
use pg_retest.Profile.Transactions.{numbered, assign_transaction_ids-numbered}
use pg_retest.Tests.Data.{ascii, ascii-LetterLaw, all_differ}

abbrev ids : Assoc
ids = (codes "42", codes "1042") ∷ []

abbrev sql : List ℕ
sql = codes "SELECT a FROM t WHERE id = 42 LIMIT 42"

substitute_run :
    substitute_ids assoc ids ascii sql ≡ some (codes "SELECT a FROM t WHERE id = 1042 LIMIT 42", 1)
unfolding substitute_ids advance scan is_whitespace first_char ident_run whitespace_run
    is_ascii_whitespace scan_number after_ident after_punct
substitute_run = refl

substitute_ids-Substituted_example :
    Substituted assoc ids ascii sql (substitute_ids assoc ids ascii sql)
substitute_ids-Substituted_example =
    substitute_ids-Substituted assoc ids ascii sql ascii-LetterLaw (all_differ 11 sql refl)

abbrev token : TokenKind → List ℕ → Token
token k t = record { kind = k; text = t; start = 0; end = 0 }

abbrev before : State
before = record { out = codes "x = "; count = 1; eligibility = eligible }

counting-keeps_literal_example :
    visit_all (step assoc ids) before (
      token ident (codes "limit") ∷ (token whitespace (codes " ") ∷ [])
      ++ token number (codes "42") ∷ [])
    ≡ record before {
      out =
          before.out
          ++ texts (
              token ident (codes "limit") ∷ (token whitespace (codes " ") ∷ [])
              ++ token number (codes "42") ∷ []);
      eligibility = neutral;
    }
counting-keeps_literal_example =
    counting-keeps_literal assoc ids before (token ident (codes "limit"))
      (token number (codes "42")) (token whitespace (codes " ") ∷ []) refl refl (tt, tt) tt

abbrev query : QueryKind → Query
query k = record {
  sql = [];
  start_offset_us = 0;
  duration_us = 0;
  kind = k;
  transaction_id = none;
  response_values = none;
  original_sql = none;
}

assign_transaction_ids-numbered_example :
    get_elem?
      (assign_transaction_ids
        ((query begin ∷ query update ∷ []) ++ query commit ∷ query update ∷ [])
        7).0
      2
    ≡ some (numbered 7 (query begin ∷ query update ∷ []) (query commit))
assign_transaction_ids-numbered_example =
    assign_transaction_ids-numbered 7 (query begin ∷ query update ∷ []) (query commit)
      (query update ∷ [])
