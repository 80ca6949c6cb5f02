-- ===== src/Correlate/Substitute.antt =====
-- src/correlate/substitute.rs: captured IDs in SQL text are replaced by replayed ones, at literals
-- in a position where an ID can stand.
mod Steps
pub mod Sound
pub mod Context
use mathlib.Core.Option
use pg_retest.Prelude.{
  ℕ, ◌+◌, ◌-◌, ◌≤◌, Bool, true, false, ◌&&◌, ◌||◌, Option, none, some, List, [], ◌∷◌, ◌++◌, map,
  length, ◌==◌, leb, if◌then◌else◌, take, drop, any, all, bytes_eq, starts_with, codes,
  is_ascii_digit, to_ascii_upper,
}
use pg_retest.Sql.Lex.{
  TokenKind, whitespace, ident, string_literal, dollar_string, quoted_ident, number, bind_param,
  line_comment, block_comment, punct, visit_tokens,
}
use pg_retest.Sql.Lex.Scan.{Unicode}
use pg_retest.Correlate.Map.{DashMap}

pub data Eligibility : Type 0 where
  neutral eligible ineligible identifier_context : Eligibility

-- What the closure captures.
pub record State : Type 0 where
  pub out : List ℕ
  pub count : ℕ
  pub eligibility : Eligibility

abbrev pub may_substitute : Eligibility → Bool
may_substitute neutral = true
may_substitute eligible = true
may_substitute ineligible = false
may_substitute identifier_context = false

-- `bytes[bytes.len() - 1] == b'\''` of a nonempty text.
abbrev ends_in_quote : List ℕ → Bool
ends_in_quote text = starts_with (b'\'' ∷ []) (drop (length text - 1) text)

unfoldable pub strip_single_quotes : List ℕ → List ℕ
strip_single_quotes text =
    if leb 2 (length text) && (starts_with (b'\'' ∷ []) text && ends_in_quote text)
    then take (length text - 2) (drop 1 text)
    else drop 1 text

-- A replacement that can stand for a number.
abbrev pub is_numeric_text : List ℕ → Bool
is_numeric_text =
    all λ c. is_ascii_digit c || c == b'.' || c == b'-' || c == b'e' || c == b'E' || c == b'+'

abbrev pub opening : List (List ℕ)
opening =
    codes "WHERE"
    ∷ codes "AND"
    ∷ codes "OR"
    ∷ codes "ON"
    ∷ codes "IN"
    ∷ codes "VALUES"
    ∷ codes "SET"
    ∷ codes "BETWEEN"
    ∷ codes "HAVING"
    ∷ []

abbrev pub counting : List (List ℕ)
counting = codes "LIMIT" ∷ codes "OFFSET" ∷ codes "FETCH" ∷ []

abbrev pub naming : List (List ℕ)
naming =
    codes "AS" ∷ codes "FROM" ∷ codes "JOIN" ∷ codes "INTO" ∷ codes "TABLE" ∷ codes "INDEX" ∷ []

-- What stands behind a name that was expected.
abbrev pub leave_name : Eligibility → Eligibility
leave_name identifier_context = neutral
leave_name e = e

unfoldable pub after_ident : List ℕ → Eligibility → Eligibility
after_ident text e =
    let upper = map to_ascii_upper text in
    if any (bytes_eq upper) opening
    then eligible
    else if any (bytes_eq upper) counting
    then ineligible
    else if any (bytes_eq upper) naming
    then identifier_context
    else leave_name e

abbrev comparisons : List (List ℕ)
comparisons = codes "=" ∷ codes "<" ∷ codes ">" ∷ []

unfoldable pub after_punct : List ℕ → Eligibility → Eligibility
after_punct text e = if any (bytes_eq text) comparisons then eligible else e

abbrev emit : State → List ℕ → Eligibility → State
emit s text e = record s { out = s.out ++ text; eligibility = e }

abbrev replace : State → List ℕ → State
replace s text = record { out = s.out ++ text; count = s.count + 1; eligibility = neutral }

module _ (d : DashMap) (m : d.Map) where
  string_step : State → List ℕ → State
  string_step s text =
      if may_substitute s.eligibility
      then elim (d.get (strip_single_quotes text) m) [
        | some v ↦ replace s (b'\'' ∷ v ++ b'\'' ∷ [])
        | none ↦ emit s text neutral
      ]
      else emit s text neutral

  number_step : State → List ℕ → State
  number_step s text =
      if may_substitute s.eligibility
      then elim (d.get text m) [
        | some v ↦ if is_numeric_text v then replace s v else emit s text neutral
        | none ↦ emit s text neutral
      ]
      else emit s text neutral

  -- The closure that `substitute_ids` gives to `visit_tokens`.
  unfoldable pub step : State → TokenKind → List ℕ → State
  unfolding string_step number_step
  step s string_literal text = string_step s text
  step s number text = number_step s text
  step s ident text = emit s text (after_ident text s.eligibility)
  step s quoted_ident text = emit s text (leave_name s.eligibility)
  step s punct text = emit s text (after_punct text s.eligibility)
  step s _ text = emit s text s.eligibility

  abbrev pub start : State
  start = record { out = []; count = 0; eligibility = neutral }

  -- With no substitution made the input itself is returned.
  abbrev finish : List ℕ → State → List ℕ × ℕ
  finish sql s = if s.count == 0 then (sql, 0) else (s.out, s.count)

  -- `none` means that the tokenizer does not end.
  unfoldable pub substitute_ids : Unicode → List ℕ → Option (List ℕ × ℕ)
  unfolding step visit_tokens
  substitute_ids u sql =
      if d.is_empty m
      then some (sql, 0)
      else Option.map (finish sql) (visit_tokens step u sql start)
