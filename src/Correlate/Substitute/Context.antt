-- ===== src/Correlate/Substitute/Context.antt =====
-- Literals that are no IDs: a row count, and what stands where a name is expected.
use pg_retest.Prelude.{
  ℕ, ◌≡◌, refl, sym, ap, ◌∙◌, true, false, List, [], ◌∷◌, ◌++◌, map, any, if◌then◌else◌, bytes_eq,
  any-bytes_eq, All, to_ascii_upper,
}
use mathlib.Core.List.{append_assoc, append-nil}
use pg_retest.Sql.Lex.{
  Token, TokenKind, whitespace, line_comment, block_comment, dollar_string, bind_param, ident,
  number, string_literal,
}
use pg_retest.Sql.Lex.Tiling.{texts, texts-append}
use pg_retest.Sql.Lex.Visit.{visit_all, visit_all-append}
use pg_retest.Correlate.Map.{DashMap}
use pg_retest.Correlate.Substitute.{
  State, Eligibility, neutral, ineligible, identifier_context, eligible, may_substitute, opening,
  counting, naming, leave_name, step, after_ident,
}

-- Tokens that leave the context alone.
abbrev pub IsQuiet : TokenKind → Type 0
IsQuiet whitespace = Unit
IsQuiet line_comment = Unit
IsQuiet block_comment = Unit
IsQuiet dollar_string = Unit
IsQuiet bind_param = Unit
IsQuiet _ = ⊥

abbrev pub IsLiteral : TokenKind → Type 0
IsLiteral number = Unit
IsLiteral string_literal = Unit
IsLiteral _ = ⊥

-- A text that is LIMIT, OFFSET or FETCH, in any case.
abbrev pub IsCounting : List ℕ → Type 0
IsCounting text = any (bytes_eq (map to_ascii_upper text)) counting ≡ true

joined : (a b c e : List ℕ) → ((a ++ b) ++ c) ++ e ≡ a ++ ((b ++ c) ++ (e ++ []))
joined a b c e = simp (append_assoc, append-nil)

module _ (d : DashMap) (m : d.Map) where
  quiet_step :
      (s : State) (kind : TokenKind) (text : List ℕ)
      → IsQuiet kind
      → step d m s kind text ≡ record s { out = s.out ++ text }
  unfolding step
  quiet_step s whitespace text q = refl
  quiet_step s line_comment text q = refl
  quiet_step s block_comment text q = refl
  quiet_step s dollar_string text q = refl
  quiet_step s bind_param text q = refl
  quiet_step s _ text q = absurd q

  quiet_gap :
      (s : State) (gap : List Token)
      → All (λ t. IsQuiet t.kind) gap
      → visit_all (step d m) s gap ≡ record s { out = s.out ++ texts gap }
  unfolding visit_all texts
  quiet_gap s [] q = rw append-nil refl
  quiet_gap s (t ∷ gap) q = rw (quiet_step s t.kind t.text q.0) (
      quiet_gap (record s { out = s.out ++ t.text }) gap q.1
      ∙ rw (append_assoc s.out t.text (texts gap)) refl)

  literal_step :
      (s : State) (kind : TokenKind) (text : List ℕ)
      → IsLiteral kind
      → may_substitute s.eligibility ≡ false
      → step d m s kind text ≡ record s { out = s.out ++ text; eligibility = neutral }
  unfolding step
  literal_step s number text l e = rw e refl
  literal_step s string_literal text l e = rw e refl
  literal_step s _ text l e = absurd l

  after_ident-counting :
      (text : List ℕ) (e : Eligibility) → IsCounting text → after_ident text e ≡ ineligible
  unfolding after_ident
  after_ident-counting text e c =
      any-bytes_eq
        (λ upper.
          (if any (bytes_eq upper) opening
            then eligible
            else if any (bytes_eq upper) counting
            then ineligible
            else if any (bytes_eq upper) naming
            then identifier_context
            else leave_name e)
          ≡ ineligible)
        (map to_ascii_upper text) counting c (refl, (refl, (refl, tt)))

  -- The literal behind LIMIT, OFFSET or FETCH (in any case), with only white space, comments,
  -- dollar strings and bind parameters between, is never replaced, whatever the map holds and
  -- whatever came before: the three parts are copied, the count stays, and the context is neutral
  -- again behind the literal.
  pub counting-keeps_literal :
      (s : State) (keyword literal : Token) (gap : List Token)
      → keyword.kind ≡ ident
      → IsCounting keyword.text
      → All (λ t. IsQuiet t.kind) gap
      → IsLiteral literal.kind
      → visit_all (step d m) s (keyword ∷ gap ++ literal ∷ [])
        ≡ record s { out = s.out ++ texts (keyword ∷ gap ++ literal ∷ []); eligibility = neutral }
  unfolding visit_all texts
  counting-keeps_literal s keyword literal gap k c q l =
      let behind = record s { out = s.out ++ keyword.text; eligibility = ineligible } in
      let name : step d m s keyword.kind keyword.text ≡ behind =
        unfold step in rw (k, after_ident-counting keyword.text s.eligibility c) refl in
      let gap_out : List ℕ = behind.out ++ texts gap in
      visit_all-append (step d m) s (keyword ∷ gap) (literal ∷ [])
      ∙ ap (λ (z : State). step d m z literal.kind literal.text)
          (ap (λ (z : State). visit_all (step d m) z gap) name ∙ quiet_gap behind gap q)
      ∙ literal_step (record behind { out = gap_out }) literal.kind literal.text l refl
      ∙ ap (λ (o : List ℕ). record s { out = o; eligibility = neutral })
          (joined s.out keyword.text (texts gap) literal.text
            ∙ ap (λ (o : List ℕ). s.out ++ o) (sym (texts-append (keyword ∷ gap) (literal ∷ []))))
