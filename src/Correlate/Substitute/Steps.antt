-- ===== src/Correlate/Substitute/Steps.antt =====
-- What one token contributes to the output of the substitution.
use mathlib.Core.List.{append-nil, append_assoc}
use mathlib.Core.Logic.{◌⊎◌}
use mathlib.Core.Path.{ap₂}
use pg_retest.Prelude.{
  ℕ, ◌+◌, ◌≡◌, refl, sym, ap, ◌∙◌, subst, inl, inr, Bool, true, false, Option, none, some,
  if◌then◌else◌, List, [], ◌∷◌, ◌++◌, arith, Bool-cases, Option-cases,
}
use pg_retest.Sql.Lex.{Token, TokenKind, string_literal, number, ident, quoted_ident, punct}
use pg_retest.Sql.Lex.Tiling.{texts}
use pg_retest.Sql.Lex.Visit.{visit_all}
use pg_retest.Correlate.Map.{DashMap}
use pg_retest.Correlate.Substitute.{
  Eligibility, neutral, State, step, string_step, number_step, may_substitute, after_ident,
  after_punct, leave_name, strip_single_quotes, is_numeric_text,
}

-- A value that can stand for a number.
abbrev numeric_value : Option (List ℕ) → Option (List ℕ)
numeric_value none = none
numeric_value (some v) = if is_numeric_text v then some v else none

module _ (d : DashMap) (m : d.Map) where
  -- The value that a token stands for in the map: the one under the content of a string, or a numeric
  -- one under a number.
  abbrev found : TokenKind → List ℕ → Option (List ℕ)
  found string_literal text = d.get (strip_single_quotes text) m
  found number text = numeric_value (d.get text m)
  found _ text = none

  -- What a token does to the eligibility of those behind it.
  abbrev follow : Eligibility → TokenKind → List ℕ → Eligibility
  follow e string_literal text = neutral
  follow e number text = neutral
  follow e ident text = after_ident text e
  follow e quoted_ident text = leave_name e
  follow e punct text = after_punct text e
  follow e _ text = e

  -- A token stays, which it does only in a place that is not eligible or with no value to find; or it
  -- is a string literal in an eligible place whose content is a key and becomes the quoted value, or a
  -- number there that is a key of a numeric value and becomes that value. The last argument counts.
  pub data Piece (e : Eligibility) (kind : TokenKind) (text piece : List ℕ) (n : ℕ) : Type 0 where
    kept :
        (may_substitute e ≡ false) ⊎ (found kind text ≡ none)
        → piece ≡ text
        → n ≡ 0
        → Piece e kind text piece n
    literal :
        {v : List ℕ}
        → may_substitute e ≡ true
        → kind ≡ string_literal
        → d.get (strip_single_quotes text) m ≡ some v
        → piece ≡ b'\'' ∷ v ++ b'\'' ∷ []
        → n ≡ 1
        → Piece e kind text piece n
    numeric :
        {v : List ℕ}
        → may_substitute e ≡ true
        → kind ≡ number
        → d.get text m ≡ some v
        → is_numeric_text v ≡ true
        → piece ≡ v
        → n ≡ 1
        → Piece e kind text piece n

  -- The output and the count of a list of tokens, piece by piece.
  abbrev pub Pieces : Eligibility → List Token → List ℕ → ℕ → Type 0
  Pieces e [] out n = (out ≡ []) × (n ≡ 0)
  Pieces e (t ∷ ts) out n =
      (piece : List ℕ) × (rest : List ℕ) × (i : ℕ) × (j : ℕ) × Piece e t.kind t.text piece i
      × Pieces (follow e t.kind t.text) ts rest j
      × (out ≡ piece ++ rest)
      × (n ≡ i + j)

  abbrev Adds : State → State → TokenKind → List ℕ → Type 0
  Adds s s' kind text =
      (piece : List ℕ) × (i : ℕ) × Piece s.eligibility kind text piece i
      × (s'.out ≡ s.out ++ piece)
      × (s'.count ≡ s.count + i)
      × (s'.eligibility ≡ follow s.eligibility kind text)

  string_step-Adds :
      (s : State) (text : List ℕ) → Adds s (string_step d m s text) string_literal text
  unfolding string_step
  string_step-Adds s text = elim (Bool-cases (may_substitute s.eligibility)) [
    | inr e ↦ rw (e, string_step) (text, 0, kept (inl e) refl refl, refl, omega arith, refl)
    | inl e ↦ elim (Option-cases (d.get (strip_single_quotes text) m)) [
      | inl f ↦ rw (e, f, string_step) (text, 0, kept (inr f) refl refl, refl, omega arith, refl)
      | inr (v, f) ↦
          rw (e, f, string_step)
            (b'\'' ∷ v ++ b'\'' ∷ [], 1, literal e refl f refl refl, refl, refl, refl)
    ]
  ]

  -- With no numeric value under a number there is nothing to find.
  found-none : (text : List ℕ) → d.get text m ≡ none → found number text ≡ none
  found-none text f = ap numeric_value f

  found-text :
      (text v : List ℕ)
      → d.get text m ≡ some v
      → is_numeric_text v ≡ false
      → found number text ≡ none
  found-text text v f g = ap numeric_value f ∙ ap (λ (b : Bool). if b then some v else none) g

  number_step-Adds : (s : State) (text : List ℕ) → Adds s (number_step d m s text) number text
  unfolding number_step
  number_step-Adds s text = elim (Bool-cases (may_substitute s.eligibility)) [
    | inr e ↦ rw (e, number_step) (text, 0, kept (inl e) refl refl, refl, omega arith, refl)
    | inl e ↦ elim (Option-cases (d.get text m)) [
      | inl f ↦
          let nothing = found-none text f in
          rw (e, f, number_step) (text, 0, kept (inr nothing) refl refl, refl, omega arith, refl)
      | inr (v, f) ↦ elim (Bool-cases (is_numeric_text v)) [
        | inl g ↦ rw (e, f, g, number_step) (v, 1, numeric e refl f g refl refl, refl, refl, refl)
        | inr g ↦
            let nothing = found-text text v f g in
            rw (e, f, g, number_step)
              (text, 0, kept (inr nothing) refl refl, refl, omega arith, refl)
      ]
    ]
  ]

  step-Adds :
      (s : State) (kind : TokenKind) (text : List ℕ) → Adds s (step d m s kind text) kind text
  unfolding step
  step-Adds s string_literal text = string_step-Adds s text
  step-Adds s number text = number_step-Adds s text
  step-Adds s ident text = (text, 0, kept (inr refl) refl refl, refl, omega arith, refl)
  step-Adds s quoted_ident text = (text, 0, kept (inr refl) refl refl, refl, omega arith, refl)
  step-Adds s punct text = (text, 0, kept (inr refl) refl refl, refl, omega arith, refl)
  step-Adds s _ text = (text, 0, kept (inr refl) refl refl, refl, omega arith, refl)

  -- The loop over the tokens adds their pieces to what is there.
  pub visit_all-Pieces :
      (s : State) (ts : List Token)
      → (out : List ℕ) × (n : ℕ) × Pieces s.eligibility ts out n
        × ((visit_all (step d m) s ts).out ≡ s.out ++ out)
        × ((visit_all (step d m) s ts).count ≡ s.count + n)
  unfolding visit_all
  visit_all-Pieces s [] = ([], 0, (refl, refl), sym (append-nil s.out), omega arith)
  visit_all-Pieces s (t ∷ ts) =
      let s' = step d m s t.kind t.text in
      let (p, i, piece, o, c, e) = step-Adds s t.kind t.text in
      let (r, j, pieces, o', c') = visit_all-Pieces s' ts in
      (
        p ++ r,
        i + j,
        (p, r, i, j, piece, subst (λ x. Pieces x ts r j) e pieces, refl, refl),
        o' ∙ ap (λ (l : List ℕ). l ++ r) o ∙ append_assoc s.out p r,
        omega (arith, c, c'),
      )

  Piece-zero :
      {e : Eligibility} {kind : TokenKind} {text piece : List ℕ} {n : ℕ}
      → Piece e kind text piece n
      → n ≡ 0
      → piece ≡ text
  Piece-zero (kept w e z) h = e
  Piece-zero (literal a k g e z) h = absurd (omega (arith, z, h))
  Piece-zero (numeric a k g f e z) h = absurd (omega (arith, z, h))

  -- With no piece replaced the output is the input.
  pub Pieces-zero :
      (ts : List Token) (e : Eligibility) (out : List ℕ) (n : ℕ)
      → Pieces e ts out n
      → n ≡ 0
      → out ≡ texts ts
  unfolding texts
  Pieces-zero [] e out n h z = h.0
  Pieces-zero (t ∷ ts) e out n (p, r, i, j, piece, pieces, o, c) z =
      o ∙ ap₂ ◌++◌ (Piece-zero piece (omega arith)) (Pieces-zero ts _ r j pieces (omega arith))

  -- Where the map finds nothing every token stays.
  found-nothing :
      ((k : List ℕ) → d.get k m ≡ none)
      → (kind : TokenKind) (text : List ℕ) → found kind text ≡ none
  found-nothing empty string_literal text = empty (strip_single_quotes text)
  found-nothing empty number text = found-none text (empty text)
  found-nothing empty _ text = refl

  pub Pieces-texts :
      ((k : List ℕ) → d.get k m ≡ none)
      → (ts : List Token) (e : Eligibility) → Pieces e ts (texts ts) 0
  unfolding texts
  Pieces-texts empty [] e = (refl, refl)
  Pieces-texts empty (t ∷ ts) e = (
    t.text,
    texts ts,
    0,
    0,
    kept (inr (found-nothing empty t.kind t.text)) refl refl,
    Pieces-texts empty ts _,
    refl,
    omega arith,
  )
