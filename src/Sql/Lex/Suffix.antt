-- ===== src/Sql/Lex/Suffix.antt =====
-- The lexer looks only at the rest of the input and at the last punctuation mark.
use pg_retest.Prelude.{
  ℕ, zero, suc, ◌≡◌, refl, sym, ap, subst, ◌∙◌, Option, none, some, List, [], ◌∷◌, drop, drop-drop,
  take,
}
use pg_retest.Sql.Lex.{
  Token, TokenKind, SqlLexer, advance, advance_at, advance_emit, scan, visit_from,
}
use pg_retest.Sql.Lex.Scan.{Unicode}

-- Two lexers that have the same input left.
pub record SameRest (s t : SqlLexer) : Type 0 where
  pub rest : drop s.pos s.src ≡ drop t.pos t.src
  pub punct : s.last_punct ≡ t.last_punct

abbrev SameStep : Option (Token × SqlLexer) → Option (Token × SqlLexer) → Type 0
SameStep none none = Unit {0}
SameStep (some (a, s)) (some (b, t)) = (a.kind ≡ b.kind) × (a.text ≡ b.text) × SameRest s t
SameStep _ _ = ⊥

advance_emit-SameStep :
    (s t : SqlLexer) (kind : TokenKind) (n : ℕ)
    → SameRest s t
    → SameStep (some (advance_emit s (kind, n))) (some (advance_emit t (kind, n)))
unfolding advance_emit
advance_emit-SameStep s t kind n same =
    let text : take n (drop s.pos s.src) ≡ take n (drop t.pos t.src) =
      ap (λ (l : List ℕ). take n l) same.rest in
    (
      refl,
      text,
      record {
        rest =
            sym (drop-drop s.pos n s.src)
            ∙ ap (λ (l : List ℕ). drop n l) same.rest
            ∙ drop-drop t.pos n t.src;
        punct = rw (text, same.punct) refl;
      },
    )

advance_at-SameStep :
    (u : Unicode) (s t : SqlLexer) (l : List ℕ)
    → SameRest s t
    → SameStep (advance_at u s l) (advance_at u t l)
unfolding advance_at
advance_at-SameStep u s t [] same = tt
advance_at-SameStep u s t (b ∷ r) same =
    subst
      (λ p.
        SameStep (some (advance_emit s (scan u s.last_punct b r)))
          (some (advance_emit t (scan u p b r))))
      same.punct
      (advance_emit-SameStep s t (scan u s.last_punct b r).0 (scan u s.last_punct b r).1 same)

advance-SameStep :
    (u : Unicode) (s t : SqlLexer) → SameRest s t → SameStep (advance u s) (advance u t)
unfolding advance
advance-SameStep u s t same = rw same.rest (advance_at-SameStep u s t (drop t.pos t.src) same)

module _ {ℓ} {S : Type ℓ} (f : S → TokenKind → List ℕ → S) (u : Unicode) where
  -- What is left to visit depends only on the rest of the input and the last punctuation mark.
  pub visit_from-SameRest :
      (fuel : ℕ) (s t : SqlLexer) (acc : S)
      → SameRest s t
      → visit_from f u fuel s acc ≡ visit_from f u fuel t acc
  unfolding visit_from
  visit_from-SameRest zero s t acc same = refl
  visit_from-SameRest (suc fuel) s t acc same =
      go (visit_from-SameRest fuel) (advance u s) (advance u t) (advance-SameStep u s t same)
    where
      after : Option (Token × SqlLexer) → Option S
      after r = elim r [
        | none ↦ some acc
        | some (t, s') ↦ visit_from f u fuel s' (f acc t.kind t.text)
      ]

      go :
          ((s t : SqlLexer) (acc : S)
            → SameRest s t
            → visit_from f u fuel s acc ≡ visit_from f u fuel t acc)
          → (x y : Option (Token × SqlLexer)) → SameStep x y
          → after x ≡ after y
      go ih none none h = refl
      go ih none (some y) h = absurd h
      go ih (some x) none h = absurd h
      go ih (some (a, s)) (some (b, t)) (kind, text, same) =
          rw (kind, text) (ih s t (f acc b.kind b.text) same)
