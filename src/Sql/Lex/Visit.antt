-- ===== src/Sql/Lex/Visit.antt =====
-- `visit_tokens` sees what the iterator gives.
use mathlib.Core.Option
use pg_retest.Prelude.{
  ℕ, zero, suc, ◌≡◌, refl, inl, inr, Option, none, some, List, [], ◌∷◌, ◌++◌, ◌∙◌, length,
  Option-cases,
}
use pg_retest.Sql.Lex.{
  Token, TokenKind, SqlLexer, new, advance, tokens, tokens_from, visit_from, visit_tokens,
}
use pg_retest.Sql.Lex.Scan.{Unicode}

-- A closure that is called on each token of a list, from the first on.
unfoldable pub visit_all {ℓ} : {S : Type ℓ} → (S → TokenKind → List ℕ → S) → S → List Token → S
visit_all f acc [] = acc
visit_all f acc (t ∷ ts) = visit_all f (f acc t.kind t.text) ts

pub visit_all-append {ℓ} :
    {S : Type ℓ} (f : S → TokenKind → List ℕ → S) (acc : S) (ts us : List Token)
    → visit_all f acc (ts ++ us) ≡ visit_all f (visit_all f acc ts) us
unfolding visit_all
visit_all-append f acc [] us = refl
visit_all-append f acc (t ∷ ts) us = visit_all-append f (f acc t.kind t.text) ts us

module _ {ℓ} {S : Type ℓ} (f : S → TokenKind → List ℕ → S) (u : Unicode) where
  map-cons :
      (t : Token) (acc : S) (o : Option (List Token))
      → Option.map (visit_all f (f acc t.kind t.text)) o
        ≡ Option.map (visit_all f acc) (Option.map (λ ts. t ∷ ts) o)
  unfolding visit_all
  map-cons t acc none = refl
  map-cons t acc (some ts) = refl

  visit_from-tokens_from :
      (fuel : ℕ) (s : SqlLexer) (acc : S)
      → visit_from f u fuel s acc ≡ Option.map (visit_all f acc) (tokens_from u fuel s)
  unfolding visit_from tokens_from visit_all
  visit_from-tokens_from zero s acc = refl
  visit_from-tokens_from (suc fuel) s acc = elim (Option-cases (advance u s)) [
    | inl e ↦ rw (e, visit_from, tokens_from) refl
    | inr ((t, s'), e) ↦
        rw (e, visit_from, tokens_from)
          (visit_from-tokens_from fuel s' (f acc t.kind t.text)
            ∙ map-cons t acc (tokens_from u fuel s'))
  ]

  -- Visiting the text calls the closure on the kind and the text of each token of the iterator, in
  -- order, and on nothing else; it fails to end exactly when the iterator does.
  pub visit_tokens-tokens :
      (sql : List ℕ) (acc : S)
      → visit_tokens f u sql acc ≡ Option.map (visit_all f acc) (tokens u sql)
  unfolding visit_tokens tokens
  visit_tokens-tokens sql acc = visit_from-tokens_from (suc (length sql)) (new sql) acc
