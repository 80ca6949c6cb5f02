-- ===== src/Correlate/Substitute/Sound.antt =====
-- The output of `substitute_ids` is the input with some literals replaced, and the count says how
-- many.
use mathlib.Core.Option
use pg_retest.Prelude.{
  ℕ, ◌≡◌, refl, ap, subst, ◌∙◌, inl, inr, Option, some, List, arith, ◌==◌, Bool-cases,
}
use pg_retest.Sql.Lex.{Token, tokens, visit_tokens}
use pg_retest.Sql.Lex.Scan.{Unicode}
use pg_retest.Sql.Lex.Tiling.{NoVerticalTab, texts, tokens-Tiles}
use pg_retest.Sql.Lex.Visit.{visit_all, visit_tokens-tokens}
use pg_retest.Sql.Lex.Widths.{LetterLaw}
use pg_retest.Correlate.Map.{DashMap}
use pg_retest.Correlate.Substitute.{State, neutral, step, start, finish, substitute_ids}
use pg_retest.Correlate.Substitute.Steps.{Pieces, visit_all-Pieces, Pieces-zero, Pieces-texts}

module _ (d : DashMap) (m : d.Map) (u : Unicode) where
  -- What `substitute_ids` gives: the text and the count of the pieces of the input's tokens.
  abbrev pub Substituted : List ℕ → Option (List ℕ × ℕ) → Type 0
  Substituted sql r =
      (ts : List Token) × (out : List ℕ) × (n : ℕ) × (r ≡ some (out, n))
      × (tokens u sql ≡ some ts)
      × (texts ts ≡ sql)
      × Pieces d m neutral ts out n

  visited-Substituted :
      (sql : List ℕ) (ts : List Token) (s : State) (out : List ℕ) (n : ℕ)
      → tokens u sql ≡ some ts
      → texts ts ≡ sql
      → Pieces d m neutral ts out n
      → s.out ≡ out
      → s.count ≡ n
      → Substituted sql (some (finish d m sql s))
  visited-Substituted sql ts s out n run joined p o c = elim (Bool-cases (s.count == 0)) [
    | inl e ↦
        let z : n ≡ 0 = ground (arith, e, c) in
        let same : out ≡ sql = Pieces-zero d m ts neutral out n p z ∙ joined in
        (ts, out, n, rw (e, same, z) refl, run, joined, p)
    | inr e ↦ (ts, out, n, rw (e, o, c) refl, run, joined, p)
  ]

  -- With Unicode tables in which every letter is alphanumeric, substitution ends on text without a
  -- vertical tab. The result is the tokens that the tokenizer gives for the text, joined, where just
  -- these are replaced, in the places that the keywords, names and comparisons in front make
  -- eligible: a string literal whose content is a key of the map, by the quoted value of that key,
  -- and a number that is a key of a numeric value, by that value. Every other token stands as it was,
  -- and the count is the number of replaced tokens.
  pub substitute_ids-Substituted :
      (sql : List ℕ) → LetterLaw u → NoVerticalTab sql → Substituted sql (substitute_ids d m u sql)
  unfolding substitute_ids
  substitute_ids-Substituted sql law v =
      let (ts, run, tiles, joined) = tokens-Tiles u law sql v in
      let (out, n, p, o, c) = visit_all-Pieces d m (start d m) ts in
      let end = visit_all (step d m) (start d m) ts in
      let visited : visit_tokens (step d m) u sql (start d m) ≡ some end =
        visit_tokens-tokens (step d m) u sql (start d m)
        ∙ ap (Option.map (visit_all (step d m) (start d m))) run in
      elim (Bool-cases (d.is_empty m)) [
        | inl e ↦
            let all_stay = Pieces-texts d m (λ k. d.get-is_empty k m e) ts neutral in
            rw (e, substitute_ids)
              (
                ts,
                sql,
                0,
                refl,
                run,
                joined,
                subst (λ o. Pieces d m neutral ts o 0) joined all_stay,
              )
        | inr e ↦
            rw (e, substitute_ids)
              (rw visited (visited-Substituted sql ts end out n run joined p o (c ∙ omega arith)))
      ]
