-- ===== src/Sql/Lex/Tiling.antt =====
-- The tokens tile the input: they are contiguous, none is empty, and their texts are the input.
use mathlib.Core.List.{append_assoc}
use mathlib.Core.Path.{subst₂}
use pg_retest.Prelude.{
  ℕ, zero, suc, ◌+◌, ◌≤◌, ◌<◌, ◌≡◌, ◌≢◌, refl, sym, ap, ◌∙◌, Option, none, some, List, [], ◌∷◌,
  ◌++◌, arith, length, take, drop, All, length-append, length-take, drop-drop, take-append-drop,
}
use pg_retest.Sql.Lex.{Token, SqlLexer, new, advance, advance_at, tokens, tokens_from, scan}
use pg_retest.Sql.Lex.Scan.{Unicode}
use pg_retest.Sql.Lex.Widths.{LetterLaw, scan-Fits}

-- The texts of the tokens, joined.
unfoldable pub texts : List Token → List ℕ
texts [] = []
texts (t ∷ ts) = t.text ++ texts ts

pub texts-append : (ts us : List Token) → texts (ts ++ us) ≡ texts ts ++ texts us
unfolding texts
texts-append [] us = refl
texts-append (t ∷ ts) us =
    ap (λ (l : List ℕ). t.text ++ l) (texts-append ts us)
    ∙ sym (append_assoc t.text (texts ts) (texts us))

-- From byte `p` to byte `q` the tokens are contiguous, and each is as long as its nonempty text.
abbrev pub Tiles : ℕ → ℕ → List Token → Type 0
Tiles p q [] = p ≡ q
Tiles p q (t ∷ ts) =
    (t.start ≡ p) × (t.end ≡ p + length t.text) × (0 < length t.text) × Tiles t.end q ts

Tiles-cong : {p p' q q' : ℕ} (ts : List Token) → p ≡ p' → q ≡ q' → Tiles p q ts → Tiles p' q' ts
Tiles-cong ts e f = λ h. subst₂ (λ p q. Tiles p q ts) e f h

abbrev pub NoVerticalTab : List ℕ → Type 0
NoVerticalTab = All (λ b. b ≢ 11)

-- What one call of `next` gives on input without a vertical tab.
abbrev Steps : SqlLexer → List ℕ → Option (Token × SqlLexer) → Type 0
Steps s rest none = rest ≡ []
Steps s rest (some (t, s')) =
    (s'.src ≡ s.src)
    × (s'.pos ≡ t.end)
    × (t.start ≡ s.pos)
    × (t.end ≡ s.pos + length t.text)
    × (0 < length t.text)
    × (length t.text ≤ length rest)
    × (t.text ++ drop s'.pos s'.src ≡ rest)

module _ (u : Unicode) (law : LetterLaw u) where
  advance_at-Steps :
      (s : SqlLexer) (rest : List ℕ)
      → rest ≡ drop s.pos s.src
      → NoVerticalTab rest
      → Steps s rest (advance_at u s rest)
  unfolding advance_at
  advance_at-Steps s [] e v = refl
  advance_at-Steps s (b ∷ r) e v =
      let n = (scan u s.last_punct b r).1 in
      let (some_byte, inside) = scan-Fits u s.last_punct b r law v.0 in
      let len : length (take n (drop s.pos s.src)) ≡ n = rw (← e) (length-take n (b ∷ r) inside) in
      (
        refl,
        refl,
        refl,
        omega (arith, len),
        omega (arith, len),
        omega (arith, len),
        rw (← drop-drop s.pos n s.src) (rw (← e) (take-append-drop n (b ∷ r))),
      )

  advance-Steps :
      (s : SqlLexer) → NoVerticalTab (drop s.pos s.src) → Steps s (drop s.pos s.src) (advance u s)
  unfolding advance
  advance-Steps s v = advance_at-Steps s (drop s.pos s.src) refl v

  All-suffix : (xs ys : List ℕ) → NoVerticalTab (xs ++ ys) → NoVerticalTab ys
  All-suffix [] ys v = v
  All-suffix (x ∷ xs) ys v = All-suffix xs ys v.1

  abbrev Lexed : SqlLexer → Option (List Token) → Type 0
  Lexed s r =
      let rest = drop s.pos s.src in
      (ts : List Token) × (r ≡ some ts) × Tiles s.pos (s.pos + length rest) ts × (texts ts ≡ rest)

  nil-Lexed :
      (fuel : ℕ) (s : SqlLexer)
      → advance u s ≡ none
      → drop s.pos s.src ≡ []
      → Lexed s (tokens_from u (suc fuel) s)
  unfolding tokens_from texts
  nil-Lexed fuel s e st =
      ([], rw (e, tokens_from) refl, omega (arith, ap (length {0} {A = ℕ}) st), sym st)

  cons-Lexed :
      (fuel : ℕ) (s s' : SqlLexer) (t : Token)
      → advance u s ≡ some (t, s')
      → Steps s (drop s.pos s.src) (some (t, s'))
      → Lexed s' (tokens_from u fuel s')
      → Lexed s (tokens_from u (suc fuel) s)
  unfolding tokens_from texts
  cons-Lexed fuel s s' t e (src, pos, start, end, pos_len, len, tile) (ts, run, tiles, joined) = (
    t ∷ ts,
    rw (e, tokens_from) (rw run refl),
    (
      start,
      end,
      pos_len,
      Tiles-cong ts pos
          (omega (
            arith,
            ap (length {0} {A = ℕ}) tile,
            length-append t.text (drop s'.pos s'.src),
            pos,
            end,
          ))
          tiles,
    ),
    rw joined tile,
  )

  tokens_from-Lexed :
      (fuel : ℕ) (s : SqlLexer)
      → length (drop s.pos s.src) < fuel
      → NoVerticalTab (drop s.pos s.src)
      → Lexed s (tokens_from u fuel s)
  tokens_from-Lexed zero s h v = absurd (omega arith)
  tokens_from-Lexed (suc fuel) s h v =
      step (tokens_from-Lexed fuel) (advance u s) refl (advance-Steps s v)
    where
      step :
          ((s' : SqlLexer)
            → length (drop s'.pos s'.src) < fuel
            → NoVerticalTab (drop s'.pos s'.src)
            → Lexed s' (tokens_from u fuel s'))
          → (r : Option (Token × SqlLexer)) → advance u s ≡ r
          → Steps s (drop s.pos s.src) r
          → Lexed s (tokens_from u (suc fuel) s)
      step ih none e st = nil-Lexed fuel s e st
      step ih (some (t, s')) e st =
          let tile : t.text ++ drop s'.pos s'.src ≡ drop s.pos s.src = st.6 in
          cons-Lexed fuel s s' t e st (
            ih s'
              (omega (
                arith,
                ap (length {0} {A = ℕ}) tile,
                length-append t.text (drop s'.pos s'.src),
                st.4,
              ))
              (All-suffix t.text (drop s'.pos s'.src) (rw tile v)))

  -- With Unicode tables in which every letter is alphanumeric, input without a vertical tab is
  -- split into tokens, by one call of `next` for each of its bytes at most: the tokens are
  -- contiguous from byte 0 to the end, none is empty, and their texts joined are the input.
  pub tokens-Tiles :
      (src : List ℕ)
      → NoVerticalTab src
      → (ts : List Token) × (tokens u src ≡ some ts) × Tiles 0 (length src) ts × (texts ts ≡ src)
  unfolding tokens
  tokens-Tiles src v =
      let (ts, run, tiles, joined) =
        tokens_from-Lexed (suc (length src)) (new src) (omega arith) v in
      (ts, run, Tiles-cong ts refl (omega arith) tiles, joined)
