-- ===== src/Sql/Lex/Widths.antt =====
-- Every token has at least one byte, unless it begins with a vertical tab, and lies in the input.
use pg_retest.Prelude.{
  ℕ, suc, ◌+◌, ◌≤◌, ◌<◌, ◌≡◌, ◌≢◌, inl, inr, Bool, true, ◌||◌, ◌&&◌, Option, List, [], ◌∷◌, arith,
  length, if_intro, drop, starts_with, Option-cases, Bool-cases, ◌==◌, is_ascii_digit,
}
use pg_retest.Sql.Lex.{TokenKind, scan, is_numeric_context, scan_dollar, is_alphabetic}
use pg_retest.Sql.Lex.Scan.{
  Unicode, first_char, is_whitespace, ident_run, block_body, scan_number, scan_dollar_quoted,
  scan_bind_param,
}
use pg_retest.Sql.Lex.Scan.Bounds.{
  scan_line_comment_bounds, block_body-le, whitespace_run_bounds, scan_single_quoted_bounds,
  scan_quoted_ident_bounds, scan_dollar_quoted_bounds, scan_bind_param_bounds, scan_number-le,
  scan_number-pos, ident_run_bounds, first_char_bounds, first_char-ascii_iff,
}

-- What the Unicode tables promise: a letter is alphanumeric.
abbrev pub LetterLaw : Unicode → Type 0
LetterLaw u = (c : ℕ) → u.alphabetic c ≡ true → u.alphanumeric c ≡ true

-- A length of at least one byte that stays in the input.
abbrev pub Fits : List ℕ → ℕ → Type 0
Fits s n = (0 < n) × (n ≤ suc (length s))

scan_dollar-Fits : (b : ℕ) (s : List ℕ) → Fits s (scan_dollar (b ∷ s)).1
unfolding scan_dollar
scan_dollar-Fits b s = elim (Option-cases (scan_dollar_quoted (b ∷ s))) [
  | inr (n, e) ↦ ground (arith, e, scan_dollar_quoted_bounds b s n e)
  | inl e ↦ elim (Option-cases (scan_bind_param (b ∷ s))) [
    | inr (n, f) ↦ ground (arith, e, f, scan_bind_param_bounds b s n f)
    | inl f ↦ ground (arith, e, f)
  ]
]

number-Fits :
    (b : ℕ) (s : List ℕ) (c : Bool)
    → (is_ascii_digit (first_char b s).char || ((first_char b s).char == b'-' && c)) ≡ true
    → Fits s (scan_number (b ∷ s))
number-Fits b s c h = (
  elim (first_char-ascii_iff b s) [
    | inl a ↦ scan_number-pos b s (elim (Bool-cases (is_ascii_digit b)) [
      | inl d ↦ inl d
      | inr d ↦ inr (ground (arith, a, d))
    ])
    | inr a ↦ absurd (ground (arith, a))
  ],
  scan_number-le (b ∷ s),
)

word-Fits :
    (u : Unicode) (b : ℕ) (s : List ℕ)
    → LetterLaw u
    → (is_alphabetic u (first_char b s).char || (first_char b s).char == b'_') ≡ true
    → Fits s (ident_run u (b ∷ s))
word-Fits u b s law h =
    let c = (first_char b s).char in
    ident_run_bounds u b s (λ lt. ground (arith, first_char-ascii_iff b s, lt))
      (λ ge. ground (arith, first_char-ascii_iff b s, law c, ge))

dash : (b : ℕ) (s : List ℕ) → starts_with (b'-' ∷ b'-' ∷ []) (b ∷ s) ≡ true → b ≢ 10
dash b s h = ground arith

slash :
    (b : ℕ) (s : List ℕ)
    → starts_with (b'/' ∷ b'*' ∷ []) (b ∷ s) ≡ true
    → Fits s (2 + block_body (drop 2 (b ∷ s)))
slash b [] h = ground arith
slash b (c ∷ s) h = omega (arith, block_body-le s)

record ScanFits (s : List ℕ) (r : TokenKind × ℕ) : Type 0 where
  fits : Fits s r.1

scan-ScanFits :
    (u : Unicode) (last : Option (List ℕ)) (b : ℕ) (s : List ℕ)
    → LetterLaw u
    → b ≢ 11
    → ScanFits s (scan u last b s)
unfolding scan
scan-ScanFits u last b s law ne =
    let c = (first_char b s).char in
    if_intro P (starts_with (b'-' ∷ b'-' ∷ []) (b ∷ s))
      (λ h. record { fits = scan_line_comment_bounds b s (dash b s h) })
      λ _.
        if_intro P (starts_with (b'/' ∷ b'*' ∷ []) (b ∷ s)) (λ h. record { fits = slash b s h })
          λ _.
            if_intro P (is_whitespace c) (λ h. record { fits = whitespace_run_bounds b s h ne })
              λ _.
                if_intro P (c == b'\'') (λ _. record { fits = scan_single_quoted_bounds b s })
                  λ _.
                    if_intro P (c == b'$') (λ _. record { fits = scan_dollar-Fits b s })
                      λ _.
                        if_intro P (c == b'"') (λ _. record { fits = scan_quoted_ident_bounds b s })
                          λ _.
                            if_intro P
                              (is_ascii_digit c || (c == b'-' && is_numeric_context last (b ∷ s)))
                              (λ h. record {
                                fits = number-Fits b s (is_numeric_context last (b ∷ s)) h;
                              })
                              λ _.
                                if_intro P (is_alphabetic u c || c == b'_')
                                  (λ h. record { fits = word-Fits u b s law h })
                                  λ _. record { fits = first_char_bounds b s }
  where
    P : TokenKind × ℕ → Type 0
    P r = ScanFits s r

pub scan-Fits :
    (u : Unicode) (last : Option (List ℕ)) (b : ℕ) (s : List ℕ)
    → LetterLaw u
    → b ≢ 11
    → Fits s (scan u last b s).1
scan-Fits u last b s law ne = (scan-ScanFits u last b s law ne).fits
