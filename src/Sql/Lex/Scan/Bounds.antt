-- ===== src/Sql/Lex/Scan/Bounds.antt =====
-- The lengths that the scanners return: at least one byte, and never past the end of the input.
use pg_retest.Prelude.{
  ℕ, zero, suc, ◌+◌, ◌-◌, ◌*◌, ◌==◌, if◌then◌else◌, ◌≤◌, ◌<◌, ◌≡◌, ◌≢◌, ◌⊎◌, inl, inr, Bool, true,
  false, some, ◌||◌, List, [], ◌∷◌, arith, ltb, length, take, drop, starts_with, find, length-drop,
  length-take, is_ascii_digit, Option-cases,
}
use pg_retest.Sql.Lex.Scan.{
  Unicode, first_char, is_whitespace, whitespace_run, ident_run, run_length, char_run,
  scan_line_comment, block_body, quoted_body, scan_single_quoted, scan_quoted_ident,
  scan_dollar_quoted, dollar_close, scan_bind_param, scan_number, fraction, exponent, sign_len,
  is_tag_byte, is_ascii_whitespace, is_alphanumeric, multi_byte,
}

run_length-le : (p : ℕ → Bool) (s : List ℕ) → run_length p s ≤ length s
unfolding run_length
run_length-le p [] = omega arith
run_length-le p (b ∷ s) = ground (arith, run_length-le p s)

pub block_body-le : (s : List ℕ) → block_body s ≤ length s
unfolding block_body
block_body-le [] = omega arith
block_body-le (b ∷ []) = ground arith
block_body-le (b ∷ c ∷ s) = ground (arith, block_body-le (c ∷ s))

char_run-le : (ascii other : ℕ → Bool) (k : ℕ) (s : List ℕ) → char_run ascii other k s ≤ length s
unfolding char_run
char_run-le ascii other zero [] = omega arith
char_run-le ascii other (suc k) [] = omega arith
char_run-le ascii other (suc k) (b ∷ s) = omega (arith, char_run-le ascii other k s)
char_run-le ascii other zero (b ∷ s) = ground (
  arith,
  char_run-le ascii other zero s,
  char_run-le ascii other ((first_char b s).len_utf8 - 1) s,
)

quoted_body-le : (q : ℕ) (s : List ℕ) → quoted_body q s ≤ length s
unfolding quoted_body
quoted_body-le q [] = omega arith
quoted_body-le q (b ∷ []) = omega arith
quoted_body-le q (b ∷ c ∷ s) = ground (arith, quoted_body-le q s, quoted_body-le q (c ∷ s))

starts_with-length : (p s : List ℕ) → starts_with p s ≡ true → length p ≤ length s
starts_with-length [] s h = omega arith
starts_with-length (p ∷ ps) [] h = cc
starts_with-length (p ∷ ps) (b ∷ s) h = ground (arith, starts_with-length ps s)

find-le : (d s : List ℕ) (n : ℕ) → find d s ≡ some n → n + length d ≤ length s
find-le d [] n h = ground (arith, starts_with-length d [])
find-le d (b ∷ s) n h = elim (Option-cases (find d s)) [
  | inl e ↦ ground (arith, e, starts_with-length d (b ∷ s))
  | inr (m, e) ↦ ground (arith, e, starts_with-length d (b ∷ s), find-le d s m e)
]

multi_byte-len :
    (c n : ℕ) → (0 < n) → (0 < (multi_byte c n).len_utf8) × ((multi_byte c n).len_utf8 ≤ n)
unfolding multi_byte
multi_byte-len c n h = ground arith

multi_byte-char : (c n : ℕ) → 0x80 ≤ (multi_byte c n).char
unfolding multi_byte
multi_byte-char c n = ground arith

pub first_char_bounds :
    (b : ℕ) (s : List ℕ)
    → (0 < (first_char b s).len_utf8) × ((first_char b s).len_utf8 ≤ suc (length s))
unfolding first_char
first_char_bounds b [] = ground arith
first_char_bounds b (c ∷ []) = ground arith
first_char_bounds b (c ∷ d ∷ []) = ground arith
first_char_bounds b (c ∷ d ∷ e ∷ s) = ground arith

pub scan_single_quoted_bounds :
    (b : ℕ) (s : List ℕ)
    → (0 < scan_single_quoted (b ∷ s)) × (scan_single_quoted (b ∷ s) ≤ suc (length s))
unfolding scan_single_quoted
scan_single_quoted_bounds b s = omega (arith, quoted_body-le b'\'' s)

pub scan_quoted_ident_bounds :
    (b : ℕ) (s : List ℕ)
    → (0 < scan_quoted_ident (b ∷ s)) × (scan_quoted_ident (b ∷ s) ≤ suc (length s))
unfolding scan_quoted_ident
scan_quoted_ident_bounds b s = omega (arith, quoted_body-le b'"' s)

drop-le :
    (n : ℕ) (p : List ℕ) (s : List ℕ) → starts_with p (drop n s) ≡ true → length p ≤ length s - n
drop-le n p s h = omega (arith, length-drop n s, starts_with-length p (drop n s) h)

dollar_close-le : (n : ℕ) (s : List ℕ) → n ≤ length s → dollar_close n s ≤ length s
unfolding dollar_close
dollar_close-le n s h = elim (Option-cases (find (take n s) (drop n s))) [
  | inl e ↦ rw (e, dollar_close) (omega arith)
  | inr (m, e) ↦
      rw (e, dollar_close)
        (omega (arith, find-le (take n s) (drop n s) m e, length-drop n s, length-take n s h))
]

dollar_close-ge : (n : ℕ) (s : List ℕ) → n ≤ length s → n ≤ dollar_close n s
unfolding dollar_close
dollar_close-ge n s h = ground (arith, h)

pub scan_dollar_quoted_bounds :
    (b : ℕ) (s : List ℕ) (n : ℕ)
    → scan_dollar_quoted (b ∷ s) ≡ some n
    → (0 < n) × (n ≤ suc (length s))
unfolding scan_dollar_quoted
scan_dollar_quoted_bounds b s n h =
    let t = run_length is_tag_byte s in
    ground (
      arith,
      drop-le (suc t) (b'$' ∷ []) (b ∷ s),
      dollar_close-le (suc t + 1) (b ∷ s),
      dollar_close-ge (suc t + 1) (b ∷ s),
    )

pub scan_bind_param_bounds :
    (b : ℕ) (s : List ℕ) (n : ℕ) → scan_bind_param (b ∷ s) ≡ some n → (0 < n) × (n ≤ suc (length s))
unfolding scan_bind_param
scan_bind_param_bounds b s n h = ground (arith, run_length-le is_ascii_digit s)

fraction-le : (s : List ℕ) → fraction s ≤ length s
unfolding fraction
fraction-le s = ground (arith, run_length-le is_ascii_digit (drop 1 s), length-drop 1 s)

exponent-le : (s : List ℕ) → exponent s ≤ length s
unfolding exponent
exponent-le s =
    let j = suc (sign_len b'+' b'-' (drop 1 s)) in
    ground (arith, run_length-le is_ascii_digit (drop j s), length-drop j s)

tail_sum : (m k : ℕ) (s : List ℕ) → m ≤ length s → k ≤ length (drop m s) → m + k ≤ length s
tail_sum m k s h g = omega (arith, length-drop m s)

minus_len : List ℕ → ℕ
minus_len s = if starts_with (b'-' ∷ []) s then 1 else 0

minus_len-le : (s : List ℕ) → minus_len s ≤ length s
unfolding minus_len
minus_len-le s = ground (arith, starts_with-length (b'-' ∷ []) s)

pub scan_number-le : (s : List ℕ) → scan_number s ≤ length s
unfolding scan_number minus_len
scan_number-le s =
    let m = minus_len s in
    let d = run_length is_ascii_digit (drop m s) in
    let f = fraction (drop (m + d) s) in
    let im = tail_sum m d s (minus_len-le s) (run_length-le is_ascii_digit (drop m s)) in
    let fm = tail_sum (m + d) f s im (fraction-le (drop (m + d) s)) in
    tail_sum (m + d + f) (exponent (drop (m + d + f) s)) s fm (exponent-le (drop (m + d + f) s))

-- A number has at least one digit in front of its fraction.
pub scan_number-pos :
    (b : ℕ) (s : List ℕ) → (is_ascii_digit b ≡ true) ⊎ (b ≡ b'-') → 0 < scan_number (b ∷ s)
unfolding scan_number
scan_number-pos b s (inl h) = ground arith
scan_number-pos b s (inr h) = ground arith

pub scan_line_comment_bounds :
    (b : ℕ) (s : List ℕ)
    → b ≢ 10
    → (0 < scan_line_comment (b ∷ s)) × (scan_line_comment (b ∷ s) ≤ suc (length s))
unfolding scan_line_comment
scan_line_comment_bounds b s h =
    ground (arith, run_length-le (λ c. elim (c == 10) [ true ↦ false | false ↦ true ]) s)

char_run-pos :
    (ascii other : ℕ → Bool) (b : ℕ) (s : List ℕ)
    → (ltb b 0x80 ≡ true → ascii b ≡ true)
    → (ltb b 0x80 ≡ false → other (first_char b s).char ≡ true)
    → 0 < char_run ascii other 0 (b ∷ s)
unfolding char_run
char_run-pos ascii other b s p q = ground arith

first_char-ascii : (b : ℕ) (s : List ℕ) → ltb b 0x80 ≡ true → (first_char b s).char ≡ b
unfolding first_char
first_char-ascii b s h = ground arith

-- The first character is the first byte, or both are outside ASCII.
pub first_char-ascii_iff :
    (b : ℕ) (s : List ℕ)
    → ((b < 0x80) × ((first_char b s).char ≡ b)) ⊎ ((0x80 ≤ b) × (0x80 ≤ (first_char b s).char))
unfolding first_char
first_char-ascii_iff b [] = ground arith
first_char-ascii_iff b (c ∷ []) = ground (arith, multi_byte-char ((b - 0xC0) * 64 + (c - 0x80)) 2)
first_char-ascii_iff b (c ∷ d ∷ []) = ground (
  arith,
  multi_byte-char ((b - 0xC0) * 64 + (c - 0x80)) 2,
  multi_byte-char (((b - 0xE0) * 64 + (c - 0x80)) * 64 + (d - 0x80)) 3,
)
first_char-ascii_iff b (c ∷ d ∷ e ∷ s) = ground (
  arith,
  multi_byte-char ((b - 0xC0) * 64 + (c - 0x80)) 2,
  multi_byte-char (((b - 0xE0) * 64 + (c - 0x80)) * 64 + (d - 0x80)) 3,
  multi_byte-char ((((b - 0xF0) * 64 + (c - 0x80)) * 64 + (d - 0x80)) * 64 + (e - 0x80)) 4,
)

-- The vertical tab is white space as a character, and not as a byte.
whitespace-ascii :
    (b : ℕ) → is_whitespace b ≡ true → b < 0x80 → b ≢ 11 → is_ascii_whitespace b ≡ true
unfolding is_whitespace is_ascii_whitespace
whitespace-ascii b h lt ne = ground arith

pub whitespace_run_bounds :
    (b : ℕ) (s : List ℕ)
    → is_whitespace (first_char b s).char ≡ true
    → b ≢ 11
    → (0 < whitespace_run (b ∷ s)) × (whitespace_run (b ∷ s) ≤ suc (length s))
whitespace_run_bounds b s h ne = (
  unfold whitespace_run in
      char_run-pos is_ascii_whitespace is_whitespace b s
        (λ a. whitespace-ascii b (rw (first_char-ascii b s a) at h) (ground arith) ne) (λ _. h),
  unfold whitespace_run in char_run-le is_ascii_whitespace is_whitespace 0 (b ∷ s),
)

pub ident_run_bounds :
    (u : Unicode) (b : ℕ) (s : List ℕ)
    → (ltb b 0x80 ≡ true → is_tag_byte b ≡ true)
    → (ltb b 0x80 ≡ false
        → (is_alphanumeric u (first_char b s).char || (first_char b s).char == b'_') ≡ true)
    → (0 < ident_run u (b ∷ s)) × (ident_run u (b ∷ s) ≤ suc (length s))
unfolding ident_run
ident_run_bounds u b s p q =
    let other = λ (c : ℕ). is_alphanumeric u c || c == b'_' in
    (char_run-pos is_tag_byte other b s p q, char_run-le is_tag_byte other 0 (b ∷ s))
