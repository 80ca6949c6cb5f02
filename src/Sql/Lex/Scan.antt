-- ===== src/Sql/Lex/Scan.antt =====
-- src/sql/lex.rs: the character tests and the scanners. A scanner gets the bytes from the token's
-- start on and returns the token's length in bytes (the source returns start + length).
pub mod Bounds
use mathlib.Core.Option
use pg_retest.Prelude.{
  ℕ, zero, suc, ◌+◌, ◌-◌, ◌*◌, Bool, true, false, ◌&&◌, ◌||◌, Option, none, some, List, [], ◌∷◌,
  ltb, leb, ◌==◌, if◌then◌else◌, length, take, drop, starts_with, find, is_ascii_digit,
  is_ascii_alphanumeric,
}

-- The Unicode tables of the Rust standard library (`char::is_alphabetic`, `is_alphanumeric`, and the
-- UTF-8 bytes of `to_uppercase` and `to_lowercase`), asked only about characters outside ASCII.
pub record Unicode : Type 0 where
  pub alphabetic : ℕ → Bool
  pub alphanumeric : ℕ → Bool
  pub upper : ℕ → List ℕ
  pub lower : ℕ → List ℕ

-- `s.chars().next()`: the first character, and its length in bytes. Bytes that no `&str` holds
-- stand for the replacement character.
pub record FirstChar : Type 0 where
  pub char : ℕ
  pub len_utf8 : ℕ

abbrev pub replacement : FirstChar
replacement = record { char = 0xFFFD; len_utf8 = 1 }

-- An overlong encoding of an ASCII character stands in no `&str`.
multi_byte : ℕ → ℕ → FirstChar
multi_byte c n = if ltb c 0x80 then replacement else record { char = c; len_utf8 = n }

two_bytes : ℕ → List ℕ → FirstChar
two_bytes a (b ∷ s) = multi_byte ((a - 0xC0) * 64 + (b - 0x80)) 2
two_bytes a _ = replacement

three_bytes : ℕ → List ℕ → FirstChar
three_bytes a (b ∷ c ∷ s) = multi_byte (((a - 0xE0) * 64 + (b - 0x80)) * 64 + (c - 0x80)) 3
three_bytes a _ = replacement

four_bytes : ℕ → List ℕ → FirstChar
four_bytes a (b ∷ c ∷ d ∷ s) =
    multi_byte ((((a - 0xF0) * 64 + (b - 0x80)) * 64 + (c - 0x80)) * 64 + (d - 0x80)) 4
four_bytes a _ = replacement

unfoldable pub first_char : ℕ → List ℕ → FirstChar
unfolding multi_byte two_bytes three_bytes four_bytes
first_char a s =
    if ltb a 0x80
    then record { char = a; len_utf8 = 1 }
    else if ltb a 0xE0
    then two_bytes a s
    else if ltb a 0xF0
    then three_bytes a s
    else four_bytes a s

-- `u8::is_ascii_whitespace`: space, tab, line feed, form feed, carriage return.
unfoldable pub is_ascii_whitespace : ℕ → Bool
is_ascii_whitespace b = b == 32 || b == 9 || b == 10 || b == 12 || b == 13

-- `char::is_whitespace`: the White_Space property.
unfoldable pub is_whitespace : ℕ → Bool
is_whitespace c =
    (leb 9 c && leb c 13)
    || c == 32
    || c == 0x85
    || c == 0xA0
    || c == 0x1680
    || (leb 0x2000 c && leb c 0x200A)
    || c == 0x2028
    || c == 0x2029
    || c == 0x202F
    || c == 0x205F
    || c == 0x3000

abbrev pub is_tag_byte : ℕ → Bool
is_tag_byte b = is_ascii_alphanumeric b || b == b'_'

-- The length of the run of bytes that pass a test.
unfoldable pub run_length : (ℕ → Bool) → List ℕ → ℕ
run_length p [] = 0
run_length p (b ∷ s) = if p b then suc (run_length p s) else 0

-- `rest.find('\n')`, or the end of the input.
unfoldable pub scan_line_comment : List ℕ → ℕ
unfolding run_length
scan_line_comment = run_length (λ b. elim (b == 10) [ true ↦ false | false ↦ true ])

-- From behind the opening `/*`: up to and with the first `*/`, or to the end.
unfoldable pub block_body : List ℕ → ℕ
block_body [] = 0
block_body (b ∷ s) = if b == b'*' && starts_with (b'/' ∷ []) s then 2 else suc (block_body s)

-- The loops over a run of characters: ASCII bytes go by a byte test, others by their character.
-- The number counts the bytes of the character that is being passed.
unfoldable pub char_run : (ℕ → Bool) → (ℕ → Bool) → ℕ → List ℕ → ℕ
char_run ascii other _ [] = 0
char_run ascii other (suc k) (b ∷ s) = suc (char_run ascii other k s)
char_run ascii other zero (b ∷ s) = elim (ltb b 0x80) [
  | true ↦ elim (ascii b) [ true ↦ suc (char_run ascii other zero s) | false ↦ 0 ]
  | false ↦ elim (other (first_char b s).char) [
    | true ↦ suc (char_run ascii other ((first_char b s).len_utf8 - 1) s)
    | false ↦ 0
  ]
]

unfoldable pub whitespace_run : List ℕ → ℕ
unfolding char_run
whitespace_run = char_run is_ascii_whitespace is_whitespace 0

-- `char::is_alphanumeric`: the ASCII letters and digits, and the tables beyond.
abbrev pub is_alphanumeric : Unicode → ℕ → Bool
is_alphanumeric u c = is_ascii_alphanumeric c || (leb 0x80 c && u.alphanumeric c)

unfoldable pub ident_run : Unicode → List ℕ → ℕ
unfolding char_run
ident_run u = char_run is_tag_byte (λ c. is_alphanumeric u c || c == b'_') 0

-- From behind the opening quote `q`: up to and with the closing one, or to the end. A doubled
-- quote is passed over.
unfoldable pub quoted_body : ℕ → List ℕ → ℕ
quoted_body q [] = 0
quoted_body q (b ∷ []) = 1
quoted_body q (b ∷ c ∷ s) = elim (b == q) [
  | true ↦ elim (c == q) [ true ↦ suc (suc (quoted_body q s)) | false ↦ 1 ]
  | false ↦ suc (quoted_body q (c ∷ s))
]

unfoldable pub scan_single_quoted : List ℕ → ℕ
unfolding quoted_body
scan_single_quoted rest = suc (quoted_body b'\'' (drop 1 rest))

unfoldable pub scan_quoted_ident : List ℕ → ℕ
unfolding quoted_body
scan_quoted_ident rest = suc (quoted_body b'"' (drop 1 rest))

-- The end of the body, behind an opening delimiter of `n` bytes.
dollar_close : ℕ → List ℕ → ℕ
dollar_close n rest = elim (find (take n rest) (drop n rest)) [
  | some rel ↦ n + rel + n
  | none ↦ length rest
]

unfoldable pub scan_dollar_quoted : List ℕ → Option ℕ
unfolding run_length dollar_close
scan_dollar_quoted rest =
    let tag_end = suc (run_length is_tag_byte (drop 1 rest)) in
    if starts_with (b'$' ∷ []) (drop tag_end rest)
    then some (dollar_close (tag_end + 1) rest)
    else none

unfoldable pub scan_bind_param : List ℕ → Option ℕ
unfolding run_length
scan_bind_param rest =
    let digits = run_length is_ascii_digit (drop 1 rest) in
    if digits == 0 then none else some (suc digits)

-- `.` and at least one digit
fraction : List ℕ → ℕ
unfolding run_length
fraction s =
    let digits = run_length is_ascii_digit (drop 1 s) in
    if starts_with (b'.' ∷ []) s && ltb 0 digits then suc digits else 0

sign_len : ℕ → ℕ → List ℕ → ℕ
sign_len p m s = if starts_with (p ∷ []) s || starts_with (m ∷ []) s then 1 else 0

-- `e` or `E`, a sign, and at least one digit
exponent : List ℕ → ℕ
unfolding run_length
exponent s =
    let j = suc (sign_len b'+' b'-' (drop 1 s)) in
    let digits = run_length is_ascii_digit (drop j s) in
    if (starts_with (b'e' ∷ []) s || starts_with (b'E' ∷ []) s) && ltb 0 digits
    then j + digits
    else 0

unfoldable pub scan_number : List ℕ → ℕ
unfolding run_length fraction exponent sign_len
scan_number rest =
    let m = if starts_with (b'-' ∷ []) rest then 1 else 0 in
    let i = m + run_length is_ascii_digit (drop m rest) in
    let k = i + fraction (drop i rest) in k + exponent (drop k rest)
