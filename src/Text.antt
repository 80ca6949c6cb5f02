-- ===== src/Text.antt =====
-- What the program uses of Rust's `str` on whole texts: case, trimming, prefixes and parts. A text
-- is its UTF-8 bytes.
pub mod Decimal
use pg_retest.Prelude.{
  ℕ, zero, suc, ◌-◌, Option, none, some, not, ◌==◌, Bool, true, false, ◌||◌, ◌&&◌, length, List, [],
  ◌∷◌, ◌++◌, ltb, if◌then◌else◌, starts_with, to_ascii_upper, is_ascii_upper, ◌+◌,
}
use pg_retest.Sql.Lex.Scan.{Unicode, first_char, is_whitespace}

-- A change of case, character by character. The number counts the bytes of a character that has
-- been treated and is passed.
unfoldable pub map_chars : (ℕ → ℕ) → (ℕ → List ℕ) → ℕ → List ℕ → List ℕ
map_chars ascii other _ [] = []
map_chars ascii other (suc k) (b ∷ s) = map_chars ascii other k s
map_chars ascii other zero (b ∷ s) = elim (ltb b 0x80) [
  | true ↦ ascii b ∷ map_chars ascii other zero s
  | false ↦ other (first_char b s).char ++ map_chars ascii other ((first_char b s).len_utf8 - 1) s
]

abbrev pub to_ascii_lower : ℕ → ℕ
to_ascii_lower b = if is_ascii_upper b then b + 32 else b

unfoldable pub to_uppercase : Unicode → List ℕ → List ℕ
unfolding map_chars first_char
to_uppercase u = map_chars to_ascii_upper u.upper 0

unfoldable pub to_lowercase : Unicode → List ℕ → List ℕ
unfolding map_chars first_char
to_lowercase u = map_chars to_ascii_lower u.lower 0

trim_from : ℕ → List ℕ → List ℕ
trim_from _ [] = []
trim_from (suc k) (b ∷ s) = trim_from k s
trim_from zero (b ∷ s) = elim (is_whitespace (first_char b s).char) [
  | true ↦ trim_from ((first_char b s).len_utf8 - 1) s
  | false ↦ b ∷ s
]

unfoldable pub trim_start : List ℕ → List ℕ
unfolding trim_from is_whitespace first_char
trim_start = trim_from 0

trim_end_from : ℕ → List ℕ → List ℕ
trim_end_from _ [] = []
trim_end_from (suc k) (b ∷ s) = b ∷ trim_end_from k s
trim_end_from zero (b ∷ s) =
    let c = first_char b s in
    let rest = trim_end_from (c.len_utf8 - 1) s in
    if is_whitespace c.char && ltb (length rest) c.len_utf8 then [] else b ∷ rest

unfoldable pub trim : List ℕ → List ℕ
unfolding trim_start trim_end_from is_whitespace first_char
trim s = trim_end_from 0 (trim_start s)

-- `contains` of a text.
unfoldable pub contains : List ℕ → List ℕ → Bool
contains d [] = starts_with d []
contains d (b ∷ s) = starts_with d (b ∷ s) || contains d s

-- `chars().take(n)`, as a text; the second number counts the bytes of a character that is taken.
take_chars_from : ℕ → ℕ → List ℕ → List ℕ
take_chars_from _ _ [] = []
take_chars_from n (suc k) (b ∷ s) = b ∷ take_chars_from n k s
take_chars_from zero zero (b ∷ s) = []
take_chars_from (suc n) zero (b ∷ s) = b ∷ take_chars_from n ((first_char b s).len_utf8 - 1) s

unfoldable pub take_chars : ℕ → List ℕ → List ℕ
unfolding take_chars_from first_char
take_chars n = take_chars_from n 0

-- `split` at a byte.
abbrev onto_first : ℕ → List (List ℕ) → List (List ℕ)
onto_first b [] = (b ∷ []) ∷ []
onto_first b (s ∷ ss) = (b ∷ s) ∷ ss

unfoldable pub split : ℕ → List ℕ → List (List ℕ)
split sep [] = [] ∷ []
split sep (b ∷ s) = if b == sep then [] ∷ split sep s else onto_first b (split sep s)

-- `split_whitespace`: the bytes that are left of a character, whether it is white space, and the
-- word that is being read.
abbrev end_word : List ℕ → List (List ℕ) → List (List ℕ)
end_word [] ws = ws
end_word (b ∷ s) ws = (b ∷ s) ∷ ws

words_from : ℕ → Bool → List ℕ → List ℕ → List (List ℕ)
words_from _ _ word [] = end_word word []
words_from (suc k) true word (b ∷ s) = words_from k true word s
words_from (suc k) false word (b ∷ s) = words_from k false (word ++ b ∷ []) s
words_from zero _ word (b ∷ s) =
    let c = first_char b s in
    elim (is_whitespace c.char) [
      | true ↦ end_word word (words_from (c.len_utf8 - 1) true [] s)
      | false ↦ words_from (c.len_utf8 - 1) false (word ++ b ∷ []) s
    ]

unfoldable pub split_whitespace : List ℕ → List (List ℕ)
unfolding words_from is_whitespace first_char
split_whitespace = words_from 0 false []

-- `from_utf8`: the ranges of the bytes that a first byte calls for.
abbrev utf8_lead : ℕ → Option (List (ℕ × ℕ))
utf8_lead b =
    if ltb b 0x80
    then some []
    else if ltb b 0xC2
    then none
    else if ltb b 0xE0
    then some ((0x80, 0xC0) ∷ [])
    else if ltb b 0xF0
    then some (
        ((if b == 0xE0 then 0xA0 else 0x80), (if b == 0xED then 0xA0 else 0xC0))
        ∷ (0x80, 0xC0)
        ∷ [])
    else if ltb b 0xF5
    then some (
        ((if b == 0xF0 then 0x90 else 0x80), (if b == 0xF4 then 0x90 else 0xC0))
        ∷ (0x80, 0xC0)
        ∷ (0x80, 0xC0)
        ∷ [])
    else none

utf8_from : List (ℕ × ℕ) → List ℕ → Bool
utf8_from [] [] = true
utf8_from (r ∷ rs) [] = false
utf8_from ((low, high) ∷ rs) (b ∷ s) = (not (ltb b low) && ltb b high) && utf8_from rs s
utf8_from [] (b ∷ s) = elim (utf8_lead b) [ none ↦ false | some rs ↦ utf8_from rs s ]

unfoldable pub is_utf8 : List ℕ → Bool
unfolding utf8_from
is_utf8 = utf8_from []

-- `join`
abbrev pub join : List ℕ → List (List ℕ) → List ℕ
join sep [] = []
join sep (s ∷ []) = s
join sep (s ∷ t ∷ ss) = s ++ (sep ++ join sep (t ∷ ss))
