-- ===== src/Proxy/Binary/Scalars.antt =====
-- src/proxy/pg_binary.rs: texts, hexadecimal digits, bit strings.
use pg_retest.Prelude.{
  ℕ, zero, suc, ◌+◌, ◌-◌, ◌*◌, ◌/◌, ◌%◌, ◌^◌, Option, none, some, List, [], ◌∷◌, ◌++◌, ltb, leb,
  ◌==◌, if◌then◌else◌, length, take, drop, get_elem?, ℤ, signed,
}
use pg_retest.Proxy.Protocol.{u32_from}
use pg_retest.Text.Decimal.{hex_digit}

-- How Rust prints an `f32` and an `f64` of given bits.
pub record Floats : Type 0 where
  pub show_f32 : ℕ → List ℕ
  pub show_f64 : ℕ → List ℕ

-- `from_be_bytes` of the bytes of a number without a sign.
abbrev be_from : ℕ → List ℕ → ℕ
be_from acc [] = acc
be_from acc (b ∷ s) = be_from (acc * 256 + b) s

unfoldable pub from_be_bytes : List ℕ → ℕ
from_be_bytes = be_from 0

abbrev pub i16_from : List ℕ → ℤ
i16_from s = signed (2 ^ 15) (from_be_bytes s)

abbrev pub i32_from : List ℕ → ℤ
i32_from s = signed (2 ^ 31) (from_be_bytes s)

abbrev pub i64_from : List ℕ → ℤ
i64_from s = signed (2 ^ 63) (from_be_bytes s)

-- `&bytes[from..from + n]`, where it is known to lie inside.
abbrev pub at : ℕ → ℕ → List ℕ → List ℕ
at from n s = take n (drop from s)

unfoldable pub double_quotes : List ℕ → List ℕ
double_quotes [] = []
double_quotes (c ∷ s) = if c == b'\'' then b'\'' ∷ b'\'' ∷ double_quotes s else c ∷ double_quotes s

unfoldable pub sql_quote_text : List ℕ → List ℕ
unfolding double_quotes
sql_quote_text s = b'\'' ∷ (double_quotes s ++ b'\'' ∷ [])

unfoldable pub hex_encode : List ℕ → List ℕ
hex_encode [] = []
hex_encode (b ∷ s) = hex_digit (b / 16) ∷ hex_digit (b % 16) ∷ hex_encode s

unfoldable pub format_uuid : List ℕ → List ℕ
unfolding hex_encode
format_uuid bytes =
    let h = hex_encode bytes in
    at 0 8 h ++ b'-' ∷ (at 8 4 h ++ b'-' ∷ (at 12 4 h ++ b'-' ∷ (at 16 4 h ++ b'-' ∷ at 20 12 h)))

-- The bits of the byte at `i / 8`, from its highest on; a bit outside is none.
abbrev bit_at : List ℕ → ℕ → ℕ
bit_at packed i = elim (get_elem? packed (i / 8)) [
  | none ↦ b'0'
  | some byte ↦ if (byte / 2 ^ (7 - i % 8)) % 2 == 0 then b'0' else b'1'
]

bits_from : List ℕ → ℕ → ℕ → List ℕ
bits_from packed i zero = []
bits_from packed i (suc n) = bit_at packed i ∷ bits_from packed (i + 1) n

unfoldable pub decode_bit_string : List ℕ → Option (List ℕ)
unfolding bits_from
decode_bit_string bytes =
    let bit_count = u32_from bytes in
    let byte_count = (bit_count + 7) / 8 in
    let digits = bits_from (at 4 byte_count bytes) 0 bit_count in
    if ltb (length bytes) 4
    then none
    else if leb (2 ^ 31) bit_count
    then none
    else if ltb (length bytes) (4 + byte_count)
    then none
    else some digits
