-- ===== src/Proxy/Binary/Vectors.antt =====
-- src/proxy/pg_binary.rs: vectors of the pgvector extension.
pub mod Half
use pg_retest.Prelude.{
  ℕ, zero, suc, ◌+◌, ◌-◌, ◌*◌, ◌/◌, ◌%◌, ◌^◌, Bool, true, false, ◌||◌, Option, none, some, List, [],
  ◌∷◌, ◌++◌, map, ltb, leb, ◌==◌, not, if◌then◌else◌, length, drop, codes,
}
use pg_retest.Text.{join}
use pg_retest.Text.Decimal.{decimal, signed_decimal}
use pg_retest.Proxy.Protocol.{u16_from, u32_from}
use pg_retest.Proxy.Protocol.Extract.{read_array}
use pg_retest.Proxy.Binary.Scalars.{Floats, i32_from, at, from_be_bytes}

-- The loop that brings the highest bit of a subnormal mantissa to its place; each turn takes one off
-- the exponent. A mantissa has ten bits.
abbrev pub normalize : ℕ → ℕ → ℕ → ℕ × ℕ
normalize zero m f32_exp = (m, f32_exp)
normalize (suc f) m f32_exp =
    let rest = normalize f (m * 2) (f32_exp - 1) in
    if (m / 0x400) % 2 == 0 then rest else (m, f32_exp)

-- `sign << 31 | exp << 23 | mant`, whose fields do not overlap.
abbrev pub f32_bits : ℕ → ℕ → ℕ → ℕ
f32_bits sign exp mant = sign * 2 ^ 31 + exp * 2 ^ 23 + mant

abbrev subnormal : ℕ → ℕ → ℕ
subnormal sign mant =
    let (m, f32_exp) = normalize 10 mant 113 in f32_bits sign f32_exp ((m % 0x400) * 2 ^ 13)

-- The bits of the `f32`.
unfoldable pub f16_to_f32 : ℕ → ℕ
f16_to_f32 bits =
    let sign = (bits / 2 ^ 15) % 2 in
    let exp = (bits / 2 ^ 10) % 0x20 in
    let mant = bits % 0x400 in
    if exp == 0
    then (if mant == 0 then sign * 2 ^ 31 else subnormal sign mant)
    else if exp == 31
    then f32_bits sign 0xFF (mant * 2 ^ 13)
    else f32_bits sign (exp + 112) (mant * 2 ^ 13)

-- The dimension as an `i16`: the bits of a negative one are 2^15 or more.
abbrev vector_text : (ℕ → List ℕ) → (List ℕ → ℕ) → ℕ → List ℕ → Option (List ℕ)
vector_text show read width bytes =
    let dim = u16_from bytes in
    let parts = read_array read width dim (drop 4 bytes) in
    if ltb (length bytes) 4 || leb (2 ^ 15) dim
    then none
    else if length bytes == 4 + dim * width
    then some (b'[' ∷ (join (codes ",") (map show parts) ++ b']' ∷ []))
    else none

sparse_parts : (ℕ → List ℕ) → ℕ → List ℕ → List ℕ → List (List ℕ)
sparse_parts show zero indices values = []
sparse_parts show (suc n) indices values =
    (signed_decimal (i32_from (at 0 4 indices)) ++ b':' ∷ show (u32_from values))
    ∷ sparse_parts show n (drop 4 indices) (drop 4 values)

module _ (floats : Floats) where
  unfoldable pub decode_vector : List ℕ → Option (List ℕ)
  unfolding read_array
  decode_vector bytes = vector_text floats.show_f32 u32_from 4 bytes

  unfoldable pub decode_halfvec : List ℕ → Option (List ℕ)
  unfolding read_array f16_to_f32
  decode_halfvec bytes = vector_text (λ raw. floats.show_f32 (f16_to_f32 raw)) u16_from 2 bytes

  unfoldable pub decode_sparsevec : List ℕ → Option (List ℕ)
  unfolding sparse_parts from_be_bytes
  decode_sparsevec bytes =
      let dim = u32_from bytes in
      let nnz = u32_from (drop 4 bytes) in
      let parts = sparse_parts floats.show_f32 nnz (drop 12 bytes) (drop (12 + nnz * 4) bytes) in
      if ltb (length bytes) 12
      then none
      else if leb (2 ^ 31) dim || leb (2 ^ 31) nnz
      then none
      else if length bytes == 12 + nnz * 8
      then some (b'{' ∷ (join (codes ",") parts ++ (codes "}/" ++ decimal dim)))
      else none
