-- ===== src/Proxy/Binary/Numeric.antt =====
-- src/proxy/pg_binary.rs: numeric values. The count of groups is read as an `i16` and turned into a
-- `usize`; what is computed of it wraps at 2^64, as in a release build, and a vector of that many
-- groups, of two bytes each, may not be had.
use pg_retest.Prelude.{
  ℕ, zero, suc, ◌+◌, ◌-◌, ◌*◌, ◌^◌, ◌%◌, true, false, none, some, List, [], ◌∷◌, ◌++◌, ltb, ◌==◌,
  if◌then◌else◌, length, take, drop, get_elem?, codes, ℤ, pos, negsuc, signed, add_nat, rem_euclid,
}
use pg_retest.Text.Decimal.{decimal, padded, zeros}
use pg_retest.Proxy.Protocol.{u16_from, i16_as_usize}
use pg_retest.Proxy.Protocol.Extract.{read_array}
use pg_retest.Proxy.Protocol.Bind.{Outcome, value, absent, ◌>>=◌, add64, with_capacity, need}
use pg_retest.Proxy.Binary.Scalars.{i16_from, at}

-- `max(0)`
abbrev pub not_negative : ℤ → ℕ
not_negative (pos n) = n
not_negative (negsuc n) = 0

-- `weight + 1`, which wraps at the largest weight.
abbrev pub next_weight : ℤ → ℤ
next_weight weight = signed (2 ^ 15) (rem_euclid (add_nat weight 1) (2 ^ 16))

abbrev group : List ℕ → ℕ → ℕ
group digits i = elim (get_elem? digits i) [ none ↦ 0 | some d ↦ d ]

int_groups : List ℕ → ℕ → ℕ → List ℕ
int_groups digits i zero = []
int_groups digits i (suc n) = padded 4 (group digits i) ++ int_groups digits (i + 1) n

-- The groups up to the weight; the first is printed without zeros in front.
unfoldable pub int_part : ℤ → List ℕ → List ℕ
unfolding int_groups
int_part weight digits = decimal (group digits 0) ++ int_groups digits 1 (not_negative weight)

unfoldable pub group_texts : List ℕ → List ℕ
group_texts [] = []
group_texts (d ∷ digits) = padded 4 d ++ group_texts digits

-- The groups behind the point, of which those between the point and the first one are zero.
abbrev pub frac_groups : ℤ → List ℕ → List ℕ
frac_groups (pos n) digits = group_texts (drop n digits)
frac_groups (negsuc n) digits = zeros (4 * (n + 1)) (group_texts digits)

-- Cut or filled up to the scale.
abbrev pub scaled : ℕ → List ℕ → List ℕ
scaled dscale s = if ltb dscale (length s) then take dscale s else s ++ zeros (dscale - length s) []

abbrev point : ℕ → List ℕ → List ℕ → List ℕ
point dscale whole frac = if dscale == 0 then whole else whole ++ b'.' ∷ scaled dscale frac

-- The number of sign, weight, scale and groups.
unfoldable pub numeric_text : ℕ → ℤ → ℕ → List ℕ → List ℕ
unfolding int_part group_texts
numeric_text sign weight dscale [] =
    if dscale == 0 then codes "0" else codes "0." ++ zeros dscale []
numeric_text sign weight dscale (d ∷ digits) =
    (if sign == 0x4000 then b'-' ∷ [] else [])
    ++ point dscale (int_part weight (d ∷ digits)) (frac_groups (next_weight weight) (d ∷ digits))

numeric_digits : List ℕ → Outcome (List ℕ)
unfolding numeric_text read_array
numeric_digits bytes = do
  let ndigits = i16_as_usize (u16_from bytes)
  _ ← need (if ltb (length bytes) (add64 8 ((ndigits * 2) % 2 ^ 64)) then false else true)
  _ ← with_capacity ndigits 2
  value (
      numeric_text (u16_from (drop 4 bytes)) (i16_from (at 2 2 bytes))
        (not_negative (i16_from (at 6 2 bytes))) (read_array u16_from 2 ndigits (drop 8 bytes)))

unfoldable pub decode_numeric : List ℕ → Outcome (List ℕ)
unfolding numeric_digits
decode_numeric bytes =
    let sign = u16_from (drop 4 bytes) in
    let number = numeric_digits bytes in
    if ltb (length bytes) 8
    then absent
    else if sign == 0xC000
    then value (codes "NaN")
    else if sign == 0xD000
    then value (codes "Infinity")
    else if sign == 0xF000
    then value (codes "-Infinity")
    else number
