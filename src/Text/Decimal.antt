-- ===== src/Text/Decimal.antt =====
-- How Rust prints numbers: `{}`, `{:0w}` and `{:x}`.
use pg_retest.Prelude.{
  ℕ, zero, suc, ◌+◌, ◌-◌, ◌*◌, ◌/◌, ◌%◌, ◌≤◌, ◌<◌, ◌≡◌, refl, ap, sym, subst, ◌∙◌, true, List, [],
  ◌∷◌, All, arith, ltb, leb, if◌then◌else◌, length, ℤ, pos, negsuc, Bool-cases, inl, inr,
}

-- Digits in front of what is there, with fuel above the number.
decimal_from : ℕ → ℕ → List ℕ → List ℕ
decimal_from zero n acc = acc
decimal_from (suc f) n acc =
    let rest = decimal_from f (n / 10) ((48 + n % 10) ∷ acc) in
    if ltb n 10 then (48 + n) ∷ acc else rest

unfoldable pub decimal : ℕ → List ℕ
unfolding decimal_from
decimal n = decimal_from (suc n) n []

abbrev pub zeros : ℕ → List ℕ → List ℕ
zeros zero s = s
zeros (suc n) s = 48 ∷ zeros n s

-- `{:0w}`
unfoldable pub padded : ℕ → ℕ → List ℕ
unfolding decimal
padded w n = zeros (w - length (decimal n)) (decimal n)

unfoldable pub signed_decimal : ℤ → List ℕ
unfolding decimal
signed_decimal (pos n) = decimal n
signed_decimal (negsuc n) = b'-' ∷ decimal (n + 1)

-- The width counts the sign.
unfoldable pub signed_padded : ℕ → ℤ → List ℕ
unfolding padded
signed_padded w (pos n) = padded w n
signed_padded w (negsuc n) = b'-' ∷ padded (w - 1) (n + 1)

abbrev pub hex_digit : ℕ → ℕ
hex_digit n = if ltb n 10 then 48 + n else 87 + n

hex_from : ℕ → ℕ → List ℕ → List ℕ
hex_from zero n acc = acc
hex_from (suc f) n acc =
    let rest = hex_from f (n / 16) (hex_digit (n % 16) ∷ acc) in
    if ltb n 16 then hex_digit n ∷ acc else rest

-- `{:x}`
unfoldable pub hex : ℕ → List ℕ
unfolding hex_from
hex n = hex_from (suc n) n []

-- The number that digits stand for.
abbrev pub read_from : ℕ → List ℕ → ℕ
read_from acc [] = acc
read_from acc (c ∷ s) = read_from (acc * 10 + (c - 48)) s

abbrev pub read_decimal : List ℕ → ℕ
read_decimal s = read_from 0 s

-- The integer that a text with or without a minus sign stands for.
abbrev pub read_signed : List ℕ → ℤ
read_signed [] = pos 0
read_signed (c ∷ s) = if leb 48 c then pos (read_decimal (c ∷ s)) else negsuc (read_decimal s - 1)

abbrev pub IsDigit : ℕ → Type 0
IsDigit c = (48 ≤ c) × (c < 58)

read-decimal_from :
    (f n : ℕ) (acc : List ℕ) → n < f → read_from 0 (decimal_from f n acc) ≡ read_from n acc
unfolding decimal_from
read-decimal_from zero n acc h = elim h [ ]
read-decimal_from (suc f) n acc h = elim (Bool-cases (ltb n 10)) [
  | inl small ↦
      rw small (ap (λ k. read_from k acc) (let e : 0 * 10 + (48 + n - 48) ≡ n = omega arith in e))
  | inr big ↦ rw big (
      read-decimal_from f (n / 10) ((48 + n % 10) ∷ acc) (ground (arith, big, h))
      ∙ ap (λ k. read_from k acc) (let e : n / 10 * 10 + (48 + n % 10 - 48) ≡ n = omega arith in e))
]

pub read_decimal-decimal : (n : ℕ) → read_decimal (decimal n) ≡ n
unfolding decimal
read_decimal-decimal n = read-decimal_from (suc n) n [] (omega arith)

decimal_from-IsDigit :
    (f n : ℕ) (acc : List ℕ) → n < f → All IsDigit acc → All IsDigit (decimal_from f n acc)
unfolding decimal_from
decimal_from-IsDigit zero n acc h k = k
decimal_from-IsDigit (suc f) n acc h k = elim (Bool-cases (ltb n 10)) [
  | inl small ↦ rw small ((ground (arith, small)), k)
  | inr big ↦ rw big (
      decimal_from-IsDigit f (n / 10) ((48 + n % 10) ∷ acc) (ground (arith, big, h))
        (omega arith, k))
]

pub decimal-IsDigit : (n : ℕ) → All IsDigit (decimal n)
unfolding decimal
decimal-IsDigit n = decimal_from-IsDigit (suc n) n [] (omega arith) tt

-- There is at least one digit.
decimal_from-cons :
    (f n : ℕ) (acc : List ℕ) → n < f → (c : ℕ) × (s : List ℕ) × (decimal_from f n acc ≡ c ∷ s)
unfolding decimal_from
decimal_from-cons zero n acc h = elim h [ ]
decimal_from-cons (suc f) n acc h = elim (Bool-cases (ltb n 10)) [
  | inl small ↦ rw small (48 + n, acc, refl)
  | inr big ↦ rw big (decimal_from-cons f (n / 10) ((48 + n % 10) ∷ acc) (ground (arith, big, h)))
]

pub decimal-cons : (n : ℕ) → (c : ℕ) × (s : List ℕ) × (decimal n ≡ c ∷ s)
unfolding decimal
decimal-cons n = decimal_from-cons (suc n) n [] (omega arith)

-- A printed integer is read back.
pub read_signed-signed_decimal : (z : ℤ) → read_signed (signed_decimal z) ≡ z
unfolding signed_decimal
read_signed-signed_decimal (pos n) =
    let (c, s, e) = decimal-cons n in
    let digits : All IsDigit (c ∷ s) = subst (All IsDigit) e (decimal-IsDigit n) in
    let first : leb 48 c ≡ true = ground (arith, digits) in
    ap read_signed e ∙ rw first (ap pos (sym (ap read_decimal e) ∙ read_decimal-decimal n))
read_signed-signed_decimal (negsuc n) = ap negsuc (
    let e : read_decimal (decimal (n + 1)) - 1 ≡ n = omega (arith, read_decimal-decimal (n + 1)) in
    e)
