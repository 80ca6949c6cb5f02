-- ===== src/Proxy/Binary/Vectors/Half.antt =====
-- src/proxy/pg_binary.rs: half-precision numbers, widened without loss.
use native.Mathlib.Nat.{pow-suc, pow-succ', mul_comm, mul_assoc, mul-mul-mul_comm}
use pg_retest.Prelude.{
  ℕ, zero, suc, ◌+◌, ◌-◌, ◌*◌, ◌/◌, ◌%◌, ◌^◌, ◌≤◌, ◌<◌, ◌≡◌, refl, sym, ap, ◌∙◌, false, ◌==◌,
  if◌then◌else◌, Bool-cases, ==_iff, inl, inr, arith,
}
use pg_retest.Proxy.Binary.Vectors.{normalize, f32_bits, f16_to_f32}

-- The value of a finite half-precision number without its sign, in units of 2^-24.
abbrev pub half_units : ℕ → ℕ
half_units bits =
    let exp = (bits / 2 ^ 10) % 0x20 in
    let mant = bits % 0x400 in if exp == 0 then mant else (0x400 + mant) * 2 ^ (exp - 1)

-- The value of a normal single-precision number without its sign, in units of 2^-149.
abbrev pub single_units : ℕ → ℕ
single_units bits =
    let exp = (bits / 2 ^ 23) % 0x100 in
    let mant = bits % 2 ^ 23 in if exp == 0 then mant else (2 ^ 23 + mant) * 2 ^ (exp - 1)

mul_pow : (m x : ℕ) → m * 2 * 2 ^ x ≡ m * 2 ^ suc x
mul_pow m x = mul_assoc m 2 (2 ^ x) ∙ ap (λ (y : ℕ). m * y) (sym (pow-succ' 2 x))

double : (m e : ℕ) → 0 < e → m * 2 * 2 ^ (e - 1) ≡ m * 2 ^ e
double m e h =
    let one : suc (e - 1) ≡ e = omega (arith, h) in
    mul_pow m (e - 1) ∙ ap (λ (x : ℕ). m * 2 ^ x) one

-- The loop ends with the highest bit in its place, and each turn doubles the mantissa.
normalize-units :
    (f m e : ℕ)
    → 1 ≤ m
    → m < 0x800
    → 0x400 ≤ m * 2 ^ f
    → f < e
    → ((normalize f m e).0 * 2 ^ (normalize f m e).1 ≡ m * 2 ^ e)
      × (0x400 ≤ (normalize f m e).0)
      × ((normalize f m e).0 < 0x800)
      × (e - f ≤ (normalize f m e).1)
      × ((normalize f m e).1 ≤ e)
normalize-units zero m e h l k i = (refl, omega (arith, k), l, omega arith, omega arith)
normalize-units (suc f) m e h l k i = elim (Bool-cases ((m / 0x400) % 2 == 0)) [
  | inl low ↦
      let small : m < 0x400 = ground (arith, low, l) in
      let (u, lo, hi, a, b) =
        normalize-units f (m * 2) (e - 1) (omega (arith, h)) (omega (arith, small))
          (let x : 0x400 ≤ m * 2 * 2 ^ f = omega (arith, k, mul_pow m f) in x) (omega (arith, i)) in
      rw low (u ∙ double m e (omega (arith, i)), lo, hi, omega (arith, a), omega (arith, b))
  | inr high ↦ rw high (refl, ground (arith, high, l), l, omega arith, omega arith)
]

-- A wider mantissa and a larger exponent.
widen : (a p q : ℕ) → q ≡ p * 2 ^ 112 → (2 ^ 23 + a * 2 ^ 13) * q ≡ (0x400 + a) * p * 2 ^ 125
widen a p q h =
    ap (λ (x : ℕ). x * q) (let e : 2 ^ 23 + a * 2 ^ 13 ≡ (0x400 + a) * 2 ^ 13 = omega arith in e)
    ∙ ap (λ (x : ℕ). (0x400 + a) * 2 ^ 13 * x) h
    ∙ mul-mul-mul_comm (0x400 + a) (2 ^ 13) p (2 ^ 112)

pow_plus : (n k : ℕ) → 2 ^ (n + k) ≡ 2 ^ n * 2 ^ k
pow_plus n zero =
    ap (λ (x : ℕ). 2 ^ x) (let e : n + 0 ≡ n = omega arith in e)
    ∙ (let e : 2 ^ n ≡ 2 ^ n * 1 = omega arith in e)
pow_plus n (suc k) =
    ap (λ (x : ℕ). 2 ^ x) (let e : n + suc k ≡ suc (n + k) = omega arith in e)
    ∙ pow-suc 2 (n + k)
    ∙ ap (λ (x : ℕ). x * 2) (pow_plus n k)
    ∙ mul_assoc (2 ^ n) (2 ^ k) 2
    ∙ ap (λ (x : ℕ). 2 ^ n * x) (sym (pow-suc 2 k))

-- The fields of a single-precision number.
f32_fields :
    (sign exp mant : ℕ)
    → exp < 0x100
    → mant < 2 ^ 23
    → ((f32_bits sign exp mant / 2 ^ 23) % 0x100 ≡ exp)
      × (f32_bits sign exp mant % 2 ^ 23 ≡ mant)
      × (f32_bits sign exp mant / 2 ^ 31 ≡ sign)
f32_fields sign exp mant h k = (omega (arith, h, k), omega (arith, h, k), omega (arith, h, k))

-- A number with its sign and an exponent that is not 0.
single_units-f32_bits :
    (sign exp mant : ℕ)
    → 0 < exp
    → exp < 0x100
    → mant < 2 ^ 23
    → single_units (f32_bits sign exp mant) ≡ (2 ^ 23 + mant) * 2 ^ (exp - 1)
single_units-f32_bits sign exp mant p h k =
    let (e, m, s) = f32_fields sign exp mant h k in
    let nonzero : (exp == 0) ≡ false = ground (arith, p) in rw (e, m, nonzero) refl

IsWidened : ℕ → ℕ → ℕ → Type 0
IsWidened sign units bits = (bits / 2 ^ 31 ≡ sign) × (single_units bits ≡ units * 2 ^ 125)

normal-IsWidened :
    (sign exp mant : ℕ)
    → 0 < exp
    → exp < 31
    → mant < 0x400
    → IsWidened sign ((0x400 + mant) * 2 ^ (exp - 1)) (f32_bits sign (exp + 112) (mant * 2 ^ 13))
unfolding IsWidened
normal-IsWidened sign exp mant p h k =
    let (e, m, s) =
      f32_fields sign (exp + 112) (mant * 2 ^ 13) (omega (arith, h)) (omega (arith, k)) in
    let place : 2 ^ (exp + 112 - 1) ≡ 2 ^ (exp - 1) * 2 ^ 112 =
      ap (λ (x : ℕ). 2 ^ x) (let e : exp + 112 - 1 ≡ exp - 1 + 112 = omega (arith, p) in e)
      ∙ pow_plus (exp - 1) 112 in
    (
      s,
      single_units-f32_bits sign (exp + 112) (mant * 2 ^ 13) (omega arith) (omega (arith, h))
            (omega (arith, k))
          ∙ widen mant (2 ^ (exp - 1)) (2 ^ (exp + 112 - 1)) place,
    )

shift :
    (m f mant : ℕ) → 0 < f → m * 2 ^ f ≡ mant * 2 ^ 113 → m * 2 ^ 13 * 2 ^ (f - 1) ≡ mant * 2 ^ 125
shift m f mant p u =
    let rest = 2 ^ (f - 1) in
    ap (λ (x : ℕ). x * rest) (let e : m * 2 ^ 13 ≡ m * 2 * 2 ^ 12 = omega arith in e)
    ∙ mul_assoc (m * 2) (2 ^ 12) rest
    ∙ ap (λ (x : ℕ). m * 2 * x) (mul_comm (2 ^ 12) rest)
    ∙ sym (mul_assoc (m * 2) rest (2 ^ 12))
    ∙ ap (λ (x : ℕ). x * 2 ^ 12) (double m f p ∙ u)
    ∙ (let e : mant * 2 ^ 113 * 2 ^ 12 ≡ mant * 2 ^ 125 = omega arith in e)

normalized-IsWidened :
    (sign mant m f : ℕ)
    → m * 2 ^ f ≡ mant * 2 ^ 113
    → 0x400 ≤ m
    → m < 0x800
    → 0 < f
    → f ≤ 113
    → IsWidened sign mant (f32_bits sign f ((m % 0x400) * 2 ^ 13))
unfolding IsWidened
normalized-IsWidened sign mant m f u lo hi a b =
    let fits : (m % 0x400) * 2 ^ 13 < 2 ^ 23 = omega arith in
    let low : m % 0x400 ≡ m - 0x400 = omega (arith, lo, hi) in
    let (e, mm, s) = f32_fields sign f ((m % 0x400) * 2 ^ 13) (omega (arith, b)) fits in
    let sum : 2 ^ 23 + (m % 0x400) * 2 ^ 13 ≡ m * 2 ^ 13 = omega (arith, low, lo) in
    (
      s,
      single_units-f32_bits sign f ((m % 0x400) * 2 ^ 13) a (omega (arith, b)) fits
          ∙ ap (λ (x : ℕ). x * 2 ^ (f - 1)) sum
          ∙ shift m f mant a u,
    )

single_units-zero : (sign : ℕ) → single_units (sign * 2 ^ 31) ≡ 0
single_units-zero sign =
    let e : (sign * 2 ^ 31 / 2 ^ 23) % 0x100 ≡ 0 = omega arith in
    let m : (sign * 2 ^ 31) % 2 ^ 23 ≡ 0 = omega arith in rw (e, m) refl

-- Widening a half-precision number that is neither infinite nor no number is exact: the result has
-- the same sign, and its value, in units of 2^-149, is that of the number in units of 2^-24, times
-- 2^125; so the loop that normalizes a small number ends in time.
pub f16_to_f32-exact :
    (bits : ℕ)
    → bits < 2 ^ 16
    → ((bits / 2 ^ 10) % 0x20 == 31) ≡ false
    → (f16_to_f32 bits / 2 ^ 31 ≡ bits / 2 ^ 15)
      × (single_units (f16_to_f32 bits) ≡ half_units bits * 2 ^ 125)
unfolding f16_to_f32 IsWidened
f16_to_f32-exact bits h k =
    let sign = (bits / 2 ^ 15) % 2 in
    let exp = (bits / 2 ^ 10) % 0x20 in
    let mant = bits % 0x400 in
    let top : bits / 2 ^ 15 ≡ sign = omega (arith, h) in
    elim (Bool-cases (exp == 0)) [
      | inl small ↦ elim (Bool-cases (mant == 0)) [
        | inl nothing ↦
            let none_left : 0 ≡ mant * 2 ^ 125 = omega (arith, (==_iff mant 0).0 nothing) in
            rw (small, nothing) (omega (arith, h), single_units-zero sign ∙ none_left)
        | inr something ↦
            let p : 0 < mant = ground (arith, something) in
            let (u, lo, hi, a, b) =
              normalize-units 10 mant 113 p (omega arith) (omega (arith, p)) (omega arith) in
            let (s, v) =
              normalized-IsWidened sign mant (normalize 10 mant 113).0 (normalize 10 mant 113).1 u
                lo hi (omega (arith, a)) b in
            rw (small, something) (s ∙ sym top, v)
      ]
      | inr large ↦
          let p : 0 < exp = ground (arith, large) in
          let q : exp < 31 = ground (arith, k) in
          let (s, v) = normal-IsWidened sign exp mant p q (omega arith) in
          rw (large, k) (s ∙ sym top, v)
    ]
