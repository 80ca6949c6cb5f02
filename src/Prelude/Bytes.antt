-- ===== src/Prelude/Bytes.antt =====
-- Text as bytes: the byte list of a literal, and the tests of `str` that the program uses.
use Prim.Native.Char.{code}
use Prim.Native.Nat.{ℕ, suc, ◌-◌}
use Prim.Native.String.{String}
use mathlib.Core.Path.{◌≡◌, refl, sym, subst}
use mathlib.Core.Bool.{Bool, true, false, ◌&&◌, ◌||◌}
use mathlib.Core.List.{List, [], ◌∷◌}
use mathlib.Core.Logic.{◌↔◌, inl, inr}
use mathlib.Core.Option
use mathlib.Core.Option.{Option, none, some}
use native.Mathlib.Omega.{arith}
use pg_retest.Prelude.Lists.{any, All}
use pg_retest.Prelude.Tests.{leb, ◌==◌, if◌then◌else◌, Bool-cases}

-- The bytes of an ASCII text.
abbrev pub codes : String → List ℕ
codes String.[] = []
codes (String.◌∷◌ c s) = code c ∷ codes s

-- `==` on byte strings.
abbrev pub bytes_eq : List ℕ → List ℕ → Bool
bytes_eq [] [] = true
bytes_eq [] (y ∷ ys) = false
bytes_eq (x ∷ xs) [] = false
bytes_eq (x ∷ xs) (y ∷ ys) = x == y && bytes_eq xs ys

-- `starts_with`: the prefix first.
abbrev pub starts_with : List ℕ → List ℕ → Bool
starts_with [] s = true
starts_with (p ∷ ps) [] = false
starts_with (p ∷ ps) (b ∷ s) = p == b && starts_with ps s

-- `find` of a text: the first position at which it stands.
abbrev pub find : List ℕ → List ℕ → Option ℕ
find d [] = if starts_with d [] then some 0 else none
find d (b ∷ s) = if starts_with d (b ∷ s) then some 0 else Option.map suc (find d s)

abbrev pub is_ascii_digit : ℕ → Bool
is_ascii_digit b = leb b'0' b && leb b b'9'

abbrev pub is_ascii_upper : ℕ → Bool
is_ascii_upper b = leb b'A' b && leb b b'Z'

abbrev pub is_ascii_lower : ℕ → Bool
is_ascii_lower b = leb b'a' b && leb b b'z'

abbrev pub is_ascii_alphanumeric : ℕ → Bool
is_ascii_alphanumeric b = is_ascii_digit b || is_ascii_upper b || is_ascii_lower b

abbrev pub to_ascii_upper : ℕ → ℕ
to_ascii_upper b = if is_ascii_lower b then b - 32 else b

pub bytes_eq_iff : (xs ys : List ℕ) → (bytes_eq xs ys ≡ true) ↔ (xs ≡ ys)
bytes_eq_iff [] [] = (λ _. refl, λ _. refl)
bytes_eq_iff [] (y ∷ ys) = (λ h. cc, λ h. cc)
bytes_eq_iff (x ∷ xs) [] = (λ h. cc, λ h. cc)
bytes_eq_iff (x ∷ xs) (y ∷ ys) =
    (λ h. ground (arith, bytes_eq_iff xs ys), λ h. ground (arith, bytes_eq_iff xs ys))

-- A text that stands in a list of texts has every property that those have.
pub any-bytes_eq {ℓ} :
    (P : List ℕ → Type ℓ) (x : List ℕ) (ks : List (List ℕ))
    → any (bytes_eq x) ks ≡ true
    → All P ks
    → P x
any-bytes_eq P x [] h ps = cc
any-bytes_eq P x (k ∷ ks) h ps = elim (Bool-cases (bytes_eq x k)) [
  | inl e ↦ subst P (sym ((bytes_eq_iff x k).0 e)) ps.0
  | inr e ↦ any-bytes_eq P x ks (rw e at h) ps.1
]
