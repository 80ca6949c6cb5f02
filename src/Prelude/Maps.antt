-- ===== src/Prelude/Maps.antt =====
-- Finite maps from numbers, as association lists that keep the place of a key.
use Prim.Native.Nat.{ℕ}
use mathlib.Core.Path.{◌≡◌, refl}
use mathlib.Core.List.{List, [], ◌∷◌}
use mathlib.Core.Option.{Option, none, some}
use mathlib.Core.Option
use native.Mathlib.Omega.{arith}
use pg_retest.Prelude.Tests.{◌==◌, if◌then◌else◌}

module _ {ℓ} {V : Type ℓ} where
  abbrev pub lookup : ℕ → List (ℕ × V) → Option V
  lookup k [] = none
  lookup k ((j, v) ∷ m) = if j == k then some v else lookup k m

  -- The entry of a key becomes what `f` makes of it, or of its absence.
  abbrev pub upsert : ℕ → (Option V → V) → List (ℕ × V) → List (ℕ × V)
  upsert k f [] = (k, f none) ∷ []
  upsert k f ((j, v) ∷ m) = if j == k then (j, f (some v)) ∷ m else (j, v) ∷ upsert k f m

  -- The entry of a key, if there is one, becomes what `f` makes of it.
  abbrev pub modify : ℕ → (V → V) → List (ℕ × V) → List (ℕ × V)
  modify k f [] = []
  modify k f ((j, v) ∷ m) = if j == k then (j, f v) ∷ m else (j, v) ∷ modify k f m

  pub lookup-upsert :
      (i k : ℕ) (f : Option V → V) (m : List (ℕ × V))
      → lookup i (upsert k f m) ≡ (if k == i then some (f (lookup k m)) else lookup i m)
  lookup-upsert i k f [] = refl
  lookup-upsert i k f ((j, v) ∷ m) = ground (arith, lookup-upsert i k f m)

  pub lookup-modify :
      (i k : ℕ) (f : V → V) (m : List (ℕ × V))
      → lookup i (modify k f m) ≡ (if k == i then Option.map f (lookup k m) else lookup i m)
  lookup-modify i k f [] = ground arith
  lookup-modify i k f ((j, v) ∷ m) = ground (arith, lookup-modify i k f m)

  abbrev pub remove : ℕ → List (ℕ × V) → List (ℕ × V)
  remove k [] = []
  remove k ((j, v) ∷ m) = let rest = remove k m in if j == k then rest else (j, v) ∷ rest

  pub lookup-remove :
      (i k : ℕ) (m : List (ℕ × V)) → lookup i (remove k m) ≡ (if k == i then none else lookup i m)
  lookup-remove i k [] = ground arith
  lookup-remove i k ((j, v) ∷ m) = ground (arith, lookup-remove i k m)
