-- ===== src/Prelude/Sorting.antt =====
-- The stable sort of a list, and its laws.
use Prim.Native.Nat.{ℕ, zero, suc, ◌≤◌}
use mathlib.Core.Path.{◌≡◌, refl, sym, subst, ◌∙◌}
use mathlib.Core.Logic.{inl, inr}
use mathlib.Core.Bool.{Bool}
use mathlib.Core.List.{List, [], ◌∷◌, Perm}
use mathlib.Core.List.Perm
use mathlib.Core.Option
use mathlib.Core.Option.{some}
use native.Mathlib.Omega.{arith}
use pg_retest.Prelude.Lists.{All, get_elem?, length}
use pg_retest.Prelude.Tests.{leb, if◌then◌else◌, Bool-cases}

module _ {ℓ} {A : Type ℓ} (before : A → A → Bool) where
  -- `before x y` says that the comparison of `x` with `y` does not give `Greater`.
  unfoldable pub insert_before : A → List A → List A
  insert_before x [] = x ∷ []
  insert_before x (y ∷ ys) =
      let rest = insert_before x ys in if before x y then x ∷ y ∷ ys else y ∷ rest

  unfoldable pub sort_by : List A → List A
  unfolding insert_before
  sort_by [] = []
  sort_by (x ∷ xs) = insert_before x (sort_by xs)

  insert_before-perm : (x : A) (ys : List A) → Perm (insert_before x ys) (x ∷ ys)
  unfolding insert_before
  insert_before-perm x [] = Perm.refl (x ∷ [])
  insert_before-perm x (y ∷ ys) = elim (Bool-cases (before x y)) [
    | inl e ↦ rw e (Perm.refl (x ∷ y ∷ ys))
    | inr e ↦ rw e (Perm.trans (Perm.cons y (insert_before-perm x ys)) (Perm.swap x y ys))
  ]

  -- Sorting loses and adds nothing.
  pub sort_by-perm : (xs : List A) → Perm (sort_by xs) xs
  unfolding sort_by
  sort_by-perm [] = Perm.refl []
  sort_by-perm (x ∷ xs) =
      Perm.trans (insert_before-perm x (sort_by xs)) (Perm.cons x (sort_by-perm xs))

  pub insert_before-All {κ} :
      (P : A → Type κ) (x : A) (ys : List A) → P x → All P ys → All P (insert_before x ys)
  unfolding insert_before
  insert_before-All P x [] h hs = (h, tt)
  insert_before-All P x (y ∷ ys) h (k, ks) = elim (Bool-cases (before x y)) [
    | inl e ↦ rw e (h, (k, ks))
    | inr e ↦ rw e (k, insert_before-All P x ys h ks)
  ]

  pub sort_by-All {κ} : (P : A → Type κ) (xs : List A) → All P xs → All P (sort_by xs)
  unfolding sort_by
  sort_by-All P [] h = tt
  sort_by-All P (x ∷ xs) (h, hs) = insert_before-All P x (sort_by xs) h (sort_by-All P xs hs)

  insert_before-length : (x : A) (ys : List A) → length (insert_before x ys) ≡ suc (length ys)
  unfolding insert_before
  insert_before-length x [] = refl
  insert_before-length x (y ∷ ys) = elim (Bool-cases (before x y)) [
    | inl e ↦ rw e refl
    | inr e ↦ rw e (let ih = insert_before-length x ys in omega arith)
  ]

  pub sort_by-length : (xs : List A) → length (sort_by xs) ≡ length xs
  unfolding sort_by
  sort_by-length [] = refl
  sort_by-length (x ∷ xs) =
      let ih = sort_by-length xs in let e = insert_before-length x (sort_by xs) in omega arith

module _ {ℓ} {A : Type ℓ} (key : A → ℕ) where
  unfoldable pub sort_by_key : List A → List A
  unfolding sort_by
  sort_by_key = sort_by (λ x y. leb (key x) (key y))

  -- The keys stand in order.
  abbrev pub IsSortedBy : List A → Type 0
  IsSortedBy [] = Unit
  IsSortedBy (x ∷ xs) = All (λ y. key x ≤ key y) xs × IsSortedBy xs

  All-le : (a b : ℕ) (ys : List A) → a ≤ b → All (λ y. b ≤ key y) ys → All (λ y. a ≤ key y) ys
  All-le a b [] h hs = tt
  All-le a b (y ∷ ys) h (k, ks) = (omega arith, All-le a b ys h ks)

  insert_before-IsSortedBy :
      (x : A) (ys : List A)
      → IsSortedBy ys
      → IsSortedBy (insert_before (λ x y. leb (key x) (key y)) x ys)
  unfolding insert_before
  insert_before-IsSortedBy x [] h = (tt, tt)
  insert_before-IsSortedBy x (y ∷ ys) (h, hs) = elim (Bool-cases (leb (key x) (key y))) [
    | inl e ↦
        let le : key x ≤ key y = ground arith in
        rw e ((le, All-le (key x) (key y) ys le h), (h, hs))
    | inr e ↦
        let le : key y ≤ key x = ground arith in
        rw e (
          insert_before-All (λ x y. leb (key x) (key y)) (λ z. key y ≤ key z) x ys le h,
          insert_before-IsSortedBy x ys hs,
        )
  ]

  pub sort_by_key-IsSortedBy : (xs : List A) → IsSortedBy (sort_by_key xs)
  unfolding sort_by_key sort_by
  sort_by_key-IsSortedBy [] = tt
  sort_by_key-IsSortedBy (x ∷ xs) = insert_before-IsSortedBy x _ (sort_by_key-IsSortedBy xs)

  -- What stands at two places of a sorted list is in order.
  get_elem?-All :
      (P : A → Type 0) (xs : List A) (i : ℕ) (a : A) → All P xs → get_elem? xs i ≡ some a → P a
  get_elem?-All P [] i a h e = cc
  get_elem?-All P (x ∷ xs) zero a (h, hs) e = subst P (Option.some-injective _ _ e) h
  get_elem?-All P (x ∷ xs) (suc i) a (h, hs) e = get_elem?-All P xs i a hs e

  pub IsSortedBy-get_elem? :
      (xs : List A) (i j : ℕ) (a b : A)
      → IsSortedBy xs
      → i ≤ j
      → get_elem? xs i ≡ some a
      → get_elem? xs j ≡ some b
      → key a ≤ key b
  IsSortedBy-get_elem? [] i j a b h le p q = cc
  IsSortedBy-get_elem? (x ∷ xs) zero zero a b h le p q =
      let e = Option.some-injective _ _ (sym p ∙ q) in ground (arith, e)
  IsSortedBy-get_elem? (x ∷ xs) zero (suc j) a b (h, hs) le p q =
      subst (λ t. key t ≤ key b) (Option.some-injective _ _ p)
        (get_elem?-All (λ y. key x ≤ key y) xs j b h q)
  IsSortedBy-get_elem? (x ∷ xs) (suc i) zero a b (h, hs) le p q = absurd (omega arith)
  IsSortedBy-get_elem? (x ∷ xs) (suc i) (suc j) a b (h, hs) le p q =
      IsSortedBy-get_elem? xs i j a b hs (omega arith) p q
