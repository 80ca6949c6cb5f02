-- ===== src/Compare/Statistics.antt =====
-- Percentiles: what they are taken from, and their order.
use pg_retest.Prelude.{
  ℕ, zero, suc, ◌-◌, ◌≤◌, ◌<◌, ◌≡◌, refl, some, List, [], ◌∷◌, length, get_elem?,
  sort_by_key-IsSortedBy, IsSortedBy, IsSortedBy-get_elem?, arith,
}
use pg_retest.Float.{F64, IsMonotone}
use pg_retest.Compare.{min, percentile, percentile_index, sort_durations}

get_elem?-some {ℓ} :
    {A : Type ℓ} (xs : List A) (i : ℕ) → i < length xs → (a : A) × (get_elem? xs i ≡ some a)
get_elem?-some [] i h = absurd (omega arith)
get_elem?-some (x ∷ xs) zero h = (x, refl)
get_elem?-some (x ∷ xs) (suc i) h = get_elem?-some xs i (omega arith)

min-lt : (i n : ℕ) → min i (suc n - 1) < suc n
min-lt i n = ground arith

module _ (f : F64) where
  open f use {of_nat, sub, div, mul, round}

  pub percentile_index-le :
      (m : IsMonotone f) (p q n : ℕ)
      → p ≤ q
      → percentile_index f p (suc n) ≤ percentile_index f q (suc n)
  unfolding percentile_index
  percentile_index-le m p q n h =
      m.to_nat-le _ _ (m.round-le _ _ (m.mul-le _ _ n (m.div-le _ _ (m.of_nat-le p q h))))

  -- Percentiles of values in order are in order.
  pub percentile-le :
      (m : IsMonotone f) (vs : List ℕ) (p q : ℕ)
      → IsSortedBy (λ n. n) vs
      → p ≤ q
      → percentile f vs p ≤ percentile f vs q
  unfolding percentile
  percentile-le m [] p q s h = omega arith
  percentile-le m (v ∷ vs) p q s h =
      let n = length (v ∷ vs) in
      let i = percentile_index f p n in
      let j = percentile_index f q n in
      let le : i ≤ j = percentile_index-le m p q (length vs) h in
      let le' : min i (n - 1) ≤ min j (n - 1) = ground arith in
      let (a, ea) = get_elem?-some (v ∷ vs) (min i (n - 1)) (min-lt i (length vs)) in
      let (b, eb) = get_elem?-some (v ∷ vs) (min j (n - 1)) (min-lt j (length vs)) in
      rw (ea, eb)
        (IsSortedBy-get_elem? (λ k. k) (v ∷ vs) (min i (n - 1)) (min j (n - 1)) a b s le' ea eb)

pub sort_durations-IsSortedBy : (ds : List ℕ) → IsSortedBy (λ n. n) (sort_durations ds)
unfolding sort_durations
sort_durations-IsSortedBy ds = sort_by_key-IsSortedBy (λ n. n) ds
