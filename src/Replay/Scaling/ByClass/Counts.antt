-- ===== src/Replay/Scaling/ByClass/Counts.antt =====
-- How many sessions each class has when it is scaled. A copy has the class of its source.
use pg_retest.Prelude.{
  ℕ, zero, suc, ◌+◌, ◌-◌, ◌*◌, ◌%◌, ◌^◌, ◌==◌, ◌≡◌, refl, sym, ap, subst, ◌∙◌, inl, inr, Bool, true,
  false, Option, List, [], ◌∷◌, ◌++◌, All, any, map, if◌then◌else◌, length, Bool-cases, arith,
  sort_by, insert_before, sort_by_key,
}
use pg_retest.Float.{F64}
use pg_retest.Profile.{Query, Session}
use pg_retest.Classify.{
  WorkloadClass, same_class, same_class-eq, Tally, tally, classify_session, classify_queries,
}
use pg_retest.Replay.Scaling.{copy_query}
use pg_retest.Replay.Scaling.ByClass.{
  factor, copy_each, copy_under, copy_times, Pass, skip_empty, group, originals, duplicates,
}
use pg_retest.Replay.Scaling.ByClass.Groups.{NoRepeat}

tally-copy :
    (offset : ℕ) (qs : List Query) (t : Tally) → tally t (map (copy_query offset) qs) ≡ tally t qs
unfolding tally copy_query
tally-copy offset [] t = refl
tally-copy offset (q ∷ qs) t = tally-copy offset qs _

length-copy : (offset : ℕ) (qs : List Query) → length (map (copy_query offset) qs) ≡ length qs
length-copy offset [] = refl
length-copy offset (q ∷ qs) = let ih = length-copy offset qs in omega arith

classify_queries-copy :
    (f : F64) (i j offset : ℕ) (qs : List Query)
    → (classify_queries f i (map (copy_query offset) qs)).class ≡ (classify_queries f j qs).class
unfolding classify_queries
classify_queries-copy f i j offset [] = refl
classify_queries-copy f i j offset (q ∷ qs) =
    rw (tally-copy offset (q ∷ qs) _, length-copy offset (q ∷ qs)) refl

pub classify_session-copy :
    (f : F64) (id offset : ℕ) (s : Session)
    → (classify_session f (copy_under id offset s)).class ≡ (classify_session f s).class
unfolding classify_session copy_under copy_query
classify_session-copy f id offset s = classify_queries-copy f id s.id offset s.queries

module _ (class : Session → WorkloadClass) (c : WorkloadClass) where
  -- The number of sessions of the class.
  abbrev pub count : List Session → ℕ
  count [] = 0
  count (s ∷ ss) = if same_class (class s) c then suc (count ss) else count ss

  pub count-group_self : (ss : List Session) → length (group class c ss) ≡ count ss
  unfolding group
  count-group_self [] = refl
  count-group_self (s ∷ ss) =
      let ih = count-group_self ss in
      elim (Bool-cases (same_class (class s) c)) [ inl e ↦ rw e (omega arith) | inr e ↦ rw e ih ]

  count-append : (xs ys : List Session) → count (xs ++ ys) ≡ count xs + count ys
  count-append [] ys = omega arith
  count-append (x ∷ xs) ys =
      let ih = count-append xs ys in
      elim (Bool-cases (same_class (class x) c)) [ inl e ↦ rw e (omega arith) | inr e ↦ rw e ih ]

  -- A group holds the class, or none of it.
  count-group :
      (d : WorkloadClass) (ss : List Session)
      → count (group class d ss) ≡ (if same_class d c then count ss else 0)
  unfolding group
  count-group d [] = elim (Bool-cases (same_class d c)) [ inl e ↦ rw e refl | inr e ↦ rw e refl ]
  count-group d (s ∷ ss) =
      let ih = count-group d ss in
      elim (Bool-cases (same_class (class s) d)) [
        | inl e ↦
            let at_d = same_class-eq (class s) d e in
            elim (Bool-cases (same_class d c)) [
              | inl k ↦
                  let here : same_class (class s) c ≡ true = ap (λ x. same_class x c) at_d ∙ k in
                  rw (e, here, k) (ap suc (rw k at ih))
              | inr k ↦
                  let here : same_class (class s) c ≡ false = ap (λ x. same_class x c) at_d ∙ k in
                  rw (e, here, k) (rw k at ih)
            ]
        | inr e ↦ elim (Bool-cases (same_class d c)) [
          | inl k ↦
              let same = same_class-eq d c k in
              let here : same_class (class s) c ≡ false =
                ap (λ x. same_class (class s) x) (sym same) ∙ e in
              rw (e, k, here) (rw k at ih)
          | inr k ↦ rw (e, k) (rw k at ih)
        ]
      ]

  insert_before-count :
      (before : Session → Session → Bool) (x : Session) (ys : List Session)
      → count (insert_before before x ys) ≡ count (x ∷ ys)
  unfolding insert_before
  insert_before-count before x [] = refl
  insert_before-count before x (y ∷ ys) =
      let ih = insert_before-count before x ys in
      elim (Bool-cases (before x y)) [ inl e ↦ rw e refl | inr e ↦ rw e (ground (arith, ih)) ]

  sort_by-count :
      (before : Session → Session → Bool) (xs : List Session) → count (sort_by before xs) ≡ count xs
  unfolding sort_by
  sort_by-count before [] = refl
  sort_by-count before (x ∷ xs) =
      insert_before-count before x (sort_by before xs)
      ∙ (let ih = sort_by-count before xs in
          elim (Bool-cases (same_class (class x) c)) [ inl e ↦ rw e (ap suc ih) | inr e ↦ rw e ih ])

  pub sort_by_key-count :
      (key : Session → ℕ) (xs : List Session) → count (sort_by_key key xs) ≡ count xs
  unfolding sort_by_key
  sort_by_key-count key xs = sort_by-count _ xs

  module _ (copied : (id offset : ℕ) (s : Session) → class (copy_under id offset s) ≡ class s) where
    copy_each-count :
        (next_id offset : ℕ) (ss : List Session) → count (copy_each next_id offset ss).0 ≡ count ss
    unfolding copy_each
    copy_each-count n off [] = refl
    copy_each-count n off (s ∷ ss) = rw (copied n off s) (
        let ih = copy_each-count ((n + 1) % 2 ^ 64) off ss in
        elim (Bool-cases (same_class (class s) c)) [ inl e ↦ rw e (ap suc ih) | inr e ↦ rw e ih ])

    copy_times-count :
        (stagger_us times : ℕ) (ss : List Session) (p : Pass)
        → count (copy_times stagger_us times ss p).result ≡ count p.result + times * count ss
    unfolding copy_times
    copy_times-count st zero ss p = omega arith
    copy_times-count st (suc k) ss p =
        let off = ((p.global_copy + 1) * st) % 2 ^ 64 in
        let ih = copy_times-count st k ss _ in
        ih
        ∙ (let a = count-append p.result (copy_each p.next_id off ss).0 in
            let b = copy_each-count p.next_id off ss in omega arith)

    skip_empty-count : (ss : List Session) (n : ℕ) → skip_empty ss n * count ss ≡ n * count ss
    skip_empty-count [] n = omega arith
    skip_empty-count (s ∷ ss) n = refl

    module _ (class_scales : WorkloadClass → Option ℕ) (stagger_us : ℕ)
        (sessions : List Session) where
      -- The copies, and all sessions, of the class in a list of classes.
      abbrev copies_in : List WorkloadClass → ℕ
      copies_in [] = 0
      copies_in (d ∷ ds) =
          (factor (class_scales d) - 1) * (if same_class d c then count sessions else 0)
          + copies_in ds

      abbrev all_in : List WorkloadClass → ℕ
      all_in [] = 0
      all_in (d ∷ ds) =
          factor (class_scales d) * (if same_class d c then count sessions else 0) + all_in ds

      pub duplicates-count :
          (ds : List WorkloadClass) (p : Pass)
          → count (duplicates class class_scales stagger_us sessions ds p).result
            ≡ count p.result + copies_in ds
      unfolding duplicates
      duplicates-count [] p = omega arith
      duplicates-count (d ∷ ds) p =
          let g = group class d sessions in
          let n = factor (class_scales d) - 1 in
          let same : n * count g ≡ n * (if same_class d c then count sessions else 0) =
            ap (λ (x : ℕ). n * x) (count-group d sessions) in
          duplicates-count ds (copy_times stagger_us (skip_empty g n) g p)
          ∙ (let a = copy_times-count stagger_us (skip_empty g n) g p in
              let b = skip_empty-count g n in omega arith)

      one_more :
          (k g r x t : ℕ) (xs ys : List Session)
          → count xs ≡ g + r
          → count ys ≡ r
          → r + x ≡ t
          → count (if k == 0 then ys else xs) + ((k - 1) * g + x) ≡ k * g + t
      one_more zero g r x t xs ys h l e = omega arith
      one_more (suc k) g r x t xs ys h l e =
          let test : (suc k == 0) ≡ false = ground arith in
          let m : (suc k - 1) * g ≡ k * g = ap (λ (n : ℕ). n * g) (omega arith) in
          rw test (omega arith)

      pub originals-count :
          (ds : List WorkloadClass)
          → count (originals class class_scales stagger_us sessions ds) + copies_in ds ≡ all_in ds
      unfolding originals
      originals-count [] = refl
      originals-count (d ∷ ds) =
          let g = group class d sessions in
          let rest = originals class class_scales stagger_us sessions ds in
          one_more (factor (class_scales d)) (if same_class d c then count sessions else 0)
            (count rest) (copies_in ds) (all_in ds) (g ++ rest) rest
            (count-append g rest ∙ ap (λ (x : ℕ). x + count rest) (count-group d sessions)) refl
            (originals-count ds)

      none_in : (ds : List WorkloadClass) → All (λ d. same_class d c ≡ false) ds → all_in ds ≡ 0
      none_in [] h = refl
      none_in (d ∷ ds) (h, hs) = rw (h, none_in ds hs) (omega arith)

      -- A class that is named once counts once.
      pub all_in-named :
          (ds : List WorkloadClass)
          → NoRepeat ds
          → any (λ d. same_class d c) ds ≡ true
          → all_in ds ≡ factor (class_scales c) * count sessions
      all_in-named [] n h = cc
      all_in-named (d ∷ ds) (n, ns) h = elim (Bool-cases (same_class d c)) [
        | inl e ↦
            let same = same_class-eq d c e in
            let gone = none_in ds (subst (λ x. All (λ k. same_class k x ≡ false) ds) same n) in
            rw (e, gone, same) (omega arith)
        | inr e ↦ rw e (let ih = all_in-named ds ns (rw e at h) in omega arith)
      ]
