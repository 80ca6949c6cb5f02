-- ===== src/Replay/Scaling/ByClass/Result.antt =====
-- The ids, the number and the order of sessions that are scaled by their classes.
use pg_retest.Prelude.{
  ℕ, zero, suc, ◌+◌, ◌-◌, ◌*◌, ◌%◌, ◌^◌, ◌≤◌, ◌<◌, ◌≡◌, ◌≢◌, refl, sym, ap, ◌∙◌, subst, inl, inr,
  Bool, true, false, Option, List, [], ◌∷◌, ◌++◌, All, any, ltb, ◌==◌, if◌then◌else◌, length,
  length-append, Bool-cases, arith, sort_by_key, insert_before, sort_by, sort_by-All,
  insert_before-All, sort_by-length, sort_by_key-IsSortedBy, IsSortedBy,
}
use pg_retest.Float.{F64}
use pg_retest.Profile.{Session, WorkloadProfile}
use pg_retest.Classify.{same_class, WorkloadClass, classify_session}
use pg_retest.Replay.Scaling.Ids.{Distinct, All-weaken}
use pg_retest.Replay.Scaling.ByClass.{
  max_id, first_offset, factor, copy_under, copy_times, Pass, skip_empty, group, originals,
  duplicates, scale_groups, scale_sessions_by_class,
}
use pg_retest.Replay.Scaling.ByClass.Counts
use pg_retest.Replay.Scaling.ByClass.Counts.{
  count, sort_by_key-count, duplicates-count, all_in-named, classify_session-copy,
}
use pg_retest.Replay.Scaling.ByClass.Copies.{
  Fresh, Added, Added-trans, Added-none, copy_times-Added, skip_empty-times,
}
use pg_retest.Replay.Scaling.ByClass.Groups.{
  NoRepeat, originals-All, originals-Distinct, groups-All,
}

max_id-ge : (n : ℕ) (ss : List Session) → n ≤ max_id n ss
max_id-ge n [] = omega arith
max_id-ge n (s ∷ ss) =
    let ih = max_id-ge (if ltb n s.id then s.id else n) ss in
    elim (Bool-cases (ltb n s.id)) [ inl e ↦ ground (arith, ih) | inr e ↦ ground (arith, ih) ]

max_id-le : (n : ℕ) (ss : List Session) → All (λ (s : Session). s.id ≤ max_id n ss) ss
max_id-le n [] = tt
max_id-le n (s ∷ ss) =
    let ge = max_id-ge (if ltb n s.id then s.id else n) ss in
    (ground (arith, ge), max_id-le (if ltb n s.id then s.id else n) ss)

one_more :
    (k g r c t : ℕ) (xs ys : List Session)
    → length xs ≡ g + r
    → length ys ≡ r
    → r + c ≡ t
    → length (if k == 0 then ys else xs) + ((k - 1) * g + c) ≡ k * g + t
one_more zero g r c t xs ys h l e = omega arith
one_more (suc k) g r c t xs ys h l e =
    let test : (suc k == 0) ≡ false = ground arith in
    let m : (suc k - 1) * g ≡ k * g = ap (λ (n : ℕ). n * g) (omega arith) in rw test (omega arith)

module _ (key : Session → ℕ) where
  insert_before-Distinct :
      (before : Session → Session → Bool) (x : Session) (ys : List Session)
      → All (λ (t : Session). t.id ≢ x.id) ys
      → Distinct ys
      → Distinct (insert_before before x ys)
  unfolding insert_before
  insert_before-Distinct before x [] h d = (tt, tt)
  insert_before-Distinct before x (y ∷ ys) (h, hs) (d, ds) = elim (Bool-cases (before x y)) [
    | inl e ↦ rw e ((h, hs), (d, ds))
    | inr e ↦ rw e (
      insert_before-All before (λ (t : Session). t.id ≢ y.id) x ys (λ same. h (sym same)) d,
      insert_before-Distinct before x ys hs ds,
    )
  ]

  sort_by-Distinct :
      (before : Session → Session → Bool) (xs : List Session)
      → Distinct xs
      → Distinct (sort_by before xs)
  unfolding sort_by
  sort_by-Distinct before [] d = tt
  sort_by-Distinct before (x ∷ xs) (d, ds) =
      insert_before-Distinct before x (sort_by before xs)
        (sort_by-All before (λ (t : Session). t.id ≢ x.id) xs d) (sort_by-Distinct before xs ds)

  sort_by_key-Distinct : (xs : List Session) → Distinct xs → Distinct (sort_by_key key xs)
  unfolding sort_by_key
  sort_by_key-Distinct xs d = sort_by-Distinct _ xs d

  sort_by_key-length : (xs : List Session) → length (sort_by_key key xs) ≡ length xs
  unfolding sort_by_key
  sort_by_key-length xs = sort_by-length _ xs

module _ (class : Session → WorkloadClass) (class_scales : WorkloadClass → Option ℕ)
    (stagger_us : ℕ) (sessions : List Session) where
  -- The numbers of copies, and of all sessions, that the factors call for.
  abbrev pub count_copies : List WorkloadClass → ℕ
  count_copies [] = 0
  count_copies (c ∷ cs) =
      (factor (class_scales c) - 1) * length (group class c sessions) + count_copies cs

  abbrev pub count_scaled : List WorkloadClass → ℕ
  count_scaled [] = 0
  count_scaled (c ∷ cs) =
      factor (class_scales c) * length (group class c sessions) + count_scaled cs

  duplicates-Added :
      (cs : List WorkloadClass) (p : Pass)
      → Fresh p
      → p.next_id + count_copies cs < 2 ^ 64
      → Added (count_copies cs) p (duplicates class class_scales stagger_us sessions cs p)
  unfolding duplicates
  duplicates-Added [] p f h = Added-none p f
  duplicates-Added (c ∷ cs) p f h =
      let g = group class c sessions in
      let n = skip_empty g (factor (class_scales c) - 1) in
      let e : n * length g ≡ (factor (class_scales c) - 1) * length g =
        skip_empty-times g (factor (class_scales c) - 1) in
      let one = copy_times-Added stagger_us n g p f (omega arith) in
      let next = one.next in
      subst (λ k. Added k p (duplicates class class_scales stagger_us sessions (c ∷ cs) p))
        (ap (λ (k : ℕ). k + count_copies cs) e)
        (Added-trans (n * length g) (count_copies cs) p _ _ one
          (duplicates-Added cs (copy_times stagger_us n g p) one.fresh (omega arith)))

  originals-count :
      (cs : List WorkloadClass)
      → length (originals class class_scales stagger_us sessions cs) + count_copies cs
        ≡ count_scaled cs
  unfolding originals
  originals-count [] = refl
  originals-count (c ∷ cs) =
      let rest = originals class class_scales stagger_us sessions cs in
      let ih = originals-count cs in
      one_more (factor (class_scales c)) (length (group class c sessions)) (length rest)
        (count_copies cs) (count_scaled cs) (group class c sessions ++ rest) rest
        (length-append (group class c sessions) rest) refl ih

  -- Distinct ids, the numbers that the factors call for, and the order of the first queries.
  pub record Scaled (order : List WorkloadClass) (scaled : List Session) : Type 0 where
    pub distinct : Distinct scaled
    pub total : length scaled ≡ count_scaled order
    pub each :
        (c : WorkloadClass)
        → any (λ d. same_class d c) order ≡ true
        → count class c scaled ≡ factor (class_scales c) * count class c sessions
    pub sorted : IsSortedBy (λ (s : Session). first_offset s.queries) scaled

  scale_groups-Scaled :
      (order : List WorkloadClass)
      → ((id offset : ℕ) (s : Session) → class (copy_under id offset s) ≡ class s)
      → NoRepeat order
      → Distinct sessions
      → max_id 0 sessions + 1 + count_copies order < 2 ^ 64
      → Scaled order (scale_groups class class_scales stagger_us sessions order)
  unfolding scale_groups
  scale_groups-Scaled order copied repeats d fits =
      let next : (max_id 0 sessions + 1) % 2 ^ 64 ≡ max_id 0 sessions + 1 = omega arith in
      let first = originals class class_scales stagger_us sessions order in
      let below : All (λ (s : Session). s.id < (max_id 0 sessions + 1) % 2 ^ 64) first =
        originals-All class class_scales stagger_us sessions _ order (
          groups-All class class_scales stagger_us sessions _ order (
            All-weaken
              (λ s le. let e : s.id < (max_id 0 sessions + 1) % 2 ^ 64 = omega (arith, le) in e)
              sessions (max_id-le 0 sessions))) in
      let p : Pass = record {
        result = first;
        next_id = (max_id 0 sessions + 1) % 2 ^ 64;
        global_copy = 0;
      } in
      let fresh : Fresh p = record {
        distinct = originals-Distinct class class_scales stagger_us sessions order repeats d;
        below = below;
      } in
      let added = duplicates-Added order p fresh (omega arith) in
      let count_all = added.count in
      let total = originals-count order in
      record {
        distinct = sort_by_key-Distinct _ _ added.fresh.distinct;
        total = sort_by_key-length _ _ ∙ count_all ∙ total;
        each = λ c named.
            sort_by_key-count class c _ _
            ∙ duplicates-count class c copied class_scales stagger_us sessions order p
            ∙ Counts.originals-count class c copied class_scales stagger_us sessions order
            ∙ all_in-named class c copied class_scales stagger_us sessions order repeats named;
        sorted =
            sort_by_key-IsSortedBy (λ (s : Session). first_offset s.queries)
              (duplicates class class_scales stagger_us sessions order p).result;
      }

-- In whatever order the hash map gives the classes, none twice: where the ids of the profile are
-- distinct numbers and those of the copies, which begin behind the highest, fit into 64 bits, the
-- scaled sessions have distinct ids; each class that the map has, copies being of the class of their
-- source, has as many as its factor times those it had, and there are no others; and they stand in
-- the order of the starts of their first queries.
pub scale_sessions_by_class-Scaled :
    (f : F64) (order : List WorkloadClass) (profile : WorkloadProfile)
    (class_scales : WorkloadClass → Option ℕ) (stagger_ms : ℕ)
    → NoRepeat order
    → Distinct profile.sessions
    → let class = λ (s : Session). (classify_session f s).class in
      let st = (stagger_ms * 1000) % 2 ^ 64 in
      max_id 0 profile.sessions + 1 + count_copies class class_scales st profile.sessions order
        < 2 ^ 64
      → Scaled class class_scales st profile.sessions order
          (scale_sessions_by_class f order profile class_scales stagger_ms)
unfolding scale_sessions_by_class
scale_sessions_by_class-Scaled f order profile class_scales stagger_ms repeats d fits =
    scale_groups-Scaled _ class_scales _ profile.sessions order
      (λ id offset s. classify_session-copy f id offset s) repeats d fits
