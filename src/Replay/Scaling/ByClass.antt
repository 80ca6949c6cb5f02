-- ===== src/Replay/Scaling/ByClass.antt =====
-- src/replay/scaling.rs, `scale_sessions_by_class`: each class has its own factor. The order in which
-- a hash map gives its classes is a parameter; a class without sessions is not in the map.
pub mod Copies
pub mod Groups
pub mod Counts
pub mod Result
use pg_retest.Prelude.{
  ℕ, zero, suc, ◌+◌, ◌-◌, ◌*◌, ◌%◌, ◌^◌, Bool, true, false, Option, none, some, List, [], ◌∷◌, ◌++◌,
  map, leb, ltb, ◌==◌, if◌then◌else◌, sort_by_key,
}
use pg_retest.Profile.{Query, Session, WorkloadProfile}
use pg_retest.Float.{F64}
use pg_retest.Classify.{WorkloadClass, same_class, classify_session}
use pg_retest.Replay.Scaling.{copy_query}

-- `max`, from a first value on.
abbrev pub max_id : ℕ → List Session → ℕ
max_id n [] = n
max_id n (s ∷ ss) = max_id (if ltb n s.id then s.id else n) ss

abbrev pub first_offset : List Query → ℕ
first_offset [] = 0
first_offset (q ∷ qs) = q.start_offset_us

abbrev pub factor : Option ℕ → ℕ
factor none = 1
factor (some n) = n

unfoldable pub copy_under : (id offset : ℕ) → Session → Session
unfolding copy_query
copy_under id offset s = record {
  id = id;
  user = s.user;
  database = s.database;
  queries = map (copy_query offset) s.queries;
}

-- One copy of each session, under the ids from `next_id` on.
unfoldable pub copy_each : (next_id offset : ℕ) → List Session → List Session × ℕ
unfolding copy_under
copy_each next_id offset [] = ([], next_id)
copy_each next_id offset (s ∷ ss) =
    let (copied, last) = copy_each ((next_id + 1) % 2 ^ 64) offset ss in
    (copy_under next_id offset s ∷ copied, last)

-- What the second pass carries along: the sessions, the next id, and the copies so far.
pub record Pass : Type 0 where
  pub result : List Session
  pub next_id : ℕ
  pub global_copy : ℕ

unfoldable pub copy_times : (stagger_us times : ℕ) → List Session → Pass → Pass
unfolding copy_each
copy_times stagger_us zero sessions p = p
copy_times stagger_us (suc k) sessions p =
    let n = p.global_copy + 1 in
    let (copied, next) = copy_each p.next_id ((n * stagger_us) % 2 ^ 64) sessions in
    copy_times stagger_us k sessions
      (record { result = p.result ++ copied; next_id = next; global_copy = n })

abbrev pub skip_empty : List Session → ℕ → ℕ
skip_empty [] n = 0
skip_empty (s ∷ ss) n = n

module _ (class : Session → WorkloadClass) where
  -- The sessions of a class, in their order.
  unfoldable pub group : WorkloadClass → List Session → List Session
  group c [] = []
  group c (s ∷ ss) = if same_class (class s) c then s ∷ group c ss else group c ss

  module _ (class_scales : WorkloadClass → Option ℕ) (stagger_us : ℕ)
      (sessions : List Session) where
    unfoldable pub originals : List WorkloadClass → List Session
    unfolding group
    originals [] = []
    originals (c ∷ cs) =
        let rest = originals cs in
        if factor (class_scales c) == 0 then rest else group c sessions ++ rest

    -- The copies of a class, none for a factor of 0 or 1 or a class without sessions.
    unfoldable pub duplicates : List WorkloadClass → Pass → Pass
    unfolding copy_times group
    duplicates [] p = p
    duplicates (c ∷ cs) p = duplicates cs (
        copy_times stagger_us (skip_empty (group c sessions) (factor (class_scales c) - 1))
          (group c sessions) p)

    unfoldable pub scale_groups : List WorkloadClass → List Session
    unfolding originals duplicates sort_by_key
    scale_groups order =
        sort_by_key (λ (s : Session). first_offset s.queries)
          (duplicates order (record {
            result = originals order;
            next_id = (max_id 0 sessions + 1) % 2 ^ 64;
            global_copy = 0;
          })).result

unfoldable pub scale_sessions_by_class :
    (f : F64) → List WorkloadClass → WorkloadProfile → (WorkloadClass → Option ℕ) → ℕ → List Session
unfolding scale_groups classify_session
scale_sessions_by_class f order profile class_scales stagger_ms =
    scale_groups (λ s. (classify_session f s).class) class_scales ((stagger_ms * 1000) % 2 ^ 64)
      profile.sessions order
