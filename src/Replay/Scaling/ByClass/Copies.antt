-- ===== src/Replay/Scaling/ByClass/Copies.antt =====
-- The copies of a class: their ids and their number.
use pg_retest.Prelude.{
  ℕ, zero, suc, ◌+◌, ◌*◌, ◌%◌, ◌^◌, ◌≤◌, ◌<◌, ◌≡◌, refl, sym, ap, ◌∙◌, subst, List, [], ◌∷◌, ◌++◌,
  All, length, length-append, arith,
}
use pg_retest.Profile.{Session}
use pg_retest.Replay.Scaling.Ids.{Distinct, InRange, All-append, All-weaken, Distinct-append}
use pg_retest.Replay.Scaling.ByClass.{copy_each, copy_under, copy_times, Pass, skip_empty}

-- One after the other from `next_id` on.
record Numbered (next_id : ℕ) (ss : List Session) (r : List Session × ℕ) : Type 0 where
  last : r.1 ≡ next_id + length ss
  within : InRange next_id (next_id + length ss) r.0
  distinct : Distinct r.0
  count : length r.0 ≡ length ss

copy_each-Numbered :
    (next_id offset : ℕ) (ss : List Session)
    → next_id + length ss < 2 ^ 64
    → Numbered next_id ss (copy_each next_id offset ss)
unfolding copy_each copy_under
copy_each-Numbered n off [] h = record {
  last = omega arith;
  within = tt;
  distinct = tt;
  count = refl;
}
copy_each-Numbered n off (s ∷ ss) h =
    let e : (n + 1) % 2 ^ 64 ≡ n + 1 = omega arith in
    let ih : Numbered (n + 1) ss (copy_each ((n + 1) % 2 ^ 64) off ss) =
      subst (λ m. Numbered (n + 1) ss (copy_each m off ss)) (sym e)
        (copy_each-Numbered (n + 1) off ss (omega arith)) in
    record {
      last = let l = ih.last in omega arith;
      within = (
        (let a : n ≤ n = omega arith in a, let b : n < n + suc (length ss) = omega arith in b),
        All-weaken
            (λ t r. (
              let a : n ≤ t.id = omega (arith, r.0) in a,
              let b : t.id < n + suc (length ss) = omega (arith, r.1) in b,
            ))
            _ ih.within,
      );
      distinct = (
        All-weaken (λ t r same. absurd (let no_way : ⊥ = omega (arith, r.0, same) in no_way)) _
            ih.within,
        ih.distinct,
      );
      count = let c = ih.count in omega arith;
    }

-- Sessions of different ids, all below the next id.
pub record Fresh (p : Pass) : Type 0 where
  pub distinct : Distinct p.result
  pub below : All (λ (s : Session). s.id < p.next_id) p.result

-- What the copies add to a pass.
pub record Added (n : ℕ) (p q : Pass) : Type 0 where
  pub fresh : Fresh q
  pub next : q.next_id ≡ p.next_id + n
  pub count : length q.result ≡ length p.result + n

Added-step :
    (p : Pass) (stagger_us offset n : ℕ) (ss : List Session)
    → Fresh p
    → p.next_id + length ss < 2 ^ 64
    → Added (length ss) p (record {
      result = p.result ++ (copy_each p.next_id offset ss).0;
      next_id = (copy_each p.next_id offset ss).1;
      global_copy = n;
    })
Added-step p stagger_us offset n ss f h =
    let c = copy_each-Numbered p.next_id offset ss h in
    let last = c.last in
    record {
      fresh = record {
        distinct =
            Distinct-append p.next_id p.result _ f.below (All-weaken (λ s r. r.0) _ c.within)
              f.distinct c.distinct;
        below =
            All-append (λ (s : Session). s.id < (copy_each p.next_id offset ss).1) p.result _
              (All-weaken
                (λ s b. let e : s.id < (copy_each p.next_id offset ss).1 = omega (arith, b) in e) _
                f.below)
              (All-weaken
                (λ s r. let e : s.id < (copy_each p.next_id offset ss).1 = omega (arith, r.1) in e)
                _ c.within);
      };
      next = last;
      count =
          length-append p.result (copy_each p.next_id offset ss).0
          ∙ ap (λ (k : ℕ). length p.result + k) c.count;
    }

pub Added-trans : (m n : ℕ) (p q r : Pass) → Added m p q → Added n q r → Added (m + n) p r
Added-trans m n p q r a b = record {
  fresh = b.fresh;
  next = let x = a.next in let y = b.next in omega arith;
  count = let x = a.count in let y = b.count in omega arith;
}

pub Added-none : (p : Pass) → Fresh p → Added 0 p p
Added-none p f = record { fresh = f; next = omega arith; count = omega arith }

pub copy_times-Added :
    (stagger_us times : ℕ) (ss : List Session) (p : Pass)
    → Fresh p
    → p.next_id + times * length ss < 2 ^ 64
    → Added (times * length ss) p (copy_times stagger_us times ss p)
unfolding copy_times
copy_times-Added st zero ss p f h =
    subst (λ n. Added n p p) (let e : 0 ≡ 0 * length ss = omega arith in e) (Added-none p f)
copy_times-Added st (suc k) ss p f h =
    let one =
      Added-step p st (((p.global_copy + 1) * st) % 2 ^ 64) (p.global_copy + 1) ss f
        (omega arith) in
    let next = one.next in
    subst (λ n. Added n p (copy_times st (suc k) ss p))
      (let e : length ss + k * length ss ≡ suc k * length ss = omega arith in e)
      (Added-trans (length ss) (k * length ss) p _ _ one
        (copy_times-Added st k ss _ one.fresh (omega arith)))

pub skip_empty-times : (ss : List Session) (n : ℕ) → skip_empty ss n * length ss ≡ n * length ss
skip_empty-times [] n = omega arith
skip_empty-times (s ∷ ss) n = refl
