-- ===== src/Replay/Scaling/Ids.antt =====
-- The ids and the number of the copies.
use pg_retest.Prelude.{
  ℕ, zero, suc, ◌+◌, ◌*◌, ◌%◌, ◌^◌, ◌≤◌, ◌<◌, ◌≡◌, ◌≢◌, refl, ◌∙◌, false, List, [], ◌∷◌, ◌++◌, map,
  All, arith, leb, length, length-append,
}
use pg_retest.Profile.{Session, WorkloadProfile}
use pg_retest.Replay.Scaling.{copy_session, copies, scale_sessions}

-- No id twice.
abbrev pub Distinct : List Session → Type 0
Distinct [] = Unit
Distinct (s ∷ ss) = All (λ (t : Session). t.id ≢ s.id) ss × Distinct ss

-- Ids from `low` on and below `high`.
abbrev pub InRange : ℕ → ℕ → List Session → Type 0
InRange low high = All (λ (s : Session). (low ≤ s.id) × (s.id < high))

length-map-copy :
    (n st i : ℕ) (ss : List Session) → length (map (copy_session n st i) ss) ≡ length ss
length-map-copy n st i [] = refl
length-map-copy n st i (s ∷ ss) = omega (arith, length-map-copy n st i ss)

pub length-copies : (k i n st : ℕ) (ss : List Session) → length (copies k i n st ss) ≡ k * length ss
unfolding copies
length-copies zero i n st ss = omega arith
length-copies (suc k) i n st ss =
    let ih = length-copies k (i + 1) n st ss in
    length-append (map (copy_session n st i) ss) (copies k (i + 1) n st ss)
    ∙ (let e : length (map (copy_session n st i) ss) + length (copies k (i + 1) n st ss)
            ≡ suc k * length ss =
          omega (arith, length-map-copy n st i ss, ih) in
        e)

copy-InRange :
    (n st i low : ℕ) (ss : List Session)
    → InRange low (low + n) ss
    → low + (i * n + n) < 2 ^ 64
    → InRange (low + i * n) (low + (i * n + n)) (map (copy_session n st i) ss)
unfolding copy_session
copy-InRange n st i low [] h b = tt
copy-InRange n st i low (s ∷ ss) ((l, u), hs) b =
    let x = i * n in
    let e : (s.id + x) % 2 ^ 64 ≡ s.id + x = omega arith in
    (
      rw e (
        let p : low + x ≤ s.id + x = omega arith in p,
        let q : s.id + x < low + (x + n) = omega arith in q,
      ),
      copy-InRange n st i low ss hs b,
    )

copy-differs :
    (n st i low : ℕ) (s : Session) (ss : List Session)
    → (low ≤ s.id) × (s.id < low + n)
    → InRange low (low + n) ss
    → low + (i * n + n) < 2 ^ 64
    → All (λ (t : Session). t.id ≢ s.id) ss
    → All (λ (t : Session). t.id ≢ (copy_session n st i s).id) (map (copy_session n st i) ss)
unfolding copy_session
copy-differs n st i low s [] r h b d = tt
copy-differs n st i low s (t ∷ ts) r (k, ks) b (d, ds) =
    let x = i * n in
    (
      λ e. d (let same : t.id ≡ s.id = omega (arith, e, r.0, r.1, k.0, k.1) in same),
      copy-differs n st i low s ts r ks b ds,
    )

copy-Distinct :
    (n st i low : ℕ) (ss : List Session)
    → InRange low (low + n) ss
    → low + (i * n + n) < 2 ^ 64
    → Distinct ss
    → Distinct (map (copy_session n st i) ss)
copy-Distinct n st i low [] h b d = tt
copy-Distinct n st i low (s ∷ ss) (h, hs) b (d, ds) =
    (copy-differs n st i low s ss h hs b d, copy-Distinct n st i low ss hs b ds)

pub All-append {κ} :
    (P : Session → Type κ) (xs ys : List Session) → All P xs → All P ys → All P (xs ++ ys)
All-append P [] ys h k = k
All-append P (x ∷ xs) ys (h, hs) k = (h, All-append P xs ys hs k)

pub All-weaken {κ μ} :
    {P : Session → Type κ} {Q : Session → Type μ} (f : (s : Session) → P s → Q s)
    (ss : List Session)
    → All P ss
    → All Q ss
All-weaken f [] h = tt
All-weaken f (s ∷ ss) (h, hs) = (f s h, All-weaken f ss hs)

-- Two lists without a common id, one being below the other.
pub Distinct-append :
    (m : ℕ) (xs ys : List Session)
    → All (λ (s : Session). s.id < m) xs
    → All (λ (s : Session). m ≤ s.id) ys
    → Distinct xs
    → Distinct ys
    → Distinct (xs ++ ys)
Distinct-append m [] ys h k d e = e
Distinct-append m (x ∷ xs) ys (h, hs) k (d, ds) e = (
  All-append (λ (t : Session). t.id ≢ x.id) xs ys d
      (All-weaken (λ t above same. absurd (let no : ⊥ = omega (arith, above, same, h) in no)) ys k),
  Distinct-append m xs ys hs k ds e,
)

copies-above :
    (k i n st low : ℕ) (ss : List Session)
    → InRange low (low + n) ss
    → low + (i + k) * n < 2 ^ 64
    → All (λ (s : Session). low + i * n ≤ s.id) (copies k i n st ss)
unfolding copies
copies-above zero i n st low ss h b = tt
copies-above (suc k) i n st low ss h b =
    let fits : low + (i * n + n) < 2 ^ 64 = omega (arith, b) in
    All-append (λ (s : Session). low + i * n ≤ s.id) (map (copy_session n st i) ss)
      (copies k (i + 1) n st ss)
      (All-weaken (λ s r. r.0) (map (copy_session n st i) ss) (copy-InRange n st i low ss h fits))
      (All-weaken (λ s r. let e : low + i * n ≤ s.id = omega (arith, r) in e)
        (copies k (i + 1) n st ss)
        (copies-above k (i + 1) n st low ss h
          (let e : low + (i + 1 + k) * n < 2 ^ 64 = omega (arith, b) in e)))

copies-Distinct :
    (k i n st low : ℕ) (ss : List Session)
    → InRange low (low + n) ss
    → Distinct ss
    → low + (i + k) * n < 2 ^ 64
    → Distinct (copies k i n st ss)
unfolding copies
copies-Distinct zero i n st low ss h d b = tt
copies-Distinct (suc k) i n st low ss h d b =
    let fits : low + (i * n + n) < 2 ^ 64 = omega (arith, b) in
    let fits' : low + (i + 1 + k) * n < 2 ^ 64 = omega (arith, b) in
    Distinct-append (low + (i + 1) * n) (map (copy_session n st i) ss) (copies k (i + 1) n st ss)
      (All-weaken (λ s r. let e : s.id < low + (i + 1) * n = omega (arith, r.1) in e)
        (map (copy_session n st i) ss) (copy-InRange n st i low ss h fits))
      (copies-above k (i + 1) n st low ss h fits') (copy-Distinct n st i low ss h fits d)
      (copies-Distinct k (i + 1) n st low ss h d fits')

-- Scaling by more than one gives as many times the sessions; and if the ids of the profile are
-- distinct numbers of a range that is as long as there are sessions, the ids of the scaled sessions
-- are distinct too, as long as none exceeds 64 bits.
pub scale_sessions-Distinct :
    (profile : WorkloadProfile) (scale stagger_ms low : ℕ)
    → 1 < scale
    → InRange low (low + length profile.sessions) profile.sessions
    → Distinct profile.sessions
    → low + scale * length profile.sessions < 2 ^ 64
    → Distinct (scale_sessions profile scale stagger_ms)
      × (length (scale_sessions profile scale stagger_ms) ≡ scale * length profile.sessions)
unfolding scale_sessions
scale_sessions-Distinct profile scale stagger_ms low many range distinct fits =
    let n = length profile.sessions in
    let st = (stagger_ms * 1000) % 2 ^ 64 in
    let no : leb scale 1 ≡ false = ground (arith, many) in
    rw no (
      copies-Distinct scale 0 n st low profile.sessions range distinct
          (let e : low + (0 + scale) * n < 2 ^ 64 = omega (arith, fits) in e),
      length-copies scale 0 n st profile.sessions,
    )
