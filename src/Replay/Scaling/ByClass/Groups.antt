-- ===== src/Replay/Scaling/ByClass/Groups.antt =====
-- The sessions that are kept as they are, class by class.
use pg_retest.Prelude.{
  ℕ, ◌≡◌, ◌≢◌, refl, sym, ap, ◌∙◌, inl, inr, true, false, Option, List, [], ◌∷◌, ◌++◌, All, ◌==◌,
  Bool-cases,
}
use pg_retest.Profile.{Session}
use pg_retest.Classify.{WorkloadClass, same_class, same_class-eq, same_class_self}
use pg_retest.Replay.Scaling.Ids.{Distinct, All-append, All-weaken}
use pg_retest.Replay.Scaling.ByClass.{factor, group, originals}

-- No class twice.
abbrev pub NoRepeat : List WorkloadClass → Type 0
NoRepeat [] = Unit
NoRepeat (c ∷ cs) = All (λ d. same_class d c ≡ false) cs × NoRepeat cs

All-both {κ μ ν} :
    {P : Session → Type κ} {Q : Session → Type μ} {R : Session → Type ν}
    (g : (s : Session) → P s → Q s → R s) (ss : List Session)
    → All P ss
    → All Q ss
    → All R ss
All-both g [] h k = tt
All-both g (s ∷ ss) (h, hs) (k, ks) = (g s h k, All-both g ss hs ks)

-- Two lists of which no session of the one has the id of one of the other.
Distinct-across :
    (xs ys : List Session)
    → All (λ (s : Session). All (λ (t : Session). t.id ≢ s.id) ys) xs
    → Distinct xs
    → Distinct ys
    → Distinct (xs ++ ys)
Distinct-across [] ys h d e = e
Distinct-across (x ∷ xs) ys (h, hs) (d, ds) e =
    (All-append (λ (t : Session). t.id ≢ x.id) xs ys d h, Distinct-across xs ys hs ds e)

module _ (class : Session → WorkloadClass) (class_scales : WorkloadClass → Option ℕ)
    (stagger_us : ℕ) (sessions : List Session) where
  group-All {κ} :
      (P : Session → Type κ) (c : WorkloadClass) (ss : List Session)
      → All (λ s. same_class (class s) c ≡ true → P s) ss
      → All P (group class c ss)
  unfolding group
  group-All P c [] h = tt
  group-All P c (s ∷ ss) (h, hs) = elim (Bool-cases (same_class (class s) c)) [
    | inl e ↦ rw e (h e, group-All P c ss hs)
    | inr e ↦ rw e (group-All P c ss hs)
  ]

  group-Distinct :
      (c : WorkloadClass) (ss : List Session) → Distinct ss → Distinct (group class c ss)
  unfolding group
  group-Distinct c [] d = tt
  group-Distinct c (s ∷ ss) (d, ds) = elim (Bool-cases (same_class (class s) c)) [
    | inl e ↦ rw e (
      group-All (λ (t : Session). t.id ≢ s.id) c ss (All-weaken (λ t h _. h) ss d),
      group-Distinct c ss ds,
    )
    | inr e ↦ rw e (group-Distinct c ss ds)
  ]

  pub originals-All {κ} :
      (P : Session → Type κ) (cs : List WorkloadClass)
      → All (λ c. All P (group class c sessions)) cs
      → All P (originals class class_scales stagger_us sessions cs)
  unfolding originals
  originals-All P [] h = tt
  originals-All P (c ∷ cs) (h, hs) = elim (Bool-cases (factor (class_scales c) == 0)) [
    | inl e ↦ rw e (originals-All P cs hs)
    | inr e ↦ rw e (All-append P (group class c sessions) _ h (originals-All P cs hs))
  ]

  -- Sessions of one id are one session, so they have one class.
  abbrev OneClass : List Session → Session → Type 0
  OneClass ss s = All (λ (t : Session). t.id ≡ s.id → class t ≡ class s) ss

  Distinct-OneClass : (ss : List Session) → Distinct ss → All (OneClass ss) ss
  Distinct-OneClass [] d = tt
  Distinct-OneClass (s ∷ ss) (d, ds) = (
    (λ e. refl, All-weaken (λ t differs same. absurd (differs same)) ss d),
    All-both (λ t differs one. ((λ same. absurd (differs (sym same))), one)) ss d
        (Distinct-OneClass ss ds),
  )

  other_class :
      (a b c d : WorkloadClass)
      → a ≡ b
      → same_class a d ≡ true
      → same_class b c ≡ true
      → same_class d c ≡ false
      → ⊥
  other_class a b c d e x y differs =
      let same : d ≡ c = sym (same_class-eq a d x) ∙ e ∙ same_class-eq b c y in
      let bad = sym differs ∙ ap (λ k. same_class k c) same ∙ same_class_self c in cc

  originals-differ :
      (s : Session) (c : WorkloadClass) (cs : List WorkloadClass)
      → All (λ d. same_class d c ≡ false) cs
      → OneClass sessions s
      → same_class (class s) c ≡ true
      → All (λ d. All (λ (t : Session). t.id ≢ s.id) (group class d sessions)) cs
  originals-differ s c [] n one e = tt
  originals-differ s c (d ∷ cs) (n, ns) one e = (
    group-All (λ (t : Session). t.id ≢ s.id) d sessions
        (All-weaken (λ t h at_d same. other_class (class t) (class s) c d (h same) at_d e n)
          sessions one),
    originals-differ s c cs ns one e,
  )

  pub originals-Distinct :
      (cs : List WorkloadClass)
      → NoRepeat cs
      → Distinct sessions
      → Distinct (originals class class_scales stagger_us sessions cs)
  unfolding originals
  originals-Distinct [] n d = tt
  originals-Distinct (c ∷ cs) (n, ns) d =
      let rest = originals class class_scales stagger_us sessions cs in
      elim (Bool-cases (factor (class_scales c) == 0)) [
        | inl e ↦ rw e (originals-Distinct cs ns d)
        | inr e ↦ rw e (
            Distinct-across (group class c sessions) rest
              (group-All (λ s. All (λ (t : Session). t.id ≢ s.id) rest) c sessions
                (All-weaken
                  (λ s one at_c.
                    originals-All (λ (t : Session). t.id ≢ s.id) cs
                      (originals-differ s c cs n one at_c))
                  sessions (Distinct-OneClass sessions d)))
              (group-Distinct c sessions d) (originals-Distinct cs ns d))
      ]

  pub groups-All {κ} :
      (P : Session → Type κ) (cs : List WorkloadClass)
      → All P sessions
      → All (λ c. All P (group class c sessions)) cs
  groups-All P [] h = tt
  groups-All P (c ∷ cs) h =
      (group-All P c sessions (All-weaken (λ s p _. p) sessions h), groups-All P cs h)
