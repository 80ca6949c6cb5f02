-- ===== src/Correlate/Compile/Panics.antt =====
-- The scan for references: its fuel, and the texts on which it panics.
use pg_retest.Prelude.{
  ℕ, zero, suc, ◌+◌, ◌==◌, ◌≤◌, ◌≡◌, refl, inl, inr, Bool, true, false, ◌&&◌, not, Option, none,
  List, [], ◌∷◌, any, bytes_eq, find, length, length-drop, drop, Bool-cases, Option-cases, arith,
}
use pg_retest.Profile.{Query, WorkloadProfile}
use pg_retest.Correlate.Compile.{
  panicked, known_ids, all_queries, audit, refs_in_query, references, references_from,
  is_char_boundary, compile_workload, byte_before,
}

-- Any fuel that is not less than what is left of the text gives the same result.
pub references_from-fuel :
    (n m : ℕ) (id : List ℕ) (before : Option ℕ) (s : List ℕ)
    → length s ≤ n
    → length s ≤ m
    → references_from n id before s ≡ references_from m id before s
unfolding references_from
references_from-fuel zero zero id before s h k = refl
references_from-fuel zero (suc m) id before [] h k = refl
references_from-fuel zero (suc m) id before (b ∷ s) h k = absurd (omega arith)
references_from-fuel (suc n) zero id before [] h k = refl
references_from-fuel (suc n) zero id before (b ∷ s) h k = absurd (omega arith)
references_from-fuel (suc n) (suc m) id before [] h k = refl
references_from-fuel (suc n) (suc m) id before (b ∷ s) h k =
    elim (Bool-cases (is_char_boundary (b ∷ s))) [
      | inr inside ↦ rw (inside, references_from) refl
      | inl fine ↦ elim (Option-cases (find id (b ∷ s))) [
        | inl no_more ↦ rw (fine, references_from, no_more) refl
        | inr (i, found) ↦
            let l = length-drop (i + 1) (b ∷ s) in
            let ih =
              references_from-fuel n m id (byte_before before (i + 1) (b ∷ s))
                (drop (i + 1) (b ∷ s)) (omega arith) (omega arith) in
            rw (fine, references_from, found, ih) refl
      ]
    ]

-- A text whose second byte is inside a character.
abbrev pub begins_wide : List ℕ → Bool
begins_wide (b ∷ c ∷ s) = is_char_boundary (b ∷ []) && not (is_char_boundary (c ∷ []))
begins_wide _ = false

references-wide : (sql : List ℕ) → begins_wide sql ≡ true → references [] sql ≡ none
unfolding references references_from
references-wide [] h = cc
references-wide (b ∷ []) h = cc
references-wide (b ∷ c ∷ s) h = elim (Bool-cases (is_char_boundary (b ∷ []))) [
  | inr e ↦ let bad = rw e at h in cc
  | inl e ↦ elim (Bool-cases (is_char_boundary (c ∷ []))) [
    | inl e' ↦ let bad = rw (e, e') at h in cc
    | inr e' ↦ rw (e, references, references_from, e') refl
  ]
]

refs_in_query-wide :
    (ids : List (List ℕ)) (sql : List ℕ)
    → any (bytes_eq []) ids ≡ true
    → begins_wide sql ≡ true
    → refs_in_query ids sql ≡ none
unfolding refs_in_query
refs_in_query-wide [] sql h w = cc
refs_in_query-wide ([] ∷ ids) sql h w = rw (references-wide sql w) refl
refs_in_query-wide ((b ∷ id) ∷ ids) sql h w = elim (Option-cases (references (b ∷ id) sql)) [
  | inl e ↦ rw e refl
  | inr (n, e) ↦ rw (e, refs_in_query-wide ids sql h w) refl
]

audit-wide :
    (ids : List (List ℕ)) (qs : List Query)
    → any (bytes_eq []) ids ≡ true
    → any (λ (q : Query). begins_wide q.sql) qs ≡ true
    → audit ids qs ≡ none
unfolding audit
audit-wide ids [] h w = cc
audit-wide ids (q ∷ qs) h w = elim (Bool-cases (begins_wide q.sql)) [
  | inl e ↦ rw (refs_in_query-wide ids q.sql h e) refl
  | inr e ↦
      let rest = rw e at w in
      elim (Option-cases (refs_in_query ids q.sql)) [
        | inl bad ↦ rw bad refl
        | inr (n, ok) ↦ rw (ok, audit-wide ids qs h rest) refl
      ]
]

-- Where some response is there, an empty text is among the values that were returned and a query
-- begins with a character of several bytes, the compilation panics.
pub compile_workload-panics :
    (profile : WorkloadProfile)
    → ((known_ids (all_queries profile.sessions) ([], 0)).1 == 0) ≡ false
    → any (bytes_eq []) (known_ids (all_queries profile.sessions) ([], 0)).0 ≡ true
    → any (λ (q : Query). begins_wide q.sql) (all_queries profile.sessions) ≡ true
    → compile_workload profile ≡ panicked
unfolding compile_workload
compile_workload-panics profile some_there empty wide =
    rw
      (
        some_there,
        compile_workload,
        audit-wide (known_ids (all_queries profile.sessions) ([], 0)).0
            (all_queries profile.sessions) empty wide,
      )
      refl
