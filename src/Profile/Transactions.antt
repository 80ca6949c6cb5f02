-- ===== src/Profile/Transactions.antt =====
-- Which transaction number a query gets.
use pg_retest.Prelude.{
  ℕ, suc, ◌+◌, ◌-◌, ◌≡◌, refl, ap, ◌∙◌, Option, none, some, List, [], ◌∷◌, ◌++◌, arith, length,
  get_elem?, if◌then◌else◌,
}
use pg_retest.Profile.{
  Query, QueryKind, begin, commit, rollback, assign_one, assign_from, assign_transaction_ids,
  is_transaction_control, close,
}

-- How many transactions a list of queries opens.
abbrev pub begins : List Query → ℕ
begins [] = 0
begins (q ∷ qs) = elim q.kind [ begin ↦ suc (begins qs) | _ ↦ begins qs ]

-- The last BEGIN, COMMIT or ROLLBACK of a list of queries.
abbrev pub last_control : List Query → Option QueryKind
last_control [] = none
last_control (q ∷ qs) = elim (last_control qs) [
  | some k ↦ some k
  | none ↦ if is_transaction_control q.kind then some q.kind else none
]

-- The transaction that is open behind a list of queries: the one of its last BEGIN, if no COMMIT
-- or ROLLBACK follows. The numbers go up from `next`.
abbrev pub open_after : ℕ → List Query → Option ℕ
open_after next qs = elim (last_control qs) [ some begin ↦ some (next + begins qs - 1) | _ ↦ none ]

open_from : Option ℕ → ℕ → List Query → Option ℕ
open_from current next qs = elim (last_control qs) [
  | none ↦ current
  | some begin ↦ some (next + begins qs - 1)
  | _ ↦ none
]

abbrev pub or_else {ℓ} : {A : Type ℓ} → Option A → Option A → Option A
or_else none b = b
or_else (some a) b = some a

-- The number of a query in a transaction of number `current`, where the next free one is `next`.
abbrev number_of : QueryKind → Option ℕ → ℕ → Option ℕ → Option ℕ
number_of begin current next own = some next
number_of commit current next own = or_else current own
number_of rollback current next own = or_else current own
number_of _ current next own = current

-- What a query behind the queries `pre` becomes.
abbrev pub numbered : ℕ → List Query → Query → Query
numbered next pre q = record q {
  transaction_id = number_of q.kind (open_after next pre) (next + begins pre) q.transaction_id;
}

assign_one-number_of :
    (k : QueryKind) (current : Option ℕ) (next : ℕ) (q : Query)
    → (assign_one k current next q).0
      ≡ record q { transaction_id = number_of k current next q.transaction_id }
unfolding assign_one close
assign_one-number_of begin current next q = refl
assign_one-number_of commit none next q = refl
assign_one-number_of commit (some t) next q = refl
assign_one-number_of rollback none next q = refl
assign_one-number_of rollback (some t) next q = refl
assign_one-number_of _ current next q = refl

-- A list with no control statement has no BEGIN.
begins-none : (qs : List Query) → last_control qs ≡ none → begins qs ≡ 0
begins-none [] h = refl
begins-none (q ∷ qs) h = ground (arith, begins-none qs)

open_from-step :
    (current : Option ℕ) (next : ℕ) (p : Query) (pre : List Query)
    → (open_from (assign_one p.kind current next p).1 (assign_one p.kind current next p).2 pre
        ≡ open_from current next (p ∷ pre))
      × ((assign_one p.kind current next p).2 + begins pre ≡ next + begins (p ∷ pre))
unfolding assign_one open_from
open_from-step current next p pre = ground (arith, begins-none pre)

assign_from-at :
    (current : Option ℕ) (next : ℕ) (pre : List Query) (q : Query) (post : List Query)
    → get_elem? (assign_from current next (pre ++ q ∷ post)).0 (length pre)
      ≡ some (assign_one q.kind (open_from current next pre) (next + begins pre) q).0
unfolding assign_from open_from
assign_from-at current next [] q post =
    ap (λ n. some (assign_one q.kind current n q).0) (let e : next ≡ next + 0 = omega arith in e)
assign_from-at current next (p ∷ pre) q post =
    let step = open_from-step current next p pre in
    assign_from-at (assign_one p.kind current next p).1 (assign_one p.kind current next p).2 pre q
      post
    ∙ rw (step.0, step.1) refl

open_from-none : (next : ℕ) (pre : List Query) → open_from none next pre ≡ open_after next pre
unfolding open_from
open_from-none next pre = ground arith

-- A query at any place of a session is numbered by what stands before it: a BEGIN takes the next
-- free number; a COMMIT or ROLLBACK takes the number of the open transaction, and keeps its own if
-- none is open; any other query takes the number of the open transaction, or none. Open is the
-- transaction of the last BEGIN before it, unless a COMMIT or ROLLBACK stands between. Nothing
-- else of the query changes.
pub assign_transaction_ids-numbered :
    (next : ℕ) (pre : List Query) (q : Query) (post : List Query)
    → get_elem? (assign_transaction_ids (pre ++ q ∷ post) next).0 (length pre)
      ≡ some (numbered next pre q)
unfolding assign_transaction_ids
assign_transaction_ids-numbered next pre q post =
    assign_from-at none next pre q post
    ∙ rw (open_from-none next pre)
        (ap some (assign_one-number_of q.kind (open_after next pre) (next + begins pre) q))

assign_from-last :
    (current : Option ℕ) (next : ℕ) (qs : List Query)
    → (length (assign_from current next qs).0 ≡ length qs)
      × ((assign_from current next qs).1 ≡ next + begins qs)
unfolding assign_from
assign_from-last current next [] = omega arith
assign_from-last current next (q ∷ qs) =
    let ih =
      assign_from-last (assign_one q.kind current next q).1 (assign_one q.kind current next q).2
        qs in
    (ap suc ih.0, ih.1 ∙ (open_from-step current next q qs).1)

-- No query is lost or added, and exactly one number is used up for each BEGIN.
pub assign_transaction_ids-last :
    (next : ℕ) (qs : List Query)
    → (length (assign_transaction_ids qs next).0 ≡ length qs)
      × ((assign_transaction_ids qs next).1 ≡ next + begins qs)
unfolding assign_transaction_ids
assign_transaction_ids-last next qs = assign_from-last none next qs
