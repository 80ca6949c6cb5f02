-- ===== src/Correlate/Compile.antt =====
-- src/correlate/compile.rs: a workload is compiled for a replay without a map of ids. The references
-- are counted on bytes; a slice of a text at a byte inside a character panics, and so does the
-- compilation.
pub mod Stripped
pub mod Panics
use pg_retest.Prelude.{
  ◌>>=◌, ℕ, zero, suc, ◌+◌, ◌==◌, Bool, true, false, ◌&&◌, ◌||◌, not, Option, none, some, List, [],
  ◌∷◌, ◌++◌, map, codes, any, bytes_eq, find, leb, ltb, is_ascii_alphanumeric, if◌then◌else◌,
  length, drop,
}
use pg_retest.Text.{contains}
use pg_retest.Profile.{Query, Session, ResponseRow, WorkloadProfile}

pub record CompileStats : Type 0 where
  pub queries_with_responses : ℕ
  pub unique_captured_ids : ℕ
  pub queries_referencing_ids : ℕ
  pub total_id_references : ℕ

pub data Compiled : Type 0 where
  compiled : WorkloadProfile → CompileStats → Compiled
  no_responses panicked : Compiled

-- `HashSet::insert`, on a list without repetitions.
abbrev pub insert_id : List (List ℕ) → List ℕ → List (List ℕ)
insert_id ids id = if any (bytes_eq id) ids then ids else id ∷ ids

abbrev pub insert_columns : List (List ℕ) → List (List ℕ × List ℕ) → List (List ℕ)
insert_columns ids [] = ids
insert_columns ids ((name, val) ∷ cs) = insert_columns (insert_id ids val) cs

abbrev pub insert_rows : List (List ℕ) → List ResponseRow → List (List ℕ)
insert_rows ids [] = ids
insert_rows ids (r ∷ rs) = insert_rows (insert_columns ids r.columns) rs

-- The known ids, and the number of queries with responses.
abbrev pub note_responses : Option (List ResponseRow) → List (List ℕ) × ℕ → List (List ℕ) × ℕ
note_responses none acc = acc
note_responses (some rvs) (ids, n) = (insert_rows ids rvs, n + 1)

unfoldable pub known_ids : List Query → List (List ℕ) × ℕ → List (List ℕ) × ℕ
known_ids [] acc = acc
known_ids (q ∷ qs) acc = known_ids qs (note_responses q.response_values acc)

-- The queries of all sessions, in order.
abbrev pub all_queries : List Session → List Query
all_queries [] = []
all_queries (s ∷ ss) = s.queries ++ all_queries ss

-- Whether a slice may begin here.
abbrev pub is_char_boundary : List ℕ → Bool
is_char_boundary [] = true
is_char_boundary (b ∷ s) = ltb b 0x80 || leb 0xC0 b

abbrev pub is_word_byte : ℕ → Bool
is_word_byte b = is_ascii_alphanumeric b || b == b'_'

-- The byte at the front, if there is one, is no part of a word.
abbrev pub ends_word : List ℕ → Bool
ends_word [] = true
ends_word (b ∷ s) = not (is_word_byte b)

-- The last of the bytes before position `k`, where `before` stands in front of the text.
abbrev pub byte_before : Option ℕ → ℕ → List ℕ → Option ℕ
byte_before before zero s = before
byte_before before (suc k) [] = before
byte_before before (suc k) (b ∷ s) = byte_before (some b) k s

abbrev pub starts_word : Option ℕ → Bool
starts_word none = true
starts_word (some b) = not (is_word_byte b)

abbrev pub one_if : Bool → ℕ
one_if b = if b then 1 else 0

-- The loop over the positions: the references in `s`, which is what is left of the text behind the
-- byte `before`; `none` is a panic. A round goes on behind the first byte of what it finds.
unfoldable pub references_from : ℕ → List ℕ → Option ℕ → List ℕ → Option ℕ
references_from zero id before s = some 0
references_from (suc fuel) id before [] = some 0
references_from (suc fuel) id before (b ∷ s) = elim (is_char_boundary (b ∷ s)) [
  | false ↦ none
  | true ↦ elim (find id (b ∷ s)) [
    | none ↦ some 0
    | some k ↦ do
      let here =
          starts_word (byte_before before k (b ∷ s))
          && ends_word (drop (length id) (drop k (b ∷ s)))
      rest ← references_from fuel id (byte_before before (k + 1) (b ∷ s)) (drop (k + 1) (b ∷ s))
      some (one_if here + rest)
  ]
]

-- A round takes a byte at least.
unfoldable pub references : List ℕ → List ℕ → Option ℕ
unfolding references_from
references id sql = references_from (length sql) id none sql

unfoldable pub refs_in_query : List (List ℕ) → List ℕ → Option ℕ
unfolding references
refs_in_query [] sql = some 0
refs_in_query (id ∷ ids) sql = do n ← references id sql; m ← refs_in_query ids sql; some (n + m)

-- The numbers of queries with references, and of references.
unfoldable pub audit : List (List ℕ) → List Query → Option (ℕ × ℕ)
unfolding refs_in_query
audit ids [] = some (0, 0)
audit ids (q ∷ qs) = do
  n ← refs_in_query ids q.sql
  (referencing, total) ← audit ids qs
  some ((if ltb 0 n then referencing + 1 else referencing), n + total)

abbrev pub strip_query : Query → Query
strip_query q = record q { response_values = none }

abbrev pub strip_session : Session → Session
strip_session s = record s { queries = map strip_query s.queries }

unfoldable pub compiled_method : List ℕ → List ℕ
unfolding contains
compiled_method method =
    if contains (codes "+compiled") method then method else method ++ codes "+compiled"

unfoldable pub strip_profile : WorkloadProfile → WorkloadProfile
unfolding compiled_method
strip_profile profile = record profile {
  sessions = map strip_session profile.sessions;
  capture_method = compiled_method profile.capture_method;
}

abbrev pub result_of : WorkloadProfile → ℕ → ℕ → Option (ℕ × ℕ) → Compiled
unfolding strip_profile
result_of profile n unique none = panicked
result_of profile n unique (some (referencing, total)) = compiled (strip_profile profile) (record {
  queries_with_responses = n;
  unique_captured_ids = unique;
  queries_referencing_ids = referencing;
  total_id_references = total;
})

unfoldable pub compile_workload : WorkloadProfile → Compiled
unfolding known_ids audit strip_profile
compile_workload profile =
    let queries = all_queries profile.sessions in
    let (ids, n) = known_ids queries ([], 0) in
    if n == 0 then no_responses else result_of profile n (length ids) (audit ids queries)
