-- ===== src/Proxy/Collector/Trace.antt =====
-- A session whose statements run one after the other is captured as it ran.
use mathlib.Core.List.{cons≢nil, append_assoc, append-nil, Mem, mem-cons_self, mem-cons_of_mem}
use pg_retest.Prelude.{
  ℕ, ◌≡◌, ◌≢◌, refl, sym, ap, ◌∙◌, Option, none, some, List, [], ◌∷◌, ◌++◌, map, foldl, arith, ◌==◌,
  lookup, Bool-cases, inl, inr, subst,
}
use pg_retest.Proxy.Collector.{
  CaptureEvent, session_start, query_start, query_complete, query_error, SessionState,
  CapturedQuery, CapturedSession, new_session, start_query, finish_query, handle, micros_between,
  is_some, keep_captured, captured_sessions, run_collector,
}
use pg_retest.Proxy.Collector.Interleaving.{observe, events_of, handle-events_of}

-- A statement that ran: its text, when it was sent and answered, and the error it ended with.
pub record Statement : Type 0 where
  pub sql : List ℕ
  pub sent : ℕ
  pub answered : ℕ
  pub error : Option (List ℕ)

abbrev pub answer : ℕ → ℕ → Option (List ℕ) → CaptureEvent
answer k t none = query_complete k t
answer k t (some text) = query_error k text t

-- The events of statements that run one after the other.
abbrev pub trace : ℕ → List Statement → List CaptureEvent
trace k [] = []
trace k (s ∷ ss) = query_start k s.sql s.sent ∷ answer k s.answered s.error ∷ trace k ss

-- What is to be captured of a statement, in a session that began at `start`.
abbrev pub captured : ℕ → Statement → CapturedQuery
captured start s = record {
  sql = s.sql;
  start_offset_us = micros_between s.sent start;
  duration_us = micros_between s.answered s.sent;
  is_error = is_some s.error;
  error_message = s.error;
  response_values = none;
}

abbrev capture_all : SessionState → List Statement → SessionState
capture_all st [] = st
capture_all st (s ∷ ss) =
    capture_all
      (record st { pending_sql = none; queries = st.queries ++ captured st.session_start s ∷ [] })
      ss

observe-answer :
    (k t : ℕ) (st : SessionState) (message : Option (List ℕ))
    → observe (some st) (answer k t message) ≡ some (finish_query message t st)
observe-answer k t st none = refl
observe-answer k t st (some text) = refl

observe-trace :
    (k : ℕ) (st : SessionState) (ss : List Statement)
    → foldl observe (some st) (trace k ss) ≡ some (capture_all st ss)
unfolding finish_query
observe-trace k st [] = refl
observe-trace k st (s ∷ ss) =
    ap (λ o. foldl observe o (trace k ss))
      (observe-answer k s.answered (start_query s.sql s.sent (some st)) s.error)
    ∙ observe-trace k
        (record st { pending_sql = none; queries = st.queries ++ captured st.session_start s ∷ [] })
        ss

capture_all-queries :
    (st : SessionState) (ss : List Statement)
    → (capture_all st ss).queries ≡ st.queries ++ map (captured st.session_start) ss
capture_all-queries st [] = sym (append-nil st.queries)
capture_all-queries st (s ∷ ss) =
    capture_all-queries
      (record st { pending_sql = none; queries = st.queries ++ captured st.session_start s ∷ [] })
      ss
    ∙ append_assoc st.queries (captured st.session_start s ∷ [])
        (map (captured st.session_start) ss)

capture_all-names :
    (st : SessionState) (ss : List Statement)
    → ((capture_all st ss).user ≡ st.user) × ((capture_all st ss).database ≡ st.database)
capture_all-names st [] = (refl, refl)
capture_all-names st (s ∷ ss) =
    capture_all-names
      (record st { pending_sql = none; queries = st.queries ++ captured st.session_start s ∷ [] })
      ss

keep_captured-skip :
    (x : CapturedSession) (k : ℕ) (v : SessionState) (qs : List CapturedQuery)
    (rest : List CapturedSession)
    → Mem x rest
    → Mem x (keep_captured k v qs rest)
keep_captured-skip x k v [] rest h = h
keep_captured-skip x k v (q ∷ qs) rest h =
    mem-cons_of_mem
      (record { session_id = k; user = v.user; database = v.database; queries = q ∷ qs }) h

keep_captured-Mem :
    (k : ℕ) (v : SessionState) (qs : List CapturedQuery) (rest : List CapturedSession)
    → qs ≢ []
    → Mem
        (record { session_id = k; user = v.user; database = v.database; queries = qs })
        (keep_captured k v qs rest)
keep_captured-Mem k v [] rest h = absurd (h refl)
keep_captured-Mem k v (q ∷ qs) rest h = mem-cons_self

captured_sessions-Mem :
    (k : ℕ) (m : List (ℕ × SessionState)) (st : SessionState)
    → lookup k m ≡ some st
    → st.queries ≢ []
    → Mem
        (record { session_id = k; user = st.user; database = st.database; queries = st.queries })
        (captured_sessions m)
captured_sessions-Mem k [] st h e = cc
captured_sessions-Mem k ((j, v) ∷ m) st h e = elim (Bool-cases (j == k)) [
  | inl same ↦
      let e_key : j ≡ k = ground (arith, same) in
      let e_state : v ≡ st = ground (arith, h, same) in
      subst
        (λ (s : SessionState).
          Mem (record { session_id = k; user = s.user; database = s.database; queries = s.queries })
            (captured_sessions ((j, v) ∷ m)))
        e_state
        (subst
          (λ (i : ℕ).
            Mem
              (record { session_id = i; user = v.user; database = v.database; queries = v.queries })
              (captured_sessions ((j, v) ∷ m)))
          e_key
          (keep_captured-Mem j v v.queries (captured_sessions m)
            (λ n. e (ap (λ (s : SessionState). s.queries) (sym e_state) ∙ n))))
  | inr different ↦
      keep_captured-skip _ j v v.queries (captured_sessions m)
        (captured_sessions-Mem k m st (ground (arith, h, different)) e)
]

-- In whatever way other sessions are interleaved with it, a session that opens and then runs
-- statements one after the other, at least one, is captured under its own user and database, with
-- exactly these statements in this order, each with its offset, its duration and its error.
pub run_collector-trace :
    (events : List CaptureEvent) (k : ℕ) (user database : List ℕ) (start : ℕ) (s : Statement)
    (ss : List Statement)
    → events_of k events ≡ session_start k user database start ∷ trace k (s ∷ ss)
    → Mem
        (record {
          session_id = k;
          user = user;
          database = database;
          queries = map (captured start) (s ∷ ss);
        })
        (run_collector events)
unfolding run_collector
run_collector-trace events k user database start s ss h =
    let opened = new_session user database start in
    let st = capture_all opened (s ∷ ss) in
    let found : lookup k (foldl handle [] events) ≡ some st =
      handle-events_of k events ∙ ap (foldl observe none) h ∙ observe-trace k opened (s ∷ ss) in
    let queries : st.queries ≡ map (captured start) (s ∷ ss) =
      capture_all-queries opened (s ∷ ss) in
    let names = capture_all-names opened (s ∷ ss) in
    let some_query : st.queries ≢ [] = λ e. cons≢nil (sym queries ∙ e) in
    subst (λ (x : CapturedSession). Mem x (run_collector events))
      (rw (names.0, names.1, queries) refl)
      (captured_sessions-Mem k (foldl handle [] events) st found some_query)
