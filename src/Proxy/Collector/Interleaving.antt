-- ===== src/Proxy/Collector/Interleaving.antt =====
-- Sessions do not disturb one another.
use pg_retest.Prelude.{
  ℕ, ◌≡◌, refl, ap, ◌∙◌, Option, none, some, List, [], ◌∷◌, foldl, arith, ◌==◌, if◌then◌else◌,
  lookup, lookup-upsert, lookup-modify,
}
use mathlib.Core.Option
use pg_retest.Proxy.Collector.{
  CaptureEvent, session_start, query_start, query_complete, query_error, query_returning,
  session_end, SessionState, new_session, start_query, finish_query, returning, handle,
}

abbrev pub event_session : CaptureEvent → ℕ
event_session (session_start k _ _ _) = k
event_session (query_start k _ _) = k
event_session (query_complete k _) = k
event_session (query_error k _ _) = k
event_session (query_returning k _ _ _) = k
event_session (session_end k) = k

-- What an event does to its own session, which may be unknown so far.
abbrev pub observe : Option SessionState → CaptureEvent → Option SessionState
observe o (session_start _ user database t) = some (new_session user database t)
observe o (query_start _ sql t) = some (start_query sql t o)
observe o (query_complete _ t) = Option.map (finish_query none t) o
observe o (query_error _ text t) = Option.map (finish_query (some text) t) o
observe o (query_returning _ columns rows _) = Option.map (returning columns rows) o
observe o (session_end _) = o

-- The events of one session, in their order.
abbrev pub events_of : ℕ → List CaptureEvent → List CaptureEvent
events_of k [] = []
events_of k (e ∷ es) = if event_session e == k then e ∷ events_of k es else events_of k es

lookup-handle :
    (k : ℕ) (m : List (ℕ × SessionState)) (e : CaptureEvent)
    → lookup k (handle m e) ≡ (if event_session e == k then observe (lookup k m) e else lookup k m)
unfolding handle
lookup-handle k m (session_start j user database t) =
    lookup-upsert k j (λ _. new_session user database t) m
lookup-handle k m (query_start j sql t) = ground (arith, lookup-upsert k j (start_query sql t) m)
lookup-handle k m (query_complete j t) = ground (arith, lookup-modify k j (finish_query none t) m)
lookup-handle k m (query_error j text t) =
    ground (arith, lookup-modify k j (finish_query (some text) t) m)
lookup-handle k m (query_returning j columns rows t) =
    ground (arith, lookup-modify k j (returning columns rows) m)
lookup-handle k m (session_end j) = ground arith

observe_step :
    (k : ℕ) (o : Option SessionState) (e : CaptureEvent) (es : List CaptureEvent)
    → foldl observe (if event_session e == k then observe o e else o) (events_of k es)
      ≡ foldl observe o (events_of k (e ∷ es))
observe_step k o e es = ground arith

handle_from :
    (k : ℕ) (m : List (ℕ × SessionState)) (es : List CaptureEvent)
    → lookup k (foldl handle m es) ≡ foldl observe (lookup k m) (events_of k es)
handle_from k m [] = refl
handle_from k m (e ∷ es) =
    handle_from k (handle m e) es
    ∙ ap (λ o. foldl observe o (events_of k es)) (lookup-handle k m e)
    ∙ observe_step k (lookup k m) e es

-- However the events of the sessions are interleaved, what the collector knows of a session is what
-- the events of this session alone have made of it, one after the other.
pub handle-events_of :
    (k : ℕ) (events : List CaptureEvent)
    → lookup k (foldl handle [] events) ≡ foldl observe none (events_of k events)
handle-events_of k events = handle_from k [] events
