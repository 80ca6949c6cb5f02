-- ===== src/Proxy/Relay/Delivery.antt =====
-- src/proxy/connection.rs: what a turn of the relay from the server writes.
use mathlib.Core.Logic.{◌⊎◌}
use pg_retest.Prelude.{
  ◌≡◌, refl, sym, ap, ◌∙◌, Bool, true, false, ◌||◌, Option, none, some, List, [], ◌∷◌, ◌++◌, ◌==◌,
  if◌then◌else◌, Bool-cases, inl, inr, arith,
}
use pg_retest.Proxy.Protocol.{PgMessage}
use pg_retest.Proxy.Protocol.Bind.{Outcome, value, absent, panics}
use pg_retest.Proxy.Relay.{
  Setup, Shared, CorrelateState, Effect, write, flush, send, update, Update, set_suppress,
  set_columns, clear_rows, push_returning, pop_returning, push_row, map_correlate, cache_statement,
  record_oids, set_describe, Arrival, Turn, goes_on, panicked, run_effects, run_effect,
  apply_update, written, Output, message, flushed,
}
use pg_retest.Proxy.Relay.Server.{capture_effects, suppressing, deliver, server_flow, server_turn}
use pg_retest.Proxy.Relay.Turns.{calm}
use pg_retest.Proxy.Relay.Silence.{SilentOutcome, capture_effects-SilentOutcome}

-- Messages other than rows and their descriptions.
abbrev pub is_row : PgMessage → Bool
is_row m = (m.msg_type == b'T') || (m.msg_type == b'D')

abbrev pub non_rows : List Output → List Output
non_rows [] = []
non_rows (message m ∷ ms) = if is_row m then non_rows ms else message m ∷ non_rows ms
non_rows (flushed ∷ ms) = flushed ∷ non_rows ms

-- A message is written, and sent with all before it if it is ReadyForQuery.
abbrev pub when_ready : PgMessage → List Output
when_ready m = message m ∷ (if m.msg_type == b'Z' then flushed ∷ [] else [])

-- That is written for the message, and nothing else.
abbrev Relays : PgMessage → List Effect → Type 0
Relays m es = (written es ≡ when_ready m) × (calm es ≡ true)

delivered : PgMessage → List Effect
delivered m = write m ∷ (if m.msg_type == b'Z' then flush ∷ [] else [])

delivered-Relays : (m : PgMessage) → Relays m (delivered m)
unfolding written delivered
delivered-Relays m = elim (Bool-cases (m.msg_type == b'Z')) [
  | inl z ↦ rw z (refl, refl)
  | inr n ↦ rw n (refl, refl)
]

written-silent : (es fs : List Effect) → written es ≡ [] → written (es ++ fs) ≡ written fs
unfolding written
written-silent [] fs h = refl
written-silent (write m ∷ es) fs h = cc
written-silent (flush ∷ es) fs h = cc
written-silent (send e ∷ es) fs h = written-silent es fs h
written-silent (update u ∷ es) fs h = written-silent es fs h

deliver_cases :
    (m : PgMessage) (row complete : Bool)
    → row ≡ is_row m
    → non_rows (
        written (
          if row
          then []
          else (if complete then update (set_suppress false) ∷ [] else []) ++ delivered m))
      ≡ non_rows (when_ready m)
unfolding written
deliver_cases m true complete h =
    let row : is_row m ≡ true = sym h in
    let z : (m.msg_type == b'Z') ≡ false = ground (arith, row) in rw (row, z) refl
deliver_cases m false true h = ap non_rows (delivered-Relays m).0
deliver_cases m false false h = ap non_rows (delivered-Relays m).0

deliver-non_rows :
    (b : Bool) (m : PgMessage) → non_rows (written (deliver b m)) ≡ non_rows (when_ready m)
unfolding deliver delivered
deliver-non_rows false m = ap non_rows (delivered-Relays m).0
deliver-non_rows true m = deliver_cases m (is_row m) (m.msg_type == b'C') refl

pub calm-append : (es fs : List Effect) → calm es ≡ true → calm fs ≡ true → calm (es ++ fs) ≡ true
calm-append [] fs h k = k
calm-append (update (set_suppress true) ∷ es) fs h k = cc
calm-append (update (set_suppress false) ∷ es) fs h k = calm-append es fs h k
calm-append (update (push_returning _) ∷ es) fs h k = calm-append es fs h k
calm-append (update pop_returning ∷ es) fs h k = calm-append es fs h k
calm-append (update (set_columns _) ∷ es) fs h k = calm-append es fs h k
calm-append (update clear_rows ∷ es) fs h k = calm-append es fs h k
calm-append (update (push_row _) ∷ es) fs h k = calm-append es fs h k
calm-append (update (cache_statement _ _) ∷ es) fs h k = calm-append es fs h k
calm-append (update (record_oids _ _) ∷ es) fs h k = calm-append es fs h k
calm-append (update (set_describe _) ∷ es) fs h k = calm-append es fs h k
calm-append (write _ ∷ es) fs h k = calm-append es fs h k
calm-append (flush ∷ es) fs h k = calm-append es fs h k
calm-append (send _ ∷ es) fs h k = calm-append es fs h k

pub apply_update-correlate :
    (u : Update) (st : Shared) → (apply_update u st).correlate ≡ map_correlate u st.correlate
unfolding apply_update
apply_update-correlate (push_returning _) st = refl
apply_update-correlate pop_returning st = refl
apply_update-correlate (set_suppress _) st = refl
apply_update-correlate (set_columns _) st = refl
apply_update-correlate clear_rows st = refl
apply_update-correlate (push_row _) st = refl
apply_update-correlate (cache_statement _ _) st = refl
apply_update-correlate (record_oids _ _) st = refl
apply_update-correlate (set_describe _) st = refl

map_correlate-suppressing :
    (u : Update) (o : Option CorrelateState)
    → calm (update u ∷ []) ≡ true
    → suppressing o ≡ false
    → suppressing (map_correlate u o) ≡ false
map_correlate-suppressing u none c k = refl
map_correlate-suppressing (push_returning _) (some cs) c k = k
map_correlate-suppressing pop_returning (some cs) c k = k
map_correlate-suppressing (set_suppress true) (some cs) c k = cc
map_correlate-suppressing (set_suppress false) (some cs) c k = refl
map_correlate-suppressing (set_columns _) (some cs) c k = k
map_correlate-suppressing clear_rows (some cs) c k = k
map_correlate-suppressing (push_row _) (some cs) c k = k
map_correlate-suppressing (cache_statement _ _) (some cs) c k = k
map_correlate-suppressing (record_oids _ _) (some cs) c k = k
map_correlate-suppressing (set_describe _) (some cs) c k = k

pub calm-tail :
    (e : Effect) (es : List Effect)
    → calm (e ∷ es) ≡ true
    → (calm (e ∷ []) ≡ true) × (calm es ≡ true)
calm-tail (write _) es h = (refl, h)
calm-tail flush es h = (refl, h)
calm-tail (send _) es h = (refl, h)
calm-tail (update (set_suppress true)) es h = cc
calm-tail (update (set_suppress false)) es h = (refl, h)
calm-tail (update (push_returning _)) es h = (refl, h)
calm-tail (update pop_returning) es h = (refl, h)
calm-tail (update (set_columns _)) es h = (refl, h)
calm-tail (update clear_rows) es h = (refl, h)
calm-tail (update (push_row _)) es h = (refl, h)
calm-tail (update (cache_statement _ _)) es h = (refl, h)
calm-tail (update (record_oids _ _)) es h = (refl, h)
calm-tail (update (set_describe _)) es h = (refl, h)

run_effect-suppressing :
    (e : Effect) (st : Shared)
    → calm (e ∷ []) ≡ true
    → suppressing st.correlate ≡ false
    → suppressing (run_effect st e).correlate ≡ false
unfolding run_effect
run_effect-suppressing (write _) st c h = h
run_effect-suppressing flush st c h = h
run_effect-suppressing (send _) st c h = h
run_effect-suppressing (update u) st c h =
    ap suppressing (apply_update-correlate u st) ∙ map_correlate-suppressing u st.correlate c h

-- Messages that are not held back are not held back after effects that do not begin to.
pub run_effects-suppressing :
    (st : Shared) (es : List Effect)
    → calm es ≡ true
    → suppressing st.correlate ≡ false
    → suppressing (run_effects st es).correlate ≡ false
unfolding run_effects run_effect
run_effects-suppressing st [] c h = h
run_effects-suppressing st (e ∷ es) c h =
    let (first, rest) = calm-tail e es c in
    run_effects-suppressing (run_effect st e) es rest (run_effect-suppressing e st first h)

-- A turn panics, or it goes on, having written the message, which only a row or its description may
-- fall short of, and only while messages are held back.
abbrev pub Served : Shared → PgMessage → Turn → Type 0
Served st m t =
    (t.flow ≡ panicked)
    ⊎ ((non_rows (written t.effects) ≡ non_rows (when_ready m))
        × (t.flow ≡ goes_on)
        × (suppressing st.correlate ≡ false → Relays m t.effects))

deliver-Relays : (b : Bool) (m : PgMessage) → b ≡ false → Relays m (deliver b m)
unfolding deliver delivered
deliver-Relays true m h = cc
deliver-Relays false m h = delivered-Relays m

server_flow-Served :
    (st : Shared) (m : PgMessage) (o : Outcome (List Effect))
    → SilentOutcome o
    → Served st m (server_flow st m o)
unfolding server_flow run_effects deliver
server_flow-Served st m panics h = inl refl
server_flow-Served st m absent h =
    let b = suppressing st.correlate in inr (deliver-non_rows b m, refl, deliver-Relays b m)
server_flow-Served st m (value es) (h, c) =
    let b = suppressing (run_effects st es).correlate in
    inr (
      ap non_rows (written-silent es (deliver b m) h) ∙ deliver-non_rows b m,
      refl,
      λ k.
          let f = deliver-Relays b m (run_effects-suppressing st es c k) in
          (written-silent es (deliver b m) h ∙ f.0, calm-append es (deliver b m) c f.1),
    )

if-SilentOutcome :
    (b : Bool) (o : Outcome (List Effect))
    → SilentOutcome o
    → SilentOutcome (if b then o else value [])
unfolding written
if-SilentOutcome true o h = h
if-SilentOutcome false o h = (refl, refl)

pub server_turn-Served :
    (setup : Setup) (st : Shared) (a : Arrival) → Served st a.msg (server_turn setup st a)
unfolding server_turn
server_turn-Served setup st a =
    server_flow-Served st a.msg (if a.capturing then capture_effects setup st a else value []) (
      if-SilentOutcome a.capturing (capture_effects setup st a)
        (capture_effects-SilentOutcome setup st a))
