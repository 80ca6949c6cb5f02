-- ===== src/Proxy/Relay/Silence.antt =====
-- src/proxy/connection.rs: capturing on the side of the server writes nothing.
use pg_retest.Prelude.{
  ℕ, ◌≡◌, refl, sym, Bool, true, false, Option, none, some, List, [], ◌∷◌, ◌++◌, ◌==◌,
  if◌then◌else◌, if_intro, length, ltb,
}
use pg_retest.Proxy.Protocol.{PgMessage}
use pg_retest.Proxy.Protocol.Bind.{Outcome, value, absent, panics}
use pg_retest.Proxy.Protocol.Rows.{extract_data_row}
use pg_retest.Proxy.Relay.{Setup, Shared, CorrelateState, Effect, Arrival, written}
use pg_retest.Proxy.Relay.Server.{
  parameter_effects, column_effects, rows_effects, row_effects, rows_event, front,
  returning_effects, forget_query, error_event, correlated, capture_effects, max_returning_rows,
}
use pg_retest.Proxy.Relay.Turns.{calm}

-- Effects that write nothing and do not begin to hold messages back.
abbrev pub Silent : List Effect → Type 0
Silent es = (written es ≡ []) × (calm es ≡ true)

abbrev pub SilentOutcome : Outcome (List Effect) → Type 0
SilentOutcome (value es) = Silent es
SilentOutcome _ = Unit

parameter_effects-Silent :
    (st : Shared) (o : Option (List ℕ)) (d : Option (List ℕ))
    → d ≡ st.pending_describe
    → Silent (parameter_effects st o)
unfolding written
parameter_effects-Silent st none d h = (refl, refl)
parameter_effects-Silent st (some oids) none h = rw (sym h) (refl, refl)
parameter_effects-Silent st (some oids) (some name) h = rw (sym h) (refl, refl)

if-Silent : (b : Bool) (es : List Effect) → Silent es → Silent (if b then es else [])
unfolding written
if-Silent true es h = h
if-Silent false es h = (refl, refl)

column_effects-Silent :
    (cs : CorrelateState) (o : Option (List (List ℕ))) → Silent (column_effects cs o)
unfolding written
column_effects-Silent cs none = (refl, refl)
column_effects-Silent cs (some columns) = if-Silent (front cs.returning_queue) _ (refl, refl)

row_effects-SilentOutcome :
    (cs : CorrelateState) (o : Outcome (List (Option (List ℕ)))) → SilentOutcome (row_effects cs o)
unfolding written
row_effects-SilentOutcome cs absent = (refl, refl)
row_effects-SilentOutcome cs (value row) =
    if-Silent (ltb (length cs.pending_rows) max_returning_rows) _ (refl, refl)
row_effects-SilentOutcome cs panics = tt

rows_effects-SilentOutcome :
    (setup : Setup) (cs : CorrelateState) (m : PgMessage) (columns : List (List ℕ))
    → columns ≡ cs.pending_columns
    → SilentOutcome (rows_effects setup cs m)
unfolding written
rows_effects-SilentOutcome setup cs m [] h = rw (sym h) (refl, refl)
rows_effects-SilentOutcome setup cs m (c ∷ columns) h =
    rw (sym h)
      (row_effects-SilentOutcome cs (extract_data_row setup.lossy m (length (c ∷ columns))))

rows_event-Silent :
    (setup : Setup) (a : Arrival) (cs : CorrelateState) (rows : List (List (Option (List ℕ))))
    → Silent (rows_event setup a cs rows)
unfolding written
rows_event-Silent setup a cs [] = (refl, refl)
rows_event-Silent setup a cs (r ∷ rows) = (refl, refl)

returning_effects-Silent :
    (setup : Setup) (a : Arrival) (o : Option CorrelateState) → Silent (returning_effects setup a o)
unfolding written
returning_effects-Silent setup a none = (refl, refl)
returning_effects-Silent setup a (some cs) =
    if-Silent (front cs.returning_queue) _ (rows_event-Silent setup a cs cs.pending_rows)

forget_query-Silent :
    (setup : Setup) (a : Arrival) (o : Option CorrelateState) (text : Option (List ℕ))
    → Silent (forget_query o ++ error_event setup a text)
unfolding written
forget_query-Silent setup a none none = (refl, refl)
forget_query-Silent setup a none (some text) = (refl, refl)
forget_query-Silent setup a (some cs) none = (refl, refl)
forget_query-Silent setup a (some cs) (some text) = (refl, refl)

correlated-SilentOutcome :
    (o : Option CorrelateState) (f : CorrelateState → Outcome (List Effect))
    → ((cs : CorrelateState) → SilentOutcome (f cs))
    → SilentOutcome (correlated o f)
unfolding written
correlated-SilentOutcome none f h = (refl, refl)
correlated-SilentOutcome (some cs) f h = h cs

pub capture_effects-SilentOutcome :
    (setup : Setup) (st : Shared) (a : Arrival) → SilentOutcome (capture_effects setup st a)
unfolding capture_effects written
capture_effects-SilentOutcome setup st a =
    let P = SilentOutcome in
    let t = a.msg.msg_type in
    if_intro P (t == b't') (λ _. parameter_effects-Silent st _ st.pending_describe refl)
      (λ _.
        if_intro P (t == b'T')
          (λ _. correlated-SilentOutcome st.correlate _ (λ cs. column_effects-Silent cs _))
          (λ _.
            if_intro P (t == b'D')
              (λ _.
                correlated-SilentOutcome st.correlate _
                  (λ cs. rows_effects-SilentOutcome setup cs a.msg cs.pending_columns refl))
              (λ _.
                if_intro P (t == b'C') (λ _. returning_effects-Silent setup a st.correlate)
                  (λ _.
                    if_intro P (t == b'E') (λ _. forget_query-Silent setup a st.correlate _)
                      (λ _. (refl, refl))))))
