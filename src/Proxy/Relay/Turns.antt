-- ===== src/Proxy/Relay/Turns.antt =====
-- src/proxy/connection.rs: what a turn of the relay from the client writes.
use mathlib.Core.Logic.{◌⊎◌, inl, inr}
use pg_retest.Prelude.{
  ℕ, ◌≡◌, refl, sym, ap, ◌∙◌, Bool, true, false, not, Option, none, some, List, [], ◌∷◌, ◌++◌, ◌==◌,
  if◌then◌else◌, if_intro, arith, any,
}
use pg_retest.Proxy.Protocol.{PgMessage}
use pg_retest.Proxy.Protocol.Extract.{ParseMessage}
use pg_retest.Proxy.Protocol.Bind.{Outcome, value, absent, panics}
use pg_retest.Proxy.Relay.{
  Setup, Shared, CorrelateState, Effect, write, flush, update, set_suppress, record_oids, Arrival,
  Turn, Flow, goes_on, stops, panicked, Output, message, flushed, written,
}
use pg_retest.Proxy.Relay.Client.{
  client_turn, Decision, as_is, injected, decide, query_turn, parse_effects, bind_turn,
  captured_query, captured_parse, captured_describe,
}

-- How a turn on a message ends, if it does not panic.
abbrev pub ending : PgMessage → Flow
ending m = if m.msg_type == b'X' then stops else goes_on

-- A turn panics, or it ends as it should and its effects have a property.
abbrev pub Turned : (List Effect → Type 0) → PgMessage → Turn → Type 0
Turned R m t = (t.flow ≡ panicked) ⊎ (R t.effects × (t.flow ≡ ending m))

-- Effects that do not begin to hold messages back.
abbrev pub calm : List Effect → Bool
calm [] = true
calm (update (set_suppress true) ∷ es) = false
calm (_ ∷ es) = calm es

-- A message is written and sent at once.
abbrev pub at_once : PgMessage → List Output
at_once m = message m ∷ flushed ∷ []

-- The message itself is written and sent, and nothing else.
abbrev pub Forwards : PgMessage → List Effect → Type 0
Forwards m es = (written es ≡ at_once m) × (calm es ≡ true)

-- One message is written and sent, of the same type.
abbrev pub KeepsType : PgMessage → List Effect → Type 0
KeepsType m es = (n : PgMessage) × (n.msg_type ≡ m.msg_type) × (written es ≡ at_once n)

pub query-Forwards :
    (setup : Setup) (st : Shared) (a : Arrival) (sql : List ℕ) (b : Bool)
    (cs : Option CorrelateState)
    → cs ≡ st.correlate
    → Forwards a.msg (query_turn setup st a sql (as_is b)).effects
unfolding written
query-Forwards setup st a sql b none h = rw (sym h) (refl, refl)
query-Forwards setup st a sql b (some cs) h = rw (sym h) (refl, refl)

known_oids-Forwards :
    (m : PgMessage) (b : Bool) (name oids : List ℕ)
    → Forwards m ((if b then update (record_oids name oids) ∷ [] else []) ++ write m ∷ flush ∷ [])
unfolding written
known_oids-Forwards m true name oids = (refl, refl)
known_oids-Forwards m false name oids = (refl, refl)

parse-Forwards :
    (setup : Setup) (st : Shared) (m : PgMessage) (p : ParseMessage) (cs : Option CorrelateState)
    → cs ≡ st.correlate
    → Forwards m (parse_effects setup st p ++ write m ∷ flush ∷ [])
unfolding written
parse-Forwards setup st m p none h =
    let k =
      known_oids-Forwards m (any (λ o. not (o == 0)) p.param_oids) p.statement_name p.param_oids in
    rw (sym h) k
parse-Forwards setup st m p (some cs) h =
    let k =
      known_oids-Forwards m (any (λ o. not (o == 0)) p.param_oids) p.statement_name p.param_oids in
    rw (sym h) k

ending_of :
    (m : PgMessage) (c : ℕ) → (m.msg_type == c) ≡ true → (c == b'X') ≡ false → goes_on ≡ ending m
ending_of m c h k = let e : (m.msg_type == b'X') ≡ false = ground (arith, h, k) in rw e refl

query_turn-flow :
    (setup : Setup) (st : Shared) (a : Arrival) (sql : List ℕ) (d : Decision)
    → (query_turn setup st a sql d).flow ≡ goes_on
query_turn-flow setup st a sql (as_is b) = refl
query_turn-flow setup st a sql (injected s b) = refl

module _ (setup : Setup) (st : Shared) (a : Arrival) (R : List Effect → Type 0)
    (from : (es : List Effect) → Forwards a.msg es → R es)
    (query : (sql : List ℕ)
      → (a.msg.msg_type == b'Q') ≡ true
      → R (query_turn setup st a sql (decide setup setup.implicit_capture sql)).effects) where
  forwarded :
      (es : List Effect)
      → goes_on ≡ ending a.msg
      → Forwards a.msg (es ++ write a.msg ∷ flush ∷ [])
      → Turned R a.msg (record { effects = es ++ write a.msg ∷ flush ∷ []; flow = goes_on })
  forwarded es e h = inr (from (es ++ write a.msg ∷ flush ∷ []) h, e)

  query-Turned :
      (o : Option (List ℕ))
      → (a.msg.msg_type == b'Q') ≡ true
      → Turned R a.msg (captured_query setup st a o)
  unfolding written
  query-Turned none q = forwarded [] (ending_of a.msg b'Q' q refl) (refl, refl)
  query-Turned (some sql) q = inr (
    query sql q,
    query_turn-flow setup st a sql (decide setup setup.implicit_capture sql)
        ∙ ending_of a.msg b'Q' q refl,
  )

  parse-Turned :
      (o : Option ParseMessage)
      → (a.msg.msg_type == b'P') ≡ true
      → Turned R a.msg (captured_parse setup st a o)
  unfolding written
  parse-Turned none t = forwarded [] (ending_of a.msg b'P' t refl) (refl, refl)
  parse-Turned (some p) t =
      forwarded (parse_effects setup st p) (ending_of a.msg b'P' t refl)
        (parse-Forwards setup st a.msg p st.correlate refl)

  describe-Turned :
      (o : Option (List ℕ))
      → (a.msg.msg_type == b'D') ≡ true
      → Turned R a.msg (captured_describe a o)
  unfolding written
  describe-Turned none t = forwarded [] (ending_of a.msg b'D' t refl) (refl, refl)
  describe-Turned (some name) t = inr (from _ (refl, refl), ending_of a.msg b'D' t refl)

  bind-Turned :
      (o : Outcome (List ℕ))
      → (a.msg.msg_type == b'B') ≡ true
      → Turned R a.msg (bind_turn setup a o)
  unfolding written
  bind-Turned absent t = forwarded [] (ending_of a.msg b'B' t refl) (refl, refl)
  bind-Turned (value sql) t = inr (from _ (refl, refl), ending_of a.msg b'B' t refl)
  bind-Turned panics t = inl refl

  end-Turned :
      (es : List Effect) (x : Bool)
      → (a.msg.msg_type == b'X') ≡ x
      → Forwards a.msg es
      → Turned R a.msg (record { effects = es; flow = if x then stops else goes_on })
  end-Turned es x e h = inr (from es h, ap (λ (x : Bool). if x then stops else goes_on) (sym e))

  pub client_turn-Turned : Turned R a.msg (client_turn setup st a)
  unfolding client_turn written
  client_turn-Turned =
      let P = Turned R a.msg in
      let t = a.msg.msg_type in
      if_intro P a.capturing
        (λ _. if_intro P (t == b'Q') (query-Turned _) (λ _.
          if_intro P (t == b'P') (parse-Turned _) (λ _.
            if_intro P (t == b'D') (describe-Turned _) (λ _.
              if_intro P (t == b'B') (bind-Turned _) (λ _.
                if_intro P (t == b'X') (λ x. end-Turned _ true x (refl, refl))
                  (λ x. end-Turned _ false x (refl, refl)))))))
        (λ _. end-Turned _ (t == b'X') refl (refl, refl))
