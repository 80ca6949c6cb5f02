-- ===== src/Proxy/Protocol/Bind.antt =====
-- src/proxy/protocol.rs: Bind messages. Arithmetic on positions is that of `usize` in a release
-- build, which wraps at 2^64; a slice whose end lies before its start panics, and so does a vector of
-- a capacity beyond `isize::MAX` bytes.
pub mod Values
use mathlib.Core.Option
use pg_retest.Prelude.{
  ℕ, zero, suc, ◌+◌, ◌-◌, ◌*◌, ◌%◌, ◌^◌, ◌≤◌, ◌<◌, ◌≡◌, ◌≢◌, refl, Bool, true, false, Option, none,
  some, List, [], ◌∷◌, ◌++◌, arith, ltb, leb, ◌==◌, if◌then◌else◌, length, take, drop,
}
use pg_retest.Proxy.Protocol.{PgMessage, body, u16_from, u32_from, i16_as_usize, i32_as_usize}
use pg_retest.Proxy.Protocol.Extract.{position_nul, read_array}

pub record BindMessage : Type 0 where
  pub portal_name : List ℕ
  pub statement_name : List ℕ
  pub parameters : List (Option (List ℕ))
  pub param_formats : List ℕ

-- A value, `None`, or a panic.
pub data Outcome {ℓ} (A : Type ℓ) : Type ℓ where
  value : A → Outcome A
  absent : Outcome A
  panics : Outcome A

infixl 5 ◌>>=◌
abbrev pub ◌>>=◌ {ℓ κ} : {A : Type ℓ} {B : Type κ} → Outcome A → (A → Outcome B) → Outcome B
value a >>= f = f a
absent >>= f = absent
panics >>= f = panics

abbrev pub add64 : ℕ → ℕ → ℕ
add64 a b = (a + b) % 2 ^ 64

-- `&s[from..to]`
abbrev pub slice : List ℕ → ℕ → ℕ → Outcome (List ℕ)
slice s from to =
    if ltb to from
    then panics
    else if ltb (length s) to
    then panics
    else value (take (to - from) (drop from s))

abbrev pub push :
    Option (List ℕ) → Outcome (List (Option (List ℕ))) → Outcome (List (Option (List ℕ)))
push p (value ps) = value (p ∷ ps)
push p absent = absent
push p panics = panics

-- The loop over the parameters, from the position `pos` on: it ends early where bytes are missing.
unfoldable pub bind_params : List ℕ → ℕ → ℕ → Outcome (List (Option (List ℕ)))
bind_params s zero pos = value []
bind_params s (suc n) pos =
    let len = u32_from (drop pos s) in
    let start = pos + 4 in
    let end = add64 start (i32_as_usize len) in
    let null = push none (bind_params s n start) in
    let given = (do p ← slice s start end; push (some p) (bind_params s n end)) in
    if ltb (length s) start
    then value []
    else if len == 2 ^ 32 - 1
    then null
    else if ltb (length s) end
    then value []
    else given

-- `Vec::with_capacity` of `n` elements of `size` bytes.
abbrev pub with_capacity : ℕ → ℕ → Outcome (Unit {0})
with_capacity n size = if ltb (2 ^ 63 - 1) (n * size) then panics else value tt

abbrev pub pad : ℕ → List ℕ → List ℕ
pad zero codes = []
pad (suc n) [] = 0 ∷ pad n []
pad (suc n) (c ∷ codes) = c ∷ pad n codes

abbrev pub repeat : ℕ → ℕ → List ℕ
repeat zero c = []
repeat (suc n) c = c ∷ repeat n c

-- No code: all text. One code: for every parameter. Else one for each, cut or filled up with text.
unfoldable pub expand_formats : List ℕ → ℕ → List ℕ
expand_formats [] n = repeat n 0
expand_formats (c ∷ []) n = repeat n c
expand_formats (c ∷ d ∷ codes) n = pad n (c ∷ d ∷ codes)

abbrev c_string_at : List ℕ → ℕ → Outcome (List ℕ × ℕ)
c_string_at s pos = elim (position_nul (drop pos s)) [
  | none ↦ absent
  | some n ↦ value (take n (drop pos s), pos + n + 1)
]

abbrev pub need : Bool → Outcome (Unit {0})
need true = value tt
need false = absent

-- The count and the codes of the formats, and the position behind them.
unfoldable pub bind_formats : List ℕ → ℕ → Outcome (List ℕ × ℕ)
unfolding read_array
bind_formats s pos = do
  _ ← need (leb (pos + 2) (length s))
  let count = i16_as_usize (u16_from (drop pos s))
  _ ← need (leb (add64 (pos + 2) ((count * 2) % 2 ^ 64)) (length s))
  _ ← with_capacity count 2
  value (read_array u16_from 2 count (drop (pos + 2) s), pos + 2 + count * 2)

-- The parameters, from the position of their count on; a vector of them has 24 bytes for each.
unfoldable pub bind_values : List ℕ → ℕ → Outcome (List (Option (List ℕ)))
unfolding bind_params
bind_values s pos = do
  _ ← need (leb (pos + 2) (length s))
  let count = i16_as_usize (u16_from (drop pos s))
  _ ← with_capacity count 24
  bind_params s count (pos + 2)

module _ (lossy : List ℕ → List ℕ) where
  unfoldable pub extract_bind : PgMessage → Outcome BindMessage
  unfolding position_nul bind_formats bind_values expand_formats
  extract_bind m = if m.msg_type == b'B' then parse (body m) else absent
    where
      parse : List ℕ → Outcome BindMessage
      parse s = do
        (portal, pos) ← c_string_at s 0
        (statement, pos) ← c_string_at s pos
        (formats, pos) ← bind_formats s pos
        parameters ← bind_values s pos
        value (record {
          portal_name = lossy portal;
          statement_name = lossy statement;
          parameters = parameters;
          param_formats = expand_formats formats (length parameters);
        })
