-- ===== src/Proxy/Protocol/Framing.antt =====
-- Reading and writing frames undo one another: the proxy relays what it was sent.
use pg_retest.Prelude.{
  ℕ, ◌+◌, ◌-◌, ◌^◌, ◌≤◌, ◌<◌, ◌≡◌, ◌≢◌, refl, sym, ap, ◌∙◌, ◌⊎◌, inl, inr, List, [], ◌∷◌, ◌++◌,
  arith, ltb, ◌==◌, length, take, drop, length-append, length-drop, length-take, length-take-le,
  take-append, drop-append, take-append-drop, Bool-cases,
}
use mathlib.Core.List.{append_assoc}
use mathlib.Core.Path.{ap₂}
use pg_retest.Proxy.Protocol.{
  to_be_bytes, u32_from, i32_as_usize, PgMessage, message, read_payload, read_message,
  write_message,
}

-- A message as PostgreSQL frames it: a type byte, and a payload that begins with its own length.
pub record IsFramed (m : PgMessage) : Type 0 where
  pub typed : m.msg_type ≢ 0
  pub framed : (content : List ℕ) × (m.payload ≡ to_be_bytes (4 + length content) ++ content)
  pub short : length m.payload < 2 ^ 31

u32_from-to_be_bytes : (n : ℕ) (s : List ℕ) → n < 2 ^ 32 → u32_from (to_be_bytes n ++ s) ≡ n
unfolding to_be_bytes
u32_from-to_be_bytes n s h = omega arith

-- What was read: the length and its bytes, cut off the stream.
record Cut (t : ℕ) (len_buf rest : List ℕ) (max len : ℕ) (m : PgMessage) (left : List ℕ)
    : Type 0 where
  typed : m.msg_type ≡ t
  payload : m.payload ≡ len_buf ++ take (len - 4) rest
  left_over : left ≡ drop (len - 4) rest
  long : 4 ≤ len
  there : len - 4 ≤ length rest
  limit : (max ≡ 0) ⊎ (len ≤ max)

read_payload-Cut :
    (t : ℕ) (len_buf rest : List ℕ) (max len : ℕ) (m : PgMessage) (left : List ℕ)
    → read_payload t len_buf rest max len ≡ message m left
    → Cut t len_buf rest max len m left
unfolding read_payload
read_payload-Cut t len_buf rest max len m left e = record {
  typed = ground arith;
  payload = ground arith;
  left_over = ground arith;
  long = ground arith;
  there = ground arith;
  limit = ground arith;
}

Cut-stream :
    {t max len : ℕ} {len_buf rest left : List ℕ} {m : PgMessage}
    → Cut t len_buf rest max len m left
    → m.payload ++ left ≡ len_buf ++ rest
Cut-stream {len} {len_buf} {rest} c =
    rw (c.payload, c.left_over)
      (append_assoc len_buf (take (len - 4) rest) (drop (len - 4) rest)
        ∙ ap (λ (r : List ℕ). len_buf ++ r) (take-append-drop (len - 4) rest))

Cut-length :
    {t max len : ℕ} {len_buf rest left : List ℕ} {m : PgMessage}
    → Cut t len_buf rest max len m left
    → length len_buf ≤ 4
    → (max ≡ 0) ⊎ (length m.payload ≤ max)
Cut-length {len} {len_buf} {rest} c h =
    let n = ap (length {0} {A = ℕ}) c.payload in
    omega (
      arith,
      n,
      c.limit,
      c.long,
      length-append len_buf (take (len - 4) rest),
      length-take (len - 4) rest c.there,
    )

typed-Cut :
    (t : ℕ) (s : List ℕ) (max : ℕ) (m : PgMessage) (left : List ℕ)
    → read_message (t ∷ s) max ≡ message m left
    → Cut t (take 4 s) (drop 4 s) max (i32_as_usize (u32_from s)) m left
unfolding read_message
typed-Cut t s max m left e = elim (Bool-cases (ltb (length s) 4)) [
  | inl h ↦ absurd (cc (rw (h, read_message) at e))
  | inr h ↦ read_payload-Cut t (take 4 s) (drop 4 s) max _ m left (rw (h, read_message) at e)
]

write_typed :
    (m : PgMessage) (rest : List ℕ)
    → m.msg_type ≢ 0
    → write_message m ++ rest ≡ m.msg_type ∷ (m.payload ++ rest)
unfolding write_message
write_typed m rest ne = elim (Bool-cases (m.msg_type == 0)) [
  | inl e ↦ absurd (ne (ground (arith, e)))
  | inr e ↦ rw (e, write_message) refl
]

-- Whatever message the proxy reads from a stream, writing it and then the rest of the stream gives
-- the bytes of the stream again, if the type byte is not 0; so a relayed message arrives as it was
-- sent. The message is never larger than a limit that is set.
pub write_message-read_message :
    (s : List ℕ) (max : ℕ) (m : PgMessage) (left : List ℕ)
    → read_message s max ≡ message m left
    → m.msg_type ≢ 0
    → (write_message m ++ left ≡ s) × ((max ≡ 0) ⊎ (length m.payload ≤ max))
unfolding read_message
write_message-read_message [] max m left e ne = cc
write_message-read_message (t ∷ s) max m left e ne =
    let cut = typed-Cut t s max m left e in
    (
      write_typed m left ne ∙ ap₂ ◌∷◌ cut.typed (Cut-stream cut ∙ take-append-drop 4 s),
      Cut-length cut (length-take-le 4 s),
    )

read_payload-message :
    (t : ℕ) (len_buf rest : List ℕ) (max len : ℕ)
    → 4 ≤ len
    → len < 2 ^ 31
    → len - 4 ≤ length rest
    → (max ≡ 0) ⊎ (len ≤ max)
    → read_payload t len_buf rest max len
      ≡ message
          (record { msg_type = t; payload = len_buf ++ take (len - 4) rest })
          (drop (len - 4) rest)
unfolding read_payload
read_payload-message t len_buf rest max len four short there limit = ground arith

i32_small : (n : ℕ) → n < 2 ^ 31 → i32_as_usize n ≡ n
i32_small n h = ground arith

enough_bytes :
    (t n : ℕ) (s : List ℕ) (max : ℕ)
    → read_message (t ∷ (to_be_bytes n ++ s)) max
      ≡ read_payload t (to_be_bytes n) s max (i32_as_usize (u32_from (to_be_bytes n ++ s)))
unfolding read_message to_be_bytes
enough_bytes t n s max = ground arith

-- The frame of `content`, read where it stands in front of `rest`.
read-content :
    (t : ℕ) (content rest : List ℕ) (max : ℕ)
    → 4 + length content < 2 ^ 31
    → (max ≡ 0) ⊎ (4 + length content ≤ max)
    → read_message (t ∷ (to_be_bytes (4 + length content) ++ (content ++ rest))) max
      ≡ message
          (record { msg_type = t; payload = to_be_bytes (4 + length content) ++ content })
          rest
read-content t content rest max short limit =
    let n = 4 + length content in
    let four = to_be_bytes n in
    let minus : n - 4 ≡ length content = omega arith in
    let len : i32_as_usize (u32_from (four ++ (content ++ rest))) ≡ n =
      ap i32_as_usize (u32_from-to_be_bytes n (content ++ rest) (omega arith))
      ∙ i32_small n short in
    enough_bytes t n (content ++ rest) max
    ∙ ap (λ k. read_payload t four (content ++ rest) max k) len
    ∙ read_payload-message t four (content ++ rest) max n (omega arith) short
        (omega (arith, length-append content rest)) limit
    ∙ rw (minus, take-append content rest, drop-append content rest) refl

-- A framed message within the limit is read back, with whatever follows it left in the stream.
pub read_message-write_message :
    (m : PgMessage) (rest : List ℕ) (max : ℕ)
    → IsFramed m
    → (max ≡ 0) ⊎ (length m.payload ≤ max)
    → read_message (write_message m ++ rest) max ≡ message m rest
read_message-write_message m rest max f limit =
    let (content, p) = f.framed in
    let n : length m.payload ≡ 4 + length content =
      unfold to_be_bytes in omega (arith, ap (length {0} {A = ℕ}) p) in
    let stream : write_message m ++ rest
        ≡ m.msg_type ∷ (to_be_bytes (4 + length content) ++ (content ++ rest)) =
      write_typed m rest f.typed
      ∙ ap (λ l. m.msg_type ∷ l)
          (rw p (append_assoc (to_be_bytes (4 + length content)) content rest)) in
    rw stream (
      read-content m.msg_type content rest max (omega (arith, n, f.short)) (omega (arith, n, limit))
      ∙ ap (λ q. message (record { msg_type = m.msg_type; payload = q }) rest) (sym p))

-- A message takes bytes off the stream.
pub read_message-shorter :
    (s : List ℕ) (max : ℕ) (m : PgMessage) (left : List ℕ)
    → read_message s max ≡ message m left
    → length left < length s
unfolding read_message
read_message-shorter [] max m left e = cc
read_message-shorter (t ∷ s) max m left e =
    let cut = typed-Cut t s max m left e in
    let a = ap length cut.left_over in
    let b = length-drop (i32_as_usize (u32_from s) - 4) (drop 4 s) in
    let c = length-drop 4 s in omega arith
