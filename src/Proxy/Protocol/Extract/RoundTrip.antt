-- ===== src/Proxy/Protocol/Extract/RoundTrip.antt =====
-- What is built is read back.
use pg_retest.Prelude.{
  ℕ, suc, ◌+◌, ◌-◌, ◌%◌, ◌^◌, ◌≤◌, ◌<◌, ◌≡◌, ◌≢◌, refl, ap, ◌∙◌, ◌⊎◌, false, some, List, [], ◌∷◌,
  ◌++◌, All, arith, ◌==◌, length, drop, length-append, take-append, drop-append,
}
use pg_retest.Proxy.Protocol.{PgMessage, message, to_be_bytes, read_message, write_message}
use pg_retest.Proxy.Protocol.Framing.{read_message-write_message}
use pg_retest.Proxy.Protocol.Extract.{
  position_nul, build_query_message, extract_query_sql, strip_nul, error_body, build_error_response,
  error_from, extract_error_message,
}

-- Text that a null-ended field can hold.
abbrev pub NoNul : List ℕ → Type 0
NoNul = All (λ b. b ≢ 0)

pub position_nul-field :
    (s rest : List ℕ) → NoNul s → position_nul (s ++ 0 ∷ rest) ≡ some (length s)
unfolding position_nul
position_nul-field [] rest h = refl
position_nul-field (b ∷ s) rest h = ground (arith, position_nul-field s rest h.1)

drop_field : (s rest : List ℕ) → drop (length s + 1) (s ++ 0 ∷ rest) ≡ rest
drop_field [] rest = refl
drop_field (b ∷ s) rest =
    ap (λ n. drop n (b ∷ (s ++ 0 ∷ rest)))
      (let e : suc (length s) + 1 ≡ suc (length s + 1) = omega arith in e)
    ∙ drop_field s rest

strip_nul-append : (s : List ℕ) → strip_nul (s ++ 0 ∷ []) ≡ s
unfolding strip_nul
strip_nul-append s =
    let n : length (s ++ 0 ∷ []) - 1 ≡ length s = omega (arith, length-append s (0 ∷ [])) in
    rw (n, drop-append s (0 ∷ []), take-append s (0 ∷ [])) refl

-- A message of the given type and content.
abbrev pub frame : ℕ → List ℕ → PgMessage
frame t content = record { msg_type = t; payload = to_be_bytes (4 + length content) ++ content }

length-frame : (t : ℕ) (content : List ℕ) → length (frame t content).payload ≡ 4 + length content
unfolding to_be_bytes
length-frame t content = omega arith

read-frame :
    (t : ℕ) (content rest : List ℕ) (max : ℕ)
    → t ≢ 0
    → 4 + length content < 2 ^ 31
    → (max ≡ 0) ⊎ (4 + length content ≤ max)
    → read_message (write_message (frame t content) ++ rest) max ≡ message (frame t content) rest
read-frame t content rest max ne short fits =
    let n = length-frame t content in
    read_message-write_message (frame t content) rest max
      (record { typed = ne; framed = (content, refl); short = omega (arith, n) })
      (omega (arith, n, fits))

error_body_long : (severity code text : List ℕ) → 4 ≤ length (error_body severity code text)
error_body_long severity code text =
    let tail : List ℕ = severity ++ 0 ∷ b'C' ∷ (code ++ 0 ∷ b'M' ∷ (text ++ 0 ∷ 0 ∷ [])) in
    omega (
      arith,
      length-append severity (0 ∷ b'V' ∷ tail),
      length-append severity (0 ∷ b'C' ∷ (code ++ 0 ∷ b'M' ∷ (text ++ 0 ∷ 0 ∷ []))),
    )

build_error_response-frame :
    (severity code text : List ℕ)
    → 4 + length (error_body severity code text) < 2 ^ 31
    → build_error_response severity code text
      ≡ write_message (frame b'E' (error_body severity code text))
unfolding build_error_response write_message
build_error_response-frame severity code text short =
    let content = error_body severity code text in
    ap (λ n. b'E' ∷ (to_be_bytes n ++ content))
      (let e : (length content + 4) % 2 ^ 32 ≡ 4 + length content = omega arith in e)

module _ (lossy : List ℕ → List ℕ) where
  extract-frame :
      (content : List ℕ)
      → extract_error_message lossy (frame b'E' content) ≡ error_from lossy (length content) content
  unfolding extract_error_message to_be_bytes
  extract-frame content = refl

  -- A field that is not the message is passed over.
  error_from-skip :
      (fuel t : ℕ) (s rest : List ℕ)
      → t ≢ 0
      → (t == b'M') ≡ false
      → NoNul s
      → error_from lossy (suc fuel) (t ∷ (s ++ 0 ∷ rest)) ≡ error_from lossy fuel rest
  unfolding error_from
  error_from-skip fuel t s rest z m h =
      let not_nul : (t == 0) ≡ false = ground arith in
      rw (not_nul, position_nul-field s rest h, m, error_from) (rw (drop_field s rest) refl)

  error_from-found :
      (fuel : ℕ) (s rest : List ℕ)
      → NoNul s
      → error_from lossy (suc fuel) (b'M' ∷ (s ++ 0 ∷ rest)) ≡ some (lossy s)
  unfolding error_from
  error_from-found fuel s rest h =
      rw (position_nul-field s rest h, error_from) (rw (take-append s (0 ∷ rest)) refl)

  error_from-body :
      (fuel : ℕ) (severity code text : List ℕ)
      → NoNul severity
      → NoNul code
      → NoNul text
      → error_from lossy (4 + fuel) (error_body severity code text) ≡ some (lossy text)
  error_from-body fuel severity code text hs hc ht =
      ap (λ n. error_from lossy n (error_body severity code text))
        (let e : 4 + fuel ≡ suc (suc (suc (suc fuel))) = omega arith in e)
      ∙ error_from-skip (suc (suc (suc fuel))) b'S' severity _ (λ e. omega (arith, e)) refl hs
      ∙ error_from-skip (suc (suc fuel)) b'V' severity _ (λ e. omega (arith, e)) refl hs
      ∙ error_from-skip (suc fuel) b'C' code _ (λ e. omega (arith, e)) refl hc
      ∙ error_from-found fuel text (0 ∷ []) ht

  -- The error that the proxy builds reaches a client that reads by the same protocol: the bytes are
  -- one framed message, which leaves the rest of the stream, and whose message field is the text;
  -- for texts without null bytes that fit a frame, and a client's limit that the frame keeps.
  pub read_message-build_error_response :
      (severity code text rest : List ℕ) (max : ℕ)
      → NoNul severity
      → NoNul code
      → NoNul text
      → 4 + length (error_body severity code text) < 2 ^ 31
      → (max ≡ 0) ⊎ (4 + length (error_body severity code text) ≤ max)
      → (m : PgMessage) × (read_message (build_error_response severity code text ++ rest) max
          ≡ message m rest)
        × (extract_error_message lossy m ≡ some (lossy text))
  read_message-build_error_response severity code text rest max hs hc ht short fits =
      let content = error_body severity code text in
      let long = error_body_long severity code text in
      let fuel : length content ≡ 4 + (length content - 4) = omega (arith, long) in
      (
        frame b'E' content,
        rw (build_error_response-frame severity code text short)
            (read-frame b'E' content rest max (λ e. omega (arith, e)) short fits),
        extract-frame content
            ∙ ap (λ n. error_from lossy n content) fuel
            ∙ error_from-body (length content - 4) severity code text hs hc ht,
      )

  -- The text of a Query message is read back, if decoding leaves it as it is.
  pub extract_query_sql-build_query_message :
      (sql : List ℕ)
      → lossy sql ≡ sql
      → extract_query_sql lossy (build_query_message sql) ≡ some sql
  unfolding extract_query_sql build_query_message
  extract_query_sql-build_query_message sql utf8 = rw strip_nul-append (ap some utf8)
