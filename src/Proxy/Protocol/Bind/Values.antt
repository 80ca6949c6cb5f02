-- ===== src/Proxy/Protocol/Bind/Values.antt =====
-- The parameters of a Bind message: what a client encodes is read back, and what makes the code panic.
use pg_retest.Prelude.{
  ℕ, zero, suc, ◌+◌, ◌-◌, ◌^◌, ◌≤◌, ◌<◌, ◌≡◌, refl, true, false, Option, none, some, List, [], ◌∷◌,
  ◌++◌, arith, ltb, ◌==◌, length, drop,
}
use pg_retest.Proxy.Protocol.{to_be_bytes, u32_from, i32_as_usize}
use pg_retest.Proxy.Protocol.Bind.{panics, add64, bind_params, repeat, pad, expand_formats}

-- As a client writes a parameter: its length and its bytes, the length -1 for a null.
abbrev pub encode_value : Option (List ℕ) → List ℕ
encode_value none = 255 ∷ 255 ∷ 255 ∷ 255 ∷ []
encode_value (some v) = to_be_bytes (length v) ++ v

abbrev pub encode_values : List (Option (List ℕ)) → List ℕ
encode_values [] = []
encode_values (v ∷ vs) = encode_value v ++ encode_values vs

abbrev pub Short : Option (List ℕ) → Type 0
Short none = Unit
Short (some v) = length v < 2 ^ 31

-- A parameter length that is negative and not -1 makes the end of its slice wrap around to before
-- its start, if at least as many bytes as its amount stand in the message up to and with the
-- length itself: the reading of the parameters panics, whatever the other bytes are, in a message
-- shorter than the address space by 2^32.
pub bind_params-negative :
    (s : List ℕ) (n pos : ℕ)
    → pos + 4 ≤ length s
    → pos + 4 + 2 ^ 32 < 2 ^ 64
    → 2 ^ 31 ≤ u32_from (drop pos s)
    → u32_from (drop pos s) < 2 ^ 32 - 1
    → 2 ^ 32 ≤ pos + 4 + u32_from (drop pos s)
    → bind_params s (suc n) pos ≡ panics
unfolding bind_params
bind_params-negative s n pos there no_wrap low high past =
    let len = u32_from (drop pos s) in
    let end = pos + 4 + len - 2 ^ 32 in
    let a : ltb (length s) (pos + 4) ≡ false = ground arith in
    let b : (len == 2 ^ 32 - 1) ≡ false = ground arith in
    let i : i32_as_usize len ≡ 2 ^ 64 - 2 ^ 32 + len = ground arith in
    let w : add64 (pos + 4) (2 ^ 64 - 2 ^ 32 + len) ≡ end = omega arith in
    let c : ltb (length s) end ≡ false = ground arith in
    let d : ltb end (pos + 4) ≡ true = ground arith in rw (a, b, i, w, c, d) refl

length-repeat : (n c : ℕ) → length (repeat n c) ≡ n
length-repeat zero c = refl
length-repeat (suc n) c = omega (arith, length-repeat n c)

length-pad : (n : ℕ) (codes : List ℕ) → length (pad n codes) ≡ n
length-pad zero codes = refl
length-pad (suc n) [] = omega (arith, length-pad n [])
length-pad (suc n) (c ∷ codes) = omega (arith, length-pad n codes)

-- The formats cover the parameters, one for each.
pub length-expand_formats : (codes : List ℕ) (n : ℕ) → length (expand_formats codes n) ≡ n
unfolding expand_formats
length-expand_formats [] n = length-repeat n 0
length-expand_formats (c ∷ []) n = length-repeat n c
length-expand_formats (c ∷ d ∷ codes) n = length-pad n (c ∷ d ∷ codes)
