-- ===== src/Proxy/Protocol.antt =====
-- src/proxy/protocol.rs: message frames. A stream is the list of the bytes that are still to come;
-- reading past its end is the end of the connection.
pub mod Framing
pub mod Extract
pub mod Startup
pub mod Bind
pub mod Rows
use pg_retest.Prelude.{
  ℕ, zero, suc, ◌+◌, ◌-◌, ◌*◌, ◌/◌, ◌%◌, ◌^◌, Bool, true, false, ◌&&◌, Option, none, some, List, [],
  ◌∷◌, ◌++◌, ltb, ◌==◌, if◌then◌else◌, length, take, drop,
}

abbrev pub default_max_message_size : ℕ
default_max_message_size = 67108864

-- `to_be_bytes` of a 32-bit number.
unfoldable pub to_be_bytes : ℕ → List ℕ
to_be_bytes n = (n / 2 ^ 24) % 256 ∷ (n / 2 ^ 16) % 256 ∷ (n / 2 ^ 8) % 256 ∷ n % 256 ∷ []

-- `u32::from_be_bytes` of the first four bytes of a slice that has four.
abbrev pub u32_from : List ℕ → ℕ
u32_from (a ∷ b ∷ c ∷ d ∷ s) = ((a * 256 + b) * 256 + c) * 256 + d
u32_from _ = 0

abbrev pub u16_from : List ℕ → ℕ
u16_from (a ∷ b ∷ s) = a * 256 + b
u16_from _ = 0

-- `x as usize` of an `i32`, and of an `i16`, given by its bits: a negative number becomes a large one.
abbrev pub i32_as_usize : ℕ → ℕ
i32_as_usize n = if ltb n (2 ^ 31) then n else 2 ^ 64 - 2 ^ 32 + n

abbrev pub i16_as_usize : ℕ → ℕ
i16_as_usize n = if ltb n (2 ^ 15) then n else 2 ^ 64 - 2 ^ 16 + n

pub record PgMessage : Type 0 where
  -- 0 for a startup message, which has no type byte.
  pub msg_type : ℕ
  -- The length field and what follows it.
  pub payload : List ℕ

unfoldable pub wire_len : PgMessage → ℕ
wire_len m = length m.payload + (if m.msg_type == 0 then 0 else 1)

abbrev pub body : PgMessage → List ℕ
body m = drop 4 m.payload

pub data ReadError : Type 0 where
  unexpected_eof invalid_length too_large : ReadError
  -- `BytesMut::with_capacity` of more than `isize::MAX` bytes panics.
  capacity_overflow : ReadError

-- `Result<Option<PgMessage>>`, with the rest of the stream.
pub data Read : Type 0 where
  message : PgMessage → List ℕ → Read
  closed : Read
  failed : ReadError → Read

-- The length field `len`, with the bytes behind it, gives a message of the given type.
read_payload : ℕ → List ℕ → List ℕ → ℕ → ℕ → Read
read_payload msg_type len_buf rest max len =
    if ltb len 4
    then failed invalid_length
    else if ltb 0 max && ltb max len
    then failed too_large
    else if ltb (2 ^ 63 - 1) len
    then failed capacity_overflow
    else if ltb (length rest) (len - 4)
    then failed unexpected_eof
    else message (record { msg_type = msg_type; payload = len_buf ++ take (len - 4) rest })
        (drop (len - 4) rest)

abbrev with_length : ℕ → List ℕ → ℕ → Read
with_length msg_type s max =
    read_payload msg_type (take 4 s) (drop 4 s) max (i32_as_usize (u32_from s))

unfoldable pub read_message : List ℕ → ℕ → Read
unfolding read_payload
read_message [] max = closed
read_message (msg_type ∷ s) max =
    if ltb (length s) 4 then failed unexpected_eof else with_length msg_type s max

-- The first message of a connection has no type byte; too few bytes for a length are its end.
unfoldable pub read_startup_message : List ℕ → ℕ → Read
unfolding read_payload
read_startup_message s max = if ltb (length s) 4 then closed else with_length 0 s max

-- The bytes that are written to the stream.
unfoldable pub write_message : PgMessage → List ℕ
write_message m = (if m.msg_type == 0 then [] else m.msg_type ∷ []) ++ m.payload
