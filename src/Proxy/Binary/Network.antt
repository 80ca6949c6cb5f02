-- ===== src/Proxy/Binary/Network.antt =====
-- src/proxy/pg_binary.rs: network addresses.
use pg_retest.Prelude.{
  ℕ, ◌+◌, ◌&&◌, Option, none, some, List, [], ◌∷◌, ◌++◌, map, ltb, ◌==◌, if◌then◌else◌, length,
  take, drop, codes,
}
use mathlib.Core.Option
use pg_retest.Text.{join}
use pg_retest.Text.Decimal.{decimal, hex}
use pg_retest.Proxy.Protocol.{u16_from}
use pg_retest.Proxy.Protocol.Extract.{read_array}
use pg_retest.Proxy.Binary.Scalars.{at, hex_encode}

-- The longest run of zero groups so far, and the run that is open.
pub record Runs : Type 0 where
  pub best_start : ℕ
  pub best_len : ℕ
  pub cur_start : ℕ
  pub cur_len : ℕ

abbrev better : Runs → Runs
better r =
    if ltb r.best_len r.cur_len
    then record r { best_len = r.cur_len; best_start = r.cur_start }
    else r

abbrev extend_run : ℕ → Runs → Runs
extend_run i r =
    better (record r {
      cur_start = (if r.cur_len == 0 then i else r.cur_start);
      cur_len = r.cur_len + 1;
    })

unfoldable pub zero_runs : ℕ → List ℕ → Runs → Runs
zero_runs i [] r = r
zero_runs i (g ∷ groups) r =
    zero_runs (i + 1) groups (if g == 0 then extend_run i r else record r { cur_len = 0 })

abbrev pub no_runs : Runs
no_runs = record { best_start = 0; best_len = 0; cur_start = 0; cur_len = 0 }

abbrev hex_groups : List ℕ → List ℕ
hex_groups groups = join (codes ":") (map hex groups)

unfoldable pub compress_ipv6 : List ℕ → List ℕ
unfolding zero_runs
compress_ipv6 groups =
    let r = zero_runs 0 groups no_runs in
    if ltb r.best_len 2
    then hex_groups groups
    else hex_groups (take r.best_start groups)
      ++ (codes "::" ++ hex_groups (drop (r.best_start + r.best_len) groups))

-- The address of a family and its full number of bits.
address : ℕ → List ℕ → Option (List ℕ × ℕ)
unfolding compress_ipv6 read_array
address family addr =
    if (family == 2) && (length addr == 4)
    then some (join (codes ".") (map decimal addr), 32)
    else if (family == 3) && (length addr == 16)
    then some (compress_ipv6 (read_array u16_from 2 8 addr), 128)
    else none

inet_text : List ℕ → ℕ → Option (List ℕ)
unfolding address
inet_text bytes addr_len =
    let bits = u16_from (0 ∷ at 1 1 bytes) in
    let family = u16_from (0 ∷ at 0 1 bytes) in
    Option.map
      (λ (text, default_bits). if bits == default_bits then text else text ++ b'/' ∷ decimal bits)
      (address family (at 4 addr_len bytes))

unfoldable pub decode_inet_cidr : List ℕ → Option (List ℕ)
unfolding inet_text
decode_inet_cidr bytes =
    let addr_len = u16_from (0 ∷ at 3 1 bytes) in
    if ltb (length bytes) 4
    then none
    else if ltb (length bytes) (4 + addr_len)
    then none
    else inet_text bytes addr_len

-- `{:02x}` of each byte.
unfoldable pub mac_text : List ℕ → List ℕ
unfolding hex_encode
mac_text bytes = join (codes ":") (map (λ b. hex_encode (b ∷ [])) bytes)
