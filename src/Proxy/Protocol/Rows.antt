-- ===== src/Proxy/Protocol/Rows.antt =====
-- src/proxy/protocol.rs: the values of a DataRow message. Positions wrap at 2^64 as in a release build.
use pg_retest.Prelude.{
  ℕ, zero, suc, ◌+◌, ◌-◌, ◌^◌, true, false, not, ◌||◌, Option, none, some, List, [], ◌∷◌, ltb, ◌==◌,
  if◌then◌else◌, length, drop,
}
use pg_retest.Proxy.Protocol.{PgMessage, body, u16_from, u32_from, i32_as_usize}
use pg_retest.Proxy.Protocol.Bind.{Outcome, value, absent, ◌>>=◌, add64, slice}

module _ (lossy : List ℕ → List ℕ) where
  row_values : List ℕ → ℕ → ℕ → Outcome (List (Option (List ℕ)))
  row_values s zero pos = value []
  row_values s (suc n) pos =
      let len = u32_from (drop pos s) in
      let start = pos + 4 in
      let end = add64 start (i32_as_usize len) in
      if ltb (length s) start then absent else elim (len == 2 ^ 32 - 1) [
        | true ↦ row_values s n start >>= (λ rest. value (none ∷ rest))
        | false ↦ if ltb (length s) end then absent else do
          given ← slice s start end
          rest ← row_values s n end
          value (some (lossy given) ∷ rest)
      ]

  unfoldable pub extract_data_row : PgMessage → ℕ → Outcome (List (Option (List ℕ)))
  unfolding row_values
  extract_data_row m num_columns =
      let s = body m in
      if not (m.msg_type == b'D') || ltb (length s) 2
      then absent
      else if u16_from s == num_columns
      then row_values s num_columns 2
      else absent
