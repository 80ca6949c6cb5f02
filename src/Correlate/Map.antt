-- ===== src/Correlate/Map.antt =====
-- src/correlate/map.rs: the map from captured to replayed values, over a concurrent hash map that
-- the program takes from a library (`dashmap`).
pub mod Store
use pg_retest.Prelude.{ℕ, ◌≡◌, Bool, true, false, Option, none, some, List, bytes_eq, if◌then◌else◌}

-- What the program relies on of `DashMap<String, String>`.
pub record DashMap : Type 1 where
  pub Map : Type 0
  pub new : Map
  pub get : List ℕ → Map → Option (List ℕ)
  pub insert : List ℕ → List ℕ → Map → Map
  pub is_empty : Map → Bool
  pub get-new : (k : List ℕ) → get k new ≡ none
  pub get-insert :
      (k v j : List ℕ) (m : Map) → get j (insert k v m) ≡ (if bytes_eq k j then some v else get j m)
  pub get-is_empty : (k : List ℕ) (m : Map) → is_empty m ≡ true → get k m ≡ none

module _ (d : DashMap) where
  -- The log line on an overwrite changes nothing.
  unfoldable pub register : List ℕ → List ℕ → d.Map → d.Map
  register captured replayed m = d.insert captured replayed m

  -- After any registration `get` finds the value registered last under the key.
  pub get-register :
      (k v j : List ℕ) (m : d.Map)
      → d.get j (register k v m) ≡ (if bytes_eq k j then some v else d.get j m)
  unfolding register
  get-register k v j m = d.get-insert k v j m
