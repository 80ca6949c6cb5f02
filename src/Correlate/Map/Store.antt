-- ===== src/Correlate/Map/Store.antt =====
-- A concrete store that meets the laws of `DashMap`: an association list.
use pg_retest.Prelude.{
  ℕ, ◌≡◌, refl, Bool, true, false, Option, none, some, List, [], ◌∷◌, bytes_eq, if◌then◌else◌,
}
use pg_retest.Correlate.Map.{DashMap}

abbrev pub Assoc : Type 0
Assoc = List (List ℕ × List ℕ)

abbrev pub assoc_get : List ℕ → Assoc → Option (List ℕ)
assoc_get k [] = none
assoc_get k ((j, v) ∷ m) = if bytes_eq j k then some v else assoc_get k m

abbrev pub assoc_empty : Assoc → Bool
assoc_empty [] = true
assoc_empty (e ∷ m) = false

pub get-assoc_empty : (k : List ℕ) (m : Assoc) → assoc_empty m ≡ true → assoc_get k m ≡ none
get-assoc_empty k [] h = refl
get-assoc_empty k (e ∷ m) h = cc

abbrev pub assoc : DashMap
assoc = record {
  Map = Assoc;
  new = [];
  get = assoc_get;
  insert = λ k v m. (k, v) ∷ m;
  is_empty = assoc_empty;
  get-new = λ k. refl;
  get-insert = λ k v j m. refl;
  get-is_empty = get-assoc_empty;
}
