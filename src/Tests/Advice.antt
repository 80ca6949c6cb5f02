-- ===== src/Tests/Advice.antt =====
-- The tuner's allowlists.
use pg_retest.Prelude.{◌≡◌, refl, false, List, [], ◌∷◌, codes}
use pg_retest.Tuner.Safety.{
  Recommendation, config_change, schema_change, validate_recommendations, check_production_hostname,
}
use pg_retest.Tests.Data.{ascii}

abbrev recommendations : List Recommendation
recommendations =
    config_change (codes "work_mem") [] [] []
    ∷ config_change (codes "Port") [] [] []
    ∷ schema_change (codes "DROP TABLE t") [] []
    ∷ []

recommendations-split : validate_recommendations ascii recommendations ≡ (
  config_change (codes "work_mem") [] [] [] ∷ [],
  config_change (codes "Port") [] [] [] ∷ schema_change (codes "DROP TABLE t") [] [] ∷ [],
)
unfolding validate_recommendations
recommendations-split = refl

primary-refused : check_production_hostname ascii (codes "host=Primary-1") false ≡ false
unfolding check_production_hostname
primary-refused = refl
