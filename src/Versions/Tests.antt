-- ===== src/Versions/Tests.antt =====
-- A list of versions over toy tables.
use aptos_etl.Prelude.{◌≡◌, none, [], ◌∷◌}
use aptos_etl.Extract.{extract_range}
use aptos_etl.Extract.Toy.{toy, two_responses, serve, counters}
use aptos_etl.Versions.{extract, extract-least}

extract-least_example :
    extract toy (serve two_responses) (7 ∷ 5 ∷ 6 ∷ 5 ∷ []) counters none
    ≡ extract_range toy (serve two_responses) 5 5 counters none
extract-least_example = extract-least toy (serve two_responses) 7 (5 ∷ 6 ∷ 5 ∷ []) counters none
