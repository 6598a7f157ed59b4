-- ===== src/Records/Tests.antt =====
-- The records of a toy transaction.
use aptos_etl.Prelude.{◌≡◌, refl, ◌↔◌, [], ◌∷◌, ok}
use aptos_etl.Options.{new_all}
use aptos_etl.Extract.Collect.{Buffers, empty, add_tx}
use aptos_etl.Extract.Toy.{toy}
use aptos_etl.Records.{Records, extract_records}
use aptos_etl.Records.SameRows.{with_records, add_tx-extract_records}

abbrev records : Records toy
records = record {
  transactions = 5 ∷ [];
  blocks = [];
  table_items = [];
  resources = [];
  modules = 305 ∷ [];
  changes = 205 ∷ [];
  events = 105 ∷ [];
  signatures = 5 ∷ 5 ∷ [];
}

extracted : extract_records toy 5 ≡ ok records
unfolding extract_records
extracted = refl

abbrev added : Buffers toy
added = with_records toy (empty toy) 5 records

add_tx-extract_records_example :
    ((r : Records toy) × (extract_records toy 5 ≡ ok r)
      × (added ≡ with_records toy (empty toy) 5 r))
    ↔ (add_tx toy new_all (empty toy) 5 ≡ ok added)
add_tx-extract_records_example = add_tx-extract_records toy (empty toy) 5 added
