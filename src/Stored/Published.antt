-- ===== src/Stored/Published.antt =====
-- What `transform_txs` publishes: the records of the transactions before the first that fails.
use aptos_etl.Prelude.{
  ◌≡◌, ◌⊎◌, true, Option, none, some, List, [], ◌∷◌, ◌++◌, map, Result, ok, err, panic,
}
use aptos_etl.Prelude.Text.{Text}
use aptos_etl.Extract.Interface.{Tables}
use aptos_etl.Extract.Publish.{Publication}
use aptos_etl.Records.{Records, RecordsError, extract_records}
use aptos_etl.Stored.Sent.{SendsRows}
use aptos_etl.Stored.{
  Answers, Codec, StoreError, other_io, other_records, failed_to_create_file, Transformed,
  Publishers,
}

module _ (t : Tables) (c : Codec t) (w : Answers) where
  -- Publishers that take every batch.
  abbrev pub Taking : Option (Publishers t) → Type 0
  Taking (some p) = (q : Publication t) → p.takes q ≡ true
  Taking none = Unit

  -- What is published of some records: the rows of each table, if there are publishers.
  abbrev pub SendsEach : Option (Publishers t) → List (Records t) → List (Publication t) → Type 0
  SendsEach (some p) (r ∷ rs) published =
      (ps : List (Publication t)) × (more : List (Publication t)) × (published ≡ ps ++ more)
      × SendsRows t p.build r ps
      × SendsEach (some p) rs more
  SendsEach (some p) [] published = published ≡ []
  SendsEach none rs published = published ≡ []

  -- The error of a file that cannot be created or written.
  abbrev pub IsFileError : StoreError t c w → Type 0
  IsFileError (other_io e) = Unit
  IsFileError (failed_to_create_file path e) = Unit
  IsFileError e = ⊥

  -- An error is that of the transaction's records, or of their file.
  abbrev pub CausedBy : t.Tx → StoreError t c w → Type 0
  CausedBy tx e =
      ((e' : RecordsError t) × (extract_records t tx ≡ err e') × (e ≡ other_records e'))
      ⊎ (((r : Records t) × (extract_records t tx ≡ ok r)) × IsFileError e)

  abbrev pub Ends :
      Result (StoreError t c w) (List (Records t)) → List (Records t) → List t.Tx → Type 0
  Ends (ok all) rs left = (all ≡ rs) × (left ≡ [])
  Ends (err e) rs left = (tx : t.Tx) × (rest : List t.Tx) × (left ≡ tx ∷ rest) × CausedBy tx e
  Ends panic rs left =
      (tx : t.Tx) × (rest : List t.Tx) × (left ≡ tx ∷ rest) × (extract_records t tx ≡ panic)

  -- The transactions up to the first that fails have records; these are what is published.
  abbrev pub Published : Option (Publishers t) → List t.Tx → Transformed t c w → Type 0
  Published publisher txs result =
      (rs : List (Records t)) × (done : List t.Tx) × (left : List t.Tx) × (txs ≡ done ++ left)
      × (map (extract_records t) done ≡ map ok rs)
      × SendsEach publisher rs result.published
      × Ends result.result rs left

  abbrev SaveEnds : Result (StoreError t c w) (Unit {0}) → Type 0
  SaveEnds (ok done) = Unit
  SaveEnds (err e) = IsFileError e
  SaveEnds panic = ⊥
