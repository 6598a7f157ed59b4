-- ===== src/Stored.antt =====
-- Transactions that are saved in files, and the publication of their records: `extract_txs`,
-- `transform_txs`, `publish_record_struct` and `create_test_data` of aptos_config/mod.rs.
pub mod Files
pub mod Loaded
pub mod Published
pub mod Sent
mod Tests
unfoldable pub use Files.*
use aptos_etl.Prelude.{
  ℕ, Bool, true, false, Option, none, some, List, [], ◌∷◌, ◌++◌, map, Result, ok, err, panic, ◌>>=◌,
  map_err, map_ok, if◌then◌else◌, ◌&&◌,
}
use aptos_etl.Prelude.Text.{Text, codes, to_string, text_eq}
use aptos_etl.Timestamp.{UnixTimestamp}
use aptos_etl.Signatures.Input.{Bytes}
use aptos_etl.Extract.Interface.{Tables, Status, StreamCreationError}
use aptos_etl.Extract.Loop.{Pull, response, status}
use aptos_etl.Extract.Publish.{Batch, Publication, range_name}
use aptos_etl.Extract.Publish as Publish
use aptos_etl.Records.{Records, RecordsError, extract_records, get_range}

-- Whether the program is built with the feature PUBLISH_WITH_NAME.
pub data Build : Type 0 where
  with_names without_names : Build

-- The publishers that a caller may give, and whether one takes a batch; it panics if it does not.
pub record Publishers (t : Tables) : Type 0 where
  pub build : Build
  pub takes : Publication t → Bool

module _ (t : Tables) (c : Codec t) (w : Answers) where
  -- What `extract_txs` gives: its result, where an error has the version it failed on, and the files.
  abbrev pub Extracted : Type 0
  Extracted = Result (StoreError t c w × ℕ) (List t.Tx) × Disk

  abbrev pub with_tx : t.Tx → Extracted → Extracted
  with_tx tx (r, disk) = (map_ok (λ txs. tx ∷ txs) r, disk)

  abbrev pub after_save :
      t.Tx → Result (StoreError t c w) (Unit {0}) × Disk → (Disk → Extracted) → Extracted
  after_save tx (ok done, disk) next = with_tx tx (next disk)
  after_save tx (err e, disk) next = (err (e, t.version tx), disk)
  after_save tx (panic, disk) next = (panic, disk)

  -- A transaction is saved if there is a directory.
  abbrev pub save_tx : Option Text → t.Tx → Disk → Result (StoreError t c w) (Unit {0}) × Disk
  save_tx none tx disk = (ok tt, disk)
  save_tx (some outdir) tx disk = save t c w (file_of outdir (t.version tx)) (c.encode_tx tx) disk

  -- The transactions of a response, and what comes after them, which is given the current version.
  unfoldable pub each_tx : Option Text → ℕ → List t.Tx → (ℕ → Disk → Extracted) → Disk → Extracted
  each_tx outdir cur [] next disk = next cur disk
  each_tx outdir cur (tx ∷ txs) next disk =
      after_save tx (save_tx outdir tx disk) (each_tx outdir (t.version tx) txs next)

  unfoldable pub each_response : Option Text → List (Pull t) → ℕ → Disk → Extracted
  each_response outdir [] cur disk = (ok [], disk)
  each_response outdir (status s ∷ pulls) cur disk = (err (stream_error_status s, cur), disk)
  each_response outdir (response txs ∷ pulls) cur disk =
      each_tx outdir cur txs (each_response outdir pulls) disk

  abbrev pub in_stream :
      Option Text → ℕ → Disk → Result StreamCreationError (List (Pull t)) → Extracted
  in_stream outdir start disk (ok pulls) = each_response outdir pulls start disk
  in_stream outdir start disk (err e) = (err (stream_creation_error e, start), disk)
  in_stream outdir start disk panic = (panic, disk)

  -- Whether the directory is there, or none is asked for; if not, the code panics.
  abbrev pub has_dir : Option Text → Bool
  has_dir none = true
  has_dir (some outdir) = elim (w.create_dir_all outdir) [ none ↦ true | some e ↦ false ]

  unfoldable pub extract_txs :
      (ℕ → ℕ → Result StreamCreationError (List (Pull t))) → ℕ → ℕ → Option Text → Disk → Extracted
  extract_txs connect start end outdir disk =
      if has_dir outdir then in_stream outdir start disk (connect start end) else (panic, disk)

  -- A build that publishes with names publishes nothing that has none.
  abbrev pub publish_records :
      {A : Type 0} → Build → (Batch A → Publication t) → Batch A → List (Publication t)
  publish_records with_names send b = elim b.name [ none ↦ [] | some output_name ↦ send b ∷ [] ]
  publish_records without_names send b = send b ∷ []

  -- The batch of a table, if it has rows.
  abbrev pub publish_some :
      {A : Type 0}
      → Build
      → (A → UnixTimestamp)
      → (Batch A → Publication t)
      → Option Text
      → List A
      → List (Publication t)
  publish_some build time send name [] = []
  publish_some build time send name (row ∷ rows) =
      publish_records build send
        (record { records = row ∷ rows; name = name; timestamps = map time (row ∷ rows) })

  unfoldable pub publish_record_struct : Build → Records t → Option Text → List (Publication t)
  publish_record_struct build r name =
      publish_some build t.block_time Publish.blocks name r.blocks
      ++ publish_some build t.transaction_time Publish.transactions name r.transactions
      ++ publish_some build t.signature_time Publish.signatures name r.signatures
      ++ publish_some build t.event_time Publish.events name r.events
      ++ publish_some build t.change_time Publish.changes name r.changes
      ++ publish_some build t.resource_time Publish.resources name r.resources
      ++ publish_some build t.table_item_time Publish.table_items name r.table_items
      ++ publish_some build t.module_time Publish.modules name r.modules

  abbrev pub name_str : Option (ℕ × ℕ) → Text
  name_str (some (start, end)) = range_name start end
  name_str none = []

  -- The name is passed on if it is empty.
  abbrev pub given_name : Text → Option Text
  given_name [] = some []
  given_name (c ∷ s) = none

  abbrev pub name_of : Records t → Option Text
  name_of r = given_name (name_str (get_range t c.tx_version r))

  -- The files, what has been published, and the result of `transform_txs`.
  pub record Transformed : Type 0 where
    pub files : Disk
    pub published : List (Publication t)
    pub result : Result (StoreError t c w) (List (Records t))

  abbrev pub stopped : Disk → Result (StoreError t c w) (List (Records t)) → Transformed
  stopped disk result = record { files = disk; published = []; result = result }

  -- A batch that a publisher does not take ends it all.
  abbrev pub with_published :
      List (Publication t) × Bool → Records t → Disk → (Disk → Transformed) → Transformed
  with_published (sent, true) r disk next = record {
    files = (next disk).files;
    published = sent ++ (next disk).published;
    result = map_ok (λ rs. r ∷ rs) (next disk).result;
  }
  with_published (sent, false) r disk next = record {
    files = disk;
    published = sent;
    result = panic;
  }

  abbrev pub published_of : Option (Publishers t) → Records t → List (Publication t) × Bool
  published_of (some p) r =
      Publish.publish_each t p.takes (publish_record_struct p.build r (name_of r))
  published_of none r = ([], true)

  abbrev pub after_saving :
      Option (Publishers t)
      → Records t
      → Result (StoreError t c w) (Unit {0}) × Disk
      → (Disk → Transformed)
      → Transformed
  after_saving publisher r (ok done, disk) next =
      with_published (published_of publisher r) r disk next
  after_saving publisher r (err e, disk) next = stopped disk (err e)
  after_saving publisher r (panic, disk) next = stopped disk panic

  abbrev pub save_in :
      Option Text → ℕ → Records t → Disk → Result (StoreError t c w) (Unit {0}) × Disk
  save_in none version r disk = (ok tt, disk)
  save_in (some outdir) version r disk = save_records t c w r (file_of outdir version) disk

  abbrev pub after_records :
      Option Text
      → Option (Publishers t)
      → ℕ
      → Result (RecordsError t) (Records t)
      → (Disk → Transformed)
      → Disk
      → Transformed
  after_records outdir publisher version (ok r) next disk =
      after_saving publisher r (save_in outdir version r disk) next
  after_records outdir publisher version (err e) next disk = stopped disk (err (other_records e))
  after_records outdir publisher version panic next disk = stopped disk panic

  unfoldable pub transform_each :
      Option Text → Option (Publishers t) → List t.Tx → Disk → Transformed
  transform_each outdir publisher [] disk = stopped disk (ok [])
  transform_each outdir publisher (tx ∷ txs) disk =
      after_records outdir publisher (t.version tx) (extract_records t tx)
        (transform_each outdir publisher txs) disk

  -- The directory is made first, if one is given.
  abbrev pub in_dir : Option Text → Option w.IoError
  in_dir none = none
  in_dir (some outdir) = w.create_dir_all outdir

  unfoldable pub transform_txs :
      List t.Tx → Option Text → Option (Publishers t) → Disk → Transformed
  transform_txs txs outdir publisher disk = elim (in_dir outdir) [
    | none ↦ transform_each outdir publisher txs disk
    | some e ↦ stopped disk (err (other_io e))
  ]

  abbrev pub transformed : Option Text → Option (Publishers t) → Extracted → Transformed
  transformed recdir publisher (ok txs, disk) = transform_txs txs recdir publisher disk
  transformed recdir publisher (err (e, version), disk) = stopped disk (err e)
  transformed recdir publisher (panic, disk) = stopped disk panic

  -- The directories for the transactions and for the records; the code panics if it cannot make one.
  unfoldable pub create_test_data :
      (ℕ → ℕ → Result StreamCreationError (List (Pull t)))
      → ℕ
      → ℕ
      → Text
      → Option (Publishers t)
      → Disk
      → Transformed
  create_test_data connect start end dir publisher disk =
      let txdir = join dir (codes "txs") in
      let recdir = join dir (codes "records") in
      if has_dir (some dir) && has_dir (some txdir) && has_dir (some recdir)
      then transformed (some recdir) publisher (extract_txs connect start end (some txdir) disk)
      else stopped disk panic
