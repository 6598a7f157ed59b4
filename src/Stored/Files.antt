-- ===== src/Stored/Files.antt =====
-- Files of transactions and of records: `save_records`, `load_tx` and `load_records` of
-- aptos_config/mod.rs.
use aptos_etl.Prelude.{
  ℕ, Option, none, some, List, [], ◌∷◌, ◌++◌, Result, ok, err, ◌>>=◌, map_err, if◌then◌else◌,
}
use aptos_etl.Prelude.Text.{Text, codes, to_string, text_eq}
use aptos_etl.Signatures.Input.{Bytes}
use aptos_etl.Extract.Interface.{Tables, Status, StreamCreationError}
use aptos_etl.Records.{Records, RecordsError}

-- The answers of the operating system to each path: `none` is success.
pub record Answers : Type 1 where
  pub IoError : Type 0
  pub not_found : IoError
  pub create_dir_all : Text → Option IoError
  pub create : Text → Option IoError
  pub write_all : Text → Option IoError
  -- What a write that fails leaves in the file.
  pub left_over : Text → Bytes
  pub opening : Text → Option IoError
  pub read_to_end : Text → Option IoError

-- The files, the newest first.
abbrev pub Disk : Type 0
Disk = List (Text × Bytes)

abbrev pub lookup : Text → Disk → Option Bytes
lookup path [] = none
lookup path ((p, bytes) ∷ files) = if text_eq p path then some bytes else lookup path files

-- `PathBuf::join`
abbrev pub join : Text → Text → Text
join dir name = dir ++ (47 ∷ name)

-- `format!("{}.pb", version)` in a directory
abbrev pub file_of : Text → ℕ → Text
file_of dir version = join dir (to_string version ++ codes ".pb")

-- What else is used of other crates: the encoders of `prost`, and the version of a row.
pub record Codec (t : Tables) : Type 1 where
  pub DecodeError : Type 0
  pub encode_tx : t.Tx → Bytes
  pub decode_tx : Bytes → Result DecodeError t.Tx
  pub encode_records : Records t → Bytes
  pub decode_records : Bytes → Result DecodeError (Records t)
  pub tx_version : t.Transaction → ℕ

module _ (t : Tables) (c : Codec t) (w : Answers) where
  -- The kinds of `ExtractError` that occur here.
  pub data StoreError : Type 0 where
    stream_creation_error : StreamCreationError → StoreError
    stream_error_status : Status → StoreError
    other_io : w.IoError → StoreError
    other_records : RecordsError t → StoreError
    failed_to_create_file failed_to_open_file : Text → w.IoError → StoreError
    proto_decode_error : c.DecodeError → StoreError

  -- A file that has been created is written.
  abbrev pub written : Text → Bytes → Disk → Option w.IoError → Result StoreError (Unit {0}) × Disk
  written path bytes disk none = (ok tt, (path, bytes) ∷ disk)
  written path bytes disk (some e) = (err (other_io e), (path, w.left_over path) ∷ disk)

  abbrev pub created : Text → Bytes → Disk → Option w.IoError → Result StoreError (Unit {0}) × Disk
  created path bytes disk none = written path bytes disk (w.write_all path)
  created path bytes disk (some e) = (err (failed_to_create_file path e), disk)

  abbrev pub save : Text → Bytes → Disk → Result StoreError (Unit {0}) × Disk
  save path bytes disk = created path bytes disk (w.create path)

  unfoldable pub save_records : Records t → Text → Disk → Result StoreError (Unit {0}) × Disk
  save_records records outfile disk = save outfile (c.encode_records records) disk

  abbrev pub bytes_of :
      Text → Option w.IoError → Option w.IoError → Option Bytes → Result StoreError Bytes
  bytes_of path (some e) unread found = err (failed_to_open_file path e)
  bytes_of path none unread none = err (failed_to_open_file path w.not_found)
  bytes_of path none (some e) (some bytes) = err (failed_to_open_file path e)
  bytes_of path none none (some bytes) = ok bytes

  abbrev pub load : Text → Disk → Result StoreError Bytes
  load path disk = bytes_of path (w.opening path) (w.read_to_end path) (lookup path disk)

  unfoldable pub load_tx : Text → Disk → Result StoreError t.Tx
  load_tx path disk = load path disk >>= λ bytes. map_err proto_decode_error (c.decode_tx bytes)

  unfoldable pub load_records : Text → Disk → Result StoreError (Records t)
  load_records path disk =
      load path disk >>= λ bytes. map_err proto_decode_error (c.decode_records bytes)
