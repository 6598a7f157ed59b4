-- ===== src/Transaction.antt =====
-- A transaction as the service sends it, and the parts that are taken out of it:
-- processing/reps/transaction/tx.rs, tx_data.rs and tx_info.rs.
pub mod Messages
pub mod Data
pub mod Info
pub mod Counts
pub mod Kinds
pub mod Toy
mod Tests
use aptos_etl.Prelude.{
  ℕ, ◌^◌, ◌%◌, Bool, true, false, Option, none, some, List, Result, ok, err, panic, ◌>>=◌, map_err,
}
use aptos_etl.Prelude.Int.{ℤ, u64_as_i64}
use aptos_etl.Prelude.Text.{Text}
use aptos_etl.HashValue.{encode}
use aptos_etl.Timestamp
use aptos_etl.Timestamp.{InputTimestamp, TimestampError, UnixTimestamp, Chrono}
use Messages.{Protos, TxnData, TransactionInfo}
use Info.{TxInfoExtractionError, TransactionInfoExtraction}

pub data TransactionType : Type 0 where
  unspecified genesis block_metadata state_checkpoint user validator block_epilogue :
      TransactionType

-- The type of proto_src/transactions.proto.
pub data TxType : Type 0 where
  genesis block_metadata state_checkpoint user validator block_epilogue : TxType

pub data TxExtractionError (p : Protos) : Type 0 where
  missing_time_stamp missing_info missing_data invalid_data unspecified : TxExtractionError p
  timestamp_error : TimestampError → TxExtractionError p
  tx_info_extraction_error : TxInfoExtractionError p → TxExtractionError p

pub record Transaction (p : Protos) : Type 0 where
  pub timestamp : Option InputTimestamp
  pub version : ℕ
  pub info : Option (TransactionInfo p)
  pub epoch : ℕ
  pub block_height : ℕ
  pub type_of : TransactionType
  pub txn_data : Option (TxnData p)

pub record TransactionExtraction (p : Protos) : Type 0 where
  pub version : ℕ
  pub epoch : ℕ
  pub blockheight : ℤ
  pub timestamp : Timestamp.Timestamp
  pub tx_type : TransactionType
  pub tx_info : TransactionInfoExtraction p
  pub tx_data : TxnData p

module _ (p : Protos) where
  abbrev pub is_usertx : TransactionExtraction p → Bool
  is_usertx x = elim x.tx_type [ TransactionType.user ↦ true | _ ↦ false ]

  abbrev pub is_blockmetadata : TransactionExtraction p → Bool
  is_blockmetadata x = elim x.tx_type [ TransactionType.block_metadata ↦ true | _ ↦ false ]

  unfoldable pub get_encoded_timestamp :
      Chrono → TransactionExtraction p → Result TimestampError Text
  get_encoded_timestamp c x = Timestamp.try_encode c x.timestamp

  unfoldable pub get_unix_timestamp : TransactionExtraction p → UnixTimestamp
  get_unix_timestamp x = Timestamp.encode x.timestamp

  unfoldable pub get_encoded_hash : TransactionExtraction p → Text
  get_encoded_hash x = encode x.tx_info.hash

  unfoldable pub convert_txtype : TransactionType → Result (TxExtractionError p) TxType
  convert_txtype TransactionType.block_metadata = ok TxType.block_metadata
  convert_txtype TransactionType.state_checkpoint = ok TxType.state_checkpoint
  convert_txtype TransactionType.user = ok TxType.user
  convert_txtype TransactionType.genesis = ok TxType.genesis
  convert_txtype TransactionType.validator = ok TxType.validator
  convert_txtype TransactionType.block_epilogue = ok TxType.block_epilogue
  convert_txtype TransactionType.unspecified = err TxExtractionError.unspecified

  unfoldable pub get_txtype : TransactionExtraction p → Result (TxExtractionError p) TxType
  get_txtype x = convert_txtype x.tx_type

  -- The type has to be that of the data.
  abbrev pub of_type : TransactionType → TxnData p → Bool
  of_type TransactionType.user (TxnData.user d) = true
  of_type TransactionType.genesis (TxnData.genesis d) = true
  of_type TransactionType.block_metadata (TxnData.block_metadata d) = true
  of_type TransactionType.state_checkpoint TxnData.state_checkpoint = true
  of_type TransactionType.validator (TxnData.validator d) = true
  of_type TransactionType.block_epilogue TxnData.block_epilogue = true
  of_type _ _ = false

  abbrev pub check_data :
      TransactionType → Option (TxnData p) → Result (TxExtractionError p) (TxnData p)
  check_data TransactionType.unspecified d = err TxExtractionError.unspecified
  check_data t none = err missing_data
  check_data t (some d) = elim (of_type t d) [ true ↦ ok d | false ↦ err invalid_data ]

  abbrev pub check_timestamp :
      Option InputTimestamp → Result (TxExtractionError p) Timestamp.Timestamp
  check_timestamp none = err missing_time_stamp
  check_timestamp (some t) = map_err timestamp_error (Timestamp.try_from t)

  abbrev pub check_info :
      Option (TransactionInfo p) → Result (TxExtractionError p) (TransactionInfo p)
  check_info none = err missing_info
  check_info (some i) = ok i

  unfoldable pub try_from : Transaction p → Result (TxExtractionError p) (TransactionExtraction p)
  try_from value = do
    timestamp ← check_timestamp value.timestamp
    tx_data ← check_data value.type_of value.txn_data
    tx_info ← check_info value.info
    extracted ← map_err tx_info_extraction_error (Info.try_from p tx_info)
    ok (record {
      version = value.version;
      epoch = value.epoch;
      blockheight = u64_as_i64 value.block_height;
      timestamp = timestamp;
      tx_type = value.type_of;
      tx_info = extracted;
      tx_data = tx_data;
    })
