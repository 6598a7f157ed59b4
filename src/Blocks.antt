-- ===== src/Blocks.antt =====
-- The table of blocks: processing/tables/blocks.rs.
pub mod Complete
mod Tests
use aptos_etl.Prelude.{ℕ, Option, none, some, Result, ok, err, ◌>>=◌, map_err, expect}
use aptos_etl.Prelude.Int.{ℤ}
use aptos_etl.Prelude.Text.{Text}
use aptos_etl.Address.{AddressError}
use aptos_etl.Timestamp.{TimestampError, UnixTimestamp, Chrono}
use aptos_etl.Signatures.Input.{Bytes}
use aptos_etl.Transaction.Messages.{Protos, BlockMetadataTransaction}
use aptos_etl.Transaction.Data.{TxDataExtractError, blockmetadata, encoded_proposer}
use aptos_etl.Transaction.{TransactionExtraction, get_encoded_timestamp, get_unix_timestamp}

pub data BlockError (p : Protos) : Type 0 where
  timestamp : TimestampError → BlockError p
  address : AddressError → BlockError p
  tx_data_extract : TxDataExtractError p → BlockError p

-- The message of proto_src/blocks.proto.
pub record Block : Type 0 where
  pub block_hash : Text
  pub block_timestamp : Text
  pub block_unixtimestamp : UnixTimestamp
  pub block_height : ℤ
  pub round : ℕ
  pub previous_block_votes_bitvec : Text
  pub proposer : Text
  pub blockmetadata_tx_version : ℕ

-- The encoder of the `base64` crate is a parameter.
module _ (p : Protos) (bytes_to_base64 : Bytes → Text) where
  abbrev pub of_metadata :
      Chrono
      → TransactionExtraction p
      → Option (BlockMetadataTransaction p)
      → Result (BlockError p) (Option Block)
  of_metadata c tx none = ok none
  of_metadata c tx (some bmd) = do
    time ← map_err timestamp (get_encoded_timestamp p c tx)
    found ← map_err tx_data_extract (encoded_proposer p tx.tx_data)
    printed ← expect found
    ok (
        some (record {
          block_hash = bmd.id;
          block_timestamp = time;
          block_unixtimestamp = get_unix_timestamp p tx;
          block_height = tx.blockheight;
          round = bmd.round;
          previous_block_votes_bitvec = bytes_to_base64 bmd.previous_block_votes_bitvec;
          proposer = printed;
          blockmetadata_tx_version = tx.version;
        }))

  unfoldable pub get_block : Chrono → TransactionExtraction p → Result (BlockError p) (Option Block)
  get_block c tx = of_metadata c tx (blockmetadata p tx.tx_data)
