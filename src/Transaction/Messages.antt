-- ===== src/Transaction/Messages.antt =====
-- The messages of a transaction. What the payloads and the changes hold, and how they are
-- converted, is left open here.
use aptos_etl.Prelude.{ℕ, Bool, Option, List, Result}
use aptos_etl.Prelude.Text.{Text}
use aptos_etl.Timestamp.{InputTimestamp}
use aptos_etl.Types.{MoveType}
use aptos_etl.Signatures.Input.{Bytes, Signature}

-- `write_set_change::Type`
pub data ChangeType : Type 0 where
  unspecified delete_module delete_resource delete_table_item write_module write_resource
        write_table_item :
      ChangeType

-- `Event` and `EventKey`
pub record EventKey : Type 0 where
  pub creation_number : ℕ
  pub account_address : Text

pub record InputEvent : Type 0 where
  pub key : Option EventKey
  pub sequence_number : ℕ
  pub type_of : Option MoveType
  pub type_str : Text
  pub contents : Text

pub record Protos : Type 1 where
  pub TransactionPayload : Type 0
  pub WriteSet : Type 0
  pub WriteSetChange : Type 0
  -- processing/reps/payload.rs
  pub TxPayloadExtract : Type 0
  pub TxPayloadError : Type 0
  pub try_from_payload : TransactionPayload → Result TxPayloadError TxPayloadExtract
  pub from_write_set : WriteSet → TxPayloadExtract
  -- processing/reps/changes.rs
  pub IncompleteChangeRecord : Type 0
  pub ChangeError : Type 0
  pub try_from_change : WriteSetChange → Result ChangeError IncompleteChangeRecord
  pub get_type : IncompleteChangeRecord → ChangeType

module _ (p : Protos) where
  pub record UserTransactionRequest : Type 0 where
    pub sender : Text
    pub sequence_number : ℕ
    pub max_gas_amount : ℕ
    pub gas_unit_price : ℕ
    pub expiration_timestamp_secs : Option InputTimestamp
    pub payload : Option p.TransactionPayload
    pub signature : Option Signature

  pub record UserTransaction : Type 0 where
    pub request : Option UserTransactionRequest
    pub events : List InputEvent

  -- `none` in the payload is one without a write set.
  pub record GenesisTransaction : Type 0 where
    pub payload : Option (Option p.WriteSet)
    pub events : List InputEvent

  pub record BlockMetadataTransaction : Type 0 where
    pub id : Text
    pub round : ℕ
    pub previous_block_votes_bitvec : Bytes
    pub proposer : Text
    pub events : List InputEvent

  pub data TxnData : Type 0 where
    block_metadata : BlockMetadataTransaction → TxnData
    genesis : GenesisTransaction → TxnData
    state_checkpoint : TxnData
    user : UserTransaction → TxnData
    validator : List InputEvent → TxnData
    block_epilogue : TxnData

  pub record TransactionInfo : Type 0 where
    pub hash : Bytes
    pub state_change_hash : Bytes
    pub event_root_hash : Bytes
    pub state_checkpoint_hash : Option Bytes
    pub gas_used : ℕ
    pub success : Bool
    pub vm_status : Text
    pub accumulator_root_hash : Bytes
    pub changes : List p.WriteSetChange
