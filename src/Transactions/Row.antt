-- ===== src/Transactions/Row.antt =====
-- The rows of the table of transactions, and what both kinds of rows share:
-- processing/tables/transactions.rs.
use mathlib.Core.Option
use aptos_etl.Prelude.{ℕ, Bool, Option, none, some, length, Result, ok, err, panic, if◌then◌else◌}
use aptos_etl.Prelude.Int.{ℤ}
use aptos_etl.Prelude.Text.{Text}
use aptos_etl.Address.{AddressError}
use aptos_etl.HashValue.{encode}
use aptos_etl.Timestamp.{TimestampError, UnixTimestamp}
use aptos_etl.Payload.{TxPayloadError, Payload}
use aptos_etl.Transaction.Data.{TxDataExtractError, events}
use aptos_etl.Transaction.Info.{TxInfoExtractionError, ChangesAggregate}
use aptos_etl.Transaction.{
  TransactionExtraction, TxExtractionError, TxType, is_usertx, get_unix_timestamp, get_encoded_hash,
}
use aptos_etl.Events.{small_number, number_text}
use aptos_etl.Service.{Service, protos}

pub data TxError (s : Service) : Type 0 where
  timestamp : TimestampError → TxError s
  tx_data_extract : TxDataExtractError (protos s) → TxError s
  tx_info_extract : TxInfoExtractionError (protos s) → TxError s
  address_error : AddressError → TxError s
  missing_sender : TxError s
  payload_error : TxPayloadError → TxError s
  tx_extract_error : TxExtractionError (protos s) → TxError s
  missing_sig_count : TxType → TxError s

-- The message of proto_src/transactions.proto.
pub record Transaction : Type 0 where
  pub block_height : ℤ
  pub block_timestamp : Text
  pub tx_type : TxType
  pub tx_version : ℕ
  pub tx_hash : Text
  pub state_change_hash : Text
  pub event_root_hash : Text
  pub state_checkpoint_hash : Option Text
  pub gas_used : ℕ
  pub success : Bool
  pub vm_status : Option Text
  pub accumulator_root_hash : Option Text
  pub sequence_number : Option ℕ
  pub sequence_number_big : Option Text
  pub max_gas_amount : Option ℕ
  pub sender : Option Text
  pub num_events : Option ℕ
  pub num_changes : ChangesAggregate
  pub expiration_timestamp : Option Text
  pub payload : Option Payload
  pub gas_unit_price : Option ℕ
  pub payload_type : Option Text
  pub block_unixtimestamp : UnixTimestamp
  pub expiration_unixtimestamp : Option UnixTimestamp
  pub num_signatures : Option ℕ

-- What the two kinds of rows read in different ways.
pub record Parts : Type 0 where
  pub payload : Option Payload
  pub payload_type : Option Text
  pub max_gas_amount : Option ℕ
  pub sender : Option Text
  pub expiration_timestamp : Option Text
  pub gas_unit_price : Option ℕ
  pub expiration_unixtimestamp : Option UnixTimestamp
  pub num_signatures : Option ℕ

-- `Result::ok`
abbrev pub ok_part {ℓ κ} : {F : Type ℓ} {A : Type κ} → Result F A → Result F (Option A)
ok_part (ok a) = ok (some a)
ok_part (err e) = ok none
ok_part panic = panic

-- `Option::unwrap_or_default` of a result that holds an option
abbrev pub or_none {ℓ κ μ} :
    {E : Type ℓ} {F : Type κ} {A : Type μ} → Result E (Option A) → Result F (Option A)
or_none (ok o) = ok o
or_none (err e) = ok none
or_none panic = panic

module _ (s : Service) where
  abbrev pub Extraction : Type 0
  Extraction = TransactionExtraction (protos s)

  -- The address of a sender, and what is done when there is none.
  abbrev pub no_sender : Extraction → Result (TxError s) (Option Text)
  no_sender tx = if is_usertx (protos s) tx then err missing_sender else ok none

  -- The fields that both kinds of rows take in the same way.
  abbrev pub row_of : Extraction → Option ℕ → Text → TxType → ChangesAggregate → Parts → Transaction
  row_of tx number time tx_type changes parts = record {
    block_height = tx.blockheight;
    block_timestamp = time;
    tx_type = tx_type;
    tx_version = tx.version;
    tx_hash = get_encoded_hash (protos s) tx;
    state_change_hash = encode tx.tx_info.state_change_hash;
    event_root_hash = encode tx.tx_info.event_root_hash;
    state_checkpoint_hash = Option.map encode tx.tx_info.state_checkpoint_hash;
    gas_used = tx.tx_info.gas_used;
    success = tx.tx_info.success;
    vm_status = some tx.tx_info.vm_status;
    accumulator_root_hash = some (encode tx.tx_info.accumulator_root_hash);
    sequence_number = small_number number;
    sequence_number_big = number_text number;
    max_gas_amount = parts.max_gas_amount;
    sender = parts.sender;
    num_events = Option.map length (events (protos s) tx.tx_data);
    num_changes = changes;
    expiration_timestamp = parts.expiration_timestamp;
    payload = parts.payload;
    gas_unit_price = parts.gas_unit_price;
    payload_type = parts.payload_type;
    block_unixtimestamp = get_unix_timestamp (protos s) tx;
    expiration_unixtimestamp = parts.expiration_unixtimestamp;
    num_signatures = parts.num_signatures;
  }
