-- ===== src/Service.antt =====
-- What the program uses of other crates and of the generated code, in one record, and the payloads
-- and changes of the service, which fill the interface of the transactions.
pub mod Toy
use aptos_etl.Prelude.{ℕ, Bool, Option, ok}
use aptos_etl.Prelude.Text.{Text}
use aptos_etl.Signatures.Input.{Bytes}
use aptos_etl.Timestamp.{Chrono}
use aptos_etl.Types.{Enumeration}
use aptos_etl.Modules.Messages.{MoveAbility}
use aptos_etl.Payload.Messages.{TransactionPayload, WriteSet}
use aptos_etl.Payload.{TxPayloadExtract, TxPayloadError, from_write_set}
use aptos_etl.Payload as Payload
use aptos_etl.Changes.Messages.{WriteSetChange}
use aptos_etl.Changes.{IncompleteChangeRecord, ChangeError, get_type}
use aptos_etl.Changes as Changes
use aptos_etl.Transaction.Messages.{Protos}

pub record Service : Type 1 where
  -- The enumeration of types, and the names of that of abilities.
  pub types : Enumeration
  pub ability_name : MoveAbility → Text
  -- Whether `serde_json` parses a text.
  pub is_json : Text → Bool
  -- The standard engine of `base64`.
  pub bytes_to_base64 : Bytes → Text
  -- `chrono`, with the format that the environment names.
  pub chrono : Chrono

abbrev pub protos : Service → Protos
protos s = record {
  TransactionPayload = TransactionPayload;
  WriteSet = WriteSet;
  WriteSetChange = WriteSetChange;
  TxPayloadExtract = TxPayloadExtract;
  TxPayloadError = TxPayloadError;
  try_from_payload = Payload.try_from;
  from_write_set = from_write_set;
  IncompleteChangeRecord = IncompleteChangeRecord;
  ChangeError = ChangeError;
  try_from_change = Changes.try_from s.types;
  get_type = get_type;
}
