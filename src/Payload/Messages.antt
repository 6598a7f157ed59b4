-- ===== src/Payload/Messages.antt =====
-- The service's messages of a transaction's payload.
use aptos_etl.Prelude.{Option, List}
use aptos_etl.Prelude.Text.{Text}
use aptos_etl.Signatures.Input.{Bytes}
use aptos_etl.Types.{MoveType}
use aptos_etl.Modules.Messages.{MoveFunction, MoveModuleId}

-- `transaction_payload::Type`
pub data TxPayloadType : Type 0 where
  unspecified entry_function_payload script_payload write_set_payload multisig_payload
        encrypted_transaction_payload :
      TxPayloadType

pub record EntryFunctionId : Type 0 where
  pub module_id : Option MoveModuleId
  pub name : Text

pub record EntryFunctionPayload : Type 0 where
  pub function : Option EntryFunctionId
  pub type_arguments : List MoveType
  pub arguments : List Text
  pub entry_function_id_str : Text

pub record MoveScriptBytecode : Type 0 where
  pub bytecode : Bytes
  pub abi : Option MoveFunction

pub record ScriptPayload : Type 0 where
  pub code : Option MoveScriptBytecode
  pub type_arguments : List MoveType
  pub arguments : List Text

pub record ScriptWriteSet : Type 0 where
  pub execute_as : Text
  pub script : Option ScriptPayload

-- `write_set::WriteSet`; what a direct write set holds is not read.
pub data WriteSet : Type 0 where
  script_write_set : ScriptWriteSet → WriteSet
  direct_write_set : WriteSet

-- `transaction_payload::Payload`. A write set is an option in an optional message.
pub data TxPayloadData : Type 0 where
  entry_function_payload : EntryFunctionPayload → TxPayloadData
  script_payload : ScriptPayload → TxPayloadData
  write_set_payload : Option (Option WriteSet) → TxPayloadData
  multisig_payload : Text → TxPayloadData
  encrypted_transaction_payload : TxPayloadData

pub record TransactionPayload : Type 0 where
  pub type_of : TxPayloadType
  pub payload : Option TxPayloadData
