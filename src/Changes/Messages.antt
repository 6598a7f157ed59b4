-- ===== src/Changes/Messages.antt =====
-- The service's messages of the changes that a transaction makes.
use aptos_etl.Prelude.{Option}
use aptos_etl.Prelude.Text.{Text}
use aptos_etl.Signatures.Input.{Bytes}
use aptos_etl.Types.Tags.{MoveStructTag}
use aptos_etl.Modules.Messages.{MoveModuleId, MoveModuleBytecode}
use aptos_etl.Transaction.Messages.{ChangeType}

pub record DeleteModule : Type 0 where
  pub address : Text
  pub state_key_hash : Bytes
  pub module_id : Option MoveModuleId

pub record WriteModule : Type 0 where
  pub address : Text
  pub state_key_hash : Bytes
  pub bytecode : Option MoveModuleBytecode

pub record DeleteResource : Type 0 where
  pub address : Text
  pub state_key_hash : Bytes
  pub type_of : Option MoveStructTag
  pub type_str : Text

pub record WriteResource : Type 0 where
  pub address : Text
  pub state_key_hash : Bytes
  pub type_of : Option MoveStructTag
  pub type_str : Text
  pub contents : Text

pub record DeleteTableData : Type 0 where
  pub key : Text
  pub key_type : Text

pub record DeleteTableItem : Type 0 where
  pub state_key_hash : Bytes
  pub handle : Text
  pub table_data : Option DeleteTableData

pub record WriteTableData : Type 0 where
  pub key : Text
  pub key_type : Text
  pub value : Text
  pub value_type : Text

pub record WriteTableItem : Type 0 where
  pub state_key_hash : Bytes
  pub handle : Text
  pub table_data : Option WriteTableData

-- `write_set_change::Change`
pub data ChangeData : Type 0 where
  delete_module : DeleteModule → ChangeData
  delete_resource : DeleteResource → ChangeData
  delete_table_item : DeleteTableItem → ChangeData
  write_module : WriteModule → ChangeData
  write_resource : WriteResource → ChangeData
  write_table_item : WriteTableItem → ChangeData

pub record WriteSetChange : Type 0 where
  pub type_of : ChangeType
  pub change : Option ChangeData
