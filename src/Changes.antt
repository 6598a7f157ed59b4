-- ===== src/Changes.antt =====
-- What is taken out of a change: processing/reps/changes.rs.
pub mod Messages
pub mod Quotes
mod Tests
use mathlib.Core.Option
use aptos_etl.Prelude.{
  ℕ, Bool, true, false, Option, none, some, List, [], ◌∷◌, Result, ok, err, panic, ◌>>=◌, map_err,
  map_ok, ◌==◌, if◌then◌else◌,
}
use aptos_etl.Prelude.Text.{Text, strip_prefix?}
use aptos_etl.Address.{Address, string}
use aptos_etl.HashValue.{HashValue}
use aptos_etl.Signatures.Input.{Bytes}
use aptos_etl.Types.{StructTagError, Enumeration}
use aptos_etl.Types.Tags.{MoveStructTag, StructTag, tag_try_from}
use aptos_etl.Modules.Messages.{MoveModuleBytecode, MoveModule}
use aptos_etl.Modules.Ids.{ModuleId, from}
use aptos_etl.Modules.Ids as Ids
use aptos_etl.Transaction.Messages.{ChangeType}
use Messages.{
  DeleteModule, WriteModule, DeleteResource, WriteResource, DeleteTableItem, WriteTableItem,
  ChangeData, WriteSetChange, delete_module, delete_resource, delete_table_item, write_module,
  write_resource, write_table_item,
}

pub data ChangeError : Type 0 where
  missing_change_data missing_module_bytecode_data missing_module_id missing_table_data
        mismatch_change_data :
      ChangeError
  struct_tag_error : StructTagError → ChangeError

pub record IncompleteResourceRecord : Type 0 where
  pub change_type : ChangeType
  pub address : Address
  pub state_key_hash : HashValue
  pub struct_tag : Option StructTag
  pub type_str : Text
  pub contents : Option Text

-- The messages `Key` and `Value` of proto_src/table_items.proto.
pub record TableKey : Type 0 where
  pub name : Text
  pub type_of : Text

pub record TableValue : Type 0 where
  pub content : Text
  pub type_of : Text

pub record IncompleteTableItemRecord : Type 0 where
  pub change_type : ChangeType
  pub state_key_hash : HashValue
  pub handle : Address
  pub key : TableKey
  pub value : Option TableValue

pub record IncompleteModuleRecord : Type 0 where
  pub change_type : ChangeType
  pub address : Address
  pub state_key_hash : HashValue
  pub module_id : Option ModuleId
  pub module_data : Option MoveModuleBytecode

pub data IncompleteChangeRecord : Type 0 where
  resource : IncompleteResourceRecord → IncompleteChangeRecord
  table_item : IncompleteTableItemRecord → IncompleteChangeRecord
  module_record : IncompleteModuleRecord → IncompleteChangeRecord

abbrev pub get_type : IncompleteChangeRecord → ChangeType
get_type (module_record r) = r.change_type
get_type (table_item r) = r.change_type
get_type (resource r) = r.change_type

abbrev pub address : IncompleteChangeRecord → Option Address
address (module_record r) = some r.address
address (resource r) = some r.address
address (table_item r) = some r.handle

abbrev pub state_key_hash : IncompleteChangeRecord → Option HashValue
state_key_hash (module_record r) = some r.state_key_hash
state_key_hash (resource r) = some r.state_key_hash
state_key_hash (table_item r) = some r.state_key_hash

abbrev pub is_writeresource : IncompleteResourceRecord → Bool
is_writeresource r = elim r.change_type [ ChangeType.write_resource ↦ true | _ ↦ false ]

abbrev pub is_deleteresource : IncompleteResourceRecord → Bool
is_deleteresource r = elim r.change_type [ ChangeType.delete_resource ↦ true | _ ↦ false ]

abbrev pub is_writetableitem : IncompleteTableItemRecord → Bool
is_writetableitem r = elim r.change_type [ ChangeType.write_table_item ↦ true | _ ↦ false ]

abbrev pub is_deletetableitem : IncompleteTableItemRecord → Bool
is_deletetableitem r = elim r.change_type [ ChangeType.delete_table_item ↦ true | _ ↦ false ]

abbrev pub is_writemodule : IncompleteModuleRecord → Bool
is_writemodule r = elim r.change_type [ ChangeType.write_module ↦ true | _ ↦ false ]

abbrev pub is_deletemodule : IncompleteModuleRecord → Bool
is_deletemodule r = elim r.change_type [ ChangeType.delete_module ↦ true | _ ↦ false ]

abbrev pub quote : ℕ
quote = 34

-- `str::strip_suffix` at one character
abbrev pub strip_suffix? : ℕ → Text → Option Text
strip_suffix? q [] = none
strip_suffix? q (c ∷ []) = if c == q then some [] else none
strip_suffix? q (c ∷ d ∷ s) = Option.map (λ r. c ∷ r) (strip_suffix? q (d ∷ s))

abbrev pub unwrap_or_text : Option Text → Text → Text
unwrap_or_text none s = s
unwrap_or_text (some r) s = r

unfoldable pub strip_quotes : Text → Text
strip_quotes s =
    let string_noprefix = unwrap_or_text (strip_prefix? (quote ∷ []) s) s in
    unwrap_or_text (strip_suffix? quote string_noprefix) s

abbrev pub hash_of : Bytes → HashValue
hash_of bytes = record { bytes = bytes }

module _ (E : Enumeration) where
  abbrev pub tag_of : Option MoveStructTag → Result ChangeError (Option StructTag)
  tag_of none = ok none
  tag_of (some tag) = map_err struct_tag_error (tag_try_from E tag) >>= λ t. ok (some t)

  unfoldable pub from_delete_resource : DeleteResource → Result ChangeError IncompleteResourceRecord
  from_delete_resource value = tag_of value.type_of >>= λ tag. ok (record {
    change_type = ChangeType.delete_resource;
    address = string value.address;
    state_key_hash = hash_of value.state_key_hash;
    struct_tag = tag;
    type_str = value.type_str;
    contents = none;
  })

  unfoldable pub from_write_resource : WriteResource → Result ChangeError IncompleteResourceRecord
  from_write_resource value = tag_of value.type_of >>= λ tag. ok (record {
    change_type = ChangeType.write_resource;
    address = string value.address;
    state_key_hash = hash_of value.state_key_hash;
    struct_tag = tag;
    type_str = value.type_str;
    contents = some value.contents;
  })

unfoldable pub from_write_table_item : WriteTableItem → Result ChangeError IncompleteTableItemRecord
from_write_table_item value = elim value.table_data [
  | some tabledata ↦ ok (record {
    change_type = ChangeType.write_table_item;
    state_key_hash = hash_of value.state_key_hash;
    handle = string value.handle;
    key = record { name = strip_quotes tabledata.key; type_of = tabledata.key_type };
    value =
        some (record { content = strip_quotes tabledata.value; type_of = tabledata.value_type });
  })
  | none ↦ err missing_table_data
]

unfoldable pub from_delete_table_item :
    DeleteTableItem → Result ChangeError IncompleteTableItemRecord
from_delete_table_item value = elim value.table_data [
  | some tabledata ↦ ok (record {
    change_type = ChangeType.delete_table_item;
    state_key_hash = hash_of value.state_key_hash;
    handle = string value.handle;
    key = record { name = strip_quotes tabledata.key; type_of = tabledata.key_type };
    value = none;
  })
  | none ↦ err missing_table_data
]

abbrev pub id_of_abi : MoveModule → ModuleId
id_of_abi abi = Ids.new (string abi.address) abi.name

unfoldable pub from_write_module : WriteModule → Result ChangeError IncompleteModuleRecord
from_write_module value = elim value.bytecode [
  | some bytecodedata ↦ ok (record {
    change_type = ChangeType.write_module;
    address = string value.address;
    state_key_hash = hash_of value.state_key_hash;
    module_id = Option.map id_of_abi bytecodedata.abi;
    module_data = some bytecodedata;
  })
  | none ↦ err missing_module_bytecode_data
]

unfoldable pub from_delete_module : DeleteModule → Result ChangeError IncompleteModuleRecord
from_delete_module value = ok (record {
  change_type = ChangeType.delete_module;
  address = string value.address;
  state_key_hash = hash_of value.state_key_hash;
  module_id = Option.map from value.module_id;
  module_data = none;
})

module _ (E : Enumeration) where
  abbrev pub of_data : ChangeType → Option ChangeData → Result ChangeError IncompleteChangeRecord
  of_data ChangeType.delete_module (some (delete_module d)) =
      map_ok module_record (from_delete_module d)
  of_data ChangeType.write_module (some (write_module d)) =
      map_ok module_record (from_write_module d)
  of_data ChangeType.delete_resource (some (delete_resource d)) =
      map_ok resource (from_delete_resource E d)
  of_data ChangeType.write_resource (some (write_resource d)) =
      map_ok resource (from_write_resource E d)
  of_data ChangeType.write_table_item (some (write_table_item d)) =
      map_ok table_item (from_write_table_item d)
  of_data ChangeType.delete_table_item (some (delete_table_item d)) =
      map_ok table_item (from_delete_table_item d)
  of_data _ (some d) = err mismatch_change_data
  of_data _ none = err missing_change_data

  unfoldable pub try_from : WriteSetChange → Result ChangeError IncompleteChangeRecord
  try_from value = of_data value.type_of value.change
