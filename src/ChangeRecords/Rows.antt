-- ===== src/ChangeRecords/Rows.antt =====
-- The rows of the tables of changes, resources, modules and table items, and how one is made of what
-- has been extracted: processing/tables/changes.rs.
use mathlib.Core.Option
use aptos_etl.Prelude.{
  ℕ, Bool, true, false, Option, none, some, List, [], ◌∷◌, length, Result, ok, err, ◌>>=◌, map_err,
  try_map,
}
use aptos_etl.Prelude.Int.{ℤ}
use aptos_etl.Prelude.Text.{Text, codes}
use aptos_etl.Address.{AddressError}
use aptos_etl.Address as Address
use aptos_etl.Timestamp.{TimestampError, UnixTimestamp}
use aptos_etl.Types.{StructTagError}
use aptos_etl.Types.Tags.{StructTag, StructTagOut, tag_out}
use aptos_etl.Signatures.Input.{Bytes}
use aptos_etl.Modules.Messages.{MoveModule, MoveModuleBytecode}
use aptos_etl.Modules.{ModuleError, ModuleExtraction}
use aptos_etl.Modules as Modules
use aptos_etl.Modules.Ids.{Friend, MoveModuleIdError, encode_friend}
use aptos_etl.Modules.Functions.{ExposedFunction, FunctionError, try_into}
use aptos_etl.Modules.Structs.{Struct, MvStructError}
use aptos_etl.Modules.Structs as Structs
use aptos_etl.Changes.{
  IncompleteResourceRecord, IncompleteTableItemRecord, IncompleteModuleRecord, TableKey, TableValue,
}
use aptos_etl.Transaction.Messages as Messages
use aptos_etl.Transaction.Data.{TxDataExtractError}
use aptos_etl.Events.{JsonStringError}
use aptos_etl.Service.{Service, protos}

-- The enumeration of proto_src/changes.proto, and its names.
pub data ChangeType : Type 0 where
  delete_module delete_resource delete_table_item write_module write_resource write_table_item :
      ChangeType

abbrev pub change_type_name : ChangeType → Text
change_type_name delete_module = codes "delete_module"
change_type_name delete_resource = codes "delete_resource"
change_type_name delete_table_item = codes "delete_table_item"
change_type_name write_module = codes "write_module"
change_type_name write_resource = codes "write_resource"
change_type_name write_table_item = codes "write_table_item"

pub data ChangeError (s : Service) : Type 0 where
  unspecified_type missing_module_id missing_module_abi : ChangeError s
  timestamp : TimestampError → ChangeError s
  tx_data : TxDataExtractError (protos s) → ChangeError s
  unmapped_type : Messages.ChangeType → ChangeError s
  address_error : AddressError → ChangeError s
  invalid_change_type_for_record : ChangeType → ChangeError s
  struct_tag_error : StructTagError → ChangeError s
  module_extraction_error : ModuleError → ChangeError s
  module_id_error : MoveModuleIdError → ChangeError s
  exposed_function : FunctionError → ChangeError s
  struct_error : MvStructError → ChangeError s
  invalid_json_obj_str : JsonStringError → ChangeError s

-- The fields that the rows of a change's tables share.
pub record Place : Type 0 where
  pub block_height : ℤ
  pub block_timestamp : Text
  pub tx_version : ℕ
  pub tx_hash : Text
  pub change_index : ℕ
  pub block_unixtimestamp : UnixTimestamp

-- The messages of proto_src/changes.proto, resources.proto, table_items.proto and modules.proto.
pub record Change : Type 0 where
  pub place : Place
  pub tx_sequence_number : Option ℕ
  pub tx_sequence_number_big : Option Text
  pub change_type : Text
  pub address : Option Text
  pub state_key_hash : Text

pub record Resource : Type 0 where
  pub place : Place
  pub tx_sequence_number : Option ℕ
  pub tx_sequence_number_big : Option Text
  pub address : Text
  pub state_key_hash : Text
  pub change_type : Text
  pub struct_tag : Option StructTagOut
  pub type_str : Text
  pub contents : Option Text

pub record TableItem : Type 0 where
  pub place : Place
  pub tx_sequence_number : Option ℕ
  pub tx_sequence_number_big : Option Text
  pub change_type : Text
  pub address : Text
  pub state_key_hash : Text
  pub key : TableKey
  pub value : Option TableValue

pub record Module : Type 0 where
  pub place : Place
  pub bytecode : Option Text
  pub address : Text
  pub name : Option Text
  pub friends : List Friend
  pub exposed_functions : List ExposedFunction
  pub structs : List Struct

pub record ChangeRecords : Type 0 where
  pub changes : List Change
  pub resources : List Resource
  pub modules : List Module
  pub tableitems : List TableItem

abbrev pub new : ChangeRecords
new = record { changes = []; resources = []; modules = []; tableitems = [] }

abbrev pub len : ChangeRecords → ℕ
len r = length r.changes

abbrev pub is_empty : ChangeRecords → Bool
is_empty r = elim r.changes [ [] ↦ true | c ∷ cs ↦ false ]

module _ (s : Service) where
  unfoldable pub convert_change_type : Messages.ChangeType → Result (ChangeError s) ChangeType
  convert_change_type Messages.write_table_item = ok write_table_item
  convert_change_type Messages.delete_table_item = ok delete_table_item
  convert_change_type Messages.write_module = ok write_module
  convert_change_type Messages.delete_module = ok delete_module
  convert_change_type Messages.write_resource = ok write_resource
  convert_change_type Messages.delete_resource = ok delete_resource
  convert_change_type Messages.unspecified = err unspecified_type

  -- `ResourceChangeType` and `TableChangeType`, by their names.
  abbrev pub resource_change_type : ChangeType → Result (ChangeError s) Text
  resource_change_type write_resource = ok (codes "write_resource")
  resource_change_type delete_resource = ok (codes "delete_resource")
  resource_change_type other = err (invalid_change_type_for_record other)

  abbrev pub table_change_type : ChangeType → Result (ChangeError s) Text
  table_change_type write_table_item = ok (codes "write_table_item")
  table_change_type delete_table_item = ok (codes "delete_table_item")
  table_change_type other = err (invalid_change_type_for_record other)

  -- The friends, the functions and the structs of a module.
  abbrev pub Shown : Type 0
  Shown = List Friend × List ExposedFunction × List Struct

  unfoldable pub show_abi : MoveModule → Result (ChangeError s) Shown
  show_abi abi = do
    module_extraction ← map_err module_extraction_error (Modules.try_from s.types abi)
    friends ← map_err module_id_error (try_map encode_friend module_extraction.friends)
    exposed ←
        map_err exposed_function (try_map (try_into s.types) module_extraction.exposed_functions)
    structs ←
        map_err struct_error
          (try_map (Structs.try_encode s.types s.ability_name) module_extraction.structs)
    ok (friends, exposed, structs)

  abbrev pub show_option : Option MoveModule → Result (ChangeError s) Shown
  show_option (some abi) = show_abi abi
  show_option none = ok ([], [], [])

  abbrev pub show_bytecode :
      Option MoveModuleBytecode → Result (ChangeError s) (Option Bytes × Shown)
  show_bytecode (some d) = show_option d.abi >>= λ shown. ok (some d.bytecode, shown)
  show_bytecode none = ok (none, ([], [], []))

  unfoldable pub module_row : Place → IncompleteModuleRecord → Result (ChangeError s) Module
  module_row place r = do
    (bytecode, (friends, exposed, structs)) ← show_bytecode r.module_data
    printed ← map_err address_error (Address.try_encode r.address)
    ok (record {
      place = place;
      bytecode = Option.map s.bytes_to_base64 bytecode;
      address = printed;
      name = Option.map (λ m. m.name) r.module_id;
      friends = friends;
      exposed_functions = exposed;
      structs = structs;
    })

  abbrev pub tag_row : Option StructTag → Result (ChangeError s) (Option StructTagOut)
  tag_row none = ok none
  tag_row (some t) = map_err struct_tag_error (tag_out s.types t) >>= λ o. ok (some o)

  -- The sequence number of the transaction is given in its two forms.
  module _ (small : Option ℕ) (big : Option Text) where
    unfoldable pub resource_row :
        Place → ChangeType → Text → IncompleteResourceRecord → Result (ChangeError s) Resource
    resource_row place chtype key_hash r = do
      printed ← map_err address_error (Address.try_encode r.address)
      change_type ← resource_change_type chtype
      tag ← tag_row r.struct_tag
      ok (record {
        place = place;
        tx_sequence_number = small;
        tx_sequence_number_big = big;
        address = printed;
        state_key_hash = key_hash;
        change_type = change_type;
        struct_tag = tag;
        type_str = r.type_str;
        contents = r.contents;
      })

    unfoldable pub table_item_row :
        Place → ChangeType → Text → IncompleteTableItemRecord → Result (ChangeError s) TableItem
    table_item_row place chtype key_hash r = do
      printed ← map_err address_error (Address.try_encode r.handle)
      change_type ← table_change_type chtype
      ok (record {
        place = place;
        tx_sequence_number = small;
        tx_sequence_number_big = big;
        change_type = change_type;
        address = printed;
        state_key_hash = key_hash;
        key = r.key;
        value = r.value;
      })
