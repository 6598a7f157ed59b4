-- ===== src/Payload/Parts.antt =====
-- What is extracted of a payload, with its function, its type and its script: the first half of
-- processing/reps/payload.rs.
use aptos_etl.Prelude.{
  Bool, true, false, Option, none, some, List, ◌++◌, Result, ok, err, ◌>>=◌, map_err, map_ok,
}
use aptos_etl.Prelude.Text.{Text, codes}
use aptos_etl.Types.{MoveTypeError}
use aptos_etl.Modules.Messages.{MoveModuleId}
use aptos_etl.Modules.Ids.{MoveModuleIdError, from}
use aptos_etl.Modules.Ids as Ids
use aptos_etl.Modules.Functions.{FunctionError, ExposedFunction}
use aptos_etl.Payload.Messages.{
  TxPayloadType, TxPayloadData, EntryFunctionId, ScriptPayload, WriteSet, entry_function_payload,
  write_set_payload, script_write_set, direct_write_set,
}

pub data TxPayloadError : Type 0 where
  unspecified_payload_type deprecated_module_bundle_payload function_missing_module_id
        entry_fn_missing_fn_id script_payload_missing_code move_script_missing_abi
        empty_writeset_payload no_script_payload_in_write_set_payload unspecified_writeset_type
        mismatch_writeset not_write_set missing_writeset_data missing_payload_type :
      TxPayloadError
  mismatch_payload_data missing_payload_data : TxPayloadType → TxPayloadError
  module_id : MoveModuleIdError → TxPayloadError
  move_type : MoveTypeError → TxPayloadError
  failed_building_move_script_abi : FunctionError → TxPayloadError

-- The enumeration of proto_src/transactions.proto, and its names.
pub data PayloadType : Type 0 where
  entry_function script module_bundle multisig writeset genesis_writeset encrypted_transaction :
      PayloadType

abbrev pub payload_type_name : PayloadType → Text
payload_type_name entry_function = codes "entry_function"
payload_type_name script = codes "script"
payload_type_name module_bundle = codes "module_bundle"
payload_type_name multisig = codes "multisig"
payload_type_name writeset = codes "writeset"
payload_type_name genesis_writeset = codes "genesis_writeset"
payload_type_name encrypted_transaction = codes "encrypted_transaction"

pub record TxPayloadExtract : Type 0 where
  pub payload_type : Option TxPayloadType
  pub payload_data : Option TxPayloadData
  pub genesis_payload : Option WriteSet

pub record Code : Type 0 where
  pub bytecode : Text
  pub abi : Option ExposedFunction

pub record Payload : Type 0 where
  pub function : Option Text
  pub type_arguments : List Text
  pub arguments : List Text
  pub entry_function_id_str : Option Text
  pub code : Option Code
  pub multisig_address : Option Text
  pub execute_as : Option Text

abbrev pub in_module : Text → Option MoveModuleId → Result TxPayloadError (Option Text)
in_module name (some mid) = map_err module_id (Ids.try_encode (from mid)) >>= λ moveid.
    ok (some (moveid ++ (codes "::" ++ name)))
in_module name none = err function_missing_module_id

abbrev pub print_function_id : Option EntryFunctionId → Result TxPayloadError (Option Text)
print_function_id (some fnid) = in_module fnid.name fnid.module_id
print_function_id none = err function_missing_module_id

abbrev pub functionid_of : Option TxPayloadData → Result TxPayloadError (Option Text)
functionid_of (some (entry_function_payload d)) = print_function_id d.function
functionid_of _ = ok none

unfoldable pub encode_functionid : TxPayloadExtract → Result TxPayloadError (Option Text)
encode_functionid x = functionid_of x.payload_data

abbrev pub present : Option WriteSet → Bool
present (some w) = true
present none = false

abbrev pub is_genesis : TxPayloadExtract → Bool
is_genesis x = present x.genesis_payload

abbrev pub is_script : Option WriteSet → Bool
is_script (some (script_write_set w)) = true
is_script (some direct_write_set) = false
is_script none = false

abbrev pub is_genesis_scriptwriteset : TxPayloadExtract → Bool
is_genesis_scriptwriteset x = is_script x.genesis_payload

abbrev pub payload_type_of : Option TxPayloadType → Bool → Result TxPayloadError PayloadType
payload_type_of (some TxPayloadType.entry_function_payload) genesis = ok entry_function
payload_type_of (some TxPayloadType.multisig_payload) genesis = ok multisig
payload_type_of (some TxPayloadType.script_payload) genesis = ok script
payload_type_of (some TxPayloadType.write_set_payload) genesis = ok writeset
payload_type_of (some TxPayloadType.encrypted_transaction_payload) genesis =
    ok encrypted_transaction
payload_type_of (some TxPayloadType.unspecified) genesis = err unspecified_payload_type
payload_type_of none true = ok genesis_writeset
payload_type_of none false = err missing_payload_type

unfoldable pub encode_payload_type : TxPayloadExtract → Result TxPayloadError Text
encode_payload_type x = map_ok payload_type_name (payload_type_of x.payload_type (is_genesis x))

abbrev pub write_set_of : Option TxPayloadData → Option WriteSet → Result TxPayloadError WriteSet
write_set_of (some (write_set_payload (some (some write_set)))) genesis = ok write_set
write_set_of (some (write_set_payload (some none))) genesis = err missing_writeset_data
write_set_of (some (write_set_payload none)) genesis = err not_write_set
write_set_of none (some write_set) = ok write_set
write_set_of none none = err missing_writeset_data
write_set_of _ genesis = err not_write_set

unfoldable pub extract_writesetpayload : TxPayloadExtract → Result TxPayloadError WriteSet
extract_writesetpayload x = write_set_of x.payload_data x.genesis_payload

abbrev pub required_script : Option ScriptPayload → Result TxPayloadError ScriptPayload
required_script (some s) = ok s
required_script none = err script_payload_missing_code

abbrev pub script_of : WriteSet → Result TxPayloadError ScriptPayload
script_of (script_write_set sws) = required_script sws.script
script_of direct_write_set = err no_script_payload_in_write_set_payload

unfoldable pub extract_writesetpayload_scriptpayload :
    TxPayloadExtract → Result TxPayloadError ScriptPayload
extract_writesetpayload_scriptpayload x = extract_writesetpayload x >>= script_of
