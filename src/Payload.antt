-- ===== src/Payload.antt =====
-- The payload of a transaction: processing/reps/payload.rs.
pub mod Messages
pub mod Parts
pub mod Fields
mod Tests
unfoldable pub use Parts.*
use mathlib.Core.Option
use aptos_etl.Prelude.{
  Bool, true, false, Option, none, some, List, [], ◌++◌, Result, ok, err, panic, ◌>>=◌, map_err,
  map_ok, try_map, if◌then◌else◌,
}
use aptos_etl.Prelude.Text.{Text, codes}
use aptos_etl.Signatures.Input.{Bytes}
use aptos_etl.Types.{MoveType, MoveTypeError, Enumeration}
use aptos_etl.Types.Tags.{convert, encode}
use aptos_etl.Modules.Messages.{MoveModuleId, MoveFunction}
use aptos_etl.Modules.Ids.{MoveModuleIdError, from}
use aptos_etl.Modules.Ids as Ids
use aptos_etl.Modules.Functions.{Function, FunctionError, ExposedFunction}
use aptos_etl.Modules.Functions as Functions
use Messages.{
  TxPayloadType, TxPayloadData, TransactionPayload, EntryFunctionPayload, EntryFunctionId,
  ScriptPayload, MoveScriptBytecode, WriteSet, ScriptWriteSet, entry_function_payload,
  script_payload, write_set_payload, multisig_payload, encrypted_transaction_payload,
  script_write_set, direct_write_set,
}

-- The part of a script payload that `type_arguments` and `arguments` look at: that of the entry
-- function or of the script, or of the script of a write set, if there is one.
abbrev pub of_payload {ℓ} :
    {A : Type ℓ}
    → (EntryFunctionPayload → A)
    → (ScriptPayload → A)
    → Option TxPayloadData
    → TxPayloadExtract
    → Result TxPayloadError (Option A)
of_payload entry scripted (some (entry_function_payload d)) x = ok (some (entry d))
of_payload entry scripted (some (script_payload d)) x = ok (some (scripted d))
of_payload entry scripted (some (write_set_payload w)) x =
    extract_writesetpayload_scriptpayload x >>= λ s. ok (some (scripted s))
of_payload entry scripted _ x =
    if is_genesis_scriptwriteset x
    then extract_writesetpayload_scriptpayload x >>= (λ s. ok (some (scripted s)))
    else ok none

module _ (E : Enumeration) where
  abbrev pub encode_arguments : Option (List MoveType) → Result TxPayloadError (Option (List Text))
  encode_arguments none = ok none
  encode_arguments (some args) = map_err move_type (try_map (convert E) args) >>= λ movetypes.
      map_err move_type (try_map (encode E) movetypes) >>= λ encoded_args. ok (some encoded_args)

  unfoldable pub type_arguments : TxPayloadExtract → Result TxPayloadError (Option (List Text))
  type_arguments x =
      of_payload (λ d. d.type_arguments) (λ d. d.type_arguments) x.payload_data x
      >>= encode_arguments

unfoldable pub arguments : TxPayloadExtract → Result TxPayloadError (Option (List Text))
arguments x = of_payload (λ d. d.arguments) (λ d. d.arguments) x.payload_data x

abbrev pub entry_id_of : Option TxPayloadData → Option Text
entry_id_of (some (entry_function_payload d)) = some d.entry_function_id_str
entry_id_of _ = none

unfoldable pub entry_function_id_str : TxPayloadExtract → Option Text
entry_function_id_str x = entry_id_of x.payload_data

abbrev pub multisig_of : Option TxPayloadData → Option Text
multisig_of (some (multisig_payload multisig_address)) = some multisig_address
multisig_of _ = none

unfoldable pub multisig_address : TxPayloadExtract → Option Text
multisig_address x = multisig_of x.payload_data

abbrev pub execute_of : WriteSet → Option Text
execute_of (script_write_set sws) = some sws.execute_as
execute_of direct_write_set = none

abbrev pub execute_as_of :
    Option TxPayloadData
    → Option WriteSet
    → Result TxPayloadError WriteSet
    → Result TxPayloadError (Option Text)
execute_as_of (some (write_set_payload w)) genesis found = found >>= λ write_set. elim write_set [
  | script_write_set sws ↦ ok (some sws.execute_as)
  | direct_write_set ↦ err missing_writeset_data
]
execute_as_of none (some write_set) found = ok (execute_of write_set)
execute_as_of none none found = ok none
execute_as_of _ genesis found = ok none

unfoldable pub execute_as : TxPayloadExtract → Result TxPayloadError (Option Text)
execute_as x = execute_as_of x.payload_data x.genesis_payload (extract_writesetpayload x)

-- The code of a script is required.
abbrev pub required_code :
    Option MoveScriptBytecode → Result TxPayloadError (Option MoveScriptBytecode)
required_code (some c) = ok (some c)
required_code none = err script_payload_missing_code

abbrev pub script_code : ScriptPayload → Result TxPayloadError (Option MoveScriptBytecode)
script_code s = required_code s.code

abbrev pub bytecode_of :
    Option TxPayloadData → TxPayloadExtract → Result TxPayloadError (Option MoveScriptBytecode)
bytecode_of (some (script_payload d)) x = script_code d
bytecode_of (some (write_set_payload w)) x = extract_writesetpayload_scriptpayload x >>= script_code
bytecode_of _ x =
    if is_genesis_scriptwriteset x
    then extract_writesetpayload_scriptpayload x >>= script_code
    else ok none

-- The encoder of the `base64` crate is a parameter.
module _ (E : Enumeration) (bytes_to_base64 : Bytes → Text) where
  abbrev pub encode_abi : Option MoveFunction → Result TxPayloadError (Option ExposedFunction)
  encode_abi none = ok none
  encode_abi (some fxn) =
      map_err failed_building_move_script_abi (Functions.try_from E fxn >>= Functions.try_into E)
      >>= λ abi. ok (some abi)

  abbrev pub encode_code : Option MoveScriptBytecode → Result TxPayloadError (Option Code)
  encode_code none = ok none
  encode_code (some mmbytecode) = encode_abi mmbytecode.abi >>= λ abi.
      ok (some (record { bytecode = bytes_to_base64 mmbytecode.bytecode; abi = abi }))

  unfoldable pub code : TxPayloadExtract → Result TxPayloadError (Option Code)
  code x = bytecode_of x.payload_data x >>= encode_code

  abbrev pub or_empty : Option (List Text) → List Text
  or_empty none = []
  or_empty (some l) = l

  unfoldable pub try_encode : TxPayloadExtract → Result TxPayloadError Payload
  try_encode x = do
    function ← encode_functionid x
    type_args ← type_arguments E x
    args ← arguments x
    script_code ← code x
    execute ← execute_as x
    ok (record {
      function = function;
      type_arguments = or_empty type_args;
      arguments = or_empty args;
      entry_function_id_str = entry_function_id_str x;
      code = script_code;
      multisig_address = multisig_address x;
      execute_as = execute;
    })

abbrev pub from_write_set : WriteSet → TxPayloadExtract
from_write_set w = record { payload_type = none; payload_data = none; genesis_payload = some w }

-- The type has to be that of the payload.
abbrev pub of_type : TxPayloadType → TxPayloadData → Bool
of_type TxPayloadType.entry_function_payload (entry_function_payload d) = true
of_type TxPayloadType.multisig_payload (multisig_payload d) = true
of_type TxPayloadType.script_payload (script_payload d) = true
of_type TxPayloadType.write_set_payload (write_set_payload d) = true
of_type TxPayloadType.encrypted_transaction_payload encrypted_transaction_payload = true
of_type _ _ = false

abbrev pub typed : TxPayloadType → Option TxPayloadData → Result TxPayloadError TxPayloadExtract
typed TxPayloadType.unspecified payload = err unspecified_payload_type
typed txtype none = err (missing_payload_data txtype)
typed txtype (some txdata) = elim (of_type txtype txdata) [
  | true ↦
      ok (record { payload_type = some txtype; payload_data = some txdata; genesis_payload = none })
  | false ↦ err (mismatch_payload_data txtype)
]

unfoldable pub try_from : TransactionPayload → Result TxPayloadError TxPayloadExtract
try_from value = typed value.type_of value.payload
