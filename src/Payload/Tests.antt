-- ===== src/Payload/Tests.antt =====
-- The payload of a call, and one whose content is not of the announced type.
use aptos_etl.Prelude.{◌≡◌, refl, none, some, [], ◌∷◌, ◌++◌, ok, err, map_ok}
use aptos_etl.Prelude.Text.{codes, hex_encode}
use aptos_etl.Address as Address
use aptos_etl.Modules.Ids as Ids
use aptos_etl.Service.Toy.{numbers}
use aptos_etl.Payload.Messages.{
  TxPayloadType, TxPayloadData, TransactionPayload, write_set_payload, entry_function_payload,
  direct_write_set,
}
use aptos_etl.Payload.{
  TxPayloadExtract, mismatch_payload_data, try_encode, try_from, encode_functionid, type_arguments,
  arguments, code, execute_as,
}

-- A payload that calls `0x1::coin::transfer`.
abbrev called : TxPayloadData
called = entry_function_payload (record {
  function = some (record {
    module_id = some (record { address = codes "0x1"; name = codes "coin" });
    name = codes "transfer";
  });
  type_arguments = [];
  arguments = codes "5" ∷ [];
  entry_function_id_str = codes "0x1::coin::transfer";
})

abbrev call : TransactionPayload
call = record { type_of = TxPayloadType.entry_function_payload; payload = some called }

abbrev call_extract : TxPayloadExtract
call_extract = record {
  payload_type = some TxPayloadType.entry_function_payload;
  payload_data = some called;
  genesis_payload = none;
}

called_function :
    map_ok (λ p. p.function) (try_encode numbers hex_encode call_extract)
    ≡ ok (some (Address.format_address (codes "1") ++ codes "::coin" ++ codes "::transfer"))
unfolding try_encode encode_functionid type_arguments arguments code execute_as Ids.try_encode
    Address.try_encode Address.try_fix_string Address.fix_attempts Address.validate_string
    Address.strip_prefix
called_function = refl

mismatch :
    try_from (record {
      type_of = TxPayloadType.multisig_payload;
      payload = some (write_set_payload (some (some direct_write_set)));
    })
    ≡ err (mismatch_payload_data TxPayloadType.multisig_payload)
unfolding try_from
mismatch = refl
