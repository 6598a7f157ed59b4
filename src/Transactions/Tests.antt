-- ===== src/Transactions/Tests.antt =====
-- The row of a transaction, read as a successful and as a failed one.
use aptos_etl.Prelude.{◌≡◌, refl, none, some, [], ok, map_ok, Follows}
use aptos_etl.Prelude.Int.{pos, negsuc}
use aptos_etl.Prelude.Text.{codes}
use aptos_etl.Timestamp.{bigquerry_max_timestamp_string}
use aptos_etl.Payload.Messages.{TxPayloadType, multisig_payload}
use aptos_etl.Transaction.Messages.{TxnData}
use aptos_etl.Transaction.{TransactionExtraction}
use aptos_etl.Service.{protos}
use aptos_etl.Service.Toy.{service, tx}
use aptos_etl.Transactions.Successful.{get_successful_transaction}
use aptos_etl.Transactions.Failed.{get_failed_transaction}
use aptos_etl.Transactions.Agree.{SameRow, get_failed_transaction-Follows}

-- A user's transaction with a payload, and an expiration before the earliest date.
abbrev early_tx : TransactionExtraction (protos service)
early_tx = record tx {
  tx_data = TxnData.user (record {
    request = some (record {
      sender = codes "0x1";
      sequence_number = 4;
      max_gas_amount = 100;
      gas_unit_price = 2;
      expiration_timestamp_secs = some (record { seconds = negsuc 2208988800; nanos = pos 0 });
      payload = some (record {
        type_of = TxPayloadType.multisig_payload;
        payload = some (multisig_payload (codes "0x7"));
      });
      signature = none;
    });
    events = [];
  });
}

-- It is read as a successful one with the expiration blank, and as a failed one with the greatest
-- timestamp.
expirations :
    (map_ok (λ row. row.expiration_timestamp) (get_successful_transaction service early_tx (some 2))
      ≡ ok none)
    × (map_ok (λ row. row.expiration_timestamp) (get_failed_transaction service early_tx (some 2))
        ≡ ok (some bigquerry_max_timestamp_string))
unfolding get_successful_transaction get_failed_transaction aptos_etl.Transaction.Data.payload
    aptos_etl.Transaction.Data.user_request aptos_etl.Payload.try_from aptos_etl.Payload.try_encode
    aptos_etl.Payload.Parts.encode_functionid aptos_etl.Payload.type_arguments
    aptos_etl.Payload.arguments aptos_etl.Payload.code aptos_etl.Payload.execute_as
    aptos_etl.Payload.Parts.encode_payload_type aptos_etl.Transaction.Data.sequence_number
    aptos_etl.Transaction.get_encoded_timestamp aptos_etl.Timestamp.try_encode
    aptos_etl.Transaction.get_txtype aptos_etl.Transaction.convert_txtype
    aptos_etl.Transaction.Data.max_gas_amount aptos_etl.Transaction.Data.sender
    aptos_etl.Address.fix_attempts aptos_etl.Address.strip_prefix aptos_etl.Address.try_encode
    aptos_etl.Address.try_fix_string aptos_etl.Address.validate_string aptos_etl.HashValue.encode
    aptos_etl.Payload.Parts.extract_writesetpayload
    aptos_etl.Payload.Parts.extract_writesetpayload_scriptpayload
    aptos_etl.Payload.entry_function_id_str aptos_etl.Payload.multisig_address
    aptos_etl.Timestamp.encode aptos_etl.Timestamp.load_timestamp_format
    aptos_etl.Timestamp.try_from aptos_etl.Timestamp.try_into_date_time
    aptos_etl.Transaction.Data.events aptos_etl.Transaction.Data.expiration_timestamp_secs
    aptos_etl.Transaction.Data.gas_unit_price aptos_etl.Transaction.Info.calculate_changes_aggregate
    aptos_etl.Transaction.get_encoded_hash aptos_etl.Transaction.get_unix_timestamp
expirations = (refl, refl)

get_failed_transaction-Follows_example :
    Follows
      (SameRow (some 2))
      (get_successful_transaction service early_tx (some 2))
      (get_failed_transaction service early_tx (some 2))
get_failed_transaction-Follows_example = get_failed_transaction-Follows service early_tx (some 2)
