-- ===== src/Transformer/Tests.antt =====
-- A range of two versions: the metadata of a block, and a user's transaction with three changes.
use aptos_etl.Prelude.{true, ◌≡◌, refl, inl, inr, none, some, List, [], ◌∷◌, map, ok, arith}
use aptos_etl.Prelude.Int.{pos}
use aptos_etl.Prelude.Text.{codes}
use aptos_etl.Address as Address
use aptos_etl.Timestamp as Timestamp
use aptos_etl.Options.{new_all}
use aptos_etl.Signatures.Input.{Signature, SignatureType, SignatureData}
use aptos_etl.Signatures.{from_ed25519}
use aptos_etl.Signatures.Roles.{from_signature}
use aptos_etl.Payload.Messages.{TxPayloadType, TransactionPayload, multisig_payload}
use aptos_etl.Payload.{TxPayloadExtract}
use aptos_etl.Payload as Payload
use aptos_etl.Payload.Fields.{no_fields}
use aptos_etl.Changes as Changes
use aptos_etl.ChangeRecords.Tests.{changes-Shows}
use aptos_etl.Transaction.Messages.{
  TxnData, UserTransaction, UserTransactionRequest, BlockMetadataTransaction,
}
use aptos_etl.Transaction.Data as Data
use aptos_etl.Transaction.Info as Info
use aptos_etl.Transaction.{TransactionType, TransactionExtraction, get_encoded_timestamp}
use aptos_etl.Transaction as Transaction
use aptos_etl.Service.{protos}
use aptos_etl.Service.Toy.{service, message, tx, resource_written, item_written, module_deleted}
use aptos_etl.Extract.{Server, count_request, extract_range}
use aptos_etl.Extract.Sent.{Sends}
use aptos_etl.Extract.Loop.{Pull, response}
use aptos_etl.Extract.Rows.{collected}
use aptos_etl.Transformer.{tables}
use aptos_etl.Transformer.Users.{ReadableUser}
use aptos_etl.Transformer.Quiet.{ReadableQuiet}
use aptos_etl.Transformer.Range.{extract_range-Readable}

abbrev signed : Signature
signed = record {
  type_of = SignatureType.ed25519;
  signature = some (SignatureData.ed25519 (record { public_key = 1 ∷ []; signature = 2 ∷ [] }));
}

abbrev payload : TransactionPayload
payload = record {
  type_of = TxPayloadType.multisig_payload;
  payload = some (multisig_payload (codes "0x7"));
}

abbrev payload_extract : TxPayloadExtract
payload_extract = record {
  payload_type = some TxPayloadType.multisig_payload;
  payload_data = some (multisig_payload (codes "0x7"));
  genesis_payload = none;
}

abbrev request : UserTransactionRequest (protos service)
request = record {
  sender = codes "0x1";
  sequence_number = 4;
  max_gas_amount = 100;
  gas_unit_price = 2;
  expiration_timestamp_secs = some (record { seconds = pos 90; nanos = pos 0 });
  payload = some payload;
  signature = some signed;
}

abbrev user : UserTransaction (protos service)
user = record { request = some request; events = [] }

abbrev user_message : Transaction.Transaction (protos service)
user_message = record (message (resource_written ∷ item_written ∷ module_deleted ∷ [])) {
  txn_data = some (TxnData.user user);
}

abbrev user_tx : TransactionExtraction (protos service)
user_tx = record tx { tx_data = TxnData.user user }

user_extracted : Transaction.try_from (protos service) user_message ≡ ok user_tx
unfolding Transaction.try_from Timestamp.try_from Info.try_from Changes.try_from
    Changes.from_write_resource Changes.from_write_table_item Changes.from_delete_module
    Changes.strip_quotes
user_extracted = refl

user_readable : ReadableUser service user_message
unfolding get_encoded_timestamp Timestamp.try_encode Timestamp.get_timestamp_format
    Timestamp.try_from from_signature Payload.try_from Payload.try_encode Payload.encode_functionid
    Payload.type_arguments Payload.arguments Payload.code Payload.execute_as
    Payload.entry_function_id_str Payload.multisig_address Address.strip_prefix from_ed25519
user_readable = record {
  tx = user_tx;
  user = user;
  request = request;
  sig = signed;
  subrecords = from_ed25519 (record { public_key = 1 ∷ []; signature = 2 ∷ [] }) ∷ [];
  message = payload;
  extract = payload_extract;
  shown = record no_fields { multisig_address = some (codes "0x7") };
  expires = record { seconds = pos 90; nanos = pos 0 };
  expires_at = record { seconds = pos 90; nanos = 0 };
  until = some Timestamp.timestamp_format_default;
  time = Timestamp.timestamp_format_default;
  extracted = user_extracted;
  of_user = refl;
  requested = refl;
  timed = refl;
  sent_by = (refl, omega arith);
  signed = refl;
  signed_as = refl;
  signers = (tt, tt);
  paid = refl;
  accepted = refl;
  shown_as = refl;
  expiring = refl;
  expiring_at = refl;
  expired = refl;
  events = tt;
  changes = changes-Shows;
}

abbrev metadata : BlockMetadataTransaction (protos service)
metadata = record {
  id = codes "0x77";
  round = 9;
  previous_block_votes_bitvec = 3 ∷ [];
  proposer = codes "0xAb";
  events = [];
}

abbrev block_message : Transaction.Transaction (protos service)
block_message = record (message []) {
  version = 11;
  type_of = TransactionType.block_metadata;
  txn_data = some (TxnData.block_metadata metadata);
}

abbrev block_tx : TransactionExtraction (protos service)
block_tx = record tx {
  version = 11;
  tx_type = TransactionType.block_metadata;
  tx_info = record tx.tx_info { changes = [] };
  tx_data = TxnData.block_metadata metadata;
}

block_extracted : Transaction.try_from (protos service) block_message ≡ ok block_tx
unfolding Transaction.try_from Timestamp.try_from Info.try_from
block_extracted = refl

block_readable : ReadableQuiet service block_message
unfolding get_encoded_timestamp Timestamp.try_encode Timestamp.get_timestamp_format
    Address.strip_prefix Data.events
block_readable = record {
  tx = block_tx;
  time = Timestamp.timestamp_format_default;
  extracted = block_extracted;
  quiet = (refl, omega arith);
  timed = refl;
  events = tt;
  changes = tt;
}

abbrev pulls : List (Pull (tables service 1000))
pulls = response (block_message ∷ user_message ∷ []) ∷ []

abbrev server : Server (tables service 1000)
server = record { connect = λ start end. ok pulls; takes = λ p. true }

extract_range-Readable_example :
    (xs : List (TransactionExtraction (protos service))) × (map
        (Transaction.try_from (protos service))
        (block_message ∷ user_message ∷ [])
      ≡ map ok xs)
    × ((extract_range (tables service 1000) server 11 12 none none).metrics ≡ count_request none)
    × ((extract_range (tables service 1000) server 11 12 none none).result ≡ ok tt)
    × Sends
        (tables service 1000)
        new_all
        11
        12
        (collected (tables service 1000) new_all xs)
        (extract_range (tables service 1000) server 11 12 none none).published
extract_range-Readable_example =
    extract_range-Readable service 1000 server 11 12 none none pulls 1 refl (λ p. refl)
      (omega arith) tt refl refl (inr block_readable, (inl user_readable, tt))
