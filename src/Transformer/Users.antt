-- ===== src/Transformer/Users.antt =====
-- A user's transaction that can be read is converted at every table.
use aptos_etl.Prelude.{
  ℕ, ◌≡◌, refl, ◌∙◌, subst, true, Option, none, some, List, length, ok, All, Yields-value, Any,
}
use aptos_etl.Prelude.Text.{Text}
use aptos_etl.Address.{string}
use aptos_etl.Address as Address
use aptos_etl.Timestamp.{Timestamp, InputTimestamp}
use aptos_etl.Timestamp as Timestamps
use aptos_etl.Types.Printable.{IsAddress, accepted-ok}
use aptos_etl.Signatures.Input
use aptos_etl.Signatures.{SignatureSubRecord}
use aptos_etl.Signatures.Roles.{from_signature}
use aptos_etl.Events.Listed.{IsEvent, get_events-Listed}
use aptos_etl.Payload.Messages.{TransactionPayload}
use aptos_etl.Payload.{TxPayloadExtract, Payload, encode_payload_type}
use aptos_etl.Payload as Payloads
use aptos_etl.Payload.Fields.{try_from-Prints}
use aptos_etl.ChangeRecords.Made.{Shows}
use aptos_etl.Blocks.{get_block}
use aptos_etl.Events.{get_events}
use aptos_etl.Signatures.Records.{Signature}
use aptos_etl.Transaction.Messages.{TxnData, UserTransaction, UserTransactionRequest}
use aptos_etl.Transaction.Data.{encoded_sender}
use aptos_etl.Transaction.Kinds.{try_from-Extracted}
use aptos_etl.Transaction.{
  TransactionType, TransactionExtraction, TxType, get_encoded_timestamp, get_txtype, of_type,
}
use aptos_etl.Transaction as Transaction
use aptos_etl.Service.{Service, protos}
use aptos_etl.Transactions.Successful.{expiration_text}
use aptos_etl.Extract.Converting.{Converts}
use aptos_etl.Transformer.{tables}
use aptos_etl.Transformer.Changed.{changes_counted, changes_found}
use aptos_etl.Transformer.Requests.{
  sequence_number-some, max_gas_amount-some, gas_unit_price-some, sender-some, signature-some,
  expiration-some, payload-some, events-some, blockmetadata-none,
}
use aptos_etl.Transformer.Signed.{Signs, get_signatures-Yields}
use aptos_etl.Transformer.Rows.{RowParts, user_row}

-- A user's transaction of which every part can be read and printed. An expiration may be out of the
-- range of the calendar.
pub record ReadableUser (s : Service) (m : Transaction.Transaction (protos s)) : Type 0 where
  pub tx : TransactionExtraction (protos s)
  pub user : UserTransaction (protos s)
  pub request : UserTransactionRequest (protos s)
  pub sig : Input.Signature
  pub subrecords : List SignatureSubRecord
  pub message : TransactionPayload
  pub extract : TxPayloadExtract
  pub shown : Payload
  pub expires : InputTimestamp
  pub expires_at : Timestamp
  pub until : Option Text
  pub time : Text
  pub extracted : Transaction.try_from (protos s) m ≡ ok tx
  pub of_user : tx.tx_data ≡ TxnData.user user
  pub requested : user.request ≡ some request
  pub timed : get_encoded_timestamp (protos s) s.chrono tx ≡ ok time
  pub sent_by : IsAddress request.sender
  pub signed : request.signature ≡ some sig
  pub signed_as : from_signature sig ≡ ok subrecords
  pub signers : All (λ r. Signs r.signer) subrecords
  pub paid : request.payload ≡ some message
  pub accepted : Payloads.try_from message ≡ ok extract
  pub shown_as : Payloads.try_encode s.types s.bytes_to_base64 extract ≡ ok shown
  pub expiring : request.expiration_timestamp_secs ≡ some expires
  pub expiring_at : Timestamps.try_from expires ≡ ok expires_at
  pub expired : expiration_text s (Timestamps.try_encode s.chrono expires_at) ≡ ok until
  pub events : All (IsEvent s.types s.is_json) user.events
  pub changes : All (Shows s) tx.tx_info.changes

module _ (s : Service) (m : Transaction.Transaction (protos s)) (q : ReadableUser s m) where
  user_only :
      (t : TransactionType) (u : UserTransaction (protos s))
      → of_type (protos s) t (TxnData.user u) ≡ true
      → t ≡ TransactionType.user
  user_only TransactionType.user u h = refl
  user_only TransactionType.unspecified u h = cc
  user_only TransactionType.genesis u h = cc
  user_only TransactionType.block_metadata u h = cc
  user_only TransactionType.state_checkpoint u h = cc
  user_only TransactionType.validator u h = cc
  user_only TransactionType.block_epilogue u h = cc

  user_type : q.tx.tx_type ≡ TransactionType.user
  user_type =
      let kept = (try_from-Extracted (protos s) m q.tx q.extracted).0 in
      kept.3
      ∙ user_only m.type_of q.user
          (subst (λ d. of_type (protos s) m.type_of d ≡ true) q.of_user kept.2)

  sender_text : (t : Text) × (Address.try_encode (string q.request.sender) ≡ ok t)
  unfolding Address.try_encode
  sender_text = (
    Address.format_address (Address.strip_prefix q.request.sender),
    rw (accepted-ok q.request.sender q.sent_by) refl,
  )

  row_parts : RowParts s q.tx
  unfolding get_txtype Transaction.convert_txtype
  row_parts = record {
    extract = q.extract;
    shown = q.shown;
    type_name = _;
    number = _;
    gas = _;
    price = _;
    time = q.time;
    printed = sender_text.0;
    sent_from = string q.request.sender;
    changes = _;
    expires = q.expires_at;
    until = q.until;
    paid =
        payload-some (protos s) q.tx.tx_data q.user q.request q.of_user q.requested q.message
          q.extract q.paid q.accepted;
    shown_as = q.shown_as;
    named = (try_from-Prints s.types s.bytes_to_base64 q.message q.extract q.accepted).2;
    numbered = sequence_number-some (protos s) q.tx.tx_data q.user q.request q.of_user q.requested;
    timed = q.timed;
    of_user = rw user_type refl;
    gas_read = max_gas_amount-some (protos s) q.tx.tx_data q.user q.request q.of_user q.requested;
    sent = sender-some (protos s) q.tx.tx_data q.user q.request q.of_user q.requested;
    sent_by = sender_text.1;
    counted = (changes_counted s m q.tx q.extracted).1;
    expiring =
        expiration-some (protos s) q.tx.tx_data q.user q.request q.of_user q.requested q.expires
          q.expires_at q.expiring q.expiring_at;
    expired = q.expired;
    priced = gas_unit_price-some (protos s) q.tx.tx_data q.user q.request q.of_user q.requested;
  }

  encoded_sender-text : encoded_sender (protos s) q.tx.tx_data ≡ ok (some sender_text.0)
  unfolding encoded_sender
  encoded_sender-text =
      rw (sender-some (protos s) q.tx.tx_data q.user q.request q.of_user q.requested, sender_text.1)
        refl

  pub user_Converts : (capacity : ℕ) → Converts (tables s capacity) m
  unfolding get_block
  user_Converts capacity =
      let (found, signatures_found, (sigs, at)) =
        Yields-value (λ f. (l : List Signature) × (f ≡ some l)) _
          (get_signatures-Yields (protos s) s.chrono q.tx q.sig q.subrecords q.time sender_text.0
            (signature-some (protos s) q.tx.tx_data q.user q.request q.of_user q.requested q.sig
              q.signed)
            q.signed_as q.timed encoded_sender-text q.signers) in
      let (row, transaction_found, _) =
        Yields-value Any _ (user_row s q.tx row_parts (length sigs)) in
      let (events, events_found, _) =
        Yields-value _ (get_events (protos s) s.types s.is_json s.chrono q.tx) (
          get_events-Listed (protos s) s.types s.is_json s.chrono q.tx q.user.events q.time _
            (events-some (protos s) q.tx.tx_data q.user q.request q.of_user q.requested) q.timed
            row_parts.numbered q.events) in
      let (changes, found_changes) =
        changes_found s m q.tx q.extracted q.time _ q.timed row_parts.numbered q.changes in
      record {
        extraction = q.tx;
        signatures = found;
        block = none;
        transaction = row;
        events = events;
        changes = changes;
        extracted = q.extracted;
        signatures_found = signatures_found;
        block_found =
            rw (blockmetadata-none (protos s) q.tx.tx_data q.user q.request q.of_user q.requested)
              refl;
        transaction_found = rw at transaction_found;
        events_found = events_found;
        changes_found = found_changes;
      }
