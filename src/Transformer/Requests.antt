-- ===== src/Transformer/Requests.antt =====
-- What is read from the data of a user's transaction that has a request.
use aptos_etl.Prelude.{◌≡◌, refl, none, some, ok}
use aptos_etl.Address.{string}
use aptos_etl.Timestamp.{Timestamp, InputTimestamp}
use aptos_etl.Timestamp as Timestamps
use aptos_etl.Signatures.Input.{Signature}
use aptos_etl.Transaction.Messages.{Protos, TxnData, UserTransaction, UserTransactionRequest}
use aptos_etl.Transaction.Data.{
  user_request, sequence_number, max_gas_amount, gas_unit_price, sender, signature,
  expiration_timestamp_secs, events, payload, blockmetadata,
}

module _ (p : Protos) (d : TxnData p) (u : UserTransaction p) (r : UserTransactionRequest p)
    (of_user : d ≡ TxnData.user u) (requested : u.request ≡ some r) where
  user_request-some : user_request p d ≡ ok (some r)
  unfolding user_request
  user_request-some = rw (of_user, requested) refl

  pub sequence_number-some : sequence_number p d ≡ ok (some r.sequence_number)
  unfolding sequence_number
  sequence_number-some = rw user_request-some refl

  pub max_gas_amount-some : max_gas_amount p d ≡ ok (some r.max_gas_amount)
  unfolding max_gas_amount
  max_gas_amount-some = rw user_request-some refl

  pub gas_unit_price-some : gas_unit_price p d ≡ ok (some r.gas_unit_price)
  unfolding gas_unit_price
  gas_unit_price-some = rw user_request-some refl

  pub sender-some : sender p d ≡ ok (some (string r.sender))
  unfolding sender
  sender-some = rw (user_request-some, sender) refl

  pub signature-some : (s : Signature) → r.signature ≡ some s → signature p d ≡ ok (some s)
  unfolding signature
  signature-some s signed = rw (user_request-some, signed) refl

  pub expiration-some :
      (e : InputTimestamp) (at : Timestamp)
      → r.expiration_timestamp_secs ≡ some e
      → Timestamps.try_from e ≡ ok at
      → expiration_timestamp_secs p d ≡ ok (some at)
  unfolding expiration_timestamp_secs
  expiration-some e at has is = rw (user_request-some, has, is) refl

  pub payload-some :
      (m : p.TransactionPayload) (x : p.TxPayloadExtract)
      → r.payload ≡ some m
      → p.try_from_payload m ≡ ok x
      → payload p d ≡ ok (some x)
  unfolding payload user_request
  payload-some m x has is = rw (of_user, requested, has, is) refl

  pub events-some : events p d ≡ some u.events
  unfolding events
  events-some = rw of_user refl

  pub blockmetadata-none : blockmetadata p d ≡ none
  blockmetadata-none = rw of_user refl
