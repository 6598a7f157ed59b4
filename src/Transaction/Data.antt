-- ===== src/Transaction/Data.antt =====
-- What is read from the data of a transaction: processing/reps/transaction/tx_data.rs.
use mathlib.Core.Option
use aptos_etl.Prelude.{ℕ, Option, none, some, List, Result, ok, err, panic, ◌>>=◌, map_err, map_ok}
use aptos_etl.Prelude.Text.{Text}
use aptos_etl.Address.{Address, AddressError, string, try_encode}
use aptos_etl.Timestamp.{Timestamp, TimestampError, try_from}
use aptos_etl.Signatures.Input.{Signature}
use aptos_etl.Transaction.Messages.{
  InputEvent, Protos, UserTransactionRequest, BlockMetadataTransaction, TxnData, block_metadata,
  genesis, state_checkpoint, user, validator, block_epilogue,
}

pub data TxDataExtractError (p : Protos) : Type 0 where
  missing_user_request missing_signature missing_expiration_timestamp genesis_payload_error
        missing_user_payload :
      TxDataExtractError p
  timestamp_error : TimestampError → TxDataExtractError p
  address : AddressError → TxDataExtractError p
  payload_error : p.TxPayloadError → TxDataExtractError p

module _ (p : Protos) where
  abbrev pub blockmetadata : TxnData p → Option (BlockMetadataTransaction p)
  blockmetadata (block_metadata b) = some b
  blockmetadata _ = none

  unfoldable pub user_request :
      TxnData p → Result (TxDataExtractError p) (Option (UserTransactionRequest p))
  user_request (user userdata) = elim userdata.request [
    | some request ↦ ok (some request)
    | none ↦ err missing_user_request
  ]
  user_request (block_metadata b) = ok none
  user_request (genesis g) = ok none
  user_request state_checkpoint = ok none
  user_request (validator es) = ok none
  user_request block_epilogue = ok none

  unfoldable pub max_gas_amount : TxnData p → Result (TxDataExtractError p) (Option ℕ)
  max_gas_amount d = map_ok (Option.map (λ r. r.max_gas_amount)) (user_request d)

  unfoldable pub sequence_number : TxnData p → Result (TxDataExtractError p) (Option ℕ)
  sequence_number d =
      user_request d >>= λ r. ok (elim r [ some req ↦ some req.sequence_number | none ↦ none ])

  unfoldable pub gas_unit_price : TxnData p → Result (TxDataExtractError p) (Option ℕ)
  gas_unit_price d =
      user_request d >>= λ r. ok (elim r [ some req ↦ some req.gas_unit_price | none ↦ none ])

  unfoldable pub sender : TxnData p → Result (TxDataExtractError p) (Option Address)
  sender d = elim (user_request d) [
    | ok (some req) ↦ ok (some (string req.sender))
    | ok none ↦ ok none
    | err error ↦ err error
    | panic ↦ panic
  ]

  unfoldable pub proposer : TxnData p → Result (TxDataExtractError p) (Option Address)
  proposer d = elim (blockmetadata d) [
    | some bmd ↦ ok (some (string bmd.proposer))
    | none ↦ ok none
  ]

  -- `encoded_sender` and `encoded_proposer`, on the address found
  abbrev pub encoded :
      Result (TxDataExtractError p) (Option Address) → Result (TxDataExtractError p) (Option Text)
  encoded found = elim found [
    | ok (some addr) ↦ map_err address (try_encode addr) >>= λ a. ok (some a)
    | ok none ↦ ok none
    | err e ↦ err e
    | panic ↦ panic
  ]

  unfoldable pub encoded_sender : TxnData p → Result (TxDataExtractError p) (Option Text)
  encoded_sender d = encoded (sender d)

  unfoldable pub encoded_proposer : TxnData p → Result (TxDataExtractError p) (Option Text)
  encoded_proposer d = encoded (proposer d)

  unfoldable pub expiration_timestamp_secs :
      TxnData p → Result (TxDataExtractError p) (Option Timestamp)
  expiration_timestamp_secs d = user_request d >>= λ r. elim r [
    | none ↦ ok none
    | some request ↦ elim request.expiration_timestamp_secs [
      | none ↦ err missing_expiration_timestamp
      | some expiration ↦ map_err timestamp_error (try_from expiration) >>= λ ts. ok (some ts)
    ]
  ]

  unfoldable pub signature : TxnData p → Result (TxDataExtractError p) (Option Signature)
  signature d = user_request d >>= λ r. elim r [
    | none ↦ ok none
    | some request ↦ elim request.signature [ some s ↦ ok (some s) | none ↦ err missing_signature ]
  ]

  unfoldable pub events : TxnData p → Option (List InputEvent)
  events (block_metadata b) = some b.events
  events (user u) = some u.events
  events (genesis g) = some g.events
  events (validator es) = some es
  events state_checkpoint = none
  events block_epilogue = none

  -- The panic is an `unreachable!`.
  unfoldable pub payload : TxnData p → Result (TxDataExtractError p) (Option p.TxPayloadExtract)
  payload (user u) = elim (user_request (user u)) [
    | ok (some userreq) ↦ elim userreq.payload [
      | some pl ↦ map_err payload_error (p.try_from_payload pl) >>= λ x. ok (some x)
      | none ↦ err missing_user_payload
    ]
    | ok none ↦ panic
    | err error ↦ err error
    | panic ↦ panic
  ]
  payload (genesis g) = elim g.payload [
    | some (some write_set) ↦ ok (some (p.from_write_set write_set))
    | some none ↦ err genesis_payload_error
    | none ↦ err genesis_payload_error
  ]
  payload (block_metadata b) = ok none
  payload state_checkpoint = ok none
  payload (validator es) = ok none
  payload block_epilogue = ok none
