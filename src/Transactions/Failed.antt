-- ===== src/Transactions/Failed.antt =====
-- The row of a failed transaction: `get_failed_transaction`.
use mathlib.Core.Option
use aptos_etl.Prelude.{ℕ, Option, none, some, Result, ok, err, panic, ◌>>=◌, map_err}
use aptos_etl.Prelude.Text.{Text}
use aptos_etl.Address.{Address, AddressError}
use aptos_etl.Address as Address
use aptos_etl.Timestamp.{
  Timestamp, TimestampError, UnixTimestamp, out_of_range_utc, out_of_range_big_query,
  bigquerry_max_timestamp_string,
}
use aptos_etl.Timestamp as Timestamps
use aptos_etl.Payload.{TxPayloadExtract, TxPayloadError, Payload, encode_payload_type}
use aptos_etl.Payload as Payloads
use aptos_etl.Transaction.Data.{
  TxDataExtractError, payload, sequence_number, max_gas_amount, sender, gas_unit_price,
  expiration_timestamp_secs,
}
use aptos_etl.Transaction.Info.{calculate_changes_aggregate}
use aptos_etl.Transaction.{get_txtype, get_encoded_timestamp}
use aptos_etl.Service.{Service, protos}
use aptos_etl.Transactions.Row.{
  TxError, timestamp, tx_data_extract, tx_info_extract, address_error, payload_error,
  tx_extract_error, Transaction, ok_part, or_none, Extraction, no_sender, row_of,
}

module _ (s : Service) where
  -- What cannot be read is left out.
  abbrev pub payload_parts :
      Result (TxDataExtractError (protos s)) (Option TxPayloadExtract)
      → Result (TxError s) (Option Payload × Option Text)
  payload_parts (ok none) = ok (none, none)
  payload_parts (ok (some extract)) =
      map_err payload_error (ok_part (Payloads.try_encode s.types s.bytes_to_base64 extract))
      >>= λ p. map_err payload_error (ok_part (encode_payload_type extract)) >>= λ k. ok (p, k)
  payload_parts (err e) = ok (none, none)
  payload_parts panic = panic

  abbrev pub sender_part :
      Extraction s
      → Result (TxDataExtractError (protos s)) (Option Address)
      → Result (TxError s) (Option Text)
  sender_part tx (ok (some addr)) = map_err address_error (ok_part (Address.try_encode addr))
  sender_part tx (ok none) = no_sender s tx
  sender_part tx (err e) = ok none
  sender_part tx panic = panic

  -- A time without a text is the greatest that the database takes.
  abbrev pub expiration_text : Result TimestampError Text → Result (TxError s) (Option Text)
  expiration_text (ok string) = ok (some string)
  expiration_text (err (out_of_range_utc t n)) = ok (some bigquerry_max_timestamp_string)
  expiration_text (err (out_of_range_big_query t n)) = ok (some bigquerry_max_timestamp_string)
  expiration_text (err error) = err (timestamp error)
  expiration_text panic = panic

  abbrev pub expiration_part : Option Timestamp → Result (TxError s) (Option Text)
  expiration_part none = ok none
  expiration_part (some t) = expiration_text (Timestamps.try_encode s.chrono t)

  unfoldable pub get_failed_transaction : Extraction s → Option ℕ → Result (TxError s) Transaction
  get_failed_transaction tx sig_cnt = do
    payloads ← payload_parts (payload (protos s) tx.tx_data)
    number ← map_err tx_data_extract (sequence_number (protos s) tx.tx_data)
    time ← map_err timestamp (get_encoded_timestamp (protos s) s.chrono tx)
    tx_type ← map_err tx_extract_error (get_txtype (protos s) tx)
    gas ← or_none (max_gas_amount (protos s) tx.tx_data)
    from_whom ← sender_part tx (sender (protos s) tx.tx_data)
    changes ← map_err tx_info_extract (calculate_changes_aggregate (protos s) tx.tx_info)
    expires ← map_err tx_data_extract (expiration_timestamp_secs (protos s) tx.tx_data)
    until ← expiration_part expires
    price ← or_none (gas_unit_price (protos s) tx.tx_data)
    ok (
        row_of s tx number time tx_type changes (record {
          payload = payloads.0;
          payload_type = payloads.1;
          max_gas_amount = gas;
          sender = from_whom;
          expiration_timestamp = until;
          gas_unit_price = price;
          expiration_unixtimestamp = Option.map Timestamps.encode expires;
          num_signatures = sig_cnt;
        }))
