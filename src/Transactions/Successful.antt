-- ===== src/Transactions/Successful.antt =====
-- The row of a successful transaction: `get_successful_transaction`.
use mathlib.Core.Option
use aptos_etl.Prelude.{ℕ, Option, none, some, Result, ok, err, panic, ◌>>=◌, map_err}
use aptos_etl.Prelude.Text.{Text}
use aptos_etl.Address.{Address, AddressError}
use aptos_etl.Address as Address
use aptos_etl.Timestamp.{
  Timestamp, TimestampError, UnixTimestamp, out_of_range_utc, out_of_range_big_query,
  bigquerry_max_timestamp_string,
}
use aptos_etl.Timestamp as Timestamps
use aptos_etl.Payload.{TxPayloadExtract, TxPayloadError, Payload, encode_payload_type}
use aptos_etl.Payload as Payloads
use aptos_etl.Transaction.Data.{
  payload, sequence_number, max_gas_amount, sender, gas_unit_price, expiration_timestamp_secs,
}
use aptos_etl.Transaction.Info.{calculate_changes_aggregate}
use aptos_etl.Transaction.{TxExtractionError, TxType, get_txtype, get_encoded_timestamp}
use aptos_etl.Service.{Service, protos}
use aptos_etl.Transactions.Row.{
  TxError, timestamp, tx_data_extract, tx_info_extract, address_error, payload_error,
  tx_extract_error, missing_sig_count, Transaction, Extraction, no_sender, row_of,
}

module _ (s : Service) where
  abbrev pub payload_parts :
      Option TxPayloadExtract → Result (TxError s) (Option Payload × Option Text)
  payload_parts none = ok (none, none)
  payload_parts (some extract) =
      map_err payload_error (Payloads.try_encode s.types s.bytes_to_base64 extract) >>= λ p.
      map_err payload_error (encode_payload_type extract) >>= λ k. ok (some p, some k)

  abbrev pub sender_part : Extraction s → Option Address → Result (TxError s) (Option Text)
  sender_part tx (some addr) = map_err address_error (Address.try_encode addr) >>= λ a. ok (some a)
  sender_part tx none = no_sender s tx

  -- A time without a text is left out.
  abbrev pub expiration_text : Result TimestampError Text → Result (TxError s) (Option Text)
  expiration_text (ok string) = ok (some string)
  expiration_text (err (out_of_range_utc t n)) = ok none
  expiration_text (err (out_of_range_big_query t n)) = ok none
  expiration_text (err error) = err (timestamp error)
  expiration_text panic = panic

  abbrev pub expiration_part : Option Timestamp → Result (TxError s) (Option Text)
  expiration_part none = ok none
  expiration_part (some t) = expiration_text (Timestamps.try_encode s.chrono t)

  abbrev pub signature_part :
      Option ℕ → Result (TxExtractionError (protos s)) TxType → Result (TxError s) (Option ℕ)
  signature_part (some sig_val) (ok TxType.user) = ok (some sig_val)
  signature_part none (ok TxType.user) = err (missing_sig_count TxType.user)
  signature_part sig_cnt (err e) = err (tx_extract_error e)
  signature_part sig_cnt (ok other) = ok none
  signature_part sig_cnt panic = panic

  unfoldable pub get_successful_transaction :
      Extraction s → Option ℕ → Result (TxError s) Transaction
  get_successful_transaction tx sig_cnt = do
    extract ← map_err tx_data_extract (payload (protos s) tx.tx_data)
    payloads ← payload_parts extract
    number ← map_err tx_data_extract (sequence_number (protos s) tx.tx_data)
    time ← map_err timestamp (get_encoded_timestamp (protos s) s.chrono tx)
    tx_type ← map_err tx_extract_error (get_txtype (protos s) tx)
    gas ← map_err tx_data_extract (max_gas_amount (protos s) tx.tx_data)
    found ← map_err tx_data_extract (sender (protos s) tx.tx_data)
    from_whom ← sender_part tx found
    changes ← map_err tx_info_extract (calculate_changes_aggregate (protos s) tx.tx_info)
    expires ← map_err tx_data_extract (expiration_timestamp_secs (protos s) tx.tx_data)
    until ← expiration_part expires
    price ← map_err tx_data_extract (gas_unit_price (protos s) tx.tx_data)
    signatures ← signature_part sig_cnt (get_txtype (protos s) tx)
    ok (
        row_of s tx number time tx_type changes (record {
          payload = payloads.0;
          payload_type = payloads.1;
          max_gas_amount = gas;
          sender = from_whom;
          expiration_timestamp = until;
          gas_unit_price = price;
          expiration_unixtimestamp = Option.map Timestamps.encode expires;
          num_signatures = signatures;
        }))
