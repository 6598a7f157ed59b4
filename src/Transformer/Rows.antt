-- ===== src/Transformer/Rows.antt =====
-- The row of a user's transaction, successful or failed.
use aptos_etl.Prelude.{if-Yields, Follows-Yields, ℕ, ◌≡◌, Option, some, ok, Yields, Any}
use aptos_etl.Prelude.Text.{Text}
use aptos_etl.Address.{Address}
use aptos_etl.Address as Address
use aptos_etl.Timestamp.{Timestamp}
use aptos_etl.Timestamp as Timestamps
use aptos_etl.Payload.{TxPayloadExtract, Payload, encode_payload_type}
use aptos_etl.Payload as Payloads
use aptos_etl.Transaction.Data.{
  payload, sequence_number, max_gas_amount, sender, gas_unit_price, expiration_timestamp_secs,
}
use aptos_etl.Transaction.Info.{ChangesAggregate, calculate_changes_aggregate}
use aptos_etl.Transaction.{TxType, get_txtype, get_encoded_timestamp}
use aptos_etl.Service.{Service, protos}
use aptos_etl.Transactions.{get_transactions}
use aptos_etl.Transactions.Row.{Extraction}
use aptos_etl.Transactions.Successful.{get_successful_transaction, expiration_text}
use aptos_etl.Transactions.Failed.{get_failed_transaction}
use aptos_etl.Transactions.Agree.{SameRow, get_failed_transaction-Follows}

-- What the row of a user's transaction is made of can be read.
pub record RowParts (s : Service) (tx : Extraction s) : Type 0 where
  pub extract : TxPayloadExtract
  pub shown : Payload
  pub type_name : Text
  pub number : Option ℕ
  pub gas : Option ℕ
  pub price : Option ℕ
  pub time : Text
  pub printed : Text
  pub sent_from : Address
  pub changes : ChangesAggregate
  pub expires : Timestamp
  pub until : Option Text
  pub paid : payload (protos s) tx.tx_data ≡ ok (some extract)
  pub shown_as : Payloads.try_encode s.types s.bytes_to_base64 extract ≡ ok shown
  pub named : encode_payload_type extract ≡ ok type_name
  pub numbered : sequence_number (protos s) tx.tx_data ≡ ok number
  pub timed : get_encoded_timestamp (protos s) s.chrono tx ≡ ok time
  pub of_user : get_txtype (protos s) tx ≡ ok TxType.user
  pub gas_read : max_gas_amount (protos s) tx.tx_data ≡ ok gas
  pub sent : sender (protos s) tx.tx_data ≡ ok (some sent_from)
  pub sent_by : Address.try_encode sent_from ≡ ok printed
  pub counted : calculate_changes_aggregate (protos s) tx.tx_info ≡ ok changes
  pub expiring : expiration_timestamp_secs (protos s) tx.tx_data ≡ ok (some expires)
  pub expired : expiration_text s (Timestamps.try_encode s.chrono expires) ≡ ok until
  pub priced : gas_unit_price (protos s) tx.tx_data ≡ ok price

-- Where a transaction can be read as a successful one, it has a row, whether it is one or not.
pub get_transactions-Yields :
    (s : Service) (tx : Extraction s) (cnt : Option ℕ)
    → Yields Any (get_successful_transaction s tx cnt)
    → Yields Any (get_transactions s tx cnt)
unfolding get_transactions
get_transactions-Yields s tx cnt fine = if-Yields Any tx.tx_info.success _ _ fine (
    Follows-Yields (SameRow cnt) (get_successful_transaction s tx cnt)
      (get_failed_transaction s tx cnt) (get_failed_transaction-Follows s tx cnt) fine)

module _ (s : Service) (tx : Extraction s) (p : RowParts s tx) (n : ℕ) where
  successful-Yields : Yields Any (get_successful_transaction s tx (some n))
  unfolding get_successful_transaction
  successful-Yields =
      rw
        (
          p.paid, p.shown_as, p.named, p.numbered, p.timed, p.of_user, p.gas_read, p.sent,
          p.sent_by, p.counted, p.expiring, p.expired, p.priced,
        )
        tt

  pub user_row : Yields Any (get_transactions s tx (some n))
  user_row = get_transactions-Yields s tx (some n) successful-Yields
