-- ===== src/Transactions/Agree.antt =====
-- The row of a failed transaction is that of a successful one, where there is one.
use aptos_etl.Prelude.{
  ℕ, ◌≡◌, refl, ◌⊎◌, inl, inr, Option, none, some, Result, ok, err, panic, ◌>>=◌, map_err, Follows,
  >>=-Follows, extra-Follows, same-Follows, agree-Follows, agree_twice-Follows,
}
use aptos_etl.Prelude.Text.{Text}
use aptos_etl.Address.{Address}
use aptos_etl.Address as Address
use aptos_etl.Timestamp.{
  Timestamp, TimestampError, out_of_range_utc, out_of_range_big_query,
  bigquerry_max_timestamp_string,
}
use aptos_etl.Timestamp as Timestamps
use aptos_etl.Payload.{TxPayloadExtract, TxPayloadError, Payload, encode_payload_type}
use aptos_etl.Payload as Payloads
use aptos_etl.Transaction.Data.{
  TxDataExtractError, payload, sequence_number, max_gas_amount, sender, gas_unit_price,
  expiration_timestamp_secs,
}
use aptos_etl.Transaction.Info.{calculate_changes_aggregate}
use aptos_etl.Transaction.{get_txtype, get_encoded_timestamp}
use aptos_etl.Service.{Service, protos}
use aptos_etl.Transactions.Row.{
  TxError, timestamp, tx_data_extract, tx_info_extract, address_error, payload_error,
  tx_extract_error, Transaction, ok_part, or_none, Extraction,
}
use aptos_etl.Transactions.Successful.{get_successful_transaction, signature_part}
use aptos_etl.Transactions.Successful as Successful
use aptos_etl.Transactions.Failed.{get_failed_transaction}
use aptos_etl.Transactions.Failed as Failed

-- A text is the same; where one was left out, there is none or the greatest.
abbrev pub SameOrGreatest : Option Text → Option Text → Type 0
SameOrGreatest (some t) e = e ≡ some t
SameOrGreatest none e = (e ≡ none) ⊎ (e ≡ some bigquerry_max_timestamp_string)

-- Two rows that differ at most in the text of the expiration and in the number of signatures.
abbrev pub SameRow : Option ℕ → Transaction → Transaction → Type 0
SameRow sig_cnt r r' =
    (r' ≡ record r { expiration_timestamp = r'.expiration_timestamp; num_signatures = sig_cnt })
    × SameOrGreatest r.expiration_timestamp r'.expiration_timestamp

module _ (s : Service) where
  payload_parts_agree :
      (m : Result (TxDataExtractError (protos s)) (Option TxPayloadExtract))
      (a : Option Payload × Option Text)
      → (map_err tx_data_extract m >>= Successful.payload_parts s) ≡ ok a
      → Failed.payload_parts s m ≡ ok a
  payload_parts_agree (ok none) a h = h
  payload_parts_agree (ok (some x)) a h =
      both (Payloads.try_encode s.types s.bytes_to_base64 x) (encode_payload_type x) h
    where
      both :
          (p : Result TxPayloadError Payload) (k : Result TxPayloadError Text)
          → (map_err {F = TxError s} payload_error p >>= λ p'.
              map_err payload_error k >>= λ k'. ok (some p', some k'))
            ≡ ok a
          → (map_err {F = TxError s} payload_error (ok_part p) >>= λ p'.
              map_err payload_error (ok_part k) >>= λ k'. ok (p', k'))
            ≡ ok a
      both (ok p) (ok k) h = h
      both (ok p) (err e) h = cc
      both (ok p) panic h = cc
      both (err e) k h = cc
      both panic k h = cc
  payload_parts_agree (err e) a h = cc
  payload_parts_agree panic a h = cc

  or_none_agree :
      (m : Result (TxDataExtractError (protos s)) (Option ℕ)) (a : Option ℕ)
      → map_err {F = TxError s} tx_data_extract m ≡ ok a
      → or_none {F = TxError s} m ≡ ok a
  or_none_agree (ok o) a h = cc
  or_none_agree (err e) a h = cc
  or_none_agree panic a h = cc

  sender_part_agree :
      (tx : Extraction s) (m : Result (TxDataExtractError (protos s)) (Option Address))
      (a : Option Text)
      → (map_err tx_data_extract m >>= Successful.sender_part s tx) ≡ ok a
      → Failed.sender_part s tx m ≡ ok a
  sender_part_agree tx (ok (some addr)) a h = printed (Address.try_encode addr) h
    where
      printed :
          (p : Result Address.AddressError Text)
          → (map_err {F = TxError s} address_error p >>= λ t. ok (some t)) ≡ ok a
          → map_err {F = TxError s} address_error (ok_part p) ≡ ok a
      printed (ok t) h = h
      printed (err e) h = cc
      printed panic h = cc
  sender_part_agree tx (ok none) a h = h
  sender_part_agree tx (err e) a h = cc
  sender_part_agree tx panic a h = cc

  expiration_text-Follows :
      (r : Result TimestampError Text)
      → Follows SameOrGreatest (Successful.expiration_text s r) (Failed.expiration_text s r)
  expiration_text-Follows (ok t) = refl
  expiration_text-Follows (err (out_of_range_utc t n)) = inr refl
  expiration_text-Follows (err (out_of_range_big_query t n)) = inr refl
  expiration_text-Follows (err e) = tt
  expiration_text-Follows panic = tt

  expiration_part-Follows :
      (o : Option Timestamp)
      → Follows SameOrGreatest (Successful.expiration_part s o) (Failed.expiration_part s o)
  expiration_part-Follows none = inl refl
  expiration_part-Follows (some t) = expiration_text-Follows (Timestamps.try_encode s.chrono t)

  -- Whatever can be read as a successful transaction can be read as a failed one, with the same row
  -- but for two fields: the number of signatures is the one that is given, and an expiration without a
  -- text may have the greatest timestamp.
  pub get_failed_transaction-Follows :
      (tx : Extraction s) (sig_cnt : Option ℕ)
      → Follows
          (SameRow sig_cnt)
          (get_successful_transaction s tx sig_cnt)
          (get_failed_transaction s tx sig_cnt)
  unfolding get_successful_transaction get_failed_transaction
  get_failed_transaction-Follows tx sig_cnt =
      agree_twice-Follows (SameRow sig_cnt)
        (map_err tx_data_extract (payload (protos s) tx.tx_data)) (Successful.payload_parts s)
        (Failed.payload_parts s (payload (protos s) tx.tx_data)) _ _
        (payload_parts_agree (payload (protos s) tx.tx_data))
        (λ payloads.
          same-Follows (SameRow sig_cnt)
            (map_err tx_data_extract (sequence_number (protos s) tx.tx_data)) _ _
            (λ number.
              same-Follows (SameRow sig_cnt)
                (map_err timestamp (get_encoded_timestamp (protos s) s.chrono tx)) _ _
                (λ time.
                  same-Follows (SameRow sig_cnt)
                    (map_err tx_extract_error (get_txtype (protos s) tx)) _ _
                    (λ tx_type.
                      agree-Follows (SameRow sig_cnt)
                        (map_err tx_data_extract (max_gas_amount (protos s) tx.tx_data))
                        (or_none (max_gas_amount (protos s) tx.tx_data)) _ _
                        (or_none_agree (max_gas_amount (protos s) tx.tx_data))
                        (λ gas.
                          agree_twice-Follows (SameRow sig_cnt)
                            (map_err tx_data_extract (sender (protos s) tx.tx_data))
                            (Successful.sender_part s tx)
                            (Failed.sender_part s tx (sender (protos s) tx.tx_data)) _ _
                            (sender_part_agree tx (sender (protos s) tx.tx_data))
                            (λ from_whom.
                              same-Follows (SameRow sig_cnt)
                                (map_err tx_info_extract
                                  (calculate_changes_aggregate (protos s) tx.tx_info))
                                _ _
                                (λ changes.
                                  same-Follows (SameRow sig_cnt)
                                    (map_err tx_data_extract
                                      (expiration_timestamp_secs (protos s) tx.tx_data))
                                    _ _
                                    (λ expires.
                                      >>=-Follows SameOrGreatest (SameRow sig_cnt)
                                        (Successful.expiration_part s expires)
                                        (Failed.expiration_part s expires) _ _
                                        (expiration_part-Follows expires)
                                        (λ until until' later.
                                          agree-Follows (SameRow sig_cnt)
                                            (map_err tx_data_extract
                                              (gas_unit_price (protos s) tx.tx_data))
                                            (or_none (gas_unit_price (protos s) tx.tx_data)) _ _
                                            (or_none_agree (gas_unit_price (protos s) tx.tx_data))
                                            (λ price.
                                              extra-Follows (SameRow sig_cnt)
                                                (signature_part s sig_cnt
                                                  (get_txtype (protos s) tx))
                                                _ _ (λ signatures. (refl, later))))))))))))
