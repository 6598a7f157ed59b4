-- ===== src/Signatures/Safe.antt =====
-- The assembly of a transaction's signatures does not stop at a missing value.
use aptos_etl.Prelude.{
  ◌≡◌, ◌≢◌, refl, true, false, Option, none, some, List, [], ◌∷◌, Result, ok, err, panic, ◌>>=◌,
  map_err, expect, try_map, All, map_err-eq-ok,
}
use aptos_etl.Prelude.Text.{Text}
use aptos_etl.Address.{Address, string, AddressError, try_encode}
use aptos_etl.Deferred.{Deferred, present, deferred, deferred_fallback, extract, is_usable}
use aptos_etl.Timestamp.{Chrono}
use aptos_etl.Signatures.Input
use aptos_etl.Signatures.{SignatureSubRecord}
use aptos_etl.Signatures.Roles.{from_signature}
use aptos_etl.Signatures.Accounts.{Usable}
use aptos_etl.Signatures.Usable.{from_signature-Usable}
use aptos_etl.Signatures.Records.{
  SigProcessError, tx_data_extract, sub_record_failure, timestamp, deferred_error, address,
  required, signer_of, complete, of_found, get_signatures,
}
use aptos_etl.Transaction.Messages.{InputEvent, Protos, TxnData, UserTransactionRequest}
use aptos_etl.Transaction.Data.{TxDataExtractError, user_request, sender, signature, encoded_sender}
use aptos_etl.Transaction.{TransactionExtraction, get_encoded_timestamp}

module _ (p : Protos) where
  abbrev pub NotDeferred : SigProcessError p → Type 0
  NotDeferred deferred_error = ⊥
  NotDeferred (tx_data_extract e) = Unit
  NotDeferred (sub_record_failure e) = Unit
  NotDeferred (timestamp e) = Unit
  NotDeferred (address e) = Unit

  -- Not the error of a missing value.
  abbrev pub Safe : {A : Type 0} → Result (SigProcessError p) A → Type 0
  Safe (ok a) = Unit
  Safe (err e) = NotDeferred e
  Safe panic = Unit

  >>=-Safe :
      {A B : Type 0} (m : Result (SigProcessError p) A) (f : A → Result (SigProcessError p) B)
      → Safe m
      → ((a : A) → m ≡ ok a → Safe (f a))
      → Safe (m >>= f)
  >>=-Safe (ok a) f safe next = next a refl
  >>=-Safe (err e) f safe next = safe
  >>=-Safe panic f safe next = safe

  map_err-Safe :
      {E A : Type 0} (f : E → SigProcessError p) (m : Result E A)
      → ((e : E) → NotDeferred (f e))
      → Safe (map_err f m)
  map_err-Safe f (ok a) h = tt
  map_err-Safe f (err e) h = h e
  map_err-Safe f panic h = tt

  required-Safe : {A : Type 0} (d : Deferred A) → is_usable d ≡ true → Safe (required p d)
  unfolding extract
  required-Safe (present a) h = tt
  required-Safe deferred h = absurd (no_usable h)
    where
      no_usable : false ≢ true
      no_usable e = cc
  required-Safe (deferred_fallback a) h = tt

  signer_of-Safe :
      (default_signer : Text) (d : Deferred Address) → Safe (signer_of p default_signer d)
  unfolding extract
  signer_of-Safe default_signer (present a) = map_err-Safe address (try_encode a) (λ e. tt)
  signer_of-Safe default_signer deferred = tt
  signer_of-Safe default_signer (deferred_fallback a) =
      map_err-Safe address (try_encode a) (λ e. tt)

  complete-Safe :
      (tx : TransactionExtraction p) (time default_signer : Text) (r : SignatureSubRecord)
      → Usable r
      → Safe (complete p tx time default_signer r)
  unfolding complete
  complete-Safe tx time default_signer r h =
      >>=-Safe (required p r.is_secondary) _ (required-Safe r.is_secondary h.1.0) (λ a ea.
        >>=-Safe (required p r.is_feepayer) _ (required-Safe r.is_feepayer h.1.1) (λ b eb.
          >>=-Safe (required p r.is_sender) _ (required-Safe r.is_sender h.1.2) (λ c ec.
            >>=-Safe (required p r.buildtype) _ (required-Safe r.buildtype h.0) (λ d ed.
              >>=-Safe (signer_of p default_signer r.signer) _
                (signer_of-Safe default_signer r.signer) (λ e ee. tt)))))

  completes-Safe :
      (tx : TransactionExtraction p) (time default_signer : Text) (rs : List SignatureSubRecord)
      → All Usable rs
      → Safe (try_map (complete p tx time default_signer) rs)
  completes-Safe tx time default_signer [] h = tt
  completes-Safe tx time default_signer (r ∷ rs) h =
      >>=-Safe (complete p tx time default_signer r) _ (complete-Safe tx time default_signer r h.0)
        (λ y ey.
          >>=-Safe (try_map (complete p tx time default_signer) rs) _
            (completes-Safe tx time default_signer rs h.1) (λ ys eys. tt))

  expect-Safe : {A : Type 0} (o : Option A) → Safe (expect o)
  expect-Safe none = tt
  expect-Safe (some a) = tt

  found-Safe :
      (c : Chrono) (tx : TransactionExtraction p) (found : Option Input.Signature)
      → Safe (of_found p c tx found)
  unfolding of_found
  found-Safe c tx none = tt
  found-Safe c tx (some s) =
      >>=-Safe (map_err sub_record_failure (from_signature s)) _
        (map_err-Safe sub_record_failure (from_signature s) (λ e. tt))
        (λ rs ers.
          >>=-Safe (map_err timestamp (get_encoded_timestamp p c tx)) _
            (map_err-Safe timestamp (get_encoded_timestamp p c tx) (λ e. tt))
            (λ time etime.
              >>=-Safe (map_err tx_data_extract (encoded_sender p tx.tx_data)) _
                (map_err-Safe tx_data_extract (encoded_sender p tx.tx_data) (λ e. tt))
                (λ sender esender.
                  >>=-Safe (expect sender) _ (expect-Safe sender) (λ default_signer ed.
                    >>=-Safe (try_map (complete p tx time default_signer) rs) _
                      (completes-Safe tx time default_signer rs (
                        from_signature-Usable s rs
                          (map_err-eq-ok sub_record_failure (from_signature s) ers)))
                      (λ records er. tt)))))

  -- The assembly of a transaction's signatures never fails for a value that is still deferred.
  pub get_signatures-Safe :
      (c : Chrono) (tx : TransactionExtraction p) → Safe (get_signatures p c tx)
  unfolding get_signatures
  get_signatures-Safe c tx =
      >>=-Safe (map_err tx_data_extract (signature p tx.tx_data)) _
        (map_err-Safe tx_data_extract (signature p tx.tx_data) (λ e. tt))
        (λ found ef. found-Safe c tx found)

  abbrev as_data_error : AddressError → TxDataExtractError p
  as_data_error e = TxDataExtractError.address e

  encoded_some-at :
      (m : Result AddressError Text) (o : Option Text)
      → (map_err as_data_error m >>= λ t. ok (some t)) ≡ ok o
      → o ≢ none
  encoded_some-at (ok t) o h e = cc
  encoded_some-at (err e') o h e = cc
  encoded_some-at panic o h e = cc

  SenderFound : TxnData p → Type 0
  SenderFound d = (s : Input.Signature) → signature p d ≡ ok (some s) → encoded_sender p d ≢ ok none

  user-SenderFound :
      (r : Option (UserTransactionRequest p)) (es : List InputEvent)
      → SenderFound (TxnData.user (record { request = r; events = es }))
  unfolding SenderFound signature user_request encoded_sender sender
  user-SenderFound none es s h k = cc
  user-SenderFound (some r) es s h k = encoded_some-at (try_encode (string r.sender)) none k refl

  -- Data with a signature has a sender, so that the assembly does not stop at a missing one.
  encoded_sender-signature :
      (d : TxnData p) (s : Input.Signature)
      → signature p d ≡ ok (some s)
      → encoded_sender p d ≢ ok none
  unfolding SenderFound signature user_request encoded_sender sender
  encoded_sender-signature (TxnData.user u) s h k = user-SenderFound u.request u.events s h k
  encoded_sender-signature (TxnData.block_metadata b) s h k = cc
  encoded_sender-signature (TxnData.genesis g) s h k = cc
  encoded_sender-signature TxnData.state_checkpoint s h k = cc
  encoded_sender-signature (TxnData.validator es) s h k = cc
  encoded_sender-signature TxnData.block_epilogue s h k = cc
