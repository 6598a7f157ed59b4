-- ===== src/Transaction/Kinds.antt =====
-- The type of an extracted transaction, and its data.
use aptos_etl.Prelude.{
  ◌≡◌, refl, subst, Bool, true, false, Option, none, some, ok, err, map_err, Gives, >>=-Gives,
  Gives-any,
}
use aptos_etl.Transaction.Messages.{Protos, TxnData}
use aptos_etl.Transaction.Info
use aptos_etl.Transaction.{
  TransactionType, TxType, Transaction, TransactionExtraction, TxExtractionError, invalid_data,
  tx_info_extraction_error, convert_txtype, get_txtype, of_type, check_data, check_timestamp,
  check_info, try_from,
}

module _ (p : Protos) where
  -- What the extraction keeps of a message.
  abbrev pub Extracted : Transaction p → TransactionExtraction p → Type 0
  Extracted value x =
      (x.version ≡ value.version)
      × (value.txn_data ≡ some x.tx_data)
      × (of_type p value.type_of x.tx_data ≡ true)
      × (x.tx_type ≡ value.type_of)

  abbrev OfType : TransactionType → Option (TxnData p) → TxnData p → Type 0
  OfType t o d = (o ≡ some d) × (of_type p t d ≡ true)

  checked :
      (b : Bool) (t : TransactionType) (d : TxnData p)
      → of_type p t d ≡ b
      → Gives {E = TxExtractionError p}
          (OfType t (some d))
          (elim b [ true ↦ ok d | false ↦ err invalid_data ])
  checked true t d h = (refl, h)
  checked false t d h = tt

  check_data-OfType :
      (t : TransactionType) (o : Option (TxnData p)) → Gives (OfType t o) (check_data p t o)
  check_data-OfType TransactionType.unspecified o = tt
  check_data-OfType TransactionType.genesis none = tt
  check_data-OfType TransactionType.block_metadata none = tt
  check_data-OfType TransactionType.state_checkpoint none = tt
  check_data-OfType TransactionType.user none = tt
  check_data-OfType TransactionType.validator none = tt
  check_data-OfType TransactionType.block_epilogue none = tt
  check_data-OfType TransactionType.genesis (some d) =
      checked (of_type p TransactionType.genesis d) TransactionType.genesis d refl
  check_data-OfType TransactionType.block_metadata (some d) =
      checked (of_type p TransactionType.block_metadata d) TransactionType.block_metadata d refl
  check_data-OfType TransactionType.state_checkpoint (some d) =
      checked (of_type p TransactionType.state_checkpoint d) TransactionType.state_checkpoint d refl
  check_data-OfType TransactionType.user (some d) =
      checked (of_type p TransactionType.user d) TransactionType.user d refl
  check_data-OfType TransactionType.validator (some d) =
      checked (of_type p TransactionType.validator d) TransactionType.validator d refl
  check_data-OfType TransactionType.block_epilogue (some d) =
      checked (of_type p TransactionType.block_epilogue d) TransactionType.block_epilogue d refl

  try_from-Gives : (value : Transaction p) → Gives (Extracted value) (try_from p value)
  unfolding try_from
  try_from-Gives value =
      >>=-Gives (λ _. Unit {0}) (Extracted value) (check_timestamp p value.timestamp) _
        (Gives-any _)
        (λ ts h.
          >>=-Gives (OfType value.type_of value.txn_data) (Extracted value)
            (check_data p value.type_of value.txn_data) _
            (check_data-OfType value.type_of value.txn_data)
            (λ d fits.
              >>=-Gives (λ _. Unit {0}) (Extracted value) (check_info p value.info) _ (Gives-any _)
                (λ info hi.
                  >>=-Gives (λ _. Unit {0}) (Extracted value)
                    (map_err tx_info_extraction_error (Info.try_from p info)) _ (Gives-any _)
                    (λ extracted he. (refl, fits.0, fits.1, refl)))))

  named :
      (t : TransactionType) (d : TxnData p)
      → of_type p t d ≡ true
      → (k : TxType) × (convert_txtype p t ≡ ok k)
  unfolding convert_txtype
  named TransactionType.unspecified d h = cc
  named TransactionType.genesis d h = (TxType.genesis, refl)
  named TransactionType.block_metadata d h = (TxType.block_metadata, refl)
  named TransactionType.state_checkpoint d h = (TxType.state_checkpoint, refl)
  named TransactionType.user d h = (TxType.user, refl)
  named TransactionType.validator d h = (TxType.validator, refl)
  named TransactionType.block_epilogue d h = (TxType.block_epilogue, refl)

  -- A transaction that is extracted keeps its version, its type and its data, the data is of that
  -- type, and the type has a name in the output, so that naming it later cannot fail.
  pub try_from-Extracted :
      (value : Transaction p) (x : TransactionExtraction p)
      → try_from p value ≡ ok x
      → Extracted value x × ((k : TxType) × (get_txtype p x ≡ ok k))
  unfolding get_txtype
  try_from-Extracted value x h =
      let ex : Extracted value x = subst (Gives (Extracted value)) h (try_from-Gives value) in
      (ex, rw ex.3 (named value.type_of x.tx_data ex.2))
