-- ===== src/Blocks/Complete.antt =====
-- Every block has a row.
use aptos_etl.Prelude.{
  ◌≡◌, refl, sym, ap, ◌∙◌, subst, Option, none, some, ok, map_err, expect, Yields, >>=-Yields,
  Yields-map_err, ok-Yields,
}
use aptos_etl.Prelude.Text.{Text}
use aptos_etl.Address.{string, try_encode, try_fix_string}
use aptos_etl.Timestamp.{Chrono}
use aptos_etl.Types.Printable.{IsAddress, accepted-ok}
use aptos_etl.Signatures.Input.{Bytes}
use aptos_etl.Transaction.Messages.{Protos, TxnData, BlockMetadataTransaction}
use aptos_etl.Transaction.Data.{address, blockmetadata, encoded, encoded_proposer, proposer}
use aptos_etl.Transaction.{TransactionExtraction, get_encoded_timestamp}
use aptos_etl.Blocks.{Block, timestamp, tx_data_extract, of_metadata, get_block}

module _ (p : Protos) where
  proposer-blockmetadata :
      (d : TxnData p) (bmd : BlockMetadataTransaction p)
      → blockmetadata p d ≡ some bmd
      → proposer p d ≡ ok (some (string bmd.proposer))
  unfolding proposer
  proposer-blockmetadata d bmd e =
      ap (λ o. elim o [ some b ↦ ok (some (string b.proposer)) | none ↦ ok none ]) e

  -- The proposer is found, and printed in the standard form.
  encoded_proposer-Yields :
      (d : TxnData p) (bmd : BlockMetadataTransaction p)
      → blockmetadata p d ≡ some bmd
      → IsAddress bmd.proposer
      → Yields
          (λ found. (s : Text) × (found ≡ some s) × (try_fix_string bmd.proposer ≡ ok s))
          (encoded_proposer p d)
  unfolding encoded_proposer try_encode
  encoded_proposer-Yields d bmd e fine =
      let printed : Option Text → Type 0 =
        λ found. (s : Text) × (found ≡ some s) × (try_fix_string bmd.proposer ≡ ok s) in
      subst (λ o. Yields printed (encoded p o)) (sym (proposer-blockmetadata d bmd e))
        (>>=-Yields (λ s. try_fix_string bmd.proposer ≡ ok s) printed
          (map_err address (try_encode (string bmd.proposer))) _
          (Yields-map_err (λ s. try_fix_string bmd.proposer ≡ ok s) address
            (try_encode (string bmd.proposer)) (rw (accepted-ok bmd.proposer fine) refl))
          (λ s fixed. (s, refl, fixed)))

  -- A transaction with the metadata of a block, of which the timestamp can be read and the proposer is
  -- an address, has a row: the block's hash and round, the proposer in the standard form, and the
  -- timestamp, height and version of the transaction; the search for the proposer does not panic.
  pub get_block-Yields :
      (to_base64 : Bytes → Text) (c : Chrono) (tx : TransactionExtraction p)
      (bmd : BlockMetadataTransaction p) (time : Text)
      → blockmetadata p tx.tx_data ≡ some bmd
      → get_encoded_timestamp p c tx ≡ ok time
      → IsAddress bmd.proposer
      → Yields
          (λ found.
            (b : Block) × (found ≡ some b)
            × (b.block_hash ≡ bmd.id)
            × (b.round ≡ bmd.round)
            × (try_fix_string bmd.proposer ≡ ok b.proposer)
            × (b.block_timestamp ≡ time)
            × (b.block_height ≡ tx.blockheight)
            × (b.blockmetadata_tx_version ≡ tx.version))
          (get_block p to_base64 c tx)
  unfolding get_block
  get_block-Yields to_base64 c tx bmd time has timed fine =
      let row : Option Block → Type 0 = λ found.
        (b : Block) × (found ≡ some b)
        × (b.block_hash ≡ bmd.id)
        × (b.round ≡ bmd.round)
        × (try_fix_string bmd.proposer ≡ ok b.proposer)
        × (b.block_timestamp ≡ time)
        × (b.block_height ≡ tx.blockheight)
        × (b.blockmetadata_tx_version ≡ tx.version) in
      let printed : Option Text → Type 0 =
        λ found. (s : Text) × (found ≡ some s) × (try_fix_string bmd.proposer ≡ ok s) in
      subst (λ o. Yields row (of_metadata p to_base64 c tx o)) (sym has)
        (>>=-Yields (λ s. s ≡ time) row (map_err timestamp (get_encoded_timestamp p c tx)) _
          (Yields-map_err (λ s. s ≡ time) _ (get_encoded_timestamp p c tx)
            (ok-Yields (λ s. s ≡ time) (get_encoded_timestamp p c tx) timed refl))
          (λ s same.
            >>=-Yields printed row (map_err tx_data_extract (encoded_proposer p tx.tx_data)) _
              (Yields-map_err printed _ (encoded_proposer p tx.tx_data)
                (encoded_proposer-Yields tx.tx_data bmd has fine))
              (λ found (r, is, fixed).
                >>=-Yields (λ q. q ≡ r) row (expect found) _
                  (ok-Yields (λ q. q ≡ r) (expect found) (ap expect is) refl)
                  (λ q at. (_, refl, refl, refl, fixed ∙ ap ok (sym at), same, refl, refl)))))
