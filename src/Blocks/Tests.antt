-- ===== src/Blocks/Tests.antt =====
-- The row of a block.
use aptos_etl.Prelude.{◌≡◌, refl, some, [], ◌∷◌, ok, Yields, arith}
use aptos_etl.Prelude.Text.{codes, hex_encode}
use aptos_etl.Address as Address
use aptos_etl.Timestamp as Timestamp
use aptos_etl.Transaction.Messages.{TxnData, BlockMetadataTransaction}
use aptos_etl.Transaction.{TransactionExtraction, get_encoded_timestamp}
use aptos_etl.Transaction.Toy as Toy
use aptos_etl.Blocks.{Block, get_block}
use aptos_etl.Blocks.Complete.{get_block-Yields}

abbrev metadata : BlockMetadataTransaction Toy.protos
metadata = record {
  id = codes "0x77";
  round = 9;
  previous_block_votes_bitvec = 3 ∷ [];
  proposer = codes "0xAb";
  events = [];
}

abbrev tx : TransactionExtraction Toy.protos
tx = Toy.extraction (TxnData.block_metadata metadata)

get_block-Yields_example :
    Yields
      (λ found.
        (b : Block) × (found ≡ some b)
        × (b.block_hash ≡ codes "0x77")
        × (b.round ≡ 9)
        × (Address.try_fix_string (codes "0xAb") ≡ ok b.proposer)
        × (b.block_timestamp ≡ Timestamp.timestamp_format_default)
        × (b.block_height ≡ tx.blockheight)
        × (b.blockmetadata_tx_version ≡ 12))
      (get_block Toy.protos hex_encode Toy.calendar tx)
unfolding Address.strip_prefix get_encoded_timestamp Timestamp.try_encode
    Timestamp.get_timestamp_format
get_block-Yields_example =
    get_block-Yields Toy.protos hex_encode Toy.calendar tx metadata
      Timestamp.timestamp_format_default refl refl (refl, omega arith)
