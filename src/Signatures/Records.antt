-- ===== src/Signatures/Records.antt =====
-- The records of a transaction's signatures: processing/tables/signatures.rs.
use aptos_etl.Prelude.{
  ℕ, Bool, Option, none, some, List, Result, ok, err, panic, ◌>>=◌, map_err, expect, try_map,
}
use aptos_etl.Prelude.Int.{ℤ}
use aptos_etl.Prelude.Text.{Text, codes}
use aptos_etl.Address.{Address, AddressError, try_encode}
use aptos_etl.Deferred.{Deferred, extract}
use aptos_etl.Timestamp.{TimestampError, UnixTimestamp, Chrono}
use aptos_etl.Signatures.Input
use aptos_etl.Signatures.{SignatureError, SignatureBuildType, SignatureSubRecord}
use aptos_etl.Signatures.Values.{SigValue, PublicKey}
use aptos_etl.Signatures.Roles.{from_signature}
use aptos_etl.Transaction.Messages.{Protos}
use aptos_etl.Transaction.Data.{TxDataExtractError, signature, encoded_sender}
use aptos_etl.Transaction.{
  TransactionExtraction, get_encoded_timestamp, get_unix_timestamp, get_encoded_hash,
}

pub data SigProcessError (p : Protos) : Type 0 where
  tx_data_extract : TxDataExtractError p → SigProcessError p
  sub_record_failure : SignatureError → SigProcessError p
  timestamp : TimestampError → SigProcessError p
  deferred_error : SigProcessError p
  address : AddressError → SigProcessError p

abbrev pub build_type_name : SignatureBuildType → Text
build_type_name SignatureBuildType.ed25519 = codes "ed25519"
build_type_name SignatureBuildType.multi_ed25519 = codes "multi_ed25519"
build_type_name SignatureBuildType.multi_agent = codes "multi_agent"
build_type_name SignatureBuildType.fee_payer = codes "fee_payer"
build_type_name SignatureBuildType.single_sender = codes "single_sender"

-- The message of proto_src/signatures.proto.
pub record Signature : Type 0 where
  pub block_height : ℤ
  pub block_timestamp : Text
  pub tx_version : ℕ
  pub tx_hash : Text
  pub threshold : Option ℕ
  pub is_secondary : Option Bool
  pub is_fee_payer : Option Bool
  pub is_sender : Option Bool
  pub signature : Option SigValue
  pub public_key : PublicKey
  pub build_type : Text
  pub signer : Text
  pub block_unixtimestamp : UnixTimestamp

module _ (p : Protos) where
  -- `extract()?`
  abbrev pub required : {A : Type 0} → Deferred A → Result (SigProcessError p) A
  required d = map_err (λ e. deferred_error) (extract d)

  -- A record without a signer of its own is the sender's.
  abbrev pub signer_of : Text → Deferred Address → Result (SigProcessError p) Text
  signer_of default_signer d = elim (extract d) [
    | ok addr ↦ map_err address (try_encode addr)
    | err e ↦ ok default_signer
    | panic ↦ panic
  ]

  unfoldable pub complete :
      TransactionExtraction p
      → Text
      → Text
      → SignatureSubRecord
      → Result (SigProcessError p) Signature
  complete tx time default_signer subrecord = do
    is_secondary ← required subrecord.is_secondary
    is_fee_payer ← required subrecord.is_feepayer
    is_sender ← required subrecord.is_sender
    buildtype ← required subrecord.buildtype
    signer ← signer_of default_signer subrecord.signer
    ok (record {
      block_height = tx.blockheight;
      block_timestamp = time;
      tx_version = tx.version;
      tx_hash = get_encoded_hash p tx;
      threshold = subrecord.threshold;
      is_secondary = is_secondary;
      is_fee_payer = is_fee_payer;
      is_sender = is_sender;
      signature = subrecord.signature;
      public_key = subrecord.public_key;
      build_type = build_type_name buildtype;
      signer = signer;
      block_unixtimestamp = get_unix_timestamp p tx;
    })

  -- The rest of `get_signatures`, when the signature has been looked for.
  unfoldable pub of_found :
      Chrono
      → TransactionExtraction p
      → Option Input.Signature
      → Result (SigProcessError p) (Option (List Signature))
  of_found c tx none = ok none
  of_found c tx (some s) = do
    subrecords ← map_err sub_record_failure (from_signature s)
    time ← map_err timestamp (get_encoded_timestamp p c tx)
    sender ← map_err tx_data_extract (encoded_sender p tx.tx_data)
    default_signer ← expect sender
    records ← try_map (complete tx time default_signer) subrecords
    ok (some records)

  unfoldable pub get_signatures :
      Chrono → TransactionExtraction p → Result (SigProcessError p) (Option (List Signature))
  get_signatures c tx =
      map_err tx_data_extract (signature p tx.tx_data) >>= λ found. of_found c tx found
