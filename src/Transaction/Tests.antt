-- ===== src/Transaction/Tests.antt =====
-- A transaction at concrete inputs.
use aptos_etl.Prelude.{◌+◌, ◌≡◌, ◌≢◌, refl, none, [], ◌∷◌, ok}
use aptos_etl.Timestamp
use aptos_etl.Signatures.Input.{Signature, SignatureType}
use aptos_etl.Transaction.{TxType, try_from, get_txtype}
use aptos_etl.Transaction.Info
use aptos_etl.Transaction.Messages.{ChangeType}
use aptos_etl.Transaction.Counts.{counted_changes, calculate_changes_aggregate-counted}
use aptos_etl.Transaction.Kinds.{Extracted, try_from-Extracted}
use aptos_etl.Transaction.Toy.{protos, user_data, info_extraction, extraction, message}

abbrev unsigned : Signature
unsigned = record { type_of = SignatureType.unspecified; signature = none }

extracted : try_from protos (message (user_data unsigned)) ≡ ok (extraction (user_data unsigned))
unfolding try_from Timestamp.try_from Info.try_from
extracted = refl

try_from-Extracted_example :
    Extracted protos (message (user_data unsigned)) (extraction (user_data unsigned))
    × ((k : TxType) × (get_txtype protos (extraction (user_data unsigned)) ≡ ok k))
try_from-Extracted_example =
    try_from-Extracted protos (message (user_data unsigned)) (extraction (user_data unsigned))
      extracted

specified_module : ChangeType.write_module ≢ ChangeType.unspecified
specified_module e = cc

specified_resource : ChangeType.write_resource ≢ ChangeType.unspecified
specified_resource e = cc

calculate_changes_aggregate-counted_example :
    (Info.calculate_changes_aggregate protos info_extraction
      ≡ ok (
          counted_changes
            (ChangeType.write_module ∷ ChangeType.write_resource ∷ ChangeType.write_resource ∷ [])))
    × (3 ≡ 0 + 1 + 0 + 2 + 0 + 0)
calculate_changes_aggregate-counted_example =
    calculate_changes_aggregate-counted protos info_extraction
      (specified_module, (specified_resource, (specified_resource, tt)))
