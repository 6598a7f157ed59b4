-- ===== src/ChangeRecords/Tests.antt =====
-- The rows of a transaction with three changes.
use aptos_etl.Prelude.{◌≡◌, refl, some, List, [], ◌∷◌, ok, err, Yields, All}
use aptos_etl.Address as Address
use aptos_etl.Timestamp as Timestamp
use aptos_etl.Changes as Changes
use aptos_etl.Changes.Messages.{WriteSetChange}
use aptos_etl.Transaction.Data as Data
use aptos_etl.Transaction.Info as Info
use aptos_etl.Transaction.{get_encoded_timestamp}
use aptos_etl.Transaction as Tx
use aptos_etl.Service.{protos}
use aptos_etl.Service.Toy.{
  service, message, resource_written, item_written, module_deleted, mismatched, extracted_changes,
  tx,
}
use aptos_etl.ChangeRecords.{get_changes}
use aptos_etl.ChangeRecords.Made.{Made, Shows}
use aptos_etl.ChangeRecords.Extracted.{get_changes-Made}

abbrev changes : List WriteSetChange
changes = resource_written ∷ item_written ∷ module_deleted ∷ []

extracted : Tx.try_from (protos service) (message changes) ≡ ok tx
unfolding Tx.try_from Timestamp.try_from Info.try_from Changes.try_from Changes.from_write_resource
    Changes.from_write_table_item Changes.from_delete_module Changes.strip_quotes
extracted = refl

pub changes-Shows : All (Shows service) extracted_changes
unfolding Address.strip_prefix Address.try_encode Address.fix_attempts
changes-Shows = (((_, refl), tt), (((_, refl), tt), (((_, refl), tt), tt)))

get_changes-Made_example :
    Yields
      (λ r. Made 0 extracted_changes r.changes r.resources r.modules r.tableitems)
      (get_changes service tx)
unfolding get_encoded_timestamp Data.sequence_number Data.user_request Timestamp.try_encode
    Timestamp.get_timestamp_format
get_changes-Made_example =
    get_changes-Made service (message changes) tx Timestamp.timestamp_format_default (some 4)
      extracted refl refl changes-Shows

mismatch : Changes.try_from service.types mismatched ≡ err Changes.mismatch_change_data
unfolding Changes.try_from
mismatch = refl
