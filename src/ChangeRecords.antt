-- ===== src/ChangeRecords.antt =====
-- The tables of changes, resources, modules and table items: processing/tables/changes.rs.
pub mod Rows
pub mod Made
mod Steps
mod Loop
pub mod Extracted
pub mod Tests
unfoldable pub use Rows.*
use mathlib.Core.Option
use aptos_etl.Prelude.{
  ℕ, suc, Bool, true, false, Option, none, some, List, [], ◌∷◌, ◌++◌, map, length, Result, ok, err,
  panic, ◌>>=◌, map_err, map_ok, expect, try_map,
}
use aptos_etl.Prelude.Int.{ℤ}
use aptos_etl.Prelude.Text.{Text, codes}
use aptos_etl.Address.{AddressError}
use aptos_etl.Address as Address
use aptos_etl.HashValue.{encode}
use aptos_etl.Timestamp.{TimestampError, UnixTimestamp}
use aptos_etl.Types.{StructTagError}
use aptos_etl.Types.Tags.{StructTag, StructTagOut, tag_out}
use aptos_etl.Signatures.Input.{Bytes}
use aptos_etl.Modules.Messages.{MoveModule, MoveModuleBytecode}
use aptos_etl.Modules.{ModuleError, ModuleExtraction}
use aptos_etl.Modules as Modules
use aptos_etl.Modules.Ids.{Friend, MoveModuleIdError, encode_friend}
use aptos_etl.Modules.Functions.{ExposedFunction, FunctionError, try_into}
use aptos_etl.Modules.Structs.{Struct, MvStructError}
use aptos_etl.Modules.Structs as Structs
use aptos_etl.Changes.{
  IncompleteChangeRecord, IncompleteResourceRecord, IncompleteTableItemRecord,
  IncompleteModuleRecord, TableKey, TableValue, resource, table_item, module_record, get_type,
  state_key_hash,
}
use aptos_etl.Changes as Changes
use aptos_etl.Transaction.Messages as Messages
use aptos_etl.Transaction.Data.{TxDataExtractError, sequence_number}
use aptos_etl.Transaction.{
  TransactionExtraction, get_encoded_timestamp, get_unix_timestamp, get_encoded_hash,
}
use aptos_etl.Events.{JsonStringError, small_number, number_text}
use aptos_etl.Service.{Service, protos}

module _ (s : Service) where
  -- The sequence number of the transaction is given in its two forms.
  module _ (small : Option ℕ) (big : Option Text) where
    -- What a change adds besides its own row.
    unfoldable pub add_derived :
        Place
        → ChangeType
        → Text
        → IncompleteChangeRecord
        → ChangeRecords
        → Result (ChangeError s) ChangeRecords
    add_derived place chtype key_hash (module_record r) records = module_row s place r >>= λ row.
        ok (record records { modules = records.modules ++ row ∷ [] })
    add_derived place chtype key_hash (resource r) records =
        resource_row s small big place chtype key_hash r >>= λ row.
        ok (record records { resources = records.resources ++ row ∷ [] })
    add_derived place chtype key_hash (table_item r) records =
        table_item_row s small big place chtype key_hash r >>= λ row.
        ok (record records { tableitems = records.tableitems ++ row ∷ [] })

    module _ (tx : TransactionExtraction (protos s)) (time : Text) where
      abbrev pub place_of : ℕ → Place
      place_of index = record {
        block_height = tx.blockheight;
        block_timestamp = time;
        tx_version = tx.version;
        tx_hash = get_encoded_hash (protos s) tx;
        change_index = index;
        block_unixtimestamp = get_unix_timestamp (protos s) tx;
      }

      abbrev pub change_row : ℕ → ChangeType → Text → Text → Change
      change_row index chtype addr key_hash = record {
        place = place_of index;
        tx_sequence_number = small;
        tx_sequence_number_big = big;
        change_type = change_type_name chtype;
        address = some addr;
        state_key_hash = key_hash;
      }

      unfoldable pub add_change :
          ℕ → IncompleteChangeRecord → ChangeRecords → Result (ChangeError s) ChangeRecords
      add_change index change records = do
        chtype ← convert_change_type s (get_type change)
        found ← expect (Changes.address change)
        addr ← map_err address_error (Address.try_encode found)
        hash ← expect (state_key_hash change)
        let key_hash = encode hash
        add_derived (place_of index) chtype key_hash change (record records {
          changes = records.changes ++ change_row index chtype addr key_hash ∷ [];
        })

      -- The loop, from an index on.
      unfoldable pub add_all :
          ℕ → List IncompleteChangeRecord → ChangeRecords → Result (ChangeError s) ChangeRecords
      add_all index [] records = ok records
      add_all index (change ∷ changes) records =
          add_change index change records >>= add_all (suc index) changes

  unfoldable pub get_changes :
      TransactionExtraction (protos s) → Result (ChangeError s) ChangeRecords
  get_changes tx = do
    time ← map_err timestamp (get_encoded_timestamp (protos s) s.chrono tx)
    number ← map_err tx_data (sequence_number (protos s) tx.tx_data)
    add_all (small_number number) (number_text number) tx time 0 tx.tx_info.changes new
