-- ===== src/Transformer/Changed.antt =====
-- The changes of an extracted transaction: their rows and their counts.
use aptos_etl.Prelude.{
  ℕ, ◌≡◌, ◌≢◌, ap, subst, inl, inr, Option, List, [], ◌∷◌, map, ok, ◌>>=◌, All, Gives, Yields-value,
}
use aptos_etl.Prelude.Text.{Text}
use aptos_etl.Changes.{IncompleteChangeRecord, get_type, resource, table_item, module_record}
use aptos_etl.Transaction.Messages.{ChangeType}
use aptos_etl.Transaction.Data.{sequence_number}
use aptos_etl.Transaction.Info.{ChangesAggregate, calculate_changes_aggregate}
use aptos_etl.Transaction.Counts.{calculate_changes_aggregate-counted}
use aptos_etl.Transaction.{TransactionExtraction, get_encoded_timestamp}
use aptos_etl.Transaction as Transaction
use aptos_etl.ChangeRecords.{Change, Resource, Module, TableItem, get_changes}
use aptos_etl.ChangeRecords.Made.{KindAgrees, Shows}
use aptos_etl.ChangeRecords.Extracted.{try_from-All, get_changes-Made}
use aptos_etl.Service.{Service, protos}
use aptos_etl.Transformer.{changes_of}

specified : (x : IncompleteChangeRecord) → KindAgrees x → get_type x ≢ ChangeType.unspecified
specified (resource r) (inl h) e = cc
specified (resource r) (inr h) e = cc
specified (table_item r) (inl h) e = cc
specified (table_item r) (inr h) e = cc
specified (module_record r) (inl h) e = cc
specified (module_record r) (inr h) e = cc

all_specified :
    (xs : List IncompleteChangeRecord)
    → All KindAgrees xs
    → All (λ k. k ≢ ChangeType.unspecified) (map get_type xs)
all_specified [] h = tt
all_specified (x ∷ xs) h = (specified x h.0, all_specified xs h.1)

module _ (s : Service) (m : Transaction.Transaction (protos s))
    (tx : TransactionExtraction (protos s))
    (extracted : Transaction.try_from (protos s) m ≡ ok tx) where
  agree : All KindAgrees tx.tx_info.changes
  agree = subst (Gives (λ x. All KindAgrees x.tx_info.changes)) extracted (try_from-All s m)

  pub changes_counted :
      (a : ChangesAggregate) × (calculate_changes_aggregate (protos s) tx.tx_info ≡ ok a)
  changes_counted = (
    _,
    (calculate_changes_aggregate-counted (protos s) tx.tx_info
        (all_specified tx.tx_info.changes agree)).0,
  )

  pub changes_found :
      (time : Text) (number : Option ℕ)
      → get_encoded_timestamp (protos s) s.chrono tx ≡ ok time
      → sequence_number (protos s) tx.tx_data ≡ ok number
      → All (Shows s) tx.tx_info.changes
      → (r : List Change × List Resource × List Module × List TableItem) × (changes_of s tx ≡ ok r)
  changes_found time number timed numbered show =
      let (r, found, _) =
        Yields-value _ (get_changes s tx)
          (get_changes-Made s m tx time number extracted timed numbered show) in
      (_, ap (λ o. o >>= λ x. ok (x.changes, x.resources, x.modules, x.tableitems)) found)
