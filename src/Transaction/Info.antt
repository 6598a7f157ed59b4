-- ===== src/Transaction/Info.antt =====
-- The information of a transaction, and the count of its changes by type:
-- processing/reps/transaction/tx_info.rs.
use mathlib.Core.Option
use aptos_etl.Prelude.{
  ℕ, suc, Bool, true, false, Option, List, [], ◌∷◌, map, length, Result, ok, err, ◌>>=◌, map_err,
  try_map, if◌then◌else◌,
}
use aptos_etl.Prelude.Text.{Text}
use aptos_etl.HashValue.{HashValue}
use aptos_etl.Signatures.Input.{Bytes}
use aptos_etl.Transaction.Messages.{
  Protos, ChangeType, unspecified, delete_module, delete_resource, delete_table_item, write_module,
  write_resource, write_table_item, TransactionInfo,
}

pub data TxInfoExtractionError (p : Protos) : Type 0 where
  change : p.ChangeError → TxInfoExtractionError p
  unaccounted_for_changes : List ChangeType → TxInfoExtractionError p

pub record TransactionInfoExtraction (p : Protos) : Type 0 where
  pub hash : HashValue
  pub state_change_hash : HashValue
  pub event_root_hash : HashValue
  pub state_checkpoint_hash : Option HashValue
  pub gas_used : ℕ
  pub success : Bool
  pub vm_status : Text
  pub accumulator_root_hash : HashValue
  pub changes : List p.IncompleteChangeRecord

abbrev of_bytes : Bytes → HashValue
of_bytes bytes = record { bytes = bytes }

unfoldable pub try_from :
    (p : Protos)
    → TransactionInfo p
    → Result (TxInfoExtractionError p) (TransactionInfoExtraction p)
try_from p i = do
  changes ← map_err change (try_map p.try_from_change i.changes)
  ok (record {
    hash = of_bytes i.hash;
    state_change_hash = of_bytes i.state_change_hash;
    event_root_hash = of_bytes i.event_root_hash;
    state_checkpoint_hash = Option.map of_bytes i.state_checkpoint_hash;
    gas_used = i.gas_used;
    success = i.success;
    vm_status = i.vm_status;
    accumulator_root_hash = of_bytes i.accumulator_root_hash;
    changes = changes;
  })

pub record ChangesAggregate : Type 0 where
  pub total : ℕ
  pub delete_module : ℕ
  pub write_module : ℕ
  pub delete_resource : ℕ
  pub write_resource : ℕ
  pub delete_table_item : ℕ
  pub write_table_item : ℕ

abbrev pub same_type : ChangeType → ChangeType → Bool
same_type unspecified unspecified = true
same_type delete_module delete_module = true
same_type delete_resource delete_resource = true
same_type delete_table_item delete_table_item = true
same_type write_module write_module = true
same_type write_resource write_resource = true
same_type write_table_item write_table_item = true
same_type _ _ = false

-- `*counts.entry(key).or_insert(0) += 1`
abbrev pub count_one : ChangeType → List (ChangeType × ℕ) → List (ChangeType × ℕ)
count_one k [] = (k, 1) ∷ []
count_one k ((k', n) ∷ counts) =
    let rest = count_one k counts in if same_type k k' then (k', suc n) ∷ counts else (k', n) ∷ rest

abbrev pub count_all : List ChangeType → List (ChangeType × ℕ) → List (ChangeType × ℕ)
count_all [] counts = counts
count_all (k ∷ ks) counts = count_all ks (count_one k counts)

-- `counts.remove(&key).unwrap_or(0)`
abbrev pub count_of : ChangeType → List (ChangeType × ℕ) → ℕ
count_of k [] = 0
count_of k ((k', n) ∷ counts) = let rest = count_of k counts in if same_type k k' then n else rest

abbrev pub removed : ChangeType → List (ChangeType × ℕ) → List (ChangeType × ℕ)
removed k [] = []
removed k ((k', n) ∷ counts) =
    let rest = removed k counts in if same_type k k' then rest else (k', n) ∷ rest

-- What is left of the map when the six types have been removed.
abbrev pub unaccounted : List (ChangeType × ℕ) → List (ChangeType × ℕ)
unaccounted counts = removed write_table_item (
    removed delete_table_item (
      removed write_resource
        (removed delete_resource (removed write_module (removed delete_module counts)))))

abbrev pub aggregate_of :
    (p : Protos) → ℕ → List (ChangeType × ℕ) → Result (TxInfoExtractionError p) ChangesAggregate
aggregate_of p total counts = elim (unaccounted counts) [
  | [] ↦ ok (record {
    total = total;
    delete_module = count_of delete_module counts;
    write_module = count_of write_module counts;
    delete_resource = count_of delete_resource counts;
    write_resource = count_of write_resource counts;
    delete_table_item = count_of delete_table_item counts;
    write_table_item = count_of write_table_item counts;
  })
  | c ∷ cs ↦ err (unaccounted_for_changes (map (λ e. e.0) (c ∷ cs)))
]

unfoldable pub calculate_changes_aggregate :
    (p : Protos) → TransactionInfoExtraction p → Result (TxInfoExtractionError p) ChangesAggregate
calculate_changes_aggregate p info =
    aggregate_of p (length info.changes) (count_all (map p.get_type info.changes) [])
