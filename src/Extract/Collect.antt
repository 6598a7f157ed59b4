-- ===== src/Extract/Collect.antt =====
-- The records that `extract_range` has collected, and what one transaction adds to them.
use mathlib.Core.Option
use aptos_etl.Prelude.{
  ℕ, ◌||◌, Option, none, some, List, [], ◌∷◌, ◌++◌, map, length, Result, ok, ◌>>=◌, map_err,
  if◌then◌else◌,
}
use aptos_etl.Timestamp.{UnixTimestamp}
use aptos_etl.Options.{
  TableOptions, do_blocks, do_signatures, do_transactions, do_events, do_changes, do_modules,
  do_resources, do_table_items, do_changes_or_subchanges,
}
use aptos_etl.Extract.Interface.{
  Tables, ExtractError, tx_extraction, tx_record, signature_record, event_record, change_record,
  block_record,
}

-- The vector of a table's records with the vector of their timestamps.
pub record Column (A : Type 0) : Type 0 where
  pub records : List A
  pub timestamps : List UnixTimestamp

abbrev pub no_rows : {A : Type 0} → Column A
no_rows = record { records = []; timestamps = [] }

-- Both vectors are extended, the one with the records, the other with their timestamps.
abbrev pub extend : {A : Type 0} → (A → UnixTimestamp) → Column A → List A → Column A
extend time c rows = record {
  records = c.records ++ rows;
  timestamps = c.timestamps ++ map time rows;
}

abbrev pub option_rows : {A : Type 0} → Option A → List A
option_rows none = []
option_rows (some a) = a ∷ []

abbrev pub flatten_option : {A : Type 0} → Option (List A) → List A
flatten_option none = []
flatten_option (some rows) = rows

module _ (t : Tables) where
  pub record Buffers : Type 0 where
    pub transactions : Column t.Transaction
    pub blocks : Column t.Block
    pub changes : Column t.Change
    pub signatures : Column t.Signature
    pub events : Column t.Event
    pub table_items : Column t.TableItem
    pub modules : Column t.Module
    pub resources : Column t.Resource

  abbrev pub empty : Buffers
  empty = record {
    transactions = no_rows;
    blocks = no_rows;
    changes = no_rows;
    signatures = no_rows;
    events = no_rows;
    table_items = no_rows;
    modules = no_rows;
    resources = no_rows;
  }

  module _ (o : TableOptions) where
    -- The signature count beside the buffers: `sig_cnt`.
    unfoldable pub add_signatures :
        Buffers → t.TransactionExtraction → Result (ExtractError t) (Option ℕ × Buffers)
    add_signatures b x =
        if do_signatures o || do_transactions o
        then (do
          signatures ← map_err signature_record (t.get_signatures x)
          ok (
            Option.map length signatures,
            if do_signatures o
                then record b {
                  signatures = extend t.signature_time b.signatures (flatten_option signatures);
                }
                else b,
          ))
        else ok (none, b)

    unfoldable pub add_block : Buffers → t.TransactionExtraction → Result (ExtractError t) Buffers
    add_block b x =
        if do_blocks o
        then (do
          block_rec ← map_err block_record (t.get_block x)
          ok (record b { blocks = extend t.block_time b.blocks (option_rows block_rec) }))
        else ok b

    unfoldable pub add_transaction :
        Option ℕ → Buffers → t.TransactionExtraction → Result (ExtractError t) Buffers
    add_transaction sig_cnt b x =
        if do_transactions o
        then (do
          tx_rec ← map_err tx_record (t.get_transactions x sig_cnt)
          ok (record b { transactions = extend t.transaction_time b.transactions (tx_rec ∷ []) }))
        else ok b

    unfoldable pub add_events : Buffers → t.TransactionExtraction → Result (ExtractError t) Buffers
    add_events b x =
        if do_events o
        then (do
          events ← map_err event_record (t.get_events x)
          ok (record b { events = extend t.event_time b.events (flatten_option events) }))
        else ok b

    -- Each of the four vectors is extended if its table is asked for.
    unfoldable pub extend_changes :
        Buffers → List t.Change × List t.Resource × List t.Module × List t.TableItem → Buffers
    extend_changes b (changes, resources, modules, table_items) = record b {
      changes = if do_changes o then extend t.change_time b.changes changes else b.changes;
      resources =
          if do_resources o then extend t.resource_time b.resources resources else b.resources;
      modules = if do_modules o then extend t.module_time b.modules modules else b.modules;
      table_items =
          if do_table_items o
          then extend t.table_item_time b.table_items table_items
          else b.table_items;
    }

    unfoldable pub add_changes : Buffers → t.TransactionExtraction → Result (ExtractError t) Buffers
    unfolding extend_changes
    add_changes b x =
        if do_changes_or_subchanges o
        then (do
          change_records ← map_err change_record (t.get_changes x)
          ok (extend_changes b change_records))
        else ok b

    -- One round of the loop over the transactions of a response, up to its last check.
    unfoldable pub add_tx : Buffers → t.Tx → Result (ExtractError t) Buffers
    add_tx b tx = do
      x ← map_err tx_extraction (t.try_from tx)
      (sig_cnt, b₁) ← add_signatures b x
      b₂ ← add_block b₁ x
      b₃ ← add_transaction sig_cnt b₂ x
      b₄ ← add_events b₃ x
      add_changes b₄ x
