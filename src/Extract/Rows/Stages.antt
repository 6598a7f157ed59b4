-- ===== src/Extract/Rows/Stages.antt =====
-- What each stage of a transaction's processing adds to the buffers.
use mathlib.Core.Option
use aptos_etl.Prelude.{
  ℕ, ◌≡◌, Option, List, [], ◌∷◌, length, Result, ok, err, panic, map_err, append-nil, arith,
  if◌then◌else◌, >>=-ok-elim, map_err-eq-ok,
}
use aptos_etl.Timestamp.{UnixTimestamp}
use aptos_etl.Options.{
  TableOptions, do_blocks, do_signatures, do_transactions, do_events, do_changes, do_modules,
  do_resources, do_table_items, do_changes_or_subchanges,
}
use aptos_etl.Extract.Interface.{Tables, tx_extraction}
use aptos_etl.Extract.Collect.{
  Column, extend, option_rows, flatten_option, Buffers, add_signatures, add_block, add_transaction,
  add_events, add_changes, add_tx,
}

abbrev pub rows_of : {E A B : Type 0} → (A → List B) → Result E A → List B
rows_of f (ok a) = f a
rows_of f (err e) = []
rows_of f panic = []

pub extend-nil : {A : Type 0} (time : A → UnixTimestamp) (c : Column A) → extend time c [] ≡ c
extend-nil time c =
    λ i. record { records = append-nil c.records i; timestamps = append-nil c.timestamps i }

module _ (t : Tables) (o : TableOptions) where
  abbrev pub signature_rows : t.TransactionExtraction → List t.Signature
  signature_rows x = if do_signatures o then rows_of flatten_option (t.get_signatures x) else []

  abbrev pub block_rows : t.TransactionExtraction → List t.Block
  block_rows x = if do_blocks o then rows_of option_rows (t.get_block x) else []

  -- The record of a transaction counts its signatures, whether or not they are asked for.
  abbrev pub transaction_rows : t.TransactionExtraction → List t.Transaction
  transaction_rows x =
      if do_transactions o
      then rows_of (λ s. rows_of (λ r. r ∷ []) (t.get_transactions x (Option.map length s)))
          (t.get_signatures x)
      else []

  abbrev pub event_rows : t.TransactionExtraction → List t.Event
  event_rows x = if do_events o then rows_of flatten_option (t.get_events x) else []

  abbrev pub change_rows : t.TransactionExtraction → List t.Change
  change_rows x = if do_changes o then rows_of (λ r. r.0) (t.get_changes x) else []

  abbrev pub resource_rows : t.TransactionExtraction → List t.Resource
  resource_rows x = if do_resources o then rows_of (λ r. r.1) (t.get_changes x) else []

  abbrev pub module_rows : t.TransactionExtraction → List t.Module
  module_rows x = if do_modules o then rows_of (λ r. r.2) (t.get_changes x) else []

  abbrev pub table_item_rows : t.TransactionExtraction → List t.TableItem
  table_item_rows x = if do_table_items o then rows_of (λ r. r.3) (t.get_changes x) else []

  -- The buffers with a transaction's rows in every table.
  abbrev pub add_rows : Buffers t → t.TransactionExtraction → Buffers t
  add_rows b x = record {
    transactions = extend t.transaction_time b.transactions (transaction_rows x);
    blocks = extend t.block_time b.blocks (block_rows x);
    changes = extend t.change_time b.changes (change_rows x);
    signatures = extend t.signature_time b.signatures (signature_rows x);
    events = extend t.event_time b.events (event_rows x);
    table_items = extend t.table_item_time b.table_items (table_item_rows x);
    modules = extend t.module_time b.modules (module_rows x);
    resources = extend t.resource_time b.resources (resource_rows x);
  }

  add_block-rows :
      (b b' : Buffers t) (x : t.TransactionExtraction)
      → add_block t o b x ≡ ok b'
      → b' ≡ record b { blocks = extend t.block_time b.blocks (block_rows x) }
  unfolding add_block
  add_block-rows b b' x h = ground (arith, extend-nil t.block_time b.blocks)

  add_events-rows :
      (b b' : Buffers t) (x : t.TransactionExtraction)
      → add_events t o b x ≡ ok b'
      → b' ≡ record b { events = extend t.event_time b.events (event_rows x) }
  unfolding add_events
  add_events-rows b b' x h = ground (arith, extend-nil t.event_time b.events)

  add_signatures-rows :
      (b b' : Buffers t) (cnt : Option ℕ) (x : t.TransactionExtraction)
      → add_signatures t o b x ≡ ok (cnt, b')
      → b' ≡ record b { signatures = extend t.signature_time b.signatures (signature_rows x) }
  unfolding add_signatures
  add_signatures-rows b b' cnt x h = ground (arith, extend-nil t.signature_time b.signatures)

  -- The transaction's stage after the signatures'.
  add_transaction-rows :
      (b b₁ b₂ b' : Buffers t) (cnt : Option ℕ) (x : t.TransactionExtraction)
      → add_signatures t o b x ≡ ok (cnt, b₁)
      → add_transaction t o cnt b₂ x ≡ ok b'
      → b' ≡ record b₂ {
        transactions = extend t.transaction_time b₂.transactions (transaction_rows x);
      }
  unfolding add_signatures add_transaction
  add_transaction-rows b b₁ b₂ b' cnt x h k =
      ground (arith, extend-nil t.transaction_time b₂.transactions)

  add_changes-rows :
      (b b' : Buffers t) (x : t.TransactionExtraction)
      → add_changes t o b x ≡ ok b'
      → b' ≡ record b {
        changes = extend t.change_time b.changes (change_rows x);
        resources = extend t.resource_time b.resources (resource_rows x);
        modules = extend t.module_time b.modules (module_rows x);
        table_items = extend t.table_item_time b.table_items (table_item_rows x);
      }
  unfolding add_changes do_changes_or_subchanges
  add_changes-rows b b' x h = ground (
    arith,
    extend-nil t.change_time b.changes,
    extend-nil t.resource_time b.resources,
    extend-nil t.module_time b.modules,
    extend-nil t.table_item_time b.table_items,
  )

  -- The stages one after the other.
  stages-add_rows :
      (b b₁ b₂ b₃ b₄ b' : Buffers t) (cnt : Option ℕ) (x : t.TransactionExtraction)
      → add_signatures t o b x ≡ ok (cnt, b₁)
      → add_block t o b₁ x ≡ ok b₂
      → add_transaction t o cnt b₂ x ≡ ok b₃
      → add_events t o b₃ x ≡ ok b₄
      → add_changes t o b₄ x ≡ ok b'
      → b' ≡ add_rows b x
  stages-add_rows b b₁ b₂ b₃ b₄ b' cnt x e₁ e₂ e₃ e₄ e₅ = cc (
    add_signatures-rows b b₁ cnt x e₁,
    add_block-rows b₁ b₂ x e₂,
    add_transaction-rows b b₁ b₂ b₃ cnt x e₁ e₃,
    add_events-rows b₃ b₄ x e₄,
    add_changes-rows b₄ b' x e₅,
  )

  -- A round that succeeds adds exactly the transaction's rows.
  pub add_tx-add_rows :
      (b b' : Buffers t) (tx : t.Tx)
      → add_tx t o b tx ≡ ok b'
      → (x : t.TransactionExtraction) × (t.try_from tx ≡ ok x) × (b' ≡ add_rows b x)
  unfolding add_tx
  add_tx-add_rows b b' tx h = >>=-ok-elim (map_err tx_extraction (t.try_from tx)) _ h λ x ex h₁.
      >>=-ok-elim (add_signatures t o b x) _ h₁ λ c e₁ h₂.
        >>=-ok-elim (add_block t o c.1 x) _ h₂ λ b₂ e₂ h₃.
          >>=-ok-elim (add_transaction t o c.0 b₂ x) _ h₃ λ b₃ e₃ h₄.
            >>=-ok-elim (add_events t o b₃ x) _ h₄ λ b₄ e₄ h₅. (
              x,
              map_err-eq-ok tx_extraction (t.try_from tx) ex,
              stages-add_rows b c.1 b₂ b₃ b₄ b' c.0 x e₁ e₂ e₃ e₄ h₅,
            )
