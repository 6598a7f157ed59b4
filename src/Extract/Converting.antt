-- ===== src/Extract/Converting.antt =====
-- Transactions that every enabled table can convert.
use mathlib.Core.Option
use aptos_etl.Prelude.{
  ◌≡◌, ◌≢◌, Option, List, length, ok, err, panic, arith, Result-cases, returned, failed, stopped,
}
use aptos_etl.Options.{TableOptions}
use aptos_etl.Extract.Interface.{Tables, ExtractError}
use aptos_etl.Extract.Collect.{
  Buffers, add_signatures, add_block, add_transaction, add_events, add_changes, add_tx,
}

-- Each conversion succeeds, that of the transaction's own record with the count of its signatures.
pub record Converts (t : Tables) (tx : t.Tx) : Type 0 where
  pub extraction : t.TransactionExtraction
  pub signatures : Option (List t.Signature)
  pub block : Option t.Block
  pub transaction : t.Transaction
  pub events : Option (List t.Event)
  pub changes : List t.Change × List t.Resource × List t.Module × List t.TableItem
  pub extracted : t.try_from tx ≡ ok extraction
  pub signatures_found : t.get_signatures extraction ≡ ok signatures
  pub block_found : t.get_block extraction ≡ ok block
  pub transaction_found :
      t.get_transactions extraction (Option.map length signatures) ≡ ok transaction
  pub events_found : t.get_events extraction ≡ ok events
  pub changes_found : t.get_changes extraction ≡ ok changes

module _ (t : Tables) (o : TableOptions) (b : Buffers t) (tx : t.Tx) (c : Converts t tx) where
  never_err : (e : ExtractError t) → add_tx t o b tx ≢ err e
  unfolding add_tx add_signatures add_block add_transaction add_events add_changes
  never_err e h = ground (
    arith, c.extracted, c.signatures_found, c.block_found, c.transaction_found, c.events_found,
    c.changes_found,
  )

  never_panic : add_tx t o b tx ≢ panic
  unfolding add_tx add_signatures add_block add_transaction add_events add_changes
  never_panic h = ground (
    arith, c.extracted, c.signatures_found, c.block_found, c.transaction_found, c.events_found,
    c.changes_found,
  )

  pub add_tx-Converts : (b' : Buffers t) × (add_tx t o b tx ≡ ok b')
  add_tx-Converts = elim (Result-cases (add_tx t o b tx)) [
    | returned b' e ↦ (b', e)
    | failed x e ↦ absurd (never_err x e)
    | stopped e ↦ absurd (never_panic e)
  ]
