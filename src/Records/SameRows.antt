-- ===== src/Records/SameRows.antt =====
-- `extract_records` and the loop of `extract_range` make the same rows of a transaction.
use mathlib.Core.Option
use aptos_etl.Prelude.{
  ◌≡◌, refl, sym, ap, ◌∙◌, ◌↔◌, Option, List, [], ◌∷◌, length, Result, ok, err, panic, map_err,
  >>=-ok-elim, map_err-eq-ok, arith, subst, ℕ,
}
use aptos_etl.Options.{
  new_all, do_blocks, do_signatures, do_transactions, do_events, do_changes, do_modules,
  do_resources, do_table_items, do_changes_or_subchanges,
}
use aptos_etl.Extract.Interface.{Tables, tx_extraction}
use aptos_etl.Extract.Collect.{Buffers, Column, extend, add_tx, flatten_option, option_rows}
use aptos_etl.Extract.Collect as Collect
use aptos_etl.Extract.Converting.{Converts, add_tx-Converts}
use aptos_etl.Extract.Rows.Stages.{add_rows, add_tx-add_rows}
use aptos_etl.Records.{
  Records, tx_error, block_error, change_error, event_error, signature_error, transaction_error,
  extract_records,
}

module _ (t : Tables) (tx : t.Tx) where
  -- The records that the conversions of a transaction make.
  abbrev pub records_of : Converts t tx → Records t
  records_of c = record {
    transactions = c.transaction ∷ [];
    blocks = option_rows c.block;
    table_items = c.changes.3;
    resources = c.changes.1;
    modules = c.changes.2;
    changes = c.changes.0;
    events = flatten_option c.events;
    signatures = flatten_option c.signatures;
  }

  extract_records-Converts : (c : Converts t tx) → extract_records t tx ≡ ok (records_of c)
  unfolding extract_records
  extract_records-Converts c = ground (
    arith, c.extracted, c.signatures_found, c.block_found, c.transaction_found, c.events_found,
    c.changes_found,
  )

  pub converts_of :
      (r : Records t) → extract_records t tx ≡ ok r → (c : Converts t tx) × (r ≡ records_of c)
  unfolding extract_records
  converts_of r h = >>=-ok-elim (map_err tx_error (t.try_from tx)) _ h (λ x ex h₁.
      >>=-ok-elim (map_err block_error (t.get_block x)) _ h₁ (λ block eb h₂.
        >>=-ok-elim (map_err change_error (t.get_changes x)) _ h₂ (λ changes ec h₃.
          >>=-ok-elim (map_err event_error (t.get_events x)) _ h₃ (λ events ee h₄.
            >>=-ok-elim (map_err signature_error (t.get_signatures x)) _ h₄ (λ sigs es h₅.
              >>=-ok-elim
                (map_err transaction_error (t.get_transactions x (Option.map length sigs))) _ h₅
                (λ row et h₆.
                  let c : Converts t tx = record {
                    extraction = x;
                    signatures = sigs;
                    block = block;
                    transaction = row;
                    events = events;
                    changes = changes;
                    extracted = map_err-eq-ok tx_error (t.try_from tx) ex;
                    signatures_found = map_err-eq-ok signature_error (t.get_signatures x) es;
                    block_found = map_err-eq-ok block_error (t.get_block x) eb;
                    transaction_found =
                        map_err-eq-ok transaction_error
                          (t.get_transactions x (Option.map length sigs)) et;
                    events_found = map_err-eq-ok event_error (t.get_events x) ee;
                    changes_found = map_err-eq-ok change_error (t.get_changes x) ec;
                  } in
                  (c, let made = extract_records-Converts c in cc)))))))

module _ {ℓ} {E : Type ℓ} {A : Type 0} where
  -- A result that neither fails nor panics has a value.
  value_of : (m : Result E A) → ((e : E) → m ≡ err e → ⊥) → (m ≡ panic → ⊥) → (a : A) × (m ≡ ok a)
  value_of (ok a) no_error no_panic = (a, refl)
  value_of (err e) no_error no_panic = absurd (no_error e refl)
  value_of panic no_error no_panic = absurd (no_panic refl)

-- What the stages of a round have computed, with every table asked for.
module _ (t : Tables) (b b' : Buffers t) (x : t.TransactionExtraction) where
  signatures_value :
      (cnt : Option ℕ)
      → Collect.add_signatures t new_all b x ≡ ok (cnt, b')
      → (sigs : Option (List t.Signature)) × (t.get_signatures x ≡ ok sigs)
        × (cnt ≡ Option.map length sigs)
  unfolding Collect.add_signatures new_all do_signatures do_transactions
  signatures_value cnt h =
      let (sigs, e) =
        value_of (t.get_signatures x) (λ e r. ground (arith, h, r)) (λ r. ground (arith, h, r)) in
      (sigs, e, ground (arith, h, e))

  block_value :
      Collect.add_block t new_all b x ≡ ok b' → (o : Option t.Block) × (t.get_block x ≡ ok o)
  unfolding Collect.add_block new_all do_blocks
  block_value h = value_of (t.get_block x) (λ e r. ground (arith, h, r)) (λ r. ground (arith, h, r))

  transaction_value :
      (cnt : Option ℕ)
      → Collect.add_transaction t new_all cnt b x ≡ ok b'
      → (r : t.Transaction) × (t.get_transactions x cnt ≡ ok r)
  unfolding Collect.add_transaction new_all do_transactions
  transaction_value cnt h =
      value_of (t.get_transactions x cnt) (λ e r. ground (arith, h, r)) (λ r. ground (arith, h, r))

  events_value :
      Collect.add_events t new_all b x ≡ ok b'
      → (o : Option (List t.Event)) × (t.get_events x ≡ ok o)
  unfolding Collect.add_events new_all do_events
  events_value h =
      value_of (t.get_events x) (λ e r. ground (arith, h, r)) (λ r. ground (arith, h, r))

  changes_value :
      Collect.add_changes t new_all b x ≡ ok b'
      → (r : List t.Change × List t.Resource × List t.Module × List t.TableItem) × (t.get_changes x
          ≡ ok r)
  unfolding Collect.add_changes new_all do_changes_or_subchanges do_changes
  changes_value h =
      value_of (t.get_changes x) (λ e r. ground (arith, h, r)) (λ r. ground (arith, h, r))

module _ (t : Tables) (b : Buffers t) (tx : t.Tx) where
  -- With every table asked for, a round that succeeds has made every conversion.
  all_converted : (b' : Buffers t) → add_tx t new_all b tx ≡ ok b' → Converts t tx
  unfolding add_tx
  all_converted b' h = >>=-ok-elim (map_err tx_extraction (t.try_from tx)) _ h (λ x ex h₁.
      >>=-ok-elim (Collect.add_signatures t new_all b x) _ h₁ (λ (cnt, b₁) e₁ h₂.
        >>=-ok-elim (Collect.add_block t new_all b₁ x) _ h₂ (λ b₂ e₂ h₃.
          >>=-ok-elim (Collect.add_transaction t new_all cnt b₂ x) _ h₃ (λ b₃ e₃ h₄.
            >>=-ok-elim (Collect.add_events t new_all b₃ x) _ h₄ (λ b₄ e₄ e₅.
              let (sigs, es, counted) = signatures_value t b b₁ x cnt e₁ in
              let (block, eb) = block_value t b₁ b₂ x e₂ in
              let (row, et) = transaction_value t b₂ b₃ x cnt e₃ in
              let (events, ee) = events_value t b₃ b₄ x e₄ in
              let (changes, ec) = changes_value t b₄ b' x e₅ in
              record {
                extraction = x;
                signatures = sigs;
                block = block;
                transaction = row;
                events = events;
                changes = changes;
                extracted = map_err-eq-ok tx_extraction (t.try_from tx) ex;
                signatures_found = es;
                block_found = eb;
                transaction_found = subst (λ n. t.get_transactions x n ≡ ok row) counted et;
                events_found = ee;
                changes_found = ec;
              })))))

  -- The buffers with the records of a transaction added.
  abbrev pub with_records : Records t → Buffers t
  with_records r = record {
    transactions = extend t.transaction_time b.transactions r.transactions;
    blocks = extend t.block_time b.blocks r.blocks;
    changes = extend t.change_time b.changes r.changes;
    signatures = extend t.signature_time b.signatures r.signatures;
    events = extend t.event_time b.events r.events;
    table_items = extend t.table_item_time b.table_items r.table_items;
    modules = extend t.module_time b.modules r.modules;
    resources = extend t.resource_time b.resources r.resources;
  }

  add_rows-records_of :
      (c : Converts t tx) → add_rows t new_all b c.extraction ≡ with_records (records_of t tx c)
  unfolding new_all do_blocks do_signatures do_transactions do_events do_changes do_modules
      do_resources do_table_items
  add_rows-records_of c =
      rw (c.signatures_found, c.block_found, c.events_found, c.changes_found)
        (rw c.transaction_found refl)

  round-records_of :
      (c : Converts t tx) (b' : Buffers t)
      → add_tx t new_all b tx ≡ ok b'
      → b' ≡ with_records (records_of t tx c)
  round-records_of c b' h =
      let (x, ex, at) = add_tx-add_rows t new_all b b' tx h in
      let same : x ≡ c.extraction = let found = c.extracted in cc in
      at ∙ ap (add_rows t new_all b) same ∙ add_rows-records_of c

  -- A transaction has its records exactly if a round of the range's loop, with every table asked for,
  -- succeeds on it; the round then adds just these records to each table's column. So the two ways to
  -- extract a transaction agree, though they ask the tables in different orders.
  pub add_tx-extract_records :
      (b' : Buffers t)
      → ((r : Records t) × (extract_records t tx ≡ ok r) × (b' ≡ with_records r))
        ↔ (add_tx t new_all b tx ≡ ok b')
  add_tx-extract_records b' = (
    λ (r, e, at).
        let (c, same) = converts_of t tx r e in
        let (b₁, added) = add_tx-Converts t new_all b tx c in
        added ∙ ap ok (round-records_of c b₁ added ∙ ap with_records (sym same) ∙ sym at),
    λ h.
        let c = all_converted b' h in
        (records_of t tx c, extract_records-Converts t tx c, round-records_of c b' h),
  )
