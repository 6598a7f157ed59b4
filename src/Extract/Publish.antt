-- ===== src/Extract/Publish.antt =====
-- What is sent to the publishers once the range is complete, in the order of the code.
use aptos_etl.Prelude.{ℕ, Bool, true, false, Option, some, List, [], ◌∷◌, ◌++◌, if◌then◌else◌}
use aptos_etl.Prelude.Text.{Text, codes, to_string}
use aptos_etl.Timestamp.{UnixTimestamp}
use aptos_etl.Options.{
  TableOptions, do_blocks, do_signatures, do_transactions, do_events, do_changes, do_modules,
  do_resources, do_table_items,
}
use aptos_etl.Extract.Interface.{Tables}
use aptos_etl.Extract.Collect.{Column, Buffers}

-- One call of `publish_records`: the records, the name and the timestamps.
pub record Batch (A : Type 0) : Type 0 where
  pub records : List A
  pub name : Option Text
  pub timestamps : List UnixTimestamp

-- `format!("{}_{}", start, end)`
abbrev pub range_name : ℕ → ℕ → Text
range_name start end = to_string start ++ codes "_" ++ to_string end

abbrev pub batch : {A : Type 0} → ℕ → ℕ → Column A → Batch A
batch start end c = record {
  records = c.records;
  name = some (range_name start end);
  timestamps = c.timestamps;
}

module _ (t : Tables) where
  -- A publisher with the batch that it is sent.
  pub data Publication : Type 0 where
    transactions : Batch t.Transaction → Publication
    changes : Batch t.Change → Publication
    modules : Batch t.Module → Publication
    table_items : Batch t.TableItem → Publication
    resources : Batch t.Resource → Publication
    blocks : Batch t.Block → Publication
    events : Batch t.Event → Publication
    signatures : Batch t.Signature → Publication

  unfoldable pub publish_if : Bool → Publication → List Publication
  publish_if true p = p ∷ []
  publish_if false p = []

  unfoldable pub publish_all : TableOptions → ℕ → ℕ → Buffers t → List Publication
  publish_all o start end b =
      publish_if (do_transactions o) (transactions (batch start end b.transactions))
      ++ publish_if (do_changes o) (changes (batch start end b.changes))
      ++ publish_if (do_modules o) (modules (batch start end b.modules))
      ++ publish_if (do_table_items o) (table_items (batch start end b.table_items))
      ++ publish_if (do_resources o) (resources (batch start end b.resources))
      ++ publish_if (do_blocks o) (blocks (batch start end b.blocks))
      ++ publish_if (do_events o) (events (batch start end b.events))
      ++ publish_if (do_signatures o) (signatures (batch start end b.signatures))

  -- The publications are made in order; a publisher that does not take its batch panics.
  unfoldable pub publish_each : (Publication → Bool) → List Publication → List Publication × Bool
  publish_each takes [] = ([], true)
  publish_each takes (p ∷ ps) =
      let rest = publish_each takes ps in if takes p then (p ∷ rest.0, rest.1) else ([], false)
