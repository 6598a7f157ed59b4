-- ===== src/Records.antt =====
-- The records of one transaction, of every table: processing/tables/all.rs.
pub mod SameRows
mod Tests
use mathlib.Core.Option
use aptos_etl.Prelude.{
  ℕ, Bool, true, false, Option, none, some, List, [], ◌∷◌, ◌++◌, map, length, Result, ok, err,
  panic, ◌>>=◌, map_err, ltb, if◌then◌else◌,
}
use aptos_etl.Prelude.Int.{ltb_ℤ}
use aptos_etl.Timestamp.{UnixTimestamp}
use aptos_etl.Extract.Interface.{Tables}

module _ (t : Tables) where
  pub record Records : Type 0 where
    pub transactions : List t.Transaction
    pub blocks : List t.Block
    pub table_items : List t.TableItem
    pub resources : List t.Resource
    pub modules : List t.Module
    pub changes : List t.Change
    pub events : List t.Event
    pub signatures : List t.Signature

  -- The boxed error of `extract_records`.
  pub data RecordsError : Type 0 where
    tx_error : t.TxExtractionError → RecordsError
    block_error : t.BlockError → RecordsError
    change_error : t.ChangeError → RecordsError
    event_error : t.EventError → RecordsError
    signature_error : t.SigProcessError → RecordsError
    transaction_error : t.TxError → RecordsError

  abbrev pub new : Records
  new = record {
    transactions = [];
    blocks = [];
    table_items = [];
    resources = [];
    modules = [];
    changes = [];
    events = [];
    signatures = [];
  }

  abbrev pub add_block : Option t.Block → Records → Records
  add_block none r = r
  add_block (some block) r = record r { blocks = r.blocks ++ block ∷ [] }

  abbrev pub add_changes :
      List t.Change × List t.Resource × List t.Module × List t.TableItem → Records → Records
  add_changes (changes, resources, modules, tableitems) r = record r {
    changes = r.changes ++ changes;
    resources = r.resources ++ resources;
    table_items = r.table_items ++ tableitems;
    modules = r.modules ++ modules;
  }

  abbrev pub add_events : Option (List t.Event) → Records → Records
  add_events none r = r
  add_events (some events) r = record r { events = r.events ++ events }

  -- The records, and the count of the signatures.
  abbrev pub add_signatures : Option (List t.Signature) → Records → Records
  add_signatures none r = r
  add_signatures (some sigs) r = record r { signatures = r.signatures ++ sigs }

  unfoldable pub extract_records : t.Tx → Result RecordsError Records
  extract_records tx = do
    x ← map_err tx_error (t.try_from tx)
    block ← map_err block_error (t.get_block x)
    changes ← map_err change_error (t.get_changes x)
    events ← map_err event_error (t.get_events x)
    sigs ← map_err signature_error (t.get_signatures x)
    row ← map_err transaction_error (t.get_transactions x (Option.map length sigs))
    let r = add_signatures sigs (add_events events (add_changes changes (add_block block new)))
    ok (record r { transactions = r.transactions ++ row ∷ [] })

  -- `Iterator::min` and `Iterator::max`
  abbrev pub least : ℕ → List ℕ → ℕ
  least n [] = n
  least n (m ∷ ms) = least (if ltb m n then m else n) ms

  abbrev pub greatest : ℕ → List ℕ → ℕ
  greatest n [] = n
  greatest n (m ∷ ms) = greatest (if ltb m n then n else m) ms

  -- The version of a row is a parameter.
  unfoldable pub get_range : (t.Transaction → ℕ) → Records → Option (ℕ × ℕ)
  get_range tx_version r = elim (map tx_version r.transactions) [
    | [] ↦ none
    | v ∷ vs ↦ some (least v vs, greatest v vs)
  ]

  abbrev pub earliest : UnixTimestamp → List UnixTimestamp → UnixTimestamp
  earliest cur_earliest [] = cur_earliest
  earliest cur_earliest (time ∷ times) =
      earliest (if ltb_ℤ time.seconds cur_earliest.seconds then time else cur_earliest) times

  unfoldable pub earliest_timestamp : Records → Option UnixTimestamp
  earliest_timestamp r = elim (map t.transaction_time r.transactions) [
    | [] ↦ none
    | time ∷ times ↦ some (earliest time times)
  ]
