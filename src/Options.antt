-- ===== src/Options.antt =====
-- The request of a message, and the tables that it asks for: processing/tables/options.rs and the
-- messages of proto_src/pubsub_range.proto.
use aptos_etl.Prelude.{ℕ, Bool, true, false, ◌||◌, Option, none, some}

pub record TableOptions : Type 0 where
  pub blocks : Option Bool
  pub transactions : Option Bool
  pub events : Option Bool
  pub changes : Option Bool
  pub modules : Option Bool
  pub table_items : Option Bool
  pub resource : Option Bool
  pub signatures : Option Bool

abbrev all_set : Option Bool → TableOptions
all_set b = record {
  blocks = b;
  transactions = b;
  events = b;
  changes = b;
  modules = b;
  table_items = b;
  resource = b;
  signatures = b;
}

unfoldable pub new_all : TableOptions
new_all = all_set (some true)

unfoldable pub new_all_false : TableOptions
new_all_false = all_set (some false)

unfoldable pub new_all_none : TableOptions
new_all_none = all_set none

pub record IndexingRange : Type 0 where
  pub start : ℕ
  pub end : ℕ
  pub table : Option TableOptions

unfoldable pub table_options : IndexingRange → TableOptions
unfolding new_all
table_options r = elim r.table [ some options ↦ options | none ↦ new_all ]

-- `unwrap_or(false)`
abbrev or_false : Option Bool → Bool
or_false none = false
or_false (some b) = b

module _ (o : TableOptions) where
  unfoldable pub do_blocks : Bool
  do_blocks = or_false o.blocks

  unfoldable pub do_signatures : Bool
  do_signatures = or_false o.signatures

  unfoldable pub do_transactions : Bool
  do_transactions = or_false o.transactions

  unfoldable pub do_events : Bool
  do_events = or_false o.events

  unfoldable pub do_changes : Bool
  do_changes = or_false o.changes

  unfoldable pub do_modules : Bool
  do_modules = or_false o.modules

  unfoldable pub do_resources : Bool
  do_resources = or_false o.resource

  unfoldable pub do_table_items : Bool
  do_table_items = or_false o.table_items

  unfoldable pub do_changes_or_subchanges : Bool
  unfolding do_changes do_modules do_resources do_table_items
  do_changes_or_subchanges = do_changes || do_modules || do_resources || do_table_items
