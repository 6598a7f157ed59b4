-- ===== src/Transformer.antt =====
-- The conversions of the tables that the extraction of a range asks for:
-- extractor_transformer/src/aptos_config/processing, composed as mod.rs composes them.
pub mod Changed
pub mod Quiet
pub mod Range
pub mod Users
mod Tests
pub mod Requests
pub mod Rows
pub mod Signed
use aptos_etl.Prelude.{ℕ, List, Result, ok, ◌>>=◌}
use aptos_etl.Transaction.{TransactionExtraction, TxExtractionError}
use aptos_etl.Transaction as Transaction
use aptos_etl.Service.{Service, protos}
use aptos_etl.Signatures.Records.{SigProcessError, get_signatures}
use aptos_etl.Signatures.Records as Signatures
use aptos_etl.Blocks.{BlockError, get_block}
use aptos_etl.Blocks as Blocks
use aptos_etl.Events.{EventError, get_events}
use aptos_etl.Events as Events
use aptos_etl.Transactions.{get_transactions}
use aptos_etl.Transactions.Row.{TxError}
use aptos_etl.Transactions.Row as Transactions
use aptos_etl.ChangeRecords.{ChangeError, Change, Resource, Module, TableItem, get_changes}
use aptos_etl.Extract.Interface.{Tables}

module _ (s : Service) where
  abbrev pub changes_of :
      TransactionExtraction (protos s)
      → Result (ChangeError s) (List Change × List Resource × List Module × List TableItem)
  changes_of tx = get_changes s tx >>= λ r. ok (r.changes, r.resources, r.modules, r.tableitems)

  -- The capacity that a vector can have is left open.
  abbrev pub tables : ℕ → Tables
  tables capacity = record {
    Tx = Transaction.Transaction (protos s);
    TransactionExtraction = TransactionExtraction (protos s);
    Signature = Signatures.Signature;
    Block = Blocks.Block;
    Transaction = Transactions.Transaction;
    Event = Events.Event;
    Change = Change;
    Resource = Resource;
    Module = Module;
    TableItem = TableItem;
    TxExtractionError = TxExtractionError (protos s);
    SigProcessError = SigProcessError (protos s);
    BlockError = BlockError (protos s);
    TxError = TxError s;
    EventError = EventError (protos s);
    ChangeError = ChangeError s;
    max_capacity = capacity;
    version = λ tx. tx.version;
    try_from = Transaction.try_from (protos s);
    get_signatures = get_signatures (protos s) s.chrono;
    get_block = get_block (protos s) s.bytes_to_base64 s.chrono;
    get_transactions = get_transactions s;
    get_events = get_events (protos s) s.types s.is_json s.chrono;
    get_changes = changes_of;
    signature_time = λ r. r.block_unixtimestamp;
    block_time = λ r. r.block_unixtimestamp;
    transaction_time = λ r. r.block_unixtimestamp;
    event_time = λ r. r.block_unixtimestamp;
    change_time = λ r. r.place.block_unixtimestamp;
    resource_time = λ r. r.place.block_unixtimestamp;
    module_time = λ r. r.place.block_unixtimestamp;
    table_item_time = λ r. r.place.block_unixtimestamp;
  }
