-- ===== src/Extract/Interface.antt =====
-- What `extract_range` asks of the rest of the transformer, and the errors that it reports.
use aptos_etl.Prelude.{ℕ, Option, List, Result}
use aptos_etl.Prelude.Text.{Text}
use aptos_etl.Timestamp.{UnixTimestamp}

-- The conversions of processing/reps/transaction/tx.rs and of processing/tables, by table.
pub record Tables : Type 1 where
  pub Tx : Type 0
  pub TransactionExtraction : Type 0
  pub Signature : Type 0
  pub Block : Type 0
  pub Transaction : Type 0
  pub Event : Type 0
  pub Change : Type 0
  pub Resource : Type 0
  pub Module : Type 0
  pub TableItem : Type 0
  pub TxExtractionError : Type 0
  pub SigProcessError : Type 0
  pub BlockError : Type 0
  pub TxError : Type 0
  pub EventError : Type 0
  pub ChangeError : Type 0
  -- The greatest capacity that `Vec::with_capacity` takes for a table's records.
  pub max_capacity : ℕ
  pub version : Tx → ℕ
  pub try_from : Tx → Result TxExtractionError TransactionExtraction
  pub get_signatures : TransactionExtraction → Result SigProcessError (Option (List Signature))
  pub get_block : TransactionExtraction → Result BlockError (Option Block)
  pub get_transactions : TransactionExtraction → Option ℕ → Result TxError Transaction
  pub get_events : TransactionExtraction → Result EventError (Option (List Event))
  pub get_changes :
      TransactionExtraction
      → Result ChangeError (List Change × List Resource × List Module × List TableItem)
  pub signature_time : Signature → UnixTimestamp
  pub block_time : Block → UnixTimestamp
  pub transaction_time : Transaction → UnixTimestamp
  pub event_time : Event → UnixTimestamp
  pub change_time : Change → UnixTimestamp
  pub resource_time : Resource → UnixTimestamp
  pub module_time : Module → UnixTimestamp
  pub table_item_time : TableItem → UnixTimestamp

-- grpc/stream.rs; of the parsing errors only their kind is kept.
pub data StreamCreationError : Type 0 where
  missing_env not_unicode_env : Text → StreamCreationError
  url_parsing_err int_parsing_err bad_response : StreamCreationError

-- A `tonic::Status`, by its code and message.
pub record Status : Type 0 where
  pub code : ℕ
  pub message : Text

module _ (t : Tables) where
  -- The kinds of `ExtractError` that the extraction of a range gives.
  pub data ExtractError : Type 0 where
    stream_creation_error : StreamCreationError → ExtractError
    stream_error_status : Status → ExtractError
    tx_extraction : t.TxExtractionError → ExtractError
    tx_record : t.TxError → ExtractError
    signature_record : t.SigProcessError → ExtractError
    event_record : t.EventError → ExtractError
    change_record : t.ChangeError → ExtractError
    block_record : t.BlockError → ExtractError

  pub record ExtractionInteruptionError : Type 0 where
    pub extracterror : ExtractError
    pub start_version : ℕ
    pub end_version : ℕ
    pub failed_on : ℕ
