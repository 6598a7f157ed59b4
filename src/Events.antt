-- ===== src/Events.antt =====
-- The table of events: processing/tables/events.rs, the extraction of an event of
-- processing/reps/events.rs, and the check of its JSON of processing/reps/json.rs.
pub mod Listed
mod Tests
use aptos_etl.Prelude.{
  ℕ, suc, ◌^◌, Bool, true, false, Option, none, some, List, [], ◌∷◌, Result, ok, err, panic, ◌>>=◌,
  map_err, ltb, if◌then◌else◌,
}
use aptos_etl.Prelude.Int.{ℤ}
use aptos_etl.Prelude.Text.{Text, to_string}
use aptos_etl.Address.{Address, AddressError, string, try_encode}
use aptos_etl.Timestamp.{TimestampError, UnixTimestamp, Chrono}
use aptos_etl.Types as Types
use aptos_etl.Types.{MoveType, move_type, MoveTypeError, MoveTypes, Content, Enumeration}
use aptos_etl.Transaction.Messages.{Protos, InputEvent, EventKey}
use aptos_etl.Transaction.Data.{TxDataExtractError, sequence_number}
use aptos_etl.Transaction.Data as Data
use aptos_etl.Transaction.{
  TransactionExtraction, get_encoded_timestamp, get_unix_timestamp, get_encoded_hash,
}

pub data JsonStringError : Type 0 where
  invalid_json_string : Text → JsonStringError

-- `JsonObjectString::try_from`, with the parser of `serde_json` as a test.
unfoldable pub json_try_from : (Text → Bool) → Text → Result JsonStringError Text
json_try_from is_json value = if is_json value then ok value else err (invalid_json_string value)

pub data EventExtractionError : Type 0 where
  missing_event_key missing_move_type unspecified_move_type : EventExtractionError
  move_type_error : MoveTypeError → EventExtractionError
  address : AddressError → EventExtractionError
  json_err : JsonStringError → EventExtractionError

pub record EventExtraction : Type 0 where
  pub address : Address
  pub creation_number : ℕ
  pub sequence_number : ℕ
  pub kind : MoveTypes
  pub content : Content
  pub type_str : Text
  pub contents : Text

abbrev pub event_key : Option EventKey → Result EventExtractionError EventKey
event_key (some key) = ok key
event_key none = err missing_event_key

abbrev pub event_type :
    Enumeration → Option MoveType → Result EventExtractionError (MoveTypes × Content)
event_type E (some (move_type n c)) =
    map_err move_type_error (Types.try_from E n) >>= λ kind. ok (kind, c)
event_type E none = err missing_move_type

-- The panic on what is not JSON.
abbrev pub json_or_panic : Result JsonStringError Text → Result EventExtractionError Text
json_or_panic (ok jsonobjstr) = ok jsonobjstr
json_or_panic (err e) = panic
json_or_panic panic = panic

unfoldable pub try_from :
    Enumeration → (Text → Bool) → InputEvent → Result EventExtractionError EventExtraction
try_from E is_json value = do
  eventkey ← event_key value.key
  movetype ← event_type E value.type_of
  json ← json_or_panic (json_try_from is_json value.contents)
  ok (record {
    address = string eventkey.account_address;
    creation_number = eventkey.creation_number;
    sequence_number = value.sequence_number;
    kind = movetype.0;
    content = movetype.1;
    type_str = value.type_str;
    contents = json;
  })

-- The message of proto_src/events.proto.
pub record Event : Type 0 where
  pub block_height : ℤ
  pub block_timestamp : Text
  pub tx_version : ℕ
  pub tx_hash : Text
  pub tx_sequence_number : Option ℕ
  pub tx_sequence_number_big : Option Text
  pub event_index : ℕ
  pub address : Text
  pub event_type : Text
  pub creation_num : ℕ
  pub sequence_number : ℕ
  pub contents : Text
  pub block_unixtimestamp : UnixTimestamp

-- `i64::try_from` of the number, and what is kept of it; its text is always kept.
abbrev pub small_number : Option ℕ → Option ℕ
small_number none = none
small_number (some number) = if ltb number (2 ^ 63) then some number else none

abbrev pub number_text : Option ℕ → Option Text
number_text none = none
number_text (some number) = some (to_string number)

pub data EventError (p : Protos) : Type 0 where
  event_extraction : EventExtractionError → EventError p
  timestamp : TimestampError → EventError p
  address_error : AddressError → EventError p
  tx_data_extract : TxDataExtractError p → EventError p

module _ (p : Protos) (E : Enumeration) (is_json : Text → Bool) where
  unfoldable pub get_event :
      TransactionExtraction p → Text → ℕ → InputEvent → Result (EventError p) Event
  get_event tx time index event = do
    extraction ← map_err event_extraction (try_from E is_json event)
    number ← map_err tx_data_extract (sequence_number p tx.tx_data)
    printed ← map_err address_error (try_encode extraction.address)
    ok (record {
      block_height = tx.blockheight;
      block_timestamp = time;
      tx_version = tx.version;
      tx_hash = get_encoded_hash p tx;
      tx_sequence_number = small_number number;
      tx_sequence_number_big = number_text number;
      event_index = index;
      address = printed;
      event_type = extraction.type_str;
      creation_num = extraction.creation_number;
      sequence_number = extraction.sequence_number;
      contents = extraction.contents;
      block_unixtimestamp = get_unix_timestamp p tx;
    })

  -- The loop over the events from an index on.
  unfoldable pub records_from :
      TransactionExtraction p → Text → ℕ → List InputEvent → Result (EventError p) (List Event)
  records_from tx time index [] = ok []
  records_from tx time index (event ∷ events) = get_event tx time index event >>= λ record_.
      records_from tx time (suc index) events >>= λ records. ok (record_ ∷ records)

  abbrev pub of_events :
      Chrono
      → TransactionExtraction p
      → Option (List InputEvent)
      → Result (EventError p) (Option (List Event))
  of_events c tx none = ok none
  of_events c tx (some events) = map_err timestamp (get_encoded_timestamp p c tx) >>= λ time.
      records_from tx time 0 events >>= λ records. ok (some records)

  unfoldable pub get_events :
      Chrono → TransactionExtraction p → Result (EventError p) (Option (List Event))
  get_events c tx = of_events c tx (Data.events p tx.tx_data)
