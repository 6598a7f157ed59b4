-- ===== src/Json/Events.antt =====
-- The serialisation of an event and its way back: processing/reps/events.rs.
pub mod Reread
use aptos_etl.Prelude.{
  ℕ, ◌^◌, ◌≡◌, refl, Option, none, some, List, [], ◌∷◌, Result, ok, err, panic, ◌>>=◌, ok_or,
  map_ok, map_err, ltb, if◌then◌else◌, arith,
}
use aptos_etl.Prelude.Int.{ℤ}
use aptos_etl.Prelude.Text.{Text, codes, text_eq, to_string}
use aptos_etl.Timestamp.{UnixTimestamp}
use aptos_etl.Events.{Event, small_number, number_text}
use aptos_etl.Json.{
  Serde, IsLawful, IsU64, IsI64, SerError, DeError, serialized, missing_field, Member, json_value,
  of_option, next_value, next_option, parse_i64, i64_as_u64, or_some,
}

-- The variables of `visit_map`.
pub record Visited : Type 0 where
  pub block_height : Option ℤ
  pub block_timestamp : Option Text
  pub tx_version : Option ℕ
  pub tx_hash : Option Text
  pub tx_sequence_number : Option ℕ
  pub tx_sequence_number_big : Option Text
  pub event_index : Option ℕ
  pub event_type : Option Text
  pub address : Option Text
  pub creation_num : Option ℕ
  pub sequence_number : Option ℕ
  pub contents : Option Text
  pub block_unixtimestamp : Option UnixTimestamp

abbrev pub nothing : Visited
nothing = record {
  block_height = none;
  block_timestamp = none;
  tx_version = none;
  tx_hash = none;
  tx_sequence_number = none;
  tx_sequence_number_big = none;
  event_index = none;
  event_type = none;
  address = none;
  creation_num = none;
  sequence_number = none;
  contents = none;
  block_unixtimestamp = none;
}

-- The key `tx_sequence_number`, with the number's text
abbrev pub keep_number : ℕ → Text → Visited → Visited
keep_number num text r =
    let big = or_some r.tx_sequence_number_big text in
    if ltb num (2 ^ 63)
    then record r { tx_sequence_number = some num; tx_sequence_number_big = big }
    else record r { tx_sequence_number_big = big }

abbrev pub set_number : Option ℕ → Visited → Visited
set_number none r = r
set_number (some num) r = keep_number num (to_string num) r

-- The key `tx_sequence_number_big`
abbrev pub set_parsed : Text → Option ℤ → Visited → Visited
set_parsed s (some num) r = record r {
  tx_sequence_number_big = some s;
  tx_sequence_number = or_some r.tx_sequence_number (i64_as_u64 num);
}
set_parsed s none r = record r { tx_sequence_number_big = some s }

abbrev pub set_big : Option Text → Visited → Visited
set_big none r = r
set_big (some s) r = set_parsed s (parse_i64 s) r

abbrev pub finish : Visited → Result DeError Event
finish r = do
  block_height ← ok_or r.block_height (missing_field (codes "block_height"))
  block_timestamp ← ok_or r.block_timestamp (missing_field (codes "block_timestamp"))
  tx_version ← ok_or r.tx_version (missing_field (codes "tx_version"))
  tx_hash ← ok_or r.tx_hash (missing_field (codes "tx_hash"))
  event_index ← ok_or r.event_index (missing_field (codes "event_index"))
  event_type ← ok_or r.event_type (missing_field (codes "event_type"))
  address ← ok_or r.address (missing_field (codes "address"))
  creation_num ← ok_or r.creation_num (missing_field (codes "creation_num"))
  sequence_number ← ok_or r.sequence_number (missing_field (codes "sequence_number"))
  contents ← ok_or r.contents (missing_field (codes "data"))
  block_unixtimestamp ← ok_or r.block_unixtimestamp (missing_field (codes "block_unixtimestamp"))
  ok (record {
    block_height = block_height;
    block_timestamp = block_timestamp;
    tx_version = tx_version;
    tx_hash = tx_hash;
    tx_sequence_number = r.tx_sequence_number;
    tx_sequence_number_big = r.tx_sequence_number_big;
    event_index = event_index;
    address = address;
    event_type = event_type;
    creation_num = creation_num;
    sequence_number = sequence_number;
    contents = contents;
    block_unixtimestamp = block_unixtimestamp;
  })

module _ (s : Serde) where
  open s use {Value, of_u64, to_u64, of_i64, to_i64, of_text, to_text, of_unix, to_unix}

  abbrev pub fields : Event → Value → List (Member s)
  fields e jos =
      (codes "block_height", of_i64 e.block_height)
      ∷ (codes "block_timestamp", of_text e.block_timestamp)
      ∷ (codes "tx_version", of_u64 e.tx_version)
      ∷ (codes "tx_hash", of_text e.tx_hash)
      ∷ (codes "tx_sequence_number", of_option s of_u64 e.tx_sequence_number)
      ∷ (codes "event_index", of_u64 e.event_index)
      ∷ (codes "event_type", of_text e.event_type)
      ∷ (codes "address", of_text e.address)
      ∷ (codes "creation_num", of_u64 e.creation_num)
      ∷ (codes "sequence_number", of_u64 e.sequence_number)
      ∷ (codes "data", jos)
      ∷ (codes "block_unixtimestamp", of_unix e.block_unixtimestamp)
      ∷ []

  unfoldable pub serialize : Event → Result SerError (List (Member s))
  serialize e = json_value s e.contents >>= λ jos. ok (fields e jos)

  -- One round of the loop over the members of the object.
  abbrev pub visit : Member s → Visited → Result DeError Visited
  visit (key, v) r =
      if text_eq key (codes "block_height")
      then map_ok (λ x. record r { block_height = some x }) (next_value s to_i64 v)
      else if text_eq key (codes "block_timestamp")
      then map_ok (λ x. record r { block_timestamp = some x }) (next_value s to_text v)
      else if text_eq key (codes "tx_version")
      then map_ok (λ x. record r { tx_version = some x }) (next_value s to_u64 v)
      else if text_eq key (codes "tx_hash")
      then map_ok (λ x. record r { tx_hash = some x }) (next_value s to_text v)
      else if text_eq key (codes "tx_sequence_number")
      then map_ok (λ x. set_number x r) (next_option s to_u64 v)
      else if text_eq key (codes "tx_sequence_number_big")
      then map_ok (λ x. set_big x r) (next_option s to_text v)
      else if text_eq key (codes "event_index")
      then map_ok (λ x. record r { event_index = some x }) (next_value s to_u64 v)
      else if text_eq key (codes "event_type")
      then map_ok (λ x. record r { event_type = some x }) (next_value s to_text v)
      else if text_eq key (codes "address")
      then map_ok (λ x. record r { address = some x }) (next_value s to_text v)
      else if text_eq key (codes "creation_num")
      then map_ok (λ x. record r { creation_num = some x }) (next_value s to_u64 v)
      else if text_eq key (codes "sequence_number")
      then map_ok (λ x. record r { sequence_number = some x }) (next_value s to_u64 v)
      else if text_eq key (codes "data")
      then map_ok (λ x. record r { contents = some x }) (next_value s to_text v)
      else if text_eq key (codes "block_unixtimestamp")
      then map_ok (λ x. record r { block_unixtimestamp = some x }) (next_value s to_unix v)
      else ok r

  abbrev pub visit_map : List (Member s) → Visited → Result DeError Event
  visit_map [] r = finish r
  visit_map (m ∷ map) r = visit m r >>= visit_map map

  unfoldable pub deserialize : List (Member s) → Result DeError Event
  deserialize map = visit_map map nothing
