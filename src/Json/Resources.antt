-- ===== src/Json/Resources.antt =====
-- The serialisation of a resource and its way back: processing/reps/changes.rs.
pub mod Reread
use aptos_etl.Prelude.{
  ℕ, Option, none, some, List, [], ◌∷◌, Result, ok, err, ◌>>=◌, ok_or, map_ok, if◌then◌else◌,
}
use aptos_etl.Prelude.Int.{ℤ}
use aptos_etl.Prelude.Text.{Text, codes, text_eq}
use aptos_etl.Timestamp.{UnixTimestamp}
use aptos_etl.Types.Tags.{StructTagOut}
use aptos_etl.ChangeRecords.Rows.{Place, Resource}
use aptos_etl.Json.{
  Serde, SerError, DeError, missing_field, Member, json_value, of_option, next_value,
}

-- The variables of `visit_map`.
pub record Visited : Type 0 where
  pub block_height : Option ℤ
  pub block_timestamp : Option Text
  pub tx_version : Option ℕ
  pub tx_hash : Option Text
  pub tx_sequence_number : Option ℕ
  pub tx_sequence_number_big : Option Text
  pub change_index : Option ℕ
  pub address : Option Text
  pub state_key_hash : Option Text
  pub change_type : Option Text
  pub struct_tag : Option StructTagOut
  pub type_str : Option Text
  pub contents : Option Text
  pub block_unixtimestamp : Option UnixTimestamp

abbrev pub nothing : Visited
nothing = record {
  block_height = none;
  block_timestamp = none;
  tx_version = none;
  tx_hash = none;
  tx_sequence_number = none;
  tx_sequence_number_big = none;
  change_index = none;
  address = none;
  state_key_hash = none;
  change_type = none;
  struct_tag = none;
  type_str = none;
  contents = none;
  block_unixtimestamp = none;
}

abbrev pub finish : Visited → Result DeError Resource
finish r = do
  block_height ← ok_or r.block_height (missing_field (codes "block_height"))
  block_timestamp ← ok_or r.block_timestamp (missing_field (codes "block_timestamp"))
  tx_version ← ok_or r.tx_version (missing_field (codes "tx_version"))
  tx_hash ← ok_or r.tx_hash (missing_field (codes "tx_hash"))
  change_index ← ok_or r.change_index (missing_field (codes "change_index"))
  address ← ok_or r.address (missing_field (codes "address"))
  state_key_hash ← ok_or r.state_key_hash (missing_field (codes "state_key_hash"))
  change_type ← ok_or r.change_type (missing_field (codes "change_type"))
  type_str ← ok_or r.type_str (missing_field (codes "type_str"))
  block_unixtimestamp ← ok_or r.block_unixtimestamp (missing_field (codes "block_unixtimestamp"))
  ok (record {
    place = record {
      block_height = block_height;
      block_timestamp = block_timestamp;
      tx_version = tx_version;
      tx_hash = tx_hash;
      change_index = change_index;
      block_unixtimestamp = block_unixtimestamp;
    };
    tx_sequence_number = r.tx_sequence_number;
    tx_sequence_number_big = r.tx_sequence_number_big;
    address = address;
    state_key_hash = state_key_hash;
    change_type = change_type;
    struct_tag = r.struct_tag;
    type_str = type_str;
    contents = r.contents;
  })

module _ (s : Serde) where
  open s use {
    Value, null, of_u64, to_u64, of_i64, to_i64, of_text, to_text, of_unix, to_unix, of_tag, to_tag,
  }

  -- What is written for the field `resource`.
  abbrev pub resource_value : Option Text → Result SerError Value
  resource_value (some resource) = json_value s resource
  resource_value none = ok null

  abbrev pub fields : Resource → Value → List (Member s)
  fields r jos =
      (codes "block_height", of_i64 r.place.block_height)
      ∷ (codes "block_timestamp", of_text r.place.block_timestamp)
      ∷ (codes "tx_version", of_u64 r.place.tx_version)
      ∷ (codes "tx_hash", of_text r.place.tx_hash)
      ∷ (codes "tx_sequence_number", of_option s of_u64 r.tx_sequence_number)
      ∷ (codes "change_index", of_u64 r.place.change_index)
      ∷ (codes "address", of_text r.address)
      ∷ (codes "state_key_hash", of_text r.state_key_hash)
      ∷ (codes "change_type", of_text r.change_type)
      ∷ (codes "struct_tag", of_option s of_tag r.struct_tag)
      ∷ (codes "type_str", of_text r.type_str)
      ∷ (codes "resource", jos)
      ∷ (codes "block_unixtimestamp", of_unix r.place.block_unixtimestamp)
      ∷ []

  unfoldable pub serialize : Resource → Result SerError (List (Member s))
  serialize r = resource_value r.contents >>= λ jos. ok (fields r jos)

  -- One round of the loop over the members of the object; both keys of the sequence number set the
  -- same variable.
  abbrev pub visit : Member s → Visited → Result DeError Visited
  visit (key, v) r =
      if text_eq key (codes "block_height")
      then map_ok (λ x. record r { block_height = some x }) (next_value s to_i64 v)
      else if text_eq key (codes "block_timestamp")
      then map_ok (λ x. record r { block_timestamp = some x }) (next_value s to_text v)
      else if text_eq key (codes "tx_version")
      then map_ok (λ x. record r { tx_version = some x }) (next_value s to_u64 v)
      else if text_eq key (codes "tx_hash")
      then map_ok (λ x. record r { tx_hash = some x }) (next_value s to_text v)
      else if text_eq key (codes "tx_sequence_number")
      then map_ok (λ x. record r { tx_sequence_number = some x }) (next_value s to_u64 v)
      else if text_eq key (codes "tx_sequence_number_big")
      then map_ok (λ x. record r { tx_sequence_number = some x }) (next_value s to_u64 v)
      else if text_eq key (codes "change_index")
      then map_ok (λ x. record r { change_index = some x }) (next_value s to_u64 v)
      else if text_eq key (codes "address")
      then map_ok (λ x. record r { address = some x }) (next_value s to_text v)
      else if text_eq key (codes "state_key_hash")
      then map_ok (λ x. record r { state_key_hash = some x }) (next_value s to_text v)
      else if text_eq key (codes "change_type")
      then map_ok (λ x. record r { change_type = some x }) (next_value s to_text v)
      else if text_eq key (codes "struct_tag")
      then map_ok (λ x. record r { struct_tag = some x }) (next_value s to_tag v)
      else if text_eq key (codes "type_str")
      then map_ok (λ x. record r { type_str = some x }) (next_value s to_text v)
      else if text_eq key (codes "resource")
      then map_ok (λ x. record r { contents = some x }) (next_value s to_text v)
      else if text_eq key (codes "block_unixtimestamp")
      then map_ok (λ x. record r { block_unixtimestamp = some x }) (next_value s to_unix v)
      else ok r

  abbrev pub visit_map : List (Member s) → Visited → Result DeError Resource
  visit_map [] r = finish r
  visit_map (m ∷ map) r = visit m r >>= visit_map map

  unfoldable pub deserialize : List (Member s) → Result DeError Resource
  deserialize map = visit_map map nothing
