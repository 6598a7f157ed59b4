-- ===== src/Json/Tests.antt =====
-- Events and resources through a toy JSON: texts in quotes, objects without members, and nothing
-- else.
use aptos_etl.Prelude.{
  ℕ, ◌^◌, ◌≡◌, refl, Bool, true, false, Option, none, some, [], ◌∷◌, ok, err, ◌>>=◌, map_err, ltb,
  ◌==◌, if◌then◌else◌, lt→ltb, arith,
}
use aptos_etl.Prelude.Int.{ℤ, pos}
use aptos_etl.Prelude.Text.{Text, codes}
use aptos_etl.Timestamp.{UnixTimestamp}
use aptos_etl.Types.Tags.{StructTagOut}
use aptos_etl.Changes.{quote, strip_suffix?}
use aptos_etl.Events.{Event, json_try_from, invalid_json_string}
use aptos_etl.ChangeRecords.Rows.{Resource}
use aptos_etl.Json.{Serde, IsLawful, IsU64, serialized, bad_value, custom, parsed, next_value}
use aptos_etl.Json.Events as Events
use aptos_etl.Json.Events.Reread.{reread, deserialize-serialize}
use aptos_etl.Json.Events.Reread as EventsReread
use aptos_etl.Json.Resources as Resources
use aptos_etl.Json.Resources.Reread.{read_back, serialize-read_back}
use aptos_etl.Json.Resources.Reread as ResourcesReread

data Value : Type 0 where
  null object : Value
  number : ℤ → Value
  string : Text → Value
  unix : UnixTimestamp → Value
  tag : StructTagOut → Value

abbrev quoted : Option Text → Option Value
quoted none = none
quoted (some t) = some (string t)

abbrev from_str : Text → Option Value
from_str [] = none
from_str (c ∷ cs) =
    if c == quote then quoted (strip_suffix? quote cs) else if c == 123 then some object else none

abbrev is_null : Value → Bool
is_null null = true
is_null _ = false

abbrev to_u64 : Value → Option ℕ
to_u64 (number (pos n)) = if ltb n (2 ^ 64) then some n else none
to_u64 _ = none

abbrev to_i64 : Value → Option ℤ
to_i64 (number z) = some z
to_i64 _ = none

abbrev to_text : Value → Option Text
to_text (string t) = some t
to_text _ = none

abbrev to_unix : Value → Option UnixTimestamp
to_unix (unix u) = some u
to_unix _ = none

abbrev to_tag : Value → Option StructTagOut
to_tag (tag t) = some t
to_tag _ = none

abbrev toy : Serde
toy = record {
  Value = Value;
  from_str = from_str;
  null = null;
  is_null = is_null;
  of_u64 = λ n. number (pos n);
  to_u64 = to_u64;
  of_i64 = number;
  to_i64 = to_i64;
  of_text = string;
  to_text = to_text;
  of_unix = unix;
  to_unix = to_unix;
  of_tag = tag;
  to_tag = to_tag;
}

toy_u64_read : (n : ℕ) → IsU64 n → to_u64 (number (pos n)) ≡ some n
toy_u64_read n h = rw (lt→ltb n (2 ^ 64) h) refl

toy-IsLawful : IsLawful toy
toy-IsLawful = record {
  u64_read = toy_u64_read;
  u64_not_null = λ n h. refl;
  i64_read = λ z h. refl;
  text_read = λ t. refl;
  unix_read = λ u h. refl;
  tag_read = λ t. refl;
  null_null = refl;
  null_no_u64 = refl;
  null_no_text = refl;
  null_no_tag = refl;
}

abbrev noon : UnixTimestamp
noon = record { seconds = pos 43200; nanos = 5 }

abbrev event : ℕ → Text → Event
event n contents = record {
  block_height = pos 7;
  block_timestamp = codes "noon";
  tx_version = 12;
  tx_hash = codes "0x1";
  tx_sequence_number = some n;
  tx_sequence_number_big = some (codes "3");
  event_index = 0;
  address = codes "0x2";
  event_type = codes "u64";
  creation_num = 1;
  sequence_number = 2;
  contents = contents;
  block_unixtimestamp = noon;
}

-- The data comes back without its quotes.
string_data :
    map_err serialized (Events.serialize toy (event 3 (codes "\"x\""))) >>= Events.deserialize toy
    ≡ ok (event 3 (codes "x"))
unfolding Events.serialize Events.deserialize json_try_from
string_data = refl

object_data :
    map_err serialized (Events.serialize toy (event 3 (codes "{}"))) >>= Events.deserialize toy
    ≡ err bad_value
unfolding Events.serialize Events.deserialize json_try_from
object_data = refl

no_json :
    Events.serialize toy (event 3 (codes "x")) ≡ err (custom (invalid_json_string (codes "x")))
unfolding Events.serialize json_try_from
no_json = refl

event-Fits : EventsReread.Fits (event 3 (codes "{}"))
event-Fits = record {
  height = (omega arith, omega arith);
  version = omega arith;
  number = λ n h. ground arith;
  index = omega arith;
  creation = omega arith;
  sequence = omega arith;
  time = ((omega arith, omega arith), omega arith);
}

deserialize-serialize_example :
    map_err serialized (Events.serialize toy (event 3 (codes "{}"))) >>= Events.deserialize toy ≡ (
      map_err serialized (parsed toy (codes "{}")) >>= λ jos.
      next_value toy to_text jos >>= λ contents. ok (reread (event 3 (codes "{}")) contents))
deserialize-serialize_example =
    deserialize-serialize toy toy-IsLawful (event 3 (codes "{}")) event-Fits

abbrev resource : Resource
resource = record {
  place = record {
    block_height = pos 7;
    block_timestamp = codes "noon";
    tx_version = 12;
    tx_hash = codes "0x1";
    change_index = 0;
    block_unixtimestamp = noon;
  };
  tx_sequence_number = some 3;
  tx_sequence_number_big = some (codes "3");
  address = codes "0x2";
  state_key_hash = codes "0x3";
  change_type = codes "write_resource";
  struct_tag = some (record {
    address = codes "0x1";
    module_name = codes "coin";
    name = codes "Coin";
    generic_type_params = [];
  });
  type_str = codes "0x1::coin::Coin";
  contents = some (codes "\"x\"");
}

resource-Fits : ResourcesReread.Fits resource
resource-Fits = record {
  height = (omega arith, omega arith);
  version = omega arith;
  number = λ n h. ground arith;
  index = omega arith;
  time = ((omega arith, omega arith), omega arith);
}

serialize-read_back_example :
    map_err serialized (Resources.serialize toy resource) >>= Resources.deserialize toy
    ≡ read_back toy resource (some (codes "\"x\""))
serialize-read_back_example = serialize-read_back toy toy-IsLawful resource resource-Fits

-- The text of the number is lost.
no_text :
    map_err serialized (Resources.serialize toy resource) >>= Resources.deserialize toy
    ≡ ok (record resource { tx_sequence_number_big = none; contents = some (codes "x") })
unfolding Resources.serialize Resources.deserialize json_try_from
no_text = refl

-- A deleted resource has no contents, and is not read back.
no_contents :
    map_err serialized (Resources.serialize toy (record resource { contents = none }))
      >>= Resources.deserialize toy
    ≡ err bad_value
unfolding Resources.serialize Resources.deserialize
no_contents = refl
