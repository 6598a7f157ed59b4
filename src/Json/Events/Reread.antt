-- ===== src/Json/Events/Reread.antt =====
-- What becomes of an event that is written and read back.
use aptos_etl.Prelude.{
  ℕ, ◌^◌, ◌≡◌, refl, Option, none, some, Result, ok, err, panic, ◌>>=◌, map_err, ltb, if◌then◌else◌,
  arith, Option-cases, inl, inr,
}
use aptos_etl.Prelude.Text.{Text, to_string}
use aptos_etl.Events.{Event}
use aptos_etl.Json.{
  Serde, IsLawful, IsU64, IsI64, IsUnix, SerError, serialized, parsed, json_value-parsed, of_option,
  next_value, next_option,
}
use aptos_etl.Json.Events.{
  Visited, nothing, keep_number, set_number, fields, serialize, deserialize,
}

-- The numbers and times of an event are those that its message can hold.
pub record Fits (e : Event) : Type 0 where
  pub height : IsI64 e.block_height
  pub version : IsU64 e.tx_version
  pub number : (n : ℕ) → e.tx_sequence_number ≡ some n → IsU64 n
  pub index : IsU64 e.event_index
  pub creation : IsU64 e.creation_num
  pub sequence : IsU64 e.sequence_number
  pub time : IsUnix e.block_unixtimestamp

-- The number of an event that is read, and its text.
abbrev pub read_number : Option ℕ → Option ℕ
read_number none = none
read_number (some n) = if ltb n (2 ^ 63) then some n else none

abbrev pub read_text : Option ℕ → Option Text
read_text none = none
read_text (some n) = some (to_string n)

abbrev pub reread : Event → Text → Event
reread e contents = record e {
  tx_sequence_number = read_number e.tx_sequence_number;
  tx_sequence_number_big = read_text e.tx_sequence_number;
  contents = contents;
}

keep_number_lem :
    (n : ℕ) (text : Text) (r : Visited)
    → r.tx_sequence_number ≡ none
    → r.tx_sequence_number_big ≡ none
    → keep_number n text r ≡ record r {
      tx_sequence_number = if ltb n (2 ^ 63) then some n else none;
      tx_sequence_number_big = some text;
    }
keep_number_lem n text r h k = ground arith

set_number_lem :
    (n : Option ℕ) (r : Visited)
    → r.tx_sequence_number ≡ none
    → r.tx_sequence_number_big ≡ none
    → set_number n r
      ≡ record r { tx_sequence_number = read_number n; tx_sequence_number_big = read_text n }
set_number_lem none r h k = ground arith
set_number_lem (some n) r h k = keep_number_lem n (to_string n) r h k

module _ (s : Serde) (l : IsLawful s) (e : Event) (f : Fits e) where
  open s use {Value, to_u64, of_u64, to_text}

  number_read :
      (n : Option ℕ)
      → ((k : ℕ) → n ≡ some k → IsU64 k)
      → next_option s to_u64 (of_option s of_u64 n) ≡ ok n
  number_read none fits = rw (l.null_null) refl
  number_read (some n) fits = rw (l.u64_not_null n (fits n refl), l.u64_read n (fits n refl)) refl

  abbrev started : Visited
  started = record nothing {
    block_height = some e.block_height;
    block_timestamp = some e.block_timestamp;
    tx_version = some e.tx_version;
    tx_hash = some e.tx_hash;
  }

  fields_read :
      (jos : Value)
      → deserialize s (fields s e jos)
        ≡ (next_value s to_text jos >>= λ contents. ok (reread e contents))
  unfolding deserialize
  fields_read jos =
      rw
        (
          l.i64_read e.block_height f.height,
          l.text_read e.block_timestamp,
          l.u64_read e.tx_version f.version,
          l.text_read e.tx_hash,
          number_read e.tx_sequence_number f.number,
          set_number_lem e.tx_sequence_number started refl refl,
          l.u64_read e.event_index f.index,
          l.text_read e.event_type,
          l.text_read e.address,
          l.u64_read e.creation_num f.creation,
          l.u64_read e.sequence_number f.sequence,
        )
        (elim (Option-cases (to_text jos)) [
          | inl h ↦ rw h refl
          | inr (contents, h) ↦ rw (h, l.unix_read e.block_unixtimestamp f.time) refl
        ])

  value_read :
      (m : Result SerError Value)
      → map_err serialized (m >>= λ jos. ok (fields s e jos)) >>= deserialize s ≡ (
          map_err serialized m >>= λ jos.
          next_value s to_text jos >>= λ contents. ok (reread e contents))
  value_read (ok jos) = fields_read jos
  value_read (err x) = refl
  value_read panic = refl

  -- An event that its message can hold, whose data is JSON: what was written for it is read back
  -- exactly if the data is a string, and with that string as the data; any other data is an error.
  -- The sequence number and its text are made anew from the written number: a number of 2 ^ 63 and
  -- more is gone, and without a number so is the text. Data that is not JSON is not written.
  pub deserialize-serialize : map_err serialized (serialize s e) >>= deserialize s ≡ (
      map_err serialized (parsed s e.contents) >>= λ jos.
      next_value s to_text jos >>= λ contents. ok (reread e contents))
  unfolding serialize
  deserialize-serialize = rw (json_value-parsed s e.contents) (value_read (parsed s e.contents))
