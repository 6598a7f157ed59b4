-- ===== src/Json/Resources/Reread.antt =====
-- What becomes of a resource that is written and read back.
use aptos_etl.Prelude.{
  ℕ, ◌≡◌, refl, Option, none, some, Result, ok, err, panic, ◌>>=◌, map_err, ok_or, Option-cases,
  inl, inr, ◌∙◌, arith,
}
use aptos_etl.Prelude.Text.{Text}
use aptos_etl.Types.Tags.{StructTagOut}
use aptos_etl.ChangeRecords.Rows.{Resource}
use aptos_etl.Json.{
  Serde, IsLawful, IsU64, IsI64, IsUnix, SerError, DeError, serialized, bad_value, of_option,
  next_value, parsed, json_value-parsed,
}
use aptos_etl.Json.Resources.{resource_value, fields, serialize, deserialize}

pub record Fits (r : Resource) : Type 0 where
  pub height : IsI64 r.place.block_height
  pub version : IsU64 r.place.tx_version
  pub number : (n : ℕ) → r.tx_sequence_number ≡ some n → IsU64 n
  pub index : IsU64 r.place.change_index
  pub time : IsUnix r.place.block_unixtimestamp

-- What is left of a resource.
abbrev pub reread : Resource → Text → Resource
reread r contents = record r { tx_sequence_number_big = none; contents = some contents }

module _ (s : Serde) (r : Resource) where
  open s use {Value, to_text}

  -- What is read, where the field `resource` has this value.
  abbrev pub read_of : Value → Result DeError Resource
  read_of jos = ok_or r.tx_sequence_number bad_value >>= λ number.
      ok_or r.struct_tag bad_value >>= λ tag.
      next_value s to_text jos >>= λ contents. ok (reread r contents)

  -- What is read of a resource with these contents.
  abbrev pub read_back : Option Text → Result DeError Resource
  read_back none = err bad_value
  read_back (some contents) = map_err serialized (parsed s contents) >>= read_of

module _ (s : Serde) (l : IsLawful s) (r : Resource) (f : Fits r) where
  open s use {Value, to_u64, of_u64, to_text, to_tag, of_tag}

  number_read :
      (n : Option ℕ)
      → ((k : ℕ) → n ≡ some k → IsU64 k)
      → next_value s to_u64 (of_option s of_u64 n) ≡ ok_or n bad_value
  number_read none fits = rw (l.null_no_u64) refl
  number_read (some n) fits = rw (l.u64_read n (fits n refl)) refl

  tag_read :
      (t : Option StructTagOut) → next_value s to_tag (of_option s of_tag t) ≡ ok_or t bad_value
  tag_read none = rw (l.null_no_tag) refl
  tag_read (some t) = rw (l.tag_read t) refl

  fields_read : (jos : Value) → deserialize s (fields s r jos) ≡ read_of s r jos
  unfolding deserialize
  fields_read jos =
      rw
        (
          l.i64_read r.place.block_height f.height,
          l.text_read r.place.block_timestamp,
          l.u64_read r.place.tx_version f.version,
          l.text_read r.place.tx_hash,
          number_read r.tx_sequence_number f.number,
        )
        (elim (Option-cases r.tx_sequence_number) [
          | inl h ↦ rw h refl
          | inr (number, h) ↦
              rw
                (
                  h,
                  l.u64_read r.place.change_index f.index,
                  l.text_read r.address,
                  l.text_read r.state_key_hash,
                  l.text_read r.change_type,
                  tag_read r.struct_tag,
                )
                (elim (Option-cases r.struct_tag) [
                  | inl h' ↦ rw h' refl
                  | inr (tag, h') ↦
                      rw (h', l.text_read r.type_str)
                        (elim (Option-cases (to_text jos)) [
                          | inl h'' ↦ rw h'' refl
                          | inr (contents, h'') ↦
                              rw (h'', l.unix_read r.place.block_unixtimestamp f.time) refl
                        ])
                ])
        ])

  value_read :
      (m : Result SerError Value)
      → map_err serialized (m >>= λ jos. ok (fields s r jos)) >>= deserialize s
        ≡ (map_err serialized m >>= read_of s r)
  value_read (ok jos) = fields_read jos
  value_read (err x) = refl
  value_read panic = refl

  read_of-null : read_of s r s.null ≡ err bad_value
  read_of-null = rw (l.null_no_text) (ground arith)

  contents_read :
      (c : Option Text) → map_err serialized (resource_value s c) >>= read_of s r ≡ read_back s r c
  contents_read none = read_of-null
  contents_read (some contents) = rw (json_value-parsed s contents) refl

  -- A resource that its message can hold is read back from what was written for it only if it has a
  -- sequence number, a struct tag and contents, and these are JSON for a string: it is then the same
  -- but for the contents, which are that string, and the number's text, which is gone. Of any other
  -- resource there is an error, when it is written if its contents are not JSON, and when it is read
  -- otherwise.
  pub serialize-read_back :
      map_err serialized (serialize s r) >>= deserialize s ≡ read_back s r r.contents
  unfolding serialize
  serialize-read_back = value_read (resource_value s r.contents) ∙ contents_read r.contents
