-- ===== src/Json.antt =====
-- What the records for JSON ask of `serde` and `serde_json`, with processing/reps/json.rs; the two
-- records with a serialisation of their own are in the modules below. A JSON object is the list of
-- its members; that it is printed and parsed in between is left to `serde_json`.
pub mod Events
pub mod Resources
mod Tests
use aptos_etl.Prelude.{
  ℕ, zero, suc, [], ◌∷◌, ◌+◌, ◌-◌, ◌<◌, ◌≤◌, ◌^◌, ◌≡◌, Bool, true, false, Option, none, some, List,
  Result, ok, err, ◌>>=◌, ok_or, map_err, refl, Option-cases, inl, inr, leb, ltb, ◌==◌,
  if◌then◌else◌,
}
use aptos_etl.Prelude.Int.{ℤ, pos, negsuc, ◌≤ℤ◌, ◌<ℤ◌}
use aptos_etl.Prelude.Text.{Text}
use aptos_etl.Timestamp.{UnixTimestamp}
use aptos_etl.Types.Tags.{StructTagOut}
use aptos_etl.Events.{JsonStringError, json_try_from}
use aptos_etl.Resume.{unsigned, parse_u64}

-- The values of `serde_json`, their parser, and what `serde` makes of the types of the fields: how
-- each is serialised, and what is read for it from a value, if the value has that type.
pub record Serde : Type 1 where
  pub Value : Type 0
  pub from_str : Text → Option Value
  pub null : Value
  pub is_null : Value → Bool
  pub of_u64 : ℕ → Value
  pub to_u64 : Value → Option ℕ
  pub of_i64 : ℤ → Value
  pub to_i64 : Value → Option ℤ
  pub of_text : Text → Value
  pub to_text : Value → Option Text
  pub of_unix : UnixTimestamp → Value
  pub to_unix : Value → Option UnixTimestamp
  pub of_tag : StructTagOut → Value
  pub to_tag : Value → Option StructTagOut

abbrev pub IsU64 : ℕ → Type 0
IsU64 n = n < 2 ^ 64

abbrev pub IsI64 : ℤ → Type 0
IsI64 z = (negsuc (2 ^ 63 - 1) ≤ℤ z) × (z <ℤ pos (2 ^ 63))

abbrev pub IsUnix : UnixTimestamp → Type 0
IsUnix u = IsI64 u.seconds × (u.nanos < 2 ^ 32)

-- Each value of a field's type is read as it was written, and nothing but an option reads a null.
pub record IsLawful (s : Serde) : Type 0 where
  pub u64_read : (n : ℕ) → IsU64 n → s.to_u64 (s.of_u64 n) ≡ some n
  pub u64_not_null : (n : ℕ) → IsU64 n → s.is_null (s.of_u64 n) ≡ false
  pub i64_read : (z : ℤ) → IsI64 z → s.to_i64 (s.of_i64 z) ≡ some z
  pub text_read : (t : Text) → s.to_text (s.of_text t) ≡ some t
  pub unix_read : (u : UnixTimestamp) → IsUnix u → s.to_unix (s.of_unix u) ≡ some u
  pub tag_read : (t : StructTagOut) → s.to_tag (s.of_tag t) ≡ some t
  pub null_null : s.is_null s.null ≡ true
  pub null_no_u64 : s.to_u64 s.null ≡ none
  pub null_no_text : s.to_text s.null ≡ none
  pub null_no_tag : s.to_tag s.null ≡ none

pub data SerError : Type 0 where
  custom : JsonStringError → SerError

pub data DeError : Type 0 where
  serialized : SerError → DeError
  bad_value : DeError
  missing_field : Text → DeError

-- `i64::from_str`, of the digits behind a minus sign and of the whole
abbrev negated : ℕ → Option ℤ
negated zero = some (pos 0)
negated (suc n) = if ltb n (2 ^ 63) then some (negsuc n) else none

abbrev small : ℕ → Option ℤ
small n = if ltb n (2 ^ 63) then some (pos n) else none

abbrev signed : Bool → Option ℕ → Option ℕ → Option ℤ
signed true (some n) whole = negated n
signed true none whole = none
signed false digits (some n) = small n
signed false digits none = none

abbrev pub parse_i64 : Text → Option ℤ
parse_i64 t = elim t [ [] ↦ none | c ∷ cs ↦ signed (c == 45) (unsigned cs) (parse_u64 (c ∷ cs)) ]

-- `n as u64` of an `i64`: two's complement.
abbrev pub i64_as_u64 : ℤ → ℕ
i64_as_u64 (pos n) = n
i64_as_u64 (negsuc n) = 2 ^ 64 - (n + 1)

-- `Option::is_none` and an assignment if so
abbrev pub or_some {ℓ} : {A : Type ℓ} → Option A → A → Option A
or_some none a = some a
or_some (some b) a = some b

-- `Result::is_ok`, of the parser's result
abbrev is_ok {ℓ} : {A : Type ℓ} → Option A → Bool
is_ok (some a) = true
is_ok none = false

module _ (s : Serde) where
  open s use {Value, from_str, null, is_null}

  abbrev pub Member : Type 0
  Member = Text × Value

  abbrev pub is_json : Text → Bool
  is_json t = is_ok (from_str t)

  -- `JsonObjectString::try_from` and the serialisation of its result, which parses it once more
  abbrev pub json_value : Text → Result SerError Value
  json_value t = do
    jos ← map_err custom (json_try_from is_json t)
    ok_or (from_str jos) (custom (JsonStringError.invalid_json_string jos))

  -- The value that a text is JSON for, or the error that it is none.
  abbrev pub parsed : Text → Result SerError Value
  parsed t = ok_or (from_str t) (custom (JsonStringError.invalid_json_string t))

  pub json_value-parsed : (t : Text) → json_value t ≡ parsed t
  unfolding json_try_from
  json_value-parsed t = elim (Option-cases (from_str t)) [
    | inl h ↦ rw h refl
    | inr (v, h) ↦ rw (h, h) refl
  ]

  abbrev pub of_option {ℓ} : {A : Type ℓ} → (A → Value) → Option A → Value
  of_option f none = null
  of_option f (some a) = f a

  -- `MapAccess::next_value` for a type and for an option of it
  abbrev pub next_value {ℓ} : {A : Type ℓ} → (Value → Option A) → Value → Result DeError A
  next_value to v = ok_or (to v) bad_value

  abbrev pub next_option {ℓ} : {A : Type ℓ} → (Value → Option A) → Value → Result DeError (Option A)
  next_option to v = if is_null v then ok none else next_value to v >>= λ a. ok (some a)
