-- ===== src/Timestamp.antt =====
-- Timestamps and their encoded form: processing/reps/timestamp.rs. The calendar is that of the
-- `chrono` crate, and the format is read from the environment once.
pub mod Format
pub mod Range
mod Tests
use aptos_etl.Prelude.{
  ℕ, ◌-◌, Bool, Option, none, some, Result, ok, err, panic, ◌>>=◌, ok_or, expect, if◌then◌else◌,
}
use aptos_etl.Prelude.Int.{ℤ, pos, negsuc, ltb_ℤ}
use aptos_etl.Prelude.Text.{Text, codes}

pub data VarError : Type 0 where
  not_present : VarError
  not_unicode : Text → VarError

-- `dotenvy::Error`: an error of the variable, or one of the file, which cannot be cloned.
pub data DotenvError : Type 0 where
  env_var : VarError → DotenvError
  other : DotenvError

pub data TimestampError : Type 0 where
  negative_nano : ℤ → ℤ → TimestampError
  out_of_range_utc : ℤ → ℕ → TimestampError
  failed_to_load_timestamp_format : Option VarError → TimestampError
  out_of_range_big_query : ℤ → ℕ → TimestampError

pub record InputTimestamp : Type 0 where
  pub seconds : ℤ
  pub nanos : ℤ

pub record Timestamp : Type 0 where
  pub seconds : ℤ
  pub nanos : ℕ

-- The message of proto_src/common.proto.
pub record UnixTimestamp : Type 0 where
  pub seconds : ℤ
  pub nanos : ℕ

-- What the program asks of `chrono`, and what `dotenvy` says of the format's variable.
pub record Chrono : Type 1 where
  pub DateTime : Type 0
  pub from_timestamp : ℤ → ℕ → Option DateTime
  -- `format` and `to_string`: `none` is the panic on a format that is not valid.
  pub format : DateTime → Text → Option Text
  pub format_variable : Result DotenvError Text

abbrev pub timestamp_format_default : Text
timestamp_format_default = codes "%Y-%m-%d %T"

abbrev pub bigquerry_max_timestamp_string : Text
bigquerry_max_timestamp_string = codes "9999-12-31 23:59:59"

abbrev pub bigquerry_max_timestamp_seconds : ℤ
bigquerry_max_timestamp_seconds = pos 253402300799

-- -2208988800
abbrev pub bigquerry_min_timestamp_seconds : ℤ
bigquerry_min_timestamp_seconds = negsuc 2208988799

-- The result, and the format that the cell holds afterwards.
unfoldable pub load_timestamp_format :
    Result DotenvError Text → Result TimestampError Text × Option Text
load_timestamp_format (ok ts_fmt) = (ok ts_fmt, some ts_fmt)
load_timestamp_format (err (env_var not_present)) =
    (ok timestamp_format_default, some timestamp_format_default)
load_timestamp_format (err (env_var (not_unicode s))) =
    (err (failed_to_load_timestamp_format (some (not_unicode s))), none)
load_timestamp_format (err other) = (err (failed_to_load_timestamp_format none), none)
load_timestamp_format panic = (panic, none)

-- The cell is read first; the environment is asked while the cell is empty.
unfoldable pub get_timestamp_format :
    Result DotenvError Text → Option Text → Result TimestampError Text × Option Text
unfolding load_timestamp_format
get_timestamp_format variable none = load_timestamp_format variable
get_timestamp_format variable (some ts_fmt) = (ok ts_fmt, some ts_fmt)

-- `n as u32` of an `i32` that is not negative.
unfoldable pub try_from : InputTimestamp → Result TimestampError Timestamp
try_from value = elim value.nanos [
  | pos n ↦ ok (record { seconds = value.seconds; nanos = n })
  | negsuc n ↦ err (negative_nano value.seconds (negsuc n))
]

-- `Encode<UnixTimestamp>`
unfoldable pub encode : Timestamp → UnixTimestamp
encode t = record { seconds = t.seconds; nanos = t.nanos }

module _ (c : Chrono) where
  -- `TryInto<DateTime<Utc>>`
  unfoldable pub try_into_date_time : Timestamp → Result TimestampError c.DateTime
  try_into_date_time t =
      ok_or (c.from_timestamp t.seconds t.nanos) (out_of_range_utc t.seconds t.nanos)

  -- `TryEncode<String>`; the format is the one of the first call (see Timestamp/Format.antt).
  unfoldable pub try_encode : Timestamp → Result TimestampError Text
  unfolding try_into_date_time load_timestamp_format
  try_encode t =
      if ltb_ℤ t.seconds bigquerry_min_timestamp_seconds
      then err (out_of_range_big_query t.seconds t.nanos)
      else if ltb_ℤ bigquerry_max_timestamp_seconds t.seconds
      then ok bigquerry_max_timestamp_string
      else do
        dt ← try_into_date_time t
        ts_fmt ← (load_timestamp_format c.format_variable).0
        expect (c.format dt ts_fmt)
