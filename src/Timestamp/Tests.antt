-- ===== src/Timestamp/Tests.antt =====
-- Timestamps at concrete inputs, among them the source's own tests.
use aptos_etl.Prelude.{◌≡◌, ◌↔◌, refl, none, some, List, [], ◌∷◌, ◌++◌, Result, ok, err, arith}
use aptos_etl.Prelude.Int.{ℤ, pos, negsuc, ◌≤ℤ◌}
use aptos_etl.Prelude.Text.{Text, codes, to_string}
use aptos_etl.Timestamp.{
  Chrono, Timestamp, DotenvError, env_var, not_present, timestamp_format_default,
  bigquerry_max_timestamp_string, bigquerry_min_timestamp_seconds, load_timestamp_format,
  get_timestamp_format, try_encode,
}
use aptos_etl.Timestamp.Range.{IsTextOf, try_encode_iff}

-- A calendar that has a date for every second, and prints it as the number of seconds.
abbrev seconds_text : ℤ → Text
seconds_text (pos n) = to_string n
seconds_text (negsuc n) = codes "-" ++ to_string n

abbrev pub calendar : Chrono
calendar = record {
  DateTime = ℤ;
  from_timestamp = λ s n. some s;
  format = λ d fmt. some (seconds_text d);
  format_variable = err (env_var not_present);
}

abbrev at_second : ℤ → Timestamp
at_second s = record { seconds = s; nanos = 0 }

-- `encode_overmaxbq`
encode_overmaxbq :
    try_encode calendar (at_second (pos 253402300800)) ≡ ok bigquerry_max_timestamp_string
unfolding try_encode
encode_overmaxbq = refl

default_loaded : (load_timestamp_format calendar.format_variable).0 ≡ ok timestamp_format_default
unfolding load_timestamp_format
default_loaded = refl

-- `encode_minbq`
try_encode_iff_example :
    (try_encode calendar (at_second bigquerry_min_timestamp_seconds) ≡ ok (codes "-2208988799")) ↔ (
      (bigquerry_min_timestamp_seconds ≤ℤ bigquerry_min_timestamp_seconds)
      × IsTextOf calendar timestamp_format_default
          (at_second bigquerry_min_timestamp_seconds)
          (codes "-2208988799"))
try_encode_iff_example =
    try_encode_iff calendar timestamp_format_default (at_second bigquerry_min_timestamp_seconds)
      (codes "-2208988799") (λ s n lo hi short. (s, refl)) default_loaded (omega arith)

abbrev changed_env : List (Result DotenvError Text)
changed_env = ok (codes "%s") ∷ []

first_call : (get_timestamp_format (err (env_var not_present)) none).0 ≡ ok timestamp_format_default
unfolding get_timestamp_format
first_call = refl
