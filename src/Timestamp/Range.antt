-- ===== src/Timestamp/Range.antt =====
-- Which timestamps can be encoded, and as what.
use aptos_etl.Prelude.{
  ap, Result, Option, none, expect, sym, ◌∙◌, ℕ, ◌<◌, ◌≡◌, ◌↔◌, ◌⊎◌, inl, inr, some, ok, err, arith,
  Bool-cases,
}
use aptos_etl.Prelude.Int.{ℤ, pos, ltb_ℤ, ◌≤ℤ◌, ◌<ℤ◌}
use aptos_etl.Prelude.Text.{Text}
use aptos_etl.Timestamp.{
  Chrono, InputTimestamp, Timestamp, TimestampError, out_of_range_big_query,
  bigquerry_max_timestamp_string, bigquerry_max_timestamp_seconds, bigquerry_min_timestamp_seconds,
  load_timestamp_format, try_from, encode, try_encode,
}

-- A time of the input is accepted, and published, exactly as the two numbers that it has; a negative
-- number of nanoseconds is no such number.
encode-try_from :
    (t : InputTimestamp) (u : Timestamp)
    → (try_from t ≡ ok u) ↔ (((encode u).seconds ≡ t.seconds) × (pos (encode u).nanos ≡ t.nanos))
unfolding try_from encode
encode-try_from t u = (λ h. ground arith, λ h. ground arith)

abbrev value_of : Result TimestampError Text → Option Text
value_of (ok s) = some s
value_of _ = none

expect-ok : (o : Option Text) (s : Text) → expect {E = TimestampError} o ≡ ok s → o ≡ some s
expect-ok none s h = ap value_of h
expect-ok (some u) s h = ap value_of h

module _ (c : Chrono) where
  -- `chrono` has a date for every second of the range, if the nanoseconds are less than a second.
  abbrev pub Covers : Type 0
  Covers =
      (s : ℤ) (n : ℕ)
      → bigquerry_min_timestamp_seconds ≤ℤ s
      → s ≤ℤ bigquerry_max_timestamp_seconds
      → n < 1000000000
      → (d : c.DateTime) × (c.from_timestamp s n ≡ some d)

  -- The text of a time, given its date and the format: a time past the range has the text of the
  -- last one in it.
  abbrev pub IsTextOf : Text → Timestamp → Text → Type 0
  IsTextOf fmt t s =
      ((bigquerry_max_timestamp_seconds <ℤ t.seconds) × (s ≡ bigquerry_max_timestamp_string))
      ⊎ ((t.seconds ≤ℤ bigquerry_max_timestamp_seconds)
          × ((d : c.DateTime) × (c.from_timestamp t.seconds t.nanos ≡ some d)
              × (c.format d fmt ≡ some s)))

  try_encode_late :
      (t : Timestamp)
      → bigquerry_max_timestamp_seconds <ℤ t.seconds
      → try_encode c t ≡ ok bigquerry_max_timestamp_string
  unfolding try_encode
  try_encode_late t h = ground arith

  try_encode_early :
      (t : Timestamp)
      → t.seconds <ℤ bigquerry_min_timestamp_seconds
      → try_encode c t ≡ err (out_of_range_big_query t.seconds t.nanos)
  unfolding try_encode
  try_encode_early t h = ground arith

  try_encode_between :
      (fmt : Text) (t : Timestamp) (d : c.DateTime)
      → (load_timestamp_format c.format_variable).0 ≡ ok fmt
      → bigquerry_min_timestamp_seconds ≤ℤ t.seconds
      → t.seconds ≤ℤ bigquerry_max_timestamp_seconds
      → c.from_timestamp t.seconds t.nanos ≡ some d
      → try_encode c t ≡ expect (c.format d fmt)
  unfolding try_encode
  try_encode_between fmt t d loaded lo hi e = ground arith

  -- Where `chrono` covers the range, the format has been loaded and the nanoseconds are less than a
  -- second: a time has a text exactly from the earliest second of the range on, if it is past the
  -- range or `chrono` can write its date in the format. The text is that of its date, or of the
  -- greatest timestamp for a time past the range. With a format that is not valid no time within the
  -- range has a text.
  pub try_encode_iff :
      (fmt : Text) (t : Timestamp) (s : Text)
      → Covers
      → (load_timestamp_format c.format_variable).0 ≡ ok fmt
      → t.nanos < 1000000000
      → (try_encode c t ≡ ok s)
        ↔ ((bigquerry_min_timestamp_seconds ≤ℤ t.seconds) × IsTextOf fmt t s)
  try_encode_iff fmt t s covers loaded nanos =
      elim (Bool-cases (ltb_ℤ t.seconds bigquerry_min_timestamp_seconds)) [
        | inl early ↦
            let before : t.seconds <ℤ bigquerry_min_timestamp_seconds = ground arith in
            (λ h. cc (try_encode_early t before), λ h. absurd (omega (arith, h.0)))
        | inr on_time ↦ elim (Bool-cases (ltb_ℤ bigquerry_max_timestamp_seconds t.seconds)) [
          | inl late ↦
              let past : bigquerry_max_timestamp_seconds <ℤ t.seconds = ground arith in
              (
                λ h. (ground arith, inl (past, cc (try_encode_late t past))),
                λ h. ground (arith, try_encode_late t past, h.1),
              )
          | inr in_range ↦
              let lo : bigquerry_min_timestamp_seconds ≤ℤ t.seconds = ground arith in
              let hi : t.seconds ≤ℤ bigquerry_max_timestamp_seconds = ground arith in
              let (d, e) = covers t.seconds t.nanos lo hi nanos in
              (
                λ h. (
                  lo,
                  inr (
                    hi,
                    (
                      d,
                      e,
                      expect-ok (c.format d fmt) s
                          (sym (try_encode_between fmt t d loaded lo hi e) ∙ h),
                    ),
                  ),
                ),
                λ h. ground (arith, try_encode_between fmt t d loaded lo hi e, h.1),
              )
        ]
      ]
