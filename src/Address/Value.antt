-- ===== src/Address/Value.antt =====
-- The standard form of an address stands for the number that was written; a byte address of at most
-- 32 bytes is always accepted.
use aptos_etl.Prelude.{
  ℕ, zero, suc, ◌+◌, ◌-◌, ◌*◌, ◌/◌, ◌%◌, ◌≤◌, ◌<◌, ◌≡◌, refl, ap, true, List, [], ◌∷◌, ◌++◌, All,
  length, replicate, leb, ok, arith, if◌then◌else◌, map_err,
}
use aptos_etl.Prelude.Text.{Text, is_ascii_hexdigit, pad_zeros, hex_digit, hex_encode}
use aptos_etl.Address.{bytes, strip_prefix, format_address, try_fix_string, try_encode}
use aptos_etl.Address.Fix.{IsHex, try_fix_string_iff}

-- The value of a digit of either case.
abbrev pub digit_value : ℕ → ℕ
digit_value c = if leb c 57 then c - 48 else if leb c 70 then c - 55 else c - 87

-- The number that a string of hexadecimal digits stands for, after the digits already read.
abbrev pub hex_value_from : ℕ → Text → ℕ
hex_value_from acc [] = acc
hex_value_from acc (c ∷ s) = hex_value_from (16 * acc + digit_value c) s

abbrev pub hex_value : Text → ℕ
hex_value s = hex_value_from 0 s

hex_value-zeros : (n : ℕ) (s : Text) → hex_value (replicate n 48 ++ s) ≡ hex_value s
hex_value-zeros zero s = refl
hex_value-zeros (suc n) s = hex_value-zeros n s

strip_prefix-format : (s : Text) → strip_prefix (format_address s) ≡ pad_zeros 64 s
unfolding strip_prefix
strip_prefix-format s = refl

-- An accepted string and its standard form stand for the same number.
pub hex_value-try_fix_string :
    (s a : Text) → try_fix_string s ≡ ok a → hex_value (strip_prefix a) ≡ hex_value (strip_prefix s)
hex_value-try_fix_string s a h =
    let (hex, len, e) = (try_fix_string_iff s a).0 h in
    rw (e, strip_prefix-format (strip_prefix s))
      (hex_value-zeros (64 - length (strip_prefix s)) (strip_prefix s))

abbrev pub IsByte : ℕ → Type 0
IsByte b = b < 256

hex_digit-IsHex : (d : ℕ) → d < 16 → is_ascii_hexdigit (hex_digit d) ≡ true
hex_digit-IsHex d h = ground arith

hex_encode-IsHex : (bs : List ℕ) → All IsByte bs → IsHex (hex_encode bs)
hex_encode-IsHex [] h = refl
hex_encode-IsHex (b ∷ bs) h =
    rw (hex_digit-IsHex (b / 16) (omega arith), hex_digit-IsHex (b % 16) (omega arith))
      (hex_encode-IsHex bs h.1)

length-hex_encode : (bs : List ℕ) → length (hex_encode bs) ≡ 2 * length bs
length-hex_encode [] = refl
length-hex_encode (b ∷ bs) = omega (arith, length-hex_encode bs)

-- No digit of a byte string is an `x`.
strip_prefix-hex_encode :
    (bs : List ℕ) → All IsByte bs → strip_prefix (hex_encode bs) ≡ hex_encode bs
unfolding strip_prefix
strip_prefix-hex_encode [] h = refl
strip_prefix-hex_encode (b ∷ bs) h = ground arith

-- An address of at most 32 bytes is encoded as `0x` and its digits, padded to 64.
pub try_encode-bytes :
    (bs : List ℕ)
    → All IsByte bs
    → length bs ≤ 32
    → try_encode (bytes bs) ≡ ok (format_address (hex_encode bs))
unfolding try_encode
try_encode-bytes bs h len = ap (map_err (λ e. record { address = bytes bs; error = e })) (
    (try_fix_string_iff (hex_encode bs) (format_address (hex_encode bs))).1 (
      rw (strip_prefix-hex_encode bs h)
        (hex_encode-IsHex bs h, omega (arith, length-hex_encode bs), refl)))
