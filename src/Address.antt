-- ===== src/Address.antt =====
-- Addresses and their standard form: processing/reps/address.rs.
pub mod Fix
pub mod Value
mod Tests
use aptos_etl.Prelude.{
  ℕ, zero, suc, ◌+◌, Bool, true, false, Option, none, some, List, [], ◌∷◌, ◌++◌, all, ltb, ok, err,
  panic, Result, map_err, if◌then◌else◌,
}
use aptos_etl.Prelude.Text.{
  Text, codes, byte_len, strip_prefix?, is_ascii_hexdigit, pad_zeros, hex_encode,
}

abbrev pub address_prefix : Text
address_prefix = codes "0x"

abbrev pub address_formatted_length : ℕ
address_formatted_length = 64

abbrev pub number_attempts : ℕ
number_attempts = 10

pub data Address : Type 0 where
  bytes : List ℕ → Address
  string : Text → Address

pub data AddressErrorType : Type 0 where
  missing_prefix : AddressErrorType
  too_long too_short : ℕ → AddressErrorType
  non_hex_chars : Text → AddressErrorType

pub record AddressError : Type 0 where
  pub address : Address
  pub error : AddressErrorType

-- `str::starts_with` at the prefix
abbrev pub has_prefix : Text → Bool
has_prefix s = elim (strip_prefix? address_prefix s) [ none ↦ false | some _ ↦ true ]

unfoldable pub strip_prefix : Text → Text
strip_prefix s = elim (strip_prefix? address_prefix s) [ none ↦ s | some d ↦ d ]

-- The characters that the error lists are taken from the whole string, its prefix included.
abbrev pub non_hex : Text → Text
non_hex [] = []
non_hex (c ∷ s) = let rest = non_hex s in if is_ascii_hexdigit c then rest else c ∷ rest

unfoldable pub validate_string : Text → Result AddressErrorType (Unit {0})
unfolding strip_prefix
validate_string s =
    if has_prefix s
    then if ltb (byte_len s) (address_formatted_length + 2)
      then err (too_short (byte_len s))
      else if ltb (address_formatted_length + 2) (byte_len s)
      then err (too_long (byte_len s))
      else if all is_ascii_hexdigit (strip_prefix s)
      then ok tt
      else err (non_hex_chars (non_hex s))
    else err missing_prefix

-- `format!("0x{:0>64}", s)`
abbrev pub format_address : Text → Text
format_address s = address_prefix ++ pad_zeros address_formatted_length s

-- The attempts left, the string that was given, and the address so far. The panic is the
-- `unreachable!` behind the loop.
unfoldable pub fix_attempts : ℕ → Text → Text → Result AddressErrorType Text
unfolding validate_string
fix_attempts zero s address = panic
fix_attempts (suc n) s address = elim (validate_string address) [
  | ok _ ↦ ok address
  | err missing_prefix ↦ fix_attempts n s (format_address address)
  | err (too_short _) ↦ fix_attempts n s (format_address (strip_prefix s))
  | err (too_long k) ↦ err (too_long k)
  | err (non_hex_chars cs) ↦ err (non_hex_chars cs)
  | panic ↦ panic
]

unfoldable pub try_fix_string : Text → Result AddressErrorType Text
try_fix_string s = fix_attempts number_attempts s s

abbrev pub raw_string : Address → Text
raw_string (bytes bs) = hex_encode bs
raw_string (string s) = s

unfoldable pub try_encode : Address → Result AddressError Text
unfolding try_fix_string
try_encode a = map_err (λ e. record { address = a; error = e }) (try_fix_string (raw_string a))
