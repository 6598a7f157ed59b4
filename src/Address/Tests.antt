-- ===== src/Address/Tests.antt =====
-- Addresses at concrete inputs, among them the source's own test.
use aptos_etl.Prelude.{◌≡◌, refl, ◌↔◌, ok, err}
use aptos_etl.Prelude.Text.{Text, codes}
use aptos_etl.Address.{non_hex_chars, fix_attempts, try_fix_string}
use aptos_etl.Address.Fix.{Accepts, IsFinal, try_fix_string_iff, try_fix_string-IsFinal}

abbrev short : Text
short = codes "0x000001"

abbrev standard : Text
standard = codes "0x0000000000000000000000000000000000000000000000000000000000000001"

-- `standardize_addr`
standardize_addr : try_fix_string short ≡ ok standard
unfolding try_fix_string fix_attempts
standardize_addr = refl

no_prefix : try_fix_string (codes "1") ≡ ok standard
unfolding try_fix_string fix_attempts
no_prefix = refl

-- The `x` of the prefix is listed among the bad characters.
bad_digit : try_fix_string (codes "0xg") ≡ err (non_hex_chars (codes "xg"))
unfolding try_fix_string fix_attempts
bad_digit = refl

try_fix_string_iff_example : (try_fix_string short ≡ ok standard) ↔ Accepts short standard
try_fix_string_iff_example = try_fix_string_iff short standard

try_fix_string-IsFinal_example : IsFinal (try_fix_string (codes "0xg"))
try_fix_string-IsFinal_example = try_fix_string-IsFinal (codes "0xg")
