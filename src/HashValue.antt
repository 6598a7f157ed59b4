-- ===== src/HashValue.antt =====
-- Hash values, kept as bytes and printed in hexadecimal: processing/reps/hashval.rs.
mod Tests
use aptos_etl.Prelude.{
  ℕ, ◌+◌, ◌*◌, ◌/◌, ◌%◌, ◌<◌, ◌≡◌, refl, ap, List, [], ◌∷◌, ◌++◌, All, length, arith,
}
use aptos_etl.Prelude.Text.{Text, codes, hex_digit, hex_encode}
use aptos_etl.Address.{strip_prefix}
use aptos_etl.Address.Value.{IsByte, digit_value}

pub record HashValue : Type 0 where
  pub bytes : List ℕ

-- `format!("0x{}", hex::encode(&self.bytes))`
unfoldable pub encode : HashValue → Text
encode h = codes "0x" ++ hex_encode h.bytes

-- The bytes that pairs of digits stand for; a last odd digit is dropped.
unfoldable pub hex_decode : Text → List ℕ
hex_decode [] = []
hex_decode (hi ∷ []) = []
hex_decode (hi ∷ lo ∷ s) = (16 * digit_value hi + digit_value lo) ∷ hex_decode s

pub digit_value-hex_digit : (d : ℕ) → d < 16 → digit_value (hex_digit d) ≡ d
digit_value-hex_digit d h = ground arith

hex_decode-hex_encode : (bs : List ℕ) → All IsByte bs → hex_decode (hex_encode bs) ≡ bs
unfolding hex_decode
hex_decode-hex_encode [] h = refl
hex_decode-hex_encode (b ∷ bs) h =
    rw
      (
        digit_value-hex_digit (b / 16) (omega arith),
        digit_value-hex_digit (b % 16) (omega arith),
        hex_decode-hex_encode bs h.1,
      )
      (ap (λ n. n ∷ bs) (omega arith))

-- The printed form of a hash loses nothing: its digits, read in pairs, are the bytes.
pub hex_decode-encode :
    (h : HashValue) → All IsByte h.bytes → hex_decode (strip_prefix (encode h)) ≡ h.bytes
unfolding encode strip_prefix
hex_decode-encode h bytes = hex_decode-hex_encode h.bytes bytes
