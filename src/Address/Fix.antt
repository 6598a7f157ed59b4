-- ===== src/Address/Fix.antt =====
-- `try_fix_string` accepts exactly the short enough hexadecimal strings, with or without `0x`, and
-- pads them.
use mathlib.Core.Path.{subst}
use aptos_etl.Prelude.{
  ◌≢◌, sym, ℕ, zero, suc, ◌+◌, ◌-◌, ◌≤◌, ◌<◌, ◌≡◌, refl, ap, ◌↔◌, ◌∙◌, ltb→lt, ◌⊎◌, inl, inr, Bool,
  true, none, [], ◌∷◌, ◌++◌, ◌&&◌, all, length, replicate, ltb, ◌==◌, ok, err, panic, Result, arith,
  if◌then◌else◌, Bool-cases,
}
use aptos_etl.Prelude.Text.{
  Text, byte_len, strip_prefix?, is_ascii_hexdigit, pad_zeros, byte_len-append, length-pad_zeros,
  length-le-byte_len,
}
use aptos_etl.Address.{
  AddressErrorType, too_long, too_short, non_hex_chars, missing_prefix, address_prefix,
  strip_prefix, non_hex, validate_string, format_address, fix_attempts, try_fix_string,
}

abbrev pub IsHex : Text → Type 0
IsHex s = all is_ascii_hexdigit s ≡ true

pub all-append : (p : ℕ → Bool) (s t : Text) → all p (s ++ t) ≡ (all p s && all p t)
all-append p [] t = refl
all-append p (c ∷ s) t = ground (arith, all-append p s t)

all-zeros : (n : ℕ) → all is_ascii_hexdigit (replicate n 48) ≡ true
all-zeros zero = refl
all-zeros (suc n) = all-zeros n

byte_len-zeros : (n : ℕ) → byte_len (replicate n 48) ≡ n
byte_len-zeros zero = refl
byte_len-zeros (suc n) = omega (arith, byte_len-zeros n)

-- Padding adds hexadecimal digits.
all-pad_zeros : (w : ℕ) (s : Text) → all is_ascii_hexdigit (pad_zeros w s) ≡ all is_ascii_hexdigit s
all-pad_zeros w s =
    rw (all-append is_ascii_hexdigit (replicate (w - length s) 48) s, all-zeros (w - length s))

byte_len-pad_zeros : (w : ℕ) (s : Text) → byte_len (pad_zeros w s) ≡ (w - length s) + byte_len s
byte_len-pad_zeros w s =
    rw (byte_len-append (replicate (w - length s) 48) s, byte_len-zeros (w - length s))

-- A hexadecimal digit is one byte long.
hex_byte_len : (s : Text) → IsHex s → byte_len s ≡ length s
hex_byte_len [] h = refl
hex_byte_len (c ∷ s) h = ground (arith, hex_byte_len s)

prefix-cases :
    (s : Text) → (strip_prefix? address_prefix s ≡ none) ⊎ ((d : Text) × (s ≡ address_prefix ++ d))
prefix-cases [] = inl refl
prefix-cases (c ∷ []) = ground arith
prefix-cases (c ∷ x ∷ d) = elim (Bool-cases ((48 == c) && (120 == x))) [
  | inl e ↦ inr (d, ground arith)
  | inr e ↦ inl (ground arith)
]

-- What the checks say of `0x` followed by `d`, once `d` is long enough.
checked : Text → Result AddressErrorType Text
checked d =
    if ltb 64 (byte_len d)
    then err (too_long (2 + byte_len d))
    else if all is_ascii_hexdigit d
    then ok (address_prefix ++ d)
    else err (non_hex_chars (non_hex (address_prefix ++ d)))

fix_attempts-long :
    (n : ℕ) (s d : Text)
    → 64 ≤ byte_len d
    → fix_attempts (suc n) s (address_prefix ++ d) ≡ checked d
unfolding fix_attempts checked
fix_attempts-long n s d h = ground arith

fix_attempts-short :
    (n : ℕ) (d : Text)
    → byte_len d < 64
    → fix_attempts (suc n) (address_prefix ++ d) (address_prefix ++ d)
      ≡ fix_attempts n (address_prefix ++ d) (format_address d)
unfolding fix_attempts
fix_attempts-short n d h = ground arith

long_enough : (s : Text) → 64 ≤ byte_len (pad_zeros 64 s)
long_enough s = omega (arith, length-pad_zeros 64 s, length-le-byte_len (pad_zeros 64 s))

missing-prefix :
    (s : Text) → strip_prefix? address_prefix s ≡ none → validate_string s ≡ err missing_prefix
unfolding validate_string
missing-prefix s e = ground arith

fix_attempts-plain :
    (n : ℕ) (s : Text)
    → strip_prefix? address_prefix s ≡ none
    → fix_attempts (suc n) s s ≡ fix_attempts n s (format_address s)
unfolding fix_attempts
fix_attempts-plain n s e = rw (e, validate_string, fix_attempts) refl

-- A string with no prefix is padded and checked.
try_fix_string-plain :
    (s : Text) → strip_prefix? address_prefix s ≡ none → try_fix_string s ≡ checked (pad_zeros 64 s)
unfolding try_fix_string
try_fix_string-plain s e =
    fix_attempts-plain 9 s e ∙ fix_attempts-long 8 s (pad_zeros 64 s) (long_enough s)

-- A string with the prefix is checked as it is, or padded first if it is too short.
try_fix_string-prefixed :
    (d : Text)
    → try_fix_string (address_prefix ++ d)
      ≡ checked (if ltb (byte_len d) 64 then pad_zeros 64 d else d)
unfolding try_fix_string
try_fix_string-prefixed d = elim (Bool-cases (ltb (byte_len d) 64)) [
  | inl short ↦ rw short (
      fix_attempts-short 9 d (omega (arith, ltb→lt _ _ short))
      ∙ fix_attempts-long 8 (address_prefix ++ d) (pad_zeros 64 d) (long_enough d))
  | inr long ↦ rw long (fix_attempts-long 9 (address_prefix ++ d) d (ground arith))
]

-- The checks accept what is hexadecimal and has at most 64 bytes.
checked-ok :
    (d a : Text) → (checked d ≡ ok a) ↔ (IsHex d × (byte_len d ≤ 64) × (a ≡ address_prefix ++ d))
unfolding checked
checked-ok d a = (λ h. ground arith, λ h. ground arith)

-- What a string is to be: the padded form of what stands behind the prefix, if any.
abbrev pub Accepts : Text → Text → Type 0
Accepts s a =
    IsHex (strip_prefix s) × (length (strip_prefix s) ≤ 64) × (a ≡ format_address (strip_prefix s))

pad_zeros-long : (w : ℕ) (s : Text) → w ≤ length s → pad_zeros w s ≡ s
pad_zeros-long w s h =
    let none_missing : w - length s ≡ 0 = omega arith in ap (λ n. replicate n 48 ++ s) none_missing

-- The padded form passes the checks exactly if the digits are few enough.
padded-ok :
    (d a : Text)
    → (checked (pad_zeros 64 d) ≡ ok a) ↔ (IsHex d × (length d ≤ 64) × (a ≡ format_address d))
padded-ok d a = (
  λ h.
      let (hex, short, e) = (checked-ok (pad_zeros 64 d) a).0 h in
      let hex_d : IsHex d = sym (all-pad_zeros 64 d) ∙ hex in
      (hex_d, omega (arith, byte_len-pad_zeros 64 d, hex_byte_len d hex_d), e),
  λ h. (checked-ok (pad_zeros 64 d) a).1 (
    all-pad_zeros 64 d ∙ h.0,
    omega (arith, byte_len-pad_zeros 64 d, hex_byte_len d h.0, h.1),
    h.2,
  ),
)

long-ok :
    (d a : Text)
    → 64 ≤ byte_len d
    → (checked d ≡ ok a) ↔ (IsHex d × (length d ≤ 64) × (a ≡ format_address d))
long-ok d a long = (
  λ h.
      let (hex, short, e) = (checked-ok d a).0 h in
      let len : length d ≤ 64 = omega (arith, hex_byte_len d hex, short) in
      (
        hex,
        len,
        e
            ∙ ap (λ t. address_prefix ++ t)
                (sym (pad_zeros-long 64 d (omega (arith, hex_byte_len d hex)))),
      ),
  λ h. (checked-ok d a).1 (
    h.0,
    omega (arith, hex_byte_len d h.0, h.1),
    h.2 ∙ ap (λ t. address_prefix ++ t) (pad_zeros-long 64 d (omega (arith, hex_byte_len d h.0))),
  ),
)

strip_prefix-plain : (s : Text) → strip_prefix? address_prefix s ≡ none → strip_prefix s ≡ s
unfolding strip_prefix
strip_prefix-plain s e = ground arith

strip_prefix-prefixed : (d : Text) → strip_prefix (address_prefix ++ d) ≡ d
unfolding strip_prefix
strip_prefix-prefixed d = refl

-- A string is accepted exactly if what stands behind its `0x`, or the whole string where there is
-- no `0x`, consists of at most 64 hexadecimal digits; the result is `0x` and those digits, padded
-- with zeros on the left to 64.
pub try_fix_string_iff : (s a : Text) → (try_fix_string s ≡ ok a) ↔ Accepts s a
try_fix_string_iff s a = elim (prefix-cases s) [
  | inl plain ↦ rw (try_fix_string-plain s plain, strip_prefix-plain s plain) (padded-ok s a)
  | inr (d, e) ↦
      rw (e, try_fix_string-prefixed d, strip_prefix-prefixed d)
        (elim (Bool-cases (ltb (byte_len d) 64)) [
          | inl short ↦ rw short (padded-ok d a)
          | inr long ↦ rw long (long-ok d a (ground arith))
        ])
]

-- How a rejection looks: never the panic behind the loop, and never one of the two errors that
-- padding repairs.
abbrev pub IsFinal : Result AddressErrorType Text → Type 0
IsFinal (ok a) = (d : Text) × (a ≡ address_prefix ++ d) × (byte_len d ≡ 64) × IsHex d
IsFinal (err (too_long n)) = 66 < n
IsFinal (err (non_hex_chars cs)) = cs ≢ []
IsFinal (err (too_short n)) = ⊥
IsFinal (err missing_prefix) = ⊥
IsFinal panic = ⊥

non_hex-prefix : (d : Text) → non_hex (address_prefix ++ d) ≢ []
non_hex-prefix d = ground arith

checked-IsFinal : (d : Text) → 64 ≤ byte_len d → IsFinal (checked d)
unfolding checked
checked-IsFinal d h = elim (Bool-cases (ltb 64 (byte_len d))) [
  | inl long ↦ rw long (omega (arith, ltb→lt _ _ long))
  | inr fits ↦ rw fits (elim (Bool-cases (all is_ascii_hexdigit d)) [
    | inl hex ↦ rw hex (d, refl, ground arith, hex)
    | inr other ↦ rw other (non_hex-prefix d)
  ])
]

-- Every string is decided within the ten attempts: the result is a standard address of `0x` and 64
-- bytes of hexadecimal digits, or the string is too long, or it has characters that are no
-- hexadecimal digits, and the error then lists some.
pub try_fix_string-IsFinal : (s : Text) → IsFinal (try_fix_string s)
try_fix_string-IsFinal s = elim (prefix-cases s) [
  | inl plain ↦ rw (try_fix_string-plain s plain) (checked-IsFinal (pad_zeros 64 s) (long_enough s))
  | inr (d, e) ↦
      rw (e, try_fix_string-prefixed d)
        (elim (Bool-cases (ltb (byte_len d) 64)) [
          | inl short ↦ rw short (checked-IsFinal (pad_zeros 64 d) (long_enough d))
          | inr long ↦ rw long (checked-IsFinal d (ground arith))
        ])
]

standard_kept :
    (d : Text)
    → byte_len d ≡ 64
    → IsHex d
    → try_fix_string (address_prefix ++ d) ≡ ok (address_prefix ++ d)
standard_kept d len hex =
    rw (try_fix_string-prefixed d, len)
      ((checked-ok d (address_prefix ++ d)).1 (hex, omega arith, refl))

-- What has been standardised once is left as it is.
try_fix_string_idem : (s a : Text) → try_fix_string s ≡ ok a → try_fix_string a ≡ ok a
try_fix_string_idem s a h =
    let (d, e, len, hex) = subst IsFinal h (try_fix_string-IsFinal s) in
    rw e (standard_kept d len hex)
