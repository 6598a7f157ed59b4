-- ===== src/Prelude/Text.antt =====
-- Rust strings as lists of code points. `str::len` counts the bytes of their UTF-8 form, and
-- `{:0>64}` pads to a number of code points.
use Prim.Native.Char.{code}
use aptos_etl.Prelude.Tests.{ltb, leb, ◌==◌, if◌then◌else◌}
use aptos_etl.Prelude.Lists.{length, replicate, length-append, length-replicate}
use Prim.Native.Nat.{ℕ, zero, suc, ◌+◌, ◌-◌, ◌/◌, ◌%◌, ◌≤◌}
use Prim.Native.String.{String}
use mathlib.Core.Path.{◌≡◌, refl}
use mathlib.Core.Bool.{Bool, true, false, ◌&&◌, ◌||◌}
use mathlib.Core.List.{List, [], ◌∷◌, ◌++◌}
use mathlib.Core.Option.{Option, none, some}
use native.Mathlib.Omega.{arith}

abbrev pub Text : Type 0
Text = List ℕ

abbrev pub codes : String → Text
codes String.[] = []
codes (String.◌∷◌ c s) = code c ∷ codes s

-- The bytes that UTF-8 uses for a code point.
abbrev pub utf8_len : ℕ → ℕ
utf8_len c = if ltb c 128 then 1 else if ltb c 2048 then 2 else if ltb c 65536 then 3 else 4

-- `str::len`
abbrev pub byte_len : Text → ℕ
byte_len [] = 0
byte_len (c ∷ s) = utf8_len c + byte_len s

-- `str::strip_prefix`
abbrev pub strip_prefix? : Text → Text → Option Text
strip_prefix? [] s = some s
strip_prefix? (p ∷ ps) [] = none
strip_prefix? (p ∷ ps) (c ∷ s) = if p == c then strip_prefix? ps s else none

-- `char::is_ascii_hexdigit`
abbrev pub is_ascii_hexdigit : ℕ → Bool
is_ascii_hexdigit c = (leb 48 c && leb c 57) || ((leb 97 c && leb c 102) || (leb 65 c && leb c 70))

-- `format!("{:0>width}", s)`
abbrev pub pad_zeros : ℕ → Text → Text
pad_zeros width s = replicate (width - length s) 48 ++ s

-- A digit of `hex::encode`, and its two digits for a byte.
abbrev pub hex_digit : ℕ → ℕ
hex_digit d = if ltb d 10 then 48 + d else 87 + d

-- `hex::encode`
abbrev pub hex_encode : List ℕ → Text
hex_encode [] = []
hex_encode (b ∷ bytes) = hex_digit (b / 16) ∷ hex_digit (b % 16) ∷ hex_encode bytes

-- `u64::to_string`: the least significant of at most `fuel` digits comes last.
abbrev pub decimal : ℕ → ℕ → Text
decimal zero n = []
decimal (suc fuel) n = elim (ltb n 10) [
  | true ↦ (48 + n) ∷ []
  | false ↦ decimal fuel (n / 10) ++ (48 + n % 10) ∷ []
]

-- A `u64` has at most twenty digits.
abbrev pub to_string : ℕ → Text
to_string n = decimal 20 n

pub length-le-byte_len : (s : Text) → length s ≤ byte_len s
length-le-byte_len [] = omega arith
length-le-byte_len (c ∷ s) = ground (arith, length-le-byte_len s)

pub byte_len-append : (s t : Text) → byte_len (s ++ t) ≡ byte_len s + byte_len t
byte_len-append [] t = omega arith
byte_len-append (c ∷ s) t = omega (arith, byte_len-append s t)

pub length-pad_zeros : (width : ℕ) (s : Text) → width ≤ length (pad_zeros width s)
length-pad_zeros width s = omega (
  arith,
  length-append {0} {A = ℕ} (replicate (width - length s) 48) s,
  length-replicate {0} {A = ℕ} (width - length s) 48,
)

abbrev pub text_eq : Text → Text → Bool
text_eq [] [] = true
text_eq (c ∷ s) (d ∷ t) = if c == d then text_eq s t else false
text_eq [] (d ∷ t) = false
text_eq (c ∷ s) [] = false

pub text_eq→≡ : (s t : Text) → text_eq s t ≡ true → s ≡ t
text_eq→≡ [] [] h = refl
text_eq→≡ (c ∷ s) (d ∷ t) h = ground (arith, text_eq→≡ s t)
text_eq→≡ [] (d ∷ t) h = cc
text_eq→≡ (c ∷ s) [] h = cc

pub text_eq_refl : (s : Text) → text_eq s s ≡ true
text_eq_refl [] = refl
text_eq_refl (c ∷ s) = ground (arith, text_eq_refl s)

-- Strings joined by a separator, the empty one for none.
abbrev pub join : Text → List Text → Text
join sep [] = []
join sep (s ∷ []) = s
join sep (s ∷ t ∷ ts) = s ++ sep ++ join sep (t ∷ ts)
