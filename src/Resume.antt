-- ===== src/Resume.antt =====
-- Where an interrupted range is taken up again: `pick_up_from_previous_range` of main.rs, for the
-- builds without a subscription. The additions on a u64 wrap around, as in the release profile.
mod Forward
mod Backward
mod Tests
use aptos_etl.Prelude.{
  ℕ, ◌+◌, ◌-◌, ◌*◌, ◌%◌, ◌^◌, Bool, true, false, ◌&&◌, Option, none, some, List, [], ◌∷◌, Result,
  ok, panic, ◌>>=◌, expect, leb, ltb, ◌==◌, if◌then◌else◌, ◌≡◌, ◌⊎◌, inl, inr,
}
use aptos_etl.Prelude.Text.{Text}

-- `str::parse::<u64>`: digits, after a plus sign if there is one, of a number below 2 ^ 64.
abbrev pub digits : ℕ → Text → Option ℕ
digits acc [] = some acc
digits acc (c ∷ cs) =
    let rest = digits (acc * 10 + (c - 48)) cs in
    if leb 48 c && leb c 57 && ltb (acc * 10 + (c - 48)) (2 ^ 64) then rest else none

abbrev pub unsigned : Text → Option ℕ
unsigned [] = none
unsigned (c ∷ cs) = digits 0 (c ∷ cs)

abbrev pub parse_u64 : Text → Option ℕ
parse_u64 [] = none
parse_u64 (c ∷ cs) = if c == 43 then unsigned cs else digits 0 (c ∷ cs)

abbrev pub incremented : ℕ → ℕ
incremented n = (n + 1) % 2 ^ 64

abbrev pub decremented : ℕ → ℕ
decremented n = (n + 2 ^ 64 - 1) % 2 ^ 64

-- The start of the range, and its end if it has one.
abbrev pub Range : Type 0
Range = ℕ × Option ℕ

-- No outcome but a range and a panic.
abbrev pub Picked : Type 0 → Type 0
Picked A = Result ⊥ A

abbrev pub next_start : ℕ → ℕ → ℕ
next_start range_start previous_end =
    if leb range_start previous_end then incremented previous_end else range_start

-- The panic when the range has been indexed already.
abbrev pub within : Option ℕ → ℕ → ℕ → Picked ℕ
within none previous_end range_start = ok range_start
within (some e) previous_end range_start = if leb e previous_end then panic else ok range_start

unfoldable pub forward : Option ℕ → List Text → ℕ → Picked ℕ
forward end [] range_start = ok range_start
forward end (file ∷ files) range_start = expect (parse_u64 file) >>= λ previous_end.
    within end previous_end (next_start range_start previous_end) >>= forward end files

abbrev pub moved : ℕ → ℕ → ℕ
moved previous_start bound = if leb previous_start bound then decremented previous_start else bound

abbrev pub reversed : ℕ → Range → Range
reversed previous_start (range_start, some e) = (range_start, some (moved previous_start e))
reversed previous_start (range_start, none) = (moved previous_start range_start, none)

unfoldable pub backward : List Text → Range → Picked Range
backward [] range = ok range
backward (file ∷ files) range =
    expect (parse_u64 file) >>= λ previous_start. backward files (reversed previous_start range)

abbrev pub started : Option ℕ → ℕ → Picked Range
started end range_start = ok (range_start, end)

-- The names of the files of the directory, in any order, if it exists, and whether it can be
-- created if it does not.
abbrev pub pick_up : Bool → List Text → Range → Picked Range
pick_up true files range = backward files range
pick_up false files (start, end) = forward end files start >>= started end

abbrev pub created : Bool → Range → Picked Range
created true range = ok range
created false range = panic

unfoldable pub pick_up_from_previous_range :
    Option (List Text) → Bool → ℕ → Option ℕ → Bool → Picked Range
pick_up_from_previous_range (some files) writable start end is_reverse =
    pick_up is_reverse files (start, end)
pick_up_from_previous_range none writable start end is_reverse = created writable (start, end)

-- The numbers that the names of the files are.
abbrev pub Names : List Text → List ℕ → Type 0
Names [] [] = Unit
Names [] (n ∷ ns) = ⊥
Names (file ∷ files) [] = ⊥
Names (file ∷ files) (n ∷ ns) = (parse_u64 file ≡ some n) × Names files ns

-- A number of the list has the property, or else the default holds.
abbrev pub AnyOr : (ℕ → Type 0) → Type 0 → List ℕ → Type 0
AnyOr P d [] = d
AnyOr P d (n ∷ ns) = P n ⊎ AnyOr P d ns

pub AnyOr-elim :
    (P : ℕ → Type 0) (c d Q : Type 0) (ns : List ℕ)
    → (c → Q)
    → (AnyOr P d ns → Q)
    → AnyOr P c ns
    → Q
AnyOr-elim P c d Q [] default any h = default h
AnyOr-elim P c d Q (n ∷ ns) default any (inl p) = any (inl p)
AnyOr-elim P c d Q (n ∷ ns) default any (inr h) = AnyOr-elim P c d Q ns default (λ a. any (inr a)) h
