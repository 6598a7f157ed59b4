-- ===== src/Types.antt =====
-- The printed forms of types: processing/reps/movetype.rs and structtag.rs.
mod Brackets
pub mod Tags
mod Balanced
pub mod Printable
mod Total
mod Tests
use aptos_etl.Prelude.{
  ℕ, Bool, Option, none, some, List, [], ◌∷◌, ◌++◌, ok, err, Result, map_err, map_ok, ◌>>=◌, ok_or,
  if◌then◌else◌,
}
use aptos_etl.Prelude.Text.{Text, codes, strip_prefix?, to_string, join, text_eq}
use aptos_etl.Address.{AddressError}
use aptos_etl.Address as Address

-- The enumeration of the service: the members that the program names, and the others by number.
pub data MoveTypes : Type 0 where
  reference generic_type_param struct vector unparsable : MoveTypes
  other : ℕ → MoveTypes

-- The enumeration's generated functions.
pub record Enumeration : Type 0 where
  pub decode : ℕ → Option MoveTypes
  pub as_str_name : MoveTypes → Text

-- The service's messages: a type is a number of the enumeration and a content, which may be absent.
mutual
  pub data MoveType : Type 0 where
    move_type : ℕ → Content → MoveType

  pub data Content : Type 0 where
    absent : Content
    vector : MoveType → Content
    struct : Text → Text → Text → Params → Content
    generic_type_param_index : ℕ → Content
    reference : Bool → Target → Content
    unparsable : Text → Content

  -- What a reference points to.
  pub data Target : Type 0 where
    missing : Target
    to : MoveType → Target

  -- The generic parameters of a struct.
  pub data Params : Type 0 where
    nil : Params
    cons : MoveType → Params → Params

-- Without the two errors that wrap those of abilities and of constraints: nothing here returns them.
mutual
  pub data MoveTypeError : Type 0 where
    unspecified_move_type_error empty_reference mismatch_content : MoveTypeError
    move_type_decode_error : ℕ → MoveTypeError
    lacked_prefix unparsable : Text → MoveTypeError
    missing_content unsupported_adv_move_type context_error : MoveTypes → MoveTypeError
    reference_type_error : MoveTypeError → MoveTypeError
    struct_tag : StructTagError → MoveTypeError

  pub data StructTagError : Type 0 where
    address : AddressError → StructTagError
    move_type : MoveTypeError → StructTagError

abbrev pub movetype_prefix : Text
movetype_prefix = codes "MOVE_TYPES_"

-- The conversion of a message checks its number and keeps its content.
abbrev pub try_from : Enumeration → ℕ → Result MoveTypeError MoveTypes
try_from E n = ok_or (E.decode n) (move_type_decode_error n)

-- `MoveType::try_from_vec`
abbrev pub try_from_vec : Enumeration → Params → Result MoveTypeError (List MoveTypes)
try_from_vec E nil = ok []
try_from_vec E (cons (move_type n c) ps) =
    try_from E n >>= λ kind. try_from_vec E ps >>= λ kinds. ok (kind ∷ kinds)

abbrev pub stripped : Text → Result MoveTypeError Text
stripped name = ok_or (strip_prefix? movetype_prefix name) (lacked_prefix name)

-- A type without content.
abbrev pub encode_plain : Enumeration → MoveTypes → Result MoveTypeError Text
encode_plain E reference = err (missing_content reference)
encode_plain E generic_type_param = err (missing_content generic_type_param)
encode_plain E struct = err (missing_content struct)
encode_plain E vector = err (missing_content vector)
encode_plain E unparsable = stripped (E.as_str_name unparsable)
encode_plain E (other n) = stripped (E.as_str_name (other n))

abbrev pub reference_prefix : Bool → Text
reference_prefix mutable = if mutable then codes "&mut " else codes "&"

abbrev pub encode_unparsable : Text → Result MoveTypeError Text
encode_unparsable s =
    if text_eq s (codes "function") then ok (codes "function") else err (MoveTypeError.unparsable s)

abbrev pub encode_params : List Text → Text
encode_params [] = []
encode_params (s ∷ ss) = codes "<" ++ join (codes ",") (s ∷ ss) ++ codes ">"

abbrev pub tagged : Text → Text → Text → List Text → Text
tagged printed module_name name params =
    printed ++ codes "::" ++ module_name ++ codes "::" ++ name ++ encode_params params

abbrev pub in_tag : MoveTypeError → MoveTypeError
in_tag e = struct_tag (StructTagError.move_type e)

-- The parameters of a struct are all converted before anything is printed; to print one, its number
-- is looked up again.
unfoldable mutual
  pub try_encode : Enumeration → MoveTypes → Content → Result MoveTypeError Text
  try_encode E kind absent = encode_plain E kind
  try_encode E kind (vector inner) = elim kind [
    | vector ↦ map_ok (λ s. codes "Vector<" ++ s ++ codes ">") (encode_message E inner)
    | found ↦ err (unsupported_adv_move_type found)
  ]
  try_encode E kind (struct a m s params) = elim kind [
    | struct ↦ map_err in_tag (try_from_vec E params) >>= λ kinds.
        map_err (λ e. struct_tag (address e)) (Address.try_encode (Address.string a)) >>= λ printed.
        map_err in_tag (encode_all E params) >>= λ strings. ok (tagged printed m s strings)
    | found ↦ err (unsupported_adv_move_type found)
  ]
  try_encode E kind (generic_type_param_index index) = elim kind [
    | generic_type_param ↦ ok (codes "T" ++ to_string index)
    | found ↦ err (unsupported_adv_move_type found)
  ]
  try_encode E kind (reference mutable target) = elim kind [
    | reference ↦ map_ok (λ s. reference_prefix mutable ++ s) (encode_target E target)
    | found ↦ err (unsupported_adv_move_type found)
  ]
  try_encode E kind (unparsable s) = elim kind [
    | unparsable ↦ encode_unparsable s
    | found ↦ err (unsupported_adv_move_type found)
  ]

  pub encode_target : Enumeration → Target → Result MoveTypeError Text
  encode_target E missing = err empty_reference
  encode_target E (to t) = map_err reference_type_error (encode_message E t)

  pub encode_all : Enumeration → Params → Result MoveTypeError (List Text)
  encode_all E nil = ok []
  encode_all E (cons t ps) = encode_message E t >>= λ s. encode_all E ps >>= λ ss. ok (s ∷ ss)

  pub encode_message : Enumeration → MoveType → Result MoveTypeError Text
  encode_message E (move_type n c) = try_from E n >>= λ kind. try_encode E kind c
