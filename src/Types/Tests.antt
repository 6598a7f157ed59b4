-- ===== src/Types/Tests.antt =====
-- The printed forms of some types.
use aptos_etl.Prelude.{
  ℕ, true, false, Option, none, some, [], ◌∷◌, ok, err, ◌≡◌, ◌↔◌, refl, Gives, all, not, arith,
  if◌then◌else◌, ◌==◌,
}
use aptos_etl.Prelude.Text.{Text, codes}
use aptos_etl.Address as Address
use aptos_etl.Types.{
  move_type, absent, vector, struct, generic_type_param, generic_type_param_index, reference,
  unparsable, other, missing, to, nil, cons, MoveTypes, Enumeration, MoveType, encode_message,
  try_encode, empty_reference, reference_type_error,
}
use aptos_etl.Types.Brackets.{nest, IsName, is_bracket}
use aptos_etl.Types.Printable.{Succeeds, Printable}
use aptos_etl.Types.Total.{encode_message-Printable}
use aptos_etl.Types.Balanced.{PlainNames, HasNames, nest-encode_message}

abbrev decode_member : ℕ → Option MoveTypes
decode_member n =
    if n == 7
    then some vector
    else if n == 8
    then some struct
    else if n == 9
    then some generic_type_param
    else if n == 10
    then some reference
    else if n == 11
    then some unparsable
    else if n == 99
    then none
    else some (other n)

abbrev member_name : MoveTypes → Text
member_name (other n) = codes "MOVE_TYPES_U64"
member_name kind = codes "MOVE_TYPES_MEMBER"

abbrev service : Enumeration
service = record { decode = decode_member; as_str_name = member_name }

abbrev u64 : MoveType
u64 = move_type 3 absent

-- A reference to a vector of a table from numbers to the first parameter.
abbrev table_ref : MoveType
table_ref = move_type 10 (
    reference true (
      to (
        move_type 7 (
          vector (
            move_type 8 (
              struct (codes "0x1") (codes "table") (codes "Table")
                (cons u64 (cons (move_type 9 (generic_type_param_index 0)) nil))))))))

check-IsName : (s : Text) → all (λ c. not (is_bracket c)) s ≡ true → IsName s
check-IsName [] h = tt
check-IsName (c ∷ s) h = (ground arith, check-IsName s (ground arith))

names-PlainNames : PlainNames service
names-PlainNames (other n) = check-IsName (codes "MOVE_TYPES_U64") refl
names-PlainNames kind = check-IsName (codes "MOVE_TYPES_MEMBER") refl

nest-encode_message_example :
    Gives (λ s. (depth : ℕ) → nest depth s ≡ some depth) (encode_message service table_ref)
unfolding HasNames
nest-encode_message_example =
    nest-encode_message service table_ref names-PlainNames
      (check-IsName (codes "table") refl, (check-IsName (codes "Table") refl, (tt, (tt, tt))))

encode_vector : encode_message service (move_type 7 (vector u64)) ≡ ok (codes "Vector<U64>")
unfolding try_encode
encode_vector = refl

encode_to_nothing :
    encode_message service
      (move_type 10 (reference false (to (move_type 10 (reference true missing)))))
    ≡ err (reference_type_error empty_reference)
unfolding try_encode
encode_to_nothing = refl

encode_message-Printable_example :
    Printable service table_ref ↔ Succeeds (encode_message service table_ref)
encode_message-Printable_example = encode_message-Printable service table_ref

table_ref-Printable : Printable service table_ref
unfolding Printable Address.strip_prefix
table_ref-Printable = ((refl, omega arith), ((codes "U64", refl), (tt, tt)))
