-- ===== src/Types/Tags.antt =====
-- Converted types and struct tags: the structs of processing/reps/movetype.rs and structtag.rs.
use aptos_etl.Prelude.{List, Result, ok, ◌>>=◌, map_err, try_map}
use aptos_etl.Prelude.Text.{Text}
use aptos_etl.Address.{Address, AddressError}
use aptos_etl.Address as Address
use aptos_etl.Types.{
  MoveType, Content, MoveTypes, Enumeration, MoveTypeError, StructTagError, address, move_type,
  try_from, try_encode, tagged,
}

-- A type whose number has been looked up.
pub record Converted : Type 0 where
  pub movetype : MoveTypes
  pub content : Content

pub record MoveStructTag : Type 0 where
  pub address : Text
  pub module_name : Text
  pub name : Text
  pub generic_type_params : List MoveType

pub record StructTag : Type 0 where
  pub address : Address
  pub module_name : Text
  pub name : Text
  pub generic_type_params : List Converted

-- The message of proto_src/resources_extras.proto.
pub record StructTagOut : Type 0 where
  pub address : Text
  pub module_name : Text
  pub name : Text
  pub generic_type_params : List Text

module _ (E : Enumeration) where
  unfoldable pub convert : MoveType → Result MoveTypeError Converted
  convert (move_type n c) = try_from E n >>= λ kind. ok (record { movetype = kind; content = c })

  unfoldable pub encode : Converted → Result MoveTypeError Text
  encode r = try_encode E r.movetype r.content

  unfoldable pub tag_try_from : MoveStructTag → Result StructTagError StructTag
  tag_try_from value = do
    generic_type_params ←
        map_err StructTagError.move_type (try_map convert value.generic_type_params)
    ok (record {
      address = Address.string value.address;
      module_name = value.module_name;
      name = value.name;
      generic_type_params = generic_type_params;
    })

  unfoldable pub tag_encode : StructTag → Result StructTagError Text
  tag_encode t = do
    printed ← map_err address (Address.try_encode t.address)
    strings ← map_err StructTagError.move_type (try_map encode t.generic_type_params)
    ok (tagged printed t.module_name t.name strings)

  unfoldable pub tag_out : StructTag → Result StructTagError StructTagOut
  tag_out t = do
    printed ← map_err address (Address.try_encode t.address)
    strings ← map_err StructTagError.move_type (try_map encode t.generic_type_params)
    ok (record {
      address = printed;
      module_name = t.module_name;
      name = t.name;
      generic_type_params = strings;
    })
