-- ===== src/Modules/Structs.antt =====
-- Structs and their fields: processing/reps/mvstruct.rs.
use aptos_etl.Prelude.{
  Bool, Option, none, some, List, map, Result, ok, err, ◌>>=◌, map_err, try_map,
}
use aptos_etl.Prelude.Text.{Text}
use aptos_etl.Types.{MoveTypeError, Enumeration, MoveType}
use aptos_etl.Types.Tags.{Converted, convert, encode}
use aptos_etl.Modules.Messages.{MoveAbility, MoveStructField, MoveStruct}
use aptos_etl.Modules.Abilities.{
  AbilityError, GenericTypeParam, GenericTypeParamError, GenericStructTypeParams, ability_string,
  of_struct, encode_struct_params,
}

pub data MvStructError : Type 0 where
  missing_field_type : Text → MvStructError
  move_type : MoveTypeError → MvStructError
  struct_field_missing_move_type : MvStructError
  ability : AbilityError → MvStructError
  generic_type_param : GenericTypeParamError → MvStructError

pub record StructField : Type 0 where
  pub name : Text
  pub mvtype : Converted

pub record MvStruct : Type 0 where
  pub name : Text
  pub is_native : Bool
  pub abilities : List MoveAbility
  pub generic_type_params : List GenericTypeParam
  pub fields : List StructField

-- The messages of proto_src/modules.proto.
pub record Fields : Type 0 where
  pub name : Text
  pub type_of : Text

pub record Struct : Type 0 where
  pub name : Text
  pub is_native : Bool
  pub abilities : List Text
  pub generic_type_params : List GenericStructTypeParams
  pub fields : List Fields

module _ (E : Enumeration) where
  abbrev pub field_type : Option MoveType → Result MvStructError Converted
  field_type none = err struct_field_missing_move_type
  field_type (some mvtype) = map_err move_type (convert E mvtype)

  unfoldable pub field_try_from : MoveStructField → Result MvStructError StructField
  field_try_from value =
      field_type value.type_of >>= λ mvtype. ok (record { name = value.name; mvtype = mvtype })

  unfoldable pub field_encode : StructField → Result MvStructError Fields
  field_encode f =
      map_err move_type (encode E f.mvtype) >>= λ s. ok (record { name = f.name; type_of = s })

  unfoldable pub try_from : MoveStruct → Result MvStructError MvStruct
  try_from value = do
    fields ← try_map field_try_from value.fields
    ok (record {
      name = value.name;
      is_native = value.is_native;
      abilities = value.abilities;
      generic_type_params = map of_struct value.generic_type_params;
      fields = fields;
    })

  unfoldable pub try_encode : (MoveAbility → Text) → MvStruct → Result MvStructError Struct
  try_encode as_str_name s = do
    abilities ← map_err ability (try_map (ability_string as_str_name) s.abilities)
    gtps ← map_err generic_type_param (try_map encode_struct_params s.generic_type_params)
    fields ← try_map field_encode s.fields
    ok (record {
      name = s.name;
      is_native = s.is_native;
      abilities = abilities;
      generic_type_params = gtps;
      fields = fields;
    })
