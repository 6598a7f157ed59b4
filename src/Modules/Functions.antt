-- ===== src/Modules/Functions.antt =====
-- Functions and their visibility: processing/reps/function.rs and visibility.rs.
use aptos_etl.Prelude.{ℕ, Bool, Option, List, map, Result, ok, err, ◌>>=◌, map_err, ok_or, try_map}
use aptos_etl.Prelude.Text.{Text, codes}
use aptos_etl.Types.{MoveTypeError, Enumeration}
use aptos_etl.Types.Tags.{Converted, convert, encode}
use aptos_etl.Modules.Messages.{Visibility, MoveFunction}
use aptos_etl.Modules.Abilities.{
  GenericTypeParam, GenericTypeParamError, GenericFunctionTypeParams, of_function,
  encode_function_params,
}

pub data VisibilityError : Type 0 where
  decode_error : ℕ → VisibilityError
  unspecified : VisibilityError

pub record IntermediateVisibility : Type 0 where
  pub inner : Visibility

-- The enumeration of proto_src/common.proto, and its names.
pub data VisibilityOut : Type 0 where
  private public friend : VisibilityOut

abbrev pub visibility_name : VisibilityOut → Text
visibility_name private = codes "private"
visibility_name public = codes "public"
visibility_name friend = codes "friend"

-- The generated decoding is a parameter.
unfoldable pub visibility_try_from :
    (ℕ → Option Visibility) → ℕ → Result VisibilityError IntermediateVisibility
visibility_try_from decode value =
    ok_or (decode value) (decode_error value) >>= λ v. ok (record { inner = v })

abbrev pub visibility_of : Visibility → Result VisibilityError VisibilityOut
visibility_of Visibility.friend = ok friend
visibility_of Visibility.private = ok private
visibility_of Visibility.public = ok public
visibility_of Visibility.unspecified = err unspecified

unfoldable pub visibility_encode : IntermediateVisibility → Result VisibilityError VisibilityOut
visibility_encode v = visibility_of v.inner

pub data FunctionError : Type 0 where
  move_type : MoveTypeError → FunctionError
  generic_type_param : GenericTypeParamError → FunctionError
  visibility : VisibilityError → FunctionError

pub record Function : Type 0 where
  pub name : Text
  pub visibility : IntermediateVisibility
  pub is_entry : Bool
  pub generic_type_params : List GenericTypeParam
  pub params : List Converted
  pub returns : List Converted

-- The message of proto_src/modules.proto.
pub record ExposedFunction : Type 0 where
  pub name : Text
  pub visibility : Text
  pub is_entry : Bool
  pub generic_type_params : List GenericFunctionTypeParams
  pub params : List Text
  pub returns : List Text

module _ (E : Enumeration) where
  -- Both conversions, from a message and from a reference to one.
  unfoldable pub try_from : MoveFunction → Result FunctionError Function
  try_from value = do
    params ← map_err move_type (try_map (convert E) value.params)
    returns ← map_err move_type (try_map (convert E) value.returns)
    ok (record {
      name = value.name;
      visibility = record { inner = value.visibility };
      is_entry = value.is_entry;
      generic_type_params = map of_function value.generic_type_params;
      params = params;
      returns = returns;
    })

  unfoldable pub try_into : Function → Result FunctionError ExposedFunction
  try_into f = do
    gentypeparams ←
        map_err generic_type_param (try_map encode_function_params f.generic_type_params)
    params ← map_err move_type (try_map (encode E) f.params)
    returns ← map_err move_type (try_map (encode E) f.returns)
    shown ← map_err FunctionError.visibility (visibility_encode f.visibility)
    ok (record {
      name = f.name;
      visibility = visibility_name shown;
      is_entry = f.is_entry;
      generic_type_params = gentypeparams;
      params = params;
      returns = returns;
    })
