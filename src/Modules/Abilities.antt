-- ===== src/Modules/Abilities.antt =====
-- Abilities and generic parameters: processing/reps/abilties.rs and generictypeparam.rs.
use aptos_etl.Prelude.{
  ℕ, Bool, true, false, Option, none, some, List, [], ◌∷◌, ◌++◌, Result, ok, err, ◌>>=◌, map_err,
  map_ok, ok_or, try_map, map,
}
use aptos_etl.Prelude.Text.{Text, codes, strip_prefix?, join}
use aptos_etl.Types.{MoveTypeError}
use aptos_etl.Modules.Messages.{
  MoveAbility, MoveFunctionGenericTypeParam, MoveStructGenericTypeParam,
}

abbrev pub ability_prefix : Text
ability_prefix = codes "MOVE_ABILITY_"

pub data AbilityError : Type 0 where
  unspecified move_type_context : AbilityError
  decode_error : ℕ → AbilityError
  unkown_variant : ℕ → AbilityError
  missing_prefix : Text → AbilityError
  move_type : MoveTypeError → AbilityError

-- The enumeration of proto_src/modules.proto, and its names.
pub data AbilityOut : Type 0 where
  copy drop store key : AbilityOut

abbrev pub ability_out_name : AbilityOut → Text
ability_out_name copy = codes "Copy"
ability_out_name drop = codes "Drop"
ability_out_name store = codes "Store"
ability_out_name key = codes "Key"

-- `TryEncode<String>`, with the generated names of the service's enumeration.
unfoldable pub ability_string : (MoveAbility → Text) → MoveAbility → Result AbilityError Text
ability_string as_str_name MoveAbility.unspecified = err unspecified
ability_string as_str_name other =
    ok_or (strip_prefix? ability_prefix (as_str_name other)) (missing_prefix (as_str_name other))

-- `TryEncode<MoveAbility>`
unfoldable pub ability_out : MoveAbility → Result AbilityError AbilityOut
ability_out MoveAbility.copy = ok copy
ability_out MoveAbility.drop = ok drop
ability_out MoveAbility.key = ok key
ability_out MoveAbility.store = ok store
ability_out MoveAbility.unspecified = err unspecified

pub data GenericTypeParamError : Type 0 where
  function_has_no_phantom incorrect_generic_type : GenericTypeParamError
  ability : AbilityError → GenericTypeParamError

pub data GenericTypeParam : Type 0 where
  struct : List MoveAbility → Bool → GenericTypeParam
  function : List MoveAbility → GenericTypeParam

unfoldable pub new : List MoveAbility → Option Bool → GenericTypeParam
new constraints (some is_phantom) = struct constraints is_phantom
new constraints none = function constraints

abbrev pub of_function : MoveFunctionGenericTypeParam → GenericTypeParam
of_function value = new value.constraints none

abbrev pub of_struct : MoveStructGenericTypeParam → GenericTypeParam
of_struct value = new value.constraints (some value.is_phantom)

abbrev pub is_for_struct : GenericTypeParam → Bool
is_for_struct (struct c phantom) = true
is_for_struct (function c) = false

abbrev pub is_for_function : GenericTypeParam → Bool
is_for_function (struct c phantom) = false
is_for_function (function c) = true

unfoldable pub is_phantom : GenericTypeParam → Result GenericTypeParamError Bool
is_phantom (struct c phantom) = ok phantom
is_phantom (function c) = err function_has_no_phantom

abbrev pub constraints : GenericTypeParam → List MoveAbility
constraints (struct c phantom) = c
constraints (function c) = c

-- The items of the string, separated, enclosed and with a prefix; there is none without a constraint.
unfoldable pub constraint_string :
    (MoveAbility → Text)
    → Text
    → Option (Text × Text)
    → Option Text
    → GenericTypeParam
    → Result GenericTypeParamError (Option Text)
constraint_string as_str_name sep enclosed_with prefix p = elim (constraints p) [
  | [] ↦ ok none
  | a ∷ as_ ↦ do
    strings ← try_map (λ c. map_err ability (ability_string as_str_name c)) (a ∷ as_)
    ok (
        some (
          elim prefix [ none ↦ [] | some s ↦ s ]
          ++ (elim enclosed_with [ none ↦ [] | some e ↦ e.0 ]
              ++ (join sep strings ++ elim enclosed_with [ none ↦ [] | some e ↦ e.1 ]))))
]

-- The messages of proto_src/modules.proto.
pub record GenericFunctionTypeParams : Type 0 where
  pub constraints : List Text

pub record GenericStructTypeParams : Type 0 where
  pub constraints : List Text
  pub is_phantom : Bool

abbrev pub encode_constraints : List MoveAbility → Result GenericTypeParamError (List Text)
encode_constraints abilities =
    map_ok (map ability_out_name) (map_err ability (try_map ability_out abilities))

unfoldable pub encode_function_params :
    GenericTypeParam → Result GenericTypeParamError GenericFunctionTypeParams
encode_function_params (function abilities) =
    encode_constraints abilities >>= λ strings. ok (record { constraints = strings })
encode_function_params (struct abilities phantom) = err incorrect_generic_type

unfoldable pub encode_struct_params :
    GenericTypeParam → Result GenericTypeParamError GenericStructTypeParams
encode_struct_params (struct abilities phantom) = encode_constraints abilities >>= λ strings.
    ok (record { constraints = strings; is_phantom = phantom })
encode_struct_params (function abilities) = err incorrect_generic_type
