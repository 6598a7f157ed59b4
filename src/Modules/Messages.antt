-- ===== src/Modules/Messages.antt =====
-- The service's messages of modules, functions and structs. A field of an enumeration is what the
-- generated accessor reads from it.
use aptos_etl.Prelude.{Bool, Option, List}
use aptos_etl.Prelude.Text.{Text}
use aptos_etl.Types.{MoveType}
use aptos_etl.Signatures.Input.{Bytes}

pub data MoveAbility : Type 0 where
  unspecified copy drop store key : MoveAbility

pub data Visibility : Type 0 where
  unspecified private public friend : Visibility

pub record MoveFunctionGenericTypeParam : Type 0 where
  pub constraints : List MoveAbility

pub record MoveStructGenericTypeParam : Type 0 where
  pub constraints : List MoveAbility
  pub is_phantom : Bool

pub record MoveFunction : Type 0 where
  pub name : Text
  pub visibility : Visibility
  pub is_entry : Bool
  pub generic_type_params : List MoveFunctionGenericTypeParam
  pub params : List MoveType
  pub returns : List MoveType

pub record MoveStructField : Type 0 where
  pub name : Text
  pub type_of : Option MoveType

pub record MoveStruct : Type 0 where
  pub name : Text
  pub is_native : Bool
  pub abilities : List MoveAbility
  pub generic_type_params : List MoveStructGenericTypeParam
  pub fields : List MoveStructField

pub record MoveModuleId : Type 0 where
  pub address : Text
  pub name : Text

pub record MoveModule : Type 0 where
  pub address : Text
  pub name : Text
  pub friends : List MoveModuleId
  pub exposed_functions : List MoveFunction
  pub structs : List MoveStruct

pub record MoveModuleBytecode : Type 0 where
  pub bytecode : Bytes
  pub abi : Option MoveModule
