-- ===== src/Modules.antt =====
-- Modules with their functions and structs: processing/reps/module.rs, and the part of
-- `get_changes` of processing/tables/changes.rs that prints a module.
pub mod Messages
pub mod Abilities
pub mod Ids
pub mod Functions
pub mod Structs
use aptos_etl.Prelude.{List, map, Result, ok, err, panic, ◌>>=◌, map_err, try_map}
use aptos_etl.Prelude.Text.{Text}
use aptos_etl.Address.{Address, string}
use aptos_etl.Types.{Enumeration}
use Messages.{MoveModule}
use Ids.{ModuleId, MoveModuleIdError, from}
use Functions.{Function, FunctionError}
use Functions as Functions
use Structs.{MvStruct, MvStructError}
use Structs as Structs

pub data ModuleError : Type 0 where
  function : FunctionError → ModuleError
  struct : MvStructError → ModuleError
  module_id : MoveModuleIdError → ModuleError

pub record ModuleExtraction : Type 0 where
  pub address : Address
  pub name : Text
  pub friends : List ModuleId
  pub exposed_functions : List Function
  pub structs : List MvStruct

-- The conversion of the friends cannot fail.
unfoldable pub try_from : Enumeration → MoveModule → Result ModuleError ModuleExtraction
try_from E value = do
  exposed_functions ← map_err function (try_map (Functions.try_from E) value.exposed_functions)
  structs ← map_err struct (try_map (Structs.try_from E) value.structs)
  ok (record {
    address = string value.address;
    name = value.name;
    friends = map from value.friends;
    exposed_functions = exposed_functions;
    structs = structs;
  })
