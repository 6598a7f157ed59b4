-- ===== src/Modules/Ids.antt =====
-- The identifiers of modules: processing/reps/moduleid.rs.
use aptos_etl.Prelude.{◌++◌, Result, ok, ◌>>=◌, map_err}
use aptos_etl.Prelude.Text.{Text, codes}
use aptos_etl.Address.{Address, AddressError, string}
use aptos_etl.Address as Address
use aptos_etl.Modules.Messages.{MoveModuleId}

pub data MoveModuleIdError : Type 0 where
  address : AddressError → MoveModuleIdError

pub record ModuleId : Type 0 where
  pub address : Address
  pub name : Text

abbrev pub new : Address → Text → ModuleId
new a n = record { address = a; name = n }

abbrev pub from : MoveModuleId → ModuleId
from value = new (string value.address) value.name

unfoldable pub try_encode : ModuleId → Result MoveModuleIdError Text
try_encode m = map_err address (Address.try_encode m.address) >>= λ printed.
    ok (printed ++ (codes "::" ++ m.name))

pub record Friend : Type 0 where
  pub address : Text
  pub name : Text

unfoldable pub encode_friend : ModuleId → Result MoveModuleIdError Friend
encode_friend m = map_err address (Address.try_encode m.address) >>= λ printed.
    ok (record { address = printed; name = m.name })
