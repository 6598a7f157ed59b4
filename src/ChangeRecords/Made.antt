-- ===== src/ChangeRecords/Made.antt =====
-- The rows of a transaction's changes: each has one of its own and one in the table of its kind.
use mathlib.Core.Option
use aptos_etl.Prelude.{ℕ, suc, ◌≡◌, ◌⊎◌, some, List, [], ◌∷◌, ok, Yields}
use aptos_etl.Prelude.Text.{Text}
use aptos_etl.Address.{Address}
use aptos_etl.Address as Address
use aptos_etl.HashValue.{encode}
use aptos_etl.Changes.{
  IncompleteChangeRecord, IncompleteResourceRecord, IncompleteTableItemRecord,
  IncompleteModuleRecord, resource, table_item, module_record, get_type, state_key_hash,
}
use aptos_etl.Transaction.Messages as Messages
use aptos_etl.Service.{Service}
use aptos_etl.ChangeRecords.{
  change_type_name, write_resource, delete_resource, write_module, delete_module, write_table_item,
  delete_table_item, Change, Resource, TableItem, Module, show_bytecode, tag_row,
}

-- The type of a change is one of its record's kind.
abbrev pub KindAgrees : IncompleteChangeRecord → Type 0
KindAgrees (resource r) =
    (r.change_type ≡ Messages.write_resource) ⊎ (r.change_type ≡ Messages.delete_resource)
KindAgrees (table_item r) =
    (r.change_type ≡ Messages.write_table_item) ⊎ (r.change_type ≡ Messages.delete_table_item)
KindAgrees (module_record r) =
    (r.change_type ≡ Messages.write_module) ⊎ (r.change_type ≡ Messages.delete_module)

abbrev pub address_of : IncompleteChangeRecord → Address
address_of (resource r) = r.address
address_of (table_item r) = r.handle
address_of (module_record r) = r.address

-- The address, and the struct tag or the module, have a printed form.
abbrev pub Shows : Service → IncompleteChangeRecord → Type 0
Shows s x = ((a : Text) × (Address.try_encode (address_of x) ≡ ok a)) × parts x
  where
    parts : IncompleteChangeRecord → Type 0
    parts (resource r) = Yields (λ _. Unit {0}) (tag_row s r.struct_tag)
    parts (table_item r) = Unit
    parts (module_record r) = Yields (λ _. Unit {0}) (show_bytecode s r.module_data)

-- The name of a change's type in the output.
abbrev pub type_name : Messages.ChangeType → Text
type_name Messages.write_table_item = change_type_name write_table_item
type_name Messages.delete_table_item = change_type_name delete_table_item
type_name Messages.write_module = change_type_name write_module
type_name Messages.delete_module = change_type_name delete_module
type_name Messages.write_resource = change_type_name write_resource
type_name Messages.delete_resource = change_type_name delete_resource
type_name Messages.unspecified = []

-- A row of the table of changes, for a change at an index.
abbrev pub ChangeOf : ℕ → IncompleteChangeRecord → Change → Type 0
ChangeOf index x c =
    (c.place.change_index ≡ index)
    × ((a : Text) × (Address.try_encode (address_of x) ≡ ok a) × (c.address ≡ some a))
    × (c.change_type ≡ type_name (get_type x))
    × (some c.state_key_hash ≡ Option.map encode (state_key_hash x))

-- A row of another table stands at the place of the change's own row.
abbrev pub ResourceOf : Change → IncompleteResourceRecord → Resource → Type 0
ResourceOf c r row =
    (row.place ≡ c.place)
    × (some row.address ≡ c.address)
    × (row.state_key_hash ≡ c.state_key_hash)
    × (row.change_type ≡ c.change_type)
    × (row.type_str ≡ r.type_str)
    × (row.contents ≡ r.contents)

abbrev pub ModuleOf : Change → IncompleteModuleRecord → Module → Type 0
ModuleOf c r row =
    (row.place ≡ c.place)
    × (some row.address ≡ c.address)
    × (row.name ≡ Option.map (λ m. m.name) r.module_id)

abbrev pub TableItemOf : Change → IncompleteTableItemRecord → TableItem → Type 0
TableItemOf c r row =
    (row.place ≡ c.place)
    × (some row.address ≡ c.address)
    × (row.state_key_hash ≡ c.state_key_hash)
    × (row.change_type ≡ c.change_type)
    × (row.key ≡ r.key)
    × (row.value ≡ r.value)

-- The rows of changes from an index on: each change has a row of its own, and one in the table of its
-- kind; the tables keep the order, and hold nothing else.
pub data Made
    : ℕ
      → List IncompleteChangeRecord
      → List Change
      → List Resource
      → List Module
      → List TableItem
      → Type 0 where
  nothing : {i : ℕ} → Made i [] [] [] [] []
  with_resource :
      {i : ℕ} {r : IncompleteResourceRecord} {xs : List IncompleteChangeRecord} {c : Change}
      {cs : List Change} {row : Resource} {rs : List Resource} {ms : List Module}
      {ts : List TableItem}
      → ChangeOf i (resource r) c
      → ResourceOf c r row
      → Made (suc i) xs cs rs ms ts
      → Made i (resource r ∷ xs) (c ∷ cs) (row ∷ rs) ms ts
  with_module :
      {i : ℕ} {r : IncompleteModuleRecord} {xs : List IncompleteChangeRecord} {c : Change}
      {cs : List Change} {row : Module} {rs : List Resource} {ms : List Module}
      {ts : List TableItem}
      → ChangeOf i (module_record r) c
      → ModuleOf c r row
      → Made (suc i) xs cs rs ms ts
      → Made i (module_record r ∷ xs) (c ∷ cs) rs (row ∷ ms) ts
  with_table_item :
      {i : ℕ} {r : IncompleteTableItemRecord} {xs : List IncompleteChangeRecord} {c : Change}
      {cs : List Change} {row : TableItem} {rs : List Resource} {ms : List Module}
      {ts : List TableItem}
      → ChangeOf i (table_item r) c
      → TableItemOf c r row
      → Made (suc i) xs cs rs ms ts
      → Made i (table_item r ∷ xs) (c ∷ cs) rs ms (row ∷ ts)
