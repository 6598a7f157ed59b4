-- ===== src/ChangeRecords/Steps.antt =====
-- What one change adds to the records.
use aptos_etl.Prelude.{
  ℕ, ◌≡◌, refl, ap, ◌∙◌, inl, inr, Option, some, ok, map_err, Yields, >>=-Yields, Yields-map_err,
  ok-Yields,
}
use aptos_etl.Prelude.Text.{Text}
use aptos_etl.Address.{Address}
use aptos_etl.Address as Address
use aptos_etl.Changes.{
  IncompleteChangeRecord, IncompleteResourceRecord, IncompleteTableItemRecord,
  IncompleteModuleRecord, resource, table_item, module_record, get_type,
}
use aptos_etl.Service.{Service}
use aptos_etl.ChangeRecords.{
  ChangeType, change_type_name, ChangeError, resource_change_type, table_change_type, Change,
  convert_change_type, show_bytecode, tag_row, module_row, resource_row, table_item_row,
  address_error,
}
use aptos_etl.ChangeRecords.Made.{KindAgrees, Shows, type_name, ResourceOf, ModuleOf, TableItemOf}

module _ (s : Service) where
  -- What the type of a change is converted to, and that its table takes it.
  abbrev pub KindOf : IncompleteChangeRecord → ChangeType → Type 0
  KindOf x t = (change_type_name t ≡ type_name (get_type x)) × taken x
    where
      taken : IncompleteChangeRecord → Type 0
      taken (resource r) = Yields (λ n. n ≡ change_type_name t) (resource_change_type s t)
      taken (table_item r) = Yields (λ n. n ≡ change_type_name t) (table_change_type s t)
      taken (module_record r) = Unit

  pub convert-KindOf :
      (x : IncompleteChangeRecord)
      → KindAgrees x
      → Yields (KindOf x) (convert_change_type s (get_type x))
  unfolding convert_change_type
  convert-KindOf (resource r) (inl e) = rw e (refl, refl)
  convert-KindOf (resource r) (inr e) = rw e (refl, refl)
  convert-KindOf (table_item r) (inl e) = rw e (refl, refl)
  convert-KindOf (table_item r) (inr e) = rw e (refl, refl)
  convert-KindOf (module_record r) (inl e) = rw e (refl, tt)
  convert-KindOf (module_record r) (inr e) = rw e (refl, tt)

  -- The address of a change that is shown.
  pub printed-Yields :
      (addr : Address) (a : Text)
      → Address.try_encode addr ≡ ok a
      → Yields (λ p. p ≡ a) (map_err {F = ChangeError s} address_error (Address.try_encode addr))
  printed-Yields addr a e =
      Yields-map_err (λ p. p ≡ a) address_error (Address.try_encode addr)
        (ok-Yields (λ p. p ≡ a) (Address.try_encode addr) e refl)

  module _ (small : Option ℕ) (big : Option Text) (c : Change) (t : ChangeType) (a : Text) where
    pub resource_row-Yields :
        (r : IncompleteResourceRecord)
        → some a ≡ c.address
        → change_type_name t ≡ c.change_type
        → Yields (λ n. n ≡ change_type_name t) (resource_change_type s t)
        → Shows s (resource r)
        → Address.try_encode r.address ≡ ok a
        → Yields (ResourceOf c r) (resource_row s small big c.place t c.state_key_hash r)
    unfolding resource_row
    resource_row-Yields r at named taken (_, tag) e =
        >>=-Yields (λ p. p ≡ a) (ResourceOf c r) _ _ (printed-Yields r.address a e)
          (λ p same.
            >>=-Yields (λ n. n ≡ change_type_name t) (ResourceOf c r) (resource_change_type s t) _
              taken
              (λ n is.
                >>=-Yields (λ _. Unit {0}) (ResourceOf c r) (tag_row s r.struct_tag) _ tag
                  (λ o _. (refl, ap some same ∙ at, refl, is ∙ named, refl, refl))))

    pub table_item_row-Yields :
        (r : IncompleteTableItemRecord)
        → some a ≡ c.address
        → change_type_name t ≡ c.change_type
        → Yields (λ n. n ≡ change_type_name t) (table_change_type s t)
        → Address.try_encode r.handle ≡ ok a
        → Yields (TableItemOf c r) (table_item_row s small big c.place t c.state_key_hash r)
    unfolding table_item_row
    table_item_row-Yields r at named taken e =
        >>=-Yields (λ p. p ≡ a) (TableItemOf c r) _ _ (printed-Yields r.handle a e)
          (λ p same.
            >>=-Yields (λ n. n ≡ change_type_name t) (TableItemOf c r) (table_change_type s t) _
              taken (λ n is. (refl, ap some same ∙ at, refl, is ∙ named, refl, refl)))

    pub module_row-Yields :
        (r : IncompleteModuleRecord)
        → some a ≡ c.address
        → Shows s (module_record r)
        → Address.try_encode r.address ≡ ok a
        → Yields (ModuleOf c r) (module_row s c.place r)
    unfolding module_row
    module_row-Yields r at (_, shown) e =
        >>=-Yields (λ _. Unit {0}) (ModuleOf c r) (show_bytecode s r.module_data) _ shown
          (λ m _.
            >>=-Yields (λ p. p ≡ a) (ModuleOf c r) _ _ (printed-Yields r.address a e)
              (λ p same. (refl, ap some same ∙ at, refl)))
