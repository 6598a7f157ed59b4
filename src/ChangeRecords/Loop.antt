-- ===== src/ChangeRecords/Loop.antt =====
-- The loop over the changes makes the rows of each.
use mathlib.Core.Option
use aptos_etl.Prelude.{
  ℕ, suc, ◌≡◌, refl, sym, ap, ◌∙◌, Option, some, List, [], ◌∷◌, ◌++◌, append_assoc, ok, map_err,
  expect, All, Yields, >>=-Yields, Yields-mono, append-nil,
}
use aptos_etl.Prelude.Text.{Text}
use aptos_etl.Address.{Address}
use aptos_etl.Address as Address
use aptos_etl.HashValue.{HashValue, encode}
use aptos_etl.Changes.{
  IncompleteChangeRecord, IncompleteResourceRecord, IncompleteTableItemRecord,
  IncompleteModuleRecord, resource, table_item, module_record, get_type, state_key_hash,
}
use aptos_etl.Changes as Changes
use aptos_etl.Transaction.{TransactionExtraction}
use aptos_etl.Service.{Service, protos}
use aptos_etl.ChangeRecords.{
  ChangeType, change_type_name, ChangeError, Change, Resource, TableItem, Module, ChangeRecords,
  convert_change_type, add_derived, change_row, add_change, add_all, address_error,
}
use aptos_etl.ChangeRecords.Steps.{
  KindOf, convert-KindOf, printed-Yields, resource_row-Yields, table_item_row-Yields,
  module_row-Yields,
}
use aptos_etl.ChangeRecords.Made.{
  nothing, with_resource, with_module, with_table_item, KindAgrees, address_of, Shows, ChangeOf,
  ResourceOf, ModuleOf, TableItemOf, Made,
}

-- The records so far, and more rows behind them.
abbrev pub plus :
    ChangeRecords → List Change → List Resource → List Module → List TableItem → ChangeRecords
plus b cs rs ms ts = record {
  changes = b.changes ++ cs;
  resources = b.resources ++ rs;
  modules = b.modules ++ ms;
  tableitems = b.tableitems ++ ts;
}

plus_assoc :
    (b : ChangeRecords) (cs cs' : List Change) (rs rs' : List Resource) (ms ms' : List Module)
    (ts ts' : List TableItem)
    → plus (plus b cs rs ms ts) cs' rs' ms' ts'
      ≡ plus b (cs ++ cs') (rs ++ rs') (ms ++ ms') (ts ++ ts')
plus_assoc b cs cs' rs rs' ms ms' ts ts' = λ i. record {
  changes = append_assoc b.changes cs cs' i;
  resources = append_assoc b.resources rs rs' i;
  modules = append_assoc b.modules ms ms' i;
  tableitems = append_assoc b.tableitems ts ts' i;
}

plus-nil : (b : ChangeRecords) → plus b [] [] [] [] ≡ b
plus-nil b = λ i. record {
  changes = append-nil b.changes i;
  resources = append-nil b.resources i;
  modules = append-nil b.modules i;
  tableitems = append-nil b.tableitems i;
}

-- The rows that one change has added: its own, and that of its kind.
abbrev pub Added : ℕ → IncompleteChangeRecord → ChangeRecords → ChangeRecords → Type 0
Added i (resource r) before after =
    (c : Change) × (row : Resource) × (after ≡ plus before (c ∷ []) (row ∷ []) [] [])
    × ChangeOf i (resource r) c
    × ResourceOf c r row
Added i (module_record r) before after =
    (c : Change) × (row : Module) × (after ≡ plus before (c ∷ []) [] (row ∷ []) [])
    × ChangeOf i (module_record r) c
    × ModuleOf c r row
Added i (table_item r) before after =
    (c : Change) × (row : TableItem) × (after ≡ plus before (c ∷ []) [] [] (row ∷ []))
    × ChangeOf i (table_item r) c
    × TableItemOf c r row

-- The rows that the changes from an index on have added.
abbrev pub AllAdded : ℕ → List IncompleteChangeRecord → ChangeRecords → ChangeRecords → Type 0
AllAdded i xs before after =
    (cs : List Change) × (rs : List Resource) × (ms : List Module) × (ts : List TableItem) × (after
      ≡ plus before cs rs ms ts)
    × Made i xs cs rs ms ts

AllAdded-cons :
    (i : ℕ) (x : IncompleteChangeRecord) (xs : List IncompleteChangeRecord)
    (before after final : ChangeRecords)
    → Added i x before after
    → AllAdded (suc i) xs after final
    → AllAdded i (x ∷ xs) before final
AllAdded-cons i (resource r) xs before after final (c, row, e, h, k) (cs, rs, ms, ts, e', made) = (
  c ∷ cs,
  row ∷ rs,
  ms,
  ts,
  e' ∙ ap (λ b. plus b cs rs ms ts) e ∙ plus_assoc before (c ∷ []) cs (row ∷ []) rs [] ms [] ts,
  with_resource h k made,
)
AllAdded-cons i (module_record r) xs before after final (c, row, e, h, k)
      (cs, rs, ms, ts, e', made) =
    (
      c ∷ cs,
      rs,
      row ∷ ms,
      ts,
      e' ∙ ap (λ b. plus b cs rs ms ts) e ∙ plus_assoc before (c ∷ []) cs [] rs (row ∷ []) ms [] ts,
      with_module h k made,
    )
AllAdded-cons i (table_item r) xs before after final (c, row, e, h, k) (cs, rs, ms, ts, e', made) =
    (
      c ∷ cs,
      rs,
      ms,
      row ∷ ts,
      e' ∙ ap (λ b. plus b cs rs ms ts) e ∙ plus_assoc before (c ∷ []) cs [] rs [] ms (row ∷ []) ts,
      with_table_item h k made,
    )

module _ (s : Service) where
  address-Yields :
      (x : IncompleteChangeRecord)
      → Yields {E = ChangeError s} (λ addr. addr ≡ address_of x) (expect (Changes.address x))
  address-Yields (resource r) = refl
  address-Yields (table_item r) = refl
  address-Yields (module_record r) = refl

  hash-Yields :
      (x : IncompleteChangeRecord)
      → Yields {E = ChangeError s} (λ h. state_key_hash x ≡ some h) (expect (state_key_hash x))
  hash-Yields (resource r) = refl
  hash-Yields (table_item r) = refl
  hash-Yields (module_record r) = refl

module _ (s : Service) (small : Option ℕ) (big : Option Text) where
  -- The own row has been pushed already.
  add_derived-Added :
      (i : ℕ) (x : IncompleteChangeRecord) (before : ChangeRecords) (c : Change) (t : ChangeType)
      (a : Text)
      → ChangeOf i x c
      → some a ≡ c.address
      → change_type_name t ≡ c.change_type
      → KindOf s x t
      → Shows s x
      → Address.try_encode (address_of x) ≡ ok a
      → Yields (Added i x before) (
          add_derived s small big c.place t c.state_key_hash x
            (record before { changes = before.changes ++ c ∷ [] }))
  unfolding add_derived
  add_derived-Added i (resource r) before c t a own at named (_, taken) shows e =
      >>=-Yields (ResourceOf c r) (Added i (resource r) before) _ _
        (resource_row-Yields s small big c t a r at named taken shows e)
        (λ row facts. (
          c,
          row,
          sym (λ j. record {
            changes = before.changes ++ c ∷ [];
            resources = before.resources ++ row ∷ [];
            modules = append-nil before.modules j;
            tableitems = append-nil before.tableitems j;
          }),
          own,
          facts,
        ))
  add_derived-Added i (module_record r) before c t a own at named (_, taken) shows e =
      >>=-Yields (ModuleOf c r) (Added i (module_record r) before) _ _
        (module_row-Yields s small big c t a r at shows e)
        (λ row facts. (
          c,
          row,
          sym (λ j. record {
            changes = before.changes ++ c ∷ [];
            resources = append-nil before.resources j;
            modules = before.modules ++ row ∷ [];
            tableitems = append-nil before.tableitems j;
          }),
          own,
          facts,
        ))
  add_derived-Added i (table_item r) before c t a own at named (_, taken) shows e =
      >>=-Yields (TableItemOf c r) (Added i (table_item r) before) _ _
        (table_item_row-Yields s small big c t a r at named taken e)
        (λ row facts. (
          c,
          row,
          sym (λ j. record {
            changes = before.changes ++ c ∷ [];
            resources = append-nil before.resources j;
            modules = append-nil before.modules j;
            tableitems = before.tableitems ++ row ∷ [];
          }),
          own,
          facts,
        ))

  module _ (tx : TransactionExtraction (protos s)) (time : Text) where
    change_row-ChangeOf :
        (i : ℕ) (x : IncompleteChangeRecord) (t : ChangeType) (a : Text) (h : HashValue)
        → Address.try_encode (address_of x) ≡ ok a
        → KindOf s x t
        → state_key_hash x ≡ some h
        → ChangeOf i x (change_row s small big tx time i t a (encode h))
    change_row-ChangeOf i x t a h e kind at =
        (refl, (a, e, refl), kind.0, sym (ap (Option.map encode) at))

    add_change-Added :
        (i : ℕ) (x : IncompleteChangeRecord) (before : ChangeRecords)
        → KindAgrees x
        → Shows s x
        → Yields (Added i x before) (add_change s small big tx time i x before)
    unfolding add_change
    add_change-Added i x before agrees shows =
        let a = shows.0.0 in
        let e = shows.0.1 in
        >>=-Yields (KindOf s x) (Added i x before) (convert_change_type s (get_type x)) _
          (convert-KindOf s x agrees)
          (λ t kind.
            >>=-Yields (λ addr. addr ≡ address_of x) (Added i x before) (expect (Changes.address x))
              _ (address-Yields s x)
              (λ addr is.
                >>=-Yields (λ p. p ≡ a) (Added i x before)
                  (map_err address_error (Address.try_encode addr)) _
                  (printed-Yields s addr a (ap Address.try_encode is ∙ e))
                  (λ p same.
                    >>=-Yields (λ h. state_key_hash x ≡ some h) (Added i x before)
                      (expect (state_key_hash x)) _ (hash-Yields s x)
                      (λ h hashed.
                        let c = change_row s small big tx time i t p (encode h) in
                        add_derived-Added i x before c t p
                          (change_row-ChangeOf i x t p h (e ∙ ap ok (sym same)) kind hashed) refl
                          refl kind shows (e ∙ ap ok (sym same))))))

    pub add_all-AllAdded :
        (i : ℕ) (xs : List IncompleteChangeRecord) (before : ChangeRecords)
        → All KindAgrees xs
        → All (Shows s) xs
        → Yields (AllAdded i xs before) (add_all s small big tx time i xs before)
    unfolding add_all
    add_all-AllAdded i [] before agree show = ([], [], [], [], sym (plus-nil before), nothing)
    add_all-AllAdded i (x ∷ xs) before (agrees, agree) (shows, show) =
        >>=-Yields (Added i x before) (AllAdded i (x ∷ xs) before)
          (add_change s small big tx time i x before) _ (add_change-Added i x before agrees shows)
          (λ after added.
            Yields-mono (AllAdded (suc i) xs after) (AllAdded i (x ∷ xs) before)
              (add_all s small big tx time (suc i) xs after)
              (λ final more. AllAdded-cons i x xs before after final added more)
              (add_all-AllAdded (suc i) xs after agree show))
