-- ===== src/ChangeRecords/Extracted.antt =====
-- The changes of a transaction that has been extracted, and their rows.
use aptos_etl.Prelude.{
  ℕ, ◌≡◌, refl, sym, subst, inl, inr, Option, none, some, List, [], ◌∷◌, Result, ok, err, panic,
  map_err, map_ok, try_map, All, Gives, >>=-Gives, Gives-any, Yields, >>=-Yields, Yields-map_err,
  Yields-mono, ok-Yields, arith,
}
use aptos_etl.Prelude.Text.{Text}
use aptos_etl.Types.{Enumeration}
use aptos_etl.Changes.{
  IncompleteChangeRecord, IncompleteResourceRecord, ChangeError, resource, table_item,
  module_record, from_delete_resource, from_write_resource, from_write_table_item,
  from_delete_table_item, from_write_module, from_delete_module, of_data, tag_of,
}
use aptos_etl.Changes as Changes
use aptos_etl.Changes.Messages.{
  ChangeData, WriteSetChange, delete_module, delete_resource, delete_table_item, write_module,
  write_resource, write_table_item, DeleteResource, WriteResource, DeleteTableItem, WriteTableItem,
  WriteModule, DeleteModule,
}
use aptos_etl.Transaction.Messages as Messages
use aptos_etl.Transaction.Messages.{ChangeType}
use aptos_etl.Transaction.Data.{sequence_number}
use aptos_etl.Transaction.Info as Info
use aptos_etl.Transaction.{
  Transaction, TransactionExtraction, get_encoded_timestamp, check_timestamp, check_data,
  check_info, tx_info_extraction_error,
}
use aptos_etl.Transaction as Tx
use aptos_etl.Service.{Service, protos}
use aptos_etl.Events.{small_number, number_text}
use aptos_etl.ChangeRecords.{ChangeRecords, new, get_changes, add_all, timestamp, tx_data}
use aptos_etl.ChangeRecords.Made.{KindAgrees, Shows, Made}
use aptos_etl.ChangeRecords.Loop.{AllAdded, add_all-AllAdded}

module _ {ℓ κ} {E : Type ℓ} {A : Type κ} where
  Gives_of : (P : A → Type 0) (m : Result E A) → ((a : A) → m ≡ ok a → P a) → Gives P m
  Gives_of P (ok a) h = h a refl
  Gives_of P (err e) h = tt
  Gives_of P panic h = tt

  Gives-map_ok {μ} :
      {B : Type μ} (P : A → Type 0) (Q : B → Type 0) (f : A → B) (m : Result E A)
      → ((a : A) → P a → Q (f a))
      → Gives P m
      → Gives Q (map_ok f m)
  Gives-map_ok P Q f (ok a) step h = step a h
  Gives-map_ok P Q f (err e) step h = tt
  Gives-map_ok P Q f panic step h = tt

  Gives-map_err {μ} :
      {F : Type μ} (P : A → Type 0) (f : E → F) (m : Result E A) → Gives P m → Gives P (map_err f m)
  Gives-map_err P f (ok a) h = h
  Gives-map_err P f (err e) h = tt
  Gives-map_err P f panic h = tt

  Gives-try_map {μ} :
      {B : Type μ} (P : A → Type 0) (f : B → Result E A) (xs : List B)
      → ((x : B) → Gives P (f x))
      → Gives (All P) (try_map f xs)
  Gives-try_map P f [] each = tt
  Gives-try_map P f (x ∷ xs) each = >>=-Gives P (All P) (f x) _ (each x) (λ y hy.
      >>=-Gives (All P) (All P) (try_map f xs) _ (Gives-try_map P f xs each) (λ ys hys. (hy, hys)))

write_table_item_type :
    (d : WriteTableItem)
    → Gives (λ r. r.change_type ≡ ChangeType.write_table_item) (from_write_table_item d)
unfolding from_write_table_item
write_table_item_type d =
    Gives_of (λ r. r.change_type ≡ ChangeType.write_table_item) (from_write_table_item d)
      (λ r h. ground (arith, h))

delete_table_item_type :
    (d : DeleteTableItem)
    → Gives (λ r. r.change_type ≡ ChangeType.delete_table_item) (from_delete_table_item d)
unfolding from_delete_table_item
delete_table_item_type d =
    Gives_of (λ r. r.change_type ≡ ChangeType.delete_table_item) (from_delete_table_item d)
      (λ r h. ground (arith, h))

write_module_type :
    (d : WriteModule) → Gives (λ r. r.change_type ≡ ChangeType.write_module) (from_write_module d)
unfolding from_write_module
write_module_type d =
    Gives_of (λ r. r.change_type ≡ ChangeType.write_module) (from_write_module d)
      (λ r h. ground (arith, h))

delete_module_type :
    (d : DeleteModule)
    → Gives KindAgrees (map_ok {E = ChangeError} module_record (from_delete_module d))
unfolding from_delete_module
delete_module_type d = inr refl

module _ (E : Enumeration) where
  delete_resource_type :
      (d : DeleteResource)
      → Gives (λ r. r.change_type ≡ ChangeType.delete_resource) (from_delete_resource E d)
  unfolding from_delete_resource
  delete_resource_type d =
      >>=-Gives (λ _. Unit {0}) _ (tag_of E d.type_of) _ (Gives-any _) (λ t _. refl)

  write_resource_type :
      (d : WriteResource)
      → Gives (λ r. r.change_type ≡ ChangeType.write_resource) (from_write_resource E d)
  unfolding from_write_resource
  write_resource_type d =
      >>=-Gives (λ _. Unit {0}) _ (tag_of E d.type_of) _ (Gives-any _) (λ t _. refl)

  of_data-KindAgrees : (k : ChangeType) (d : Option ChangeData) → Gives KindAgrees (of_data E k d)
  of_data-KindAgrees ChangeType.delete_module (some (delete_module d)) = delete_module_type d
  of_data-KindAgrees ChangeType.write_module (some (write_module d)) =
      Gives-map_ok (λ r. r.change_type ≡ ChangeType.write_module) KindAgrees module_record
        (from_write_module d) (λ r e. inl e) (write_module_type d)
  of_data-KindAgrees ChangeType.delete_resource (some (delete_resource d)) =
      Gives-map_ok (λ r. r.change_type ≡ ChangeType.delete_resource) KindAgrees resource
        (from_delete_resource E d) (λ r e. inr e) (delete_resource_type d)
  of_data-KindAgrees ChangeType.write_resource (some (write_resource d)) =
      Gives-map_ok (λ r. r.change_type ≡ ChangeType.write_resource) KindAgrees resource
        (from_write_resource E d) (λ r e. inl e) (write_resource_type d)
  of_data-KindAgrees ChangeType.write_table_item (some (write_table_item d)) =
      Gives-map_ok (λ r. r.change_type ≡ ChangeType.write_table_item) KindAgrees table_item
        (from_write_table_item d) (λ r e. inl e) (write_table_item_type d)
  of_data-KindAgrees ChangeType.delete_table_item (some (delete_table_item d)) =
      Gives-map_ok (λ r. r.change_type ≡ ChangeType.delete_table_item) KindAgrees table_item
        (from_delete_table_item d) (λ r e. inr e) (delete_table_item_type d)
  of_data-KindAgrees k none = tt
  of_data-KindAgrees k (some d) = tt

  try_from-KindAgrees : (v : WriteSetChange) → Gives KindAgrees (Changes.try_from E v)
  unfolding Changes.try_from
  try_from-KindAgrees v = of_data-KindAgrees v.type_of v.change

module _ (s : Service) where
  info-All :
      (i : Messages.TransactionInfo (protos s))
      → Gives (λ x. All KindAgrees x.changes) (Info.try_from (protos s) i)
  unfolding Info.try_from
  info-All i =
      >>=-Gives (All KindAgrees) (λ x. All KindAgrees x.changes) _ _
        (Gives-map_err (All KindAgrees) Info.change (try_map (Changes.try_from s.types) i.changes) (
          Gives-try_map KindAgrees (Changes.try_from s.types) i.changes
            (try_from-KindAgrees s.types)))
        (λ xs h. h)

  -- The changes of an extracted transaction agree with their types.
  pub try_from-All :
      (m : Transaction (protos s))
      → Gives (λ x. All KindAgrees x.tx_info.changes) (Tx.try_from (protos s) m)
  unfolding Tx.try_from
  try_from-All m =
      let agree : TransactionExtraction (protos s) → Type 0 =
        λ x. All KindAgrees x.tx_info.changes in
      >>=-Gives (λ _. Unit {0}) agree (check_timestamp (protos s) m.timestamp) _ (Gives-any _)
        (λ time _.
          >>=-Gives (λ _. Unit {0}) agree (check_data (protos s) m.type_of m.txn_data) _
            (Gives-any _)
            (λ d _.
              >>=-Gives (λ _. Unit {0}) agree (check_info (protos s) m.info) _ (Gives-any _)
                (λ i _.
                  >>=-Gives (λ x. All KindAgrees x.changes) agree
                    (map_err tx_info_extraction_error (Info.try_from (protos s) i)) _
                    (Gives-map_err (λ x. All KindAgrees x.changes) tx_info_extraction_error
                      (Info.try_from (protos s) i) (info-All i))
                    (λ x h. h))))

  -- A transaction that has been extracted, of which the timestamp and the sequence number can be read,
  -- and of whose changes each has a printable address and a printable struct tag or module, has the
  -- rows of its changes: one for each in the table of changes, in order and numbered from 0, and one
  -- for each in the table of its kind, in order, at the same place and with the same address; the
  -- tables have no other rows. So a change that is extracted never has a type that its table rejects.
  pub get_changes-Made :
      (m : Transaction (protos s)) (tx : TransactionExtraction (protos s)) (time : Text)
      (number : Option ℕ)
      → Tx.try_from (protos s) m ≡ ok tx
      → get_encoded_timestamp (protos s) s.chrono tx ≡ ok time
      → sequence_number (protos s) tx.tx_data ≡ ok number
      → All (Shows s) tx.tx_info.changes
      → Yields
          (λ r. Made 0 tx.tx_info.changes r.changes r.resources r.modules r.tableitems)
          (get_changes s tx)
  unfolding get_changes
  get_changes-Made m tx time number extracted timed numbered show =
      let made : ChangeRecords → Type 0 =
        λ r. Made 0 tx.tx_info.changes r.changes r.resources r.modules r.tableitems in
      let agree : All KindAgrees tx.tx_info.changes =
        subst (Gives (λ x. All KindAgrees x.tx_info.changes)) extracted (try_from-All m) in
      >>=-Yields (λ t. t ≡ time) made
        (map_err timestamp (get_encoded_timestamp (protos s) s.chrono tx)) _
        (Yields-map_err (λ t. t ≡ time) timestamp (get_encoded_timestamp (protos s) s.chrono tx)
          (ok-Yields (λ t. t ≡ time) _ timed refl))
        (λ t _.
          >>=-Yields (λ n. n ≡ number) made
            (map_err tx_data (sequence_number (protos s) tx.tx_data)) _
            (Yields-map_err (λ n. n ≡ number) tx_data (sequence_number (protos s) tx.tx_data)
              (ok-Yields (λ n. n ≡ number) _ numbered refl))
            (λ n _.
              Yields-mono (AllAdded 0 tx.tx_info.changes new) made
                (add_all s (small_number n) (number_text n) tx t 0 tx.tx_info.changes new)
                (λ r (cs, rs, ms, ts, e, h). subst made (sym e) h)
                (add_all-AllAdded s (small_number n) (number_text n) tx t 0 tx.tx_info.changes new
                  agree show)))
