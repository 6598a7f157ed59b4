-- ===== src/Transaction/Counts.antt =====
-- The counts of a transaction's changes by type.
use aptos_etl.Prelude.{
  ℕ, suc, ◌+◌, ◌≡◌, ◌≢◌, refl, ◌∙◌, sym, subst, Bool, true, false, List, [], ◌∷◌, map, length, ok,
  if◌then◌else◌, arith, All, Bool-cases, inl, inr, length-map,
}
use aptos_etl.Transaction.Messages.{
  Protos, ChangeType, unspecified, delete_module, delete_resource, delete_table_item, write_module,
  write_resource, write_table_item,
}
use aptos_etl.Transaction.Info.{
  TransactionInfoExtraction, ChangesAggregate, same_type, count_one, count_all, count_of,
  unaccounted, aggregate_of, calculate_changes_aggregate,
}

-- How often a type occurs.
abbrev pub occurrences : ChangeType → List ChangeType → ℕ
occurrences k [] = 0
occurrences k (k' ∷ ks) = let rest = occurrences k ks in if same_type k k' then suc rest else rest

same_type→≡ : (k k' : ChangeType) → same_type k k' ≡ true → k ≡ k'
same_type→≡ k k' h = ground (arith, h)

same_type_sym : (k k' : ChangeType) → same_type k k' ≡ same_type k' k
same_type_sym k k' = ground arith

counted :
    (b : Bool) (n m : ℕ)
    → (if b then suc n else m) ≡ (if b then suc (if b then n else m) else if b then n else m)
counted true n m = refl
counted false n m = refl

count_of-count_one :
    (k k' : ChangeType) (c : List (ChangeType × ℕ))
    → count_of k (count_one k' c) ≡ (if same_type k k' then suc (count_of k c) else count_of k c)
count_of-count_one k k' [] = ground arith
count_of-count_one k k' ((j, n) ∷ c) = elim (Bool-cases (same_type k' j)) [
  | inl s ↦
      let e : k' ≡ j = same_type→≡ k' j s in rw (s, e) (counted (same_type k j) n (count_of k c))
  | inr d ↦ elim (Bool-cases (same_type k j)) [
    | inl m ↦ elim (Bool-cases (same_type k k')) [
      | inl m' ↦
          let same : same_type k' j ≡ true =
            subst (λ x. same_type x j ≡ true) (same_type→≡ k k' m') m in
          cc
      | inr m' ↦ rw (d, m, m') refl
    ]
    | inr m ↦ rw (d, m) (count_of-count_one k k' c)
  ]
]

count_of-count_all :
    (k : ChangeType) (ks : List ChangeType) (c : List (ChangeType × ℕ))
    → count_of k (count_all ks c) ≡ occurrences k ks + count_of k c
count_of-count_all k [] c = omega arith
count_of-count_all k (k' ∷ ks) c =
    ground (arith, count_of-count_all k ks (count_one k' c), count_of-count_one k k' c)

not_same : (j : ChangeType) → same_type j unspecified ≡ false → j ≢ unspecified
not_same unspecified u e = cc
not_same delete_module u e = cc
not_same delete_resource u e = cc
not_same delete_table_item u e = cc
not_same write_module u e = cc
not_same write_resource u e = cc
not_same write_table_item u e = cc

unaccounted-specified :
    (k : ChangeType) (n : ℕ) (c : List (ChangeType × ℕ))
    → k ≢ unspecified
    → unaccounted ((k, n) ∷ c) ≡ unaccounted c
unaccounted-specified unspecified n c h = absurd (h refl)
unaccounted-specified delete_module n c h = refl
unaccounted-specified delete_resource n c h = refl
unaccounted-specified delete_table_item n c h = refl
unaccounted-specified write_module n c h = refl
unaccounted-specified write_resource n c h = refl
unaccounted-specified write_table_item n c h = refl

unaccounted-count_one :
    (k : ChangeType) (c : List (ChangeType × ℕ))
    → k ≢ unspecified
    → unaccounted c ≡ []
    → unaccounted (count_one k c) ≡ []
unaccounted-count_one k [] h e = unaccounted-specified k 1 [] h
unaccounted-count_one k ((j, n) ∷ c) h e = elim (Bool-cases (same_type j unspecified)) [
  | inl u ↦
      let left : unaccounted ((unspecified, n) ∷ c) ≡ [] =
        subst (λ x. unaccounted ((x, n) ∷ c) ≡ []) (same_type→≡ j unspecified u) e in
      cc
  | inr u ↦
      let apart : j ≢ unspecified = not_same j u in
      let less : unaccounted c ≡ [] = sym (unaccounted-specified j n c apart) ∙ e in
      elim (Bool-cases (same_type k j)) [
        | inl s ↦ rw s (unaccounted-specified j (suc n) c apart ∙ less)
        | inr s ↦
            rw s
              (unaccounted-specified j n (count_one k c) apart ∙ unaccounted-count_one k c h less)
      ]
]

unaccounted-count_all :
    (ks : List ChangeType) (c : List (ChangeType × ℕ))
    → All (λ k. k ≢ unspecified) ks
    → unaccounted c ≡ []
    → unaccounted (count_all ks c) ≡ []
unaccounted-count_all [] c h e = e
unaccounted-count_all (k ∷ ks) c h e =
    unaccounted-count_all ks (count_one k c) h.1 (unaccounted-count_one k c h.0 e)

-- Every change has one of the six types.
abbrev pub Specified : (p : Protos) → List p.IncompleteChangeRecord → Type 0
Specified p changes = All (λ k. k ≢ unspecified) (map p.get_type changes)

total_of :
    (ks : List ChangeType)
    → All (λ k. k ≢ unspecified) ks
    → length ks
      ≡ occurrences delete_module ks
        + occurrences write_module ks
        + occurrences delete_resource ks
        + occurrences write_resource ks
        + occurrences delete_table_item ks
        + occurrences write_table_item ks
total_of [] h = omega arith
total_of (unspecified ∷ ks) h = absurd (h.0 refl)
total_of (delete_module ∷ ks) h = omega (arith, total_of ks h.1)
total_of (delete_resource ∷ ks) h = omega (arith, total_of ks h.1)
total_of (delete_table_item ∷ ks) h = omega (arith, total_of ks h.1)
total_of (write_module ∷ ks) h = omega (arith, total_of ks h.1)
total_of (write_resource ∷ ks) h = omega (arith, total_of ks h.1)
total_of (write_table_item ∷ ks) h = omega (arith, total_of ks h.1)

-- The aggregate that the occurrences of the types make.
abbrev pub counted_changes : List ChangeType → ChangesAggregate
counted_changes ks = record {
  total = length ks;
  delete_module = occurrences delete_module ks;
  write_module = occurrences write_module ks;
  delete_resource = occurrences delete_resource ks;
  write_resource = occurrences write_resource ks;
  delete_table_item = occurrences delete_table_item ks;
  write_table_item = occurrences write_table_item ks;
}

count_of-counts :
    (k : ChangeType) (ks : List ChangeType) → count_of k (count_all ks []) ≡ occurrences k ks
count_of-counts k ks = omega (arith, count_of-count_all k ks [])

-- The counts in a map.
abbrev counts_of : ℕ → List (ChangeType × ℕ) → ChangesAggregate
counts_of total counts = record {
  total = total;
  delete_module = count_of delete_module counts;
  write_module = count_of write_module counts;
  delete_resource = count_of delete_resource counts;
  write_resource = count_of write_resource counts;
  delete_table_item = count_of delete_table_item counts;
  write_table_item = count_of write_table_item counts;
}

aggregate_of-counted :
    (p : Protos) (total : ℕ) (counts : List (ChangeType × ℕ))
    → unaccounted counts ≡ []
    → aggregate_of p total counts ≡ ok (counts_of total counts)
aggregate_of-counted p total counts h = rw (h, aggregate_of) refl

-- The aggregate of changes that each have one of the six types: every count is the number of changes
-- of that type, and the six counts add up to the total.
pub calculate_changes_aggregate-counted :
    (p : Protos) (info : TransactionInfoExtraction p)
    → Specified p info.changes
    → (calculate_changes_aggregate p info ≡ ok (counted_changes (map p.get_type info.changes)))
      × (length info.changes
          ≡ occurrences delete_module (map p.get_type info.changes)
            + occurrences write_module (map p.get_type info.changes)
            + occurrences delete_resource (map p.get_type info.changes)
            + occurrences write_resource (map p.get_type info.changes)
            + occurrences delete_table_item (map p.get_type info.changes)
            + occurrences write_table_item (map p.get_type info.changes))
unfolding calculate_changes_aggregate
calculate_changes_aggregate-counted p info h =
    let ks = map p.get_type info.changes in
    (
      aggregate_of-counted p (length info.changes) (count_all ks [])
            (unaccounted-count_all ks [] h refl)
          ∙ rw
              (
                count_of-counts delete_module ks,
                count_of-counts write_module ks,
                count_of-counts delete_resource ks,
                count_of-counts write_resource ks,
                count_of-counts delete_table_item ks,
                count_of-counts write_table_item ks,
                length-map p.get_type info.changes,
              )
              refl,
      sym (length-map p.get_type info.changes) ∙ total_of ks h,
    )
