-- ===== src/Extract/Rows.antt =====
-- What the loop over the transactions has collected when it reaches the end of the range.
pub mod Stages
use aptos_etl.Prelude.{
  ℕ, ◌≡◌, ◌≢◌, refl, ap, ◌∙◌, sym, Bool, true, false, Option, none, some, List, [], ◌∷◌, ◌++◌, map,
  Result, ok, err, panic, flat_map, append-nil, append_assoc, map-append, if◌then◌else◌, ◌==◌,
  arith, Result-cases, returned, failed, stopped, Bool-cases, inl, inr,
}
use aptos_etl.Timestamp.{UnixTimestamp}
use aptos_etl.Options.{TableOptions}
use aptos_etl.Extract.Interface.{Tables, ExtractError, Status}
use aptos_etl.Extract.Collect.{Column, no_rows, extend, Buffers, empty, add_tx}
use aptos_etl.Extract.Loop.{LoopEnd, reached, exhausted, interrupted, panicked}
use aptos_etl.Extract.Spec.{
  one_by_one, at_end, one_by_one-last, one_by_one-more, one_by_one-failed, one_by_one-stopped,
}
use Stages.{
  signature_rows, block_rows, transaction_rows, event_rows, change_rows, resource_rows, module_rows,
  table_item_rows, add_rows, add_tx-add_rows,
}

-- A table's column, given its rows: each record with its own timestamp.
abbrev pub column : {A : Type 0} → (A → UnixTimestamp) → List A → Column A
column time rows = record { records = rows; timestamps = map time rows }

extend-column :
    {A : Type 0} (time : A → UnixTimestamp) (c : Column A) (rows more : List A)
    → extend time (extend time c rows) more ≡ extend time c (rows ++ more)
extend-column time c rows more = λ i. record {
  records = append_assoc c.records rows more i;
  timestamps =
      (append_assoc c.timestamps (map time rows) (map time more)
          ∙ ap (λ m. c.timestamps ++ m) (sym (map-append time rows more)))
        i;
}

module _ (t : Tables) where
  -- The transactions up to the first that has the last version of the range, if there is one.
  abbrev pub up_to : ℕ → List t.Tx → Option (List t.Tx)
  up_to end [] = none
  up_to end (tx ∷ txs) =
      if t.version tx == end
      then some (tx ∷ [])
      else elim (up_to end txs) [ none ↦ none | some more ↦ some (tx ∷ more) ]

module _ (t : Tables) (o : TableOptions) where
  -- The buffers with the rows of some transactions, in their order.
  abbrev pub add_all : Buffers t → List t.TransactionExtraction → Buffers t
  add_all b xs = record {
    transactions = extend t.transaction_time b.transactions (flat_map (transaction_rows t o) xs);
    blocks = extend t.block_time b.blocks (flat_map (block_rows t o) xs);
    changes = extend t.change_time b.changes (flat_map (change_rows t o) xs);
    signatures = extend t.signature_time b.signatures (flat_map (signature_rows t o) xs);
    events = extend t.event_time b.events (flat_map (event_rows t o) xs);
    table_items = extend t.table_item_time b.table_items (flat_map (table_item_rows t o) xs);
    modules = extend t.module_time b.modules (flat_map (module_rows t o) xs);
    resources = extend t.resource_time b.resources (flat_map (resource_rows t o) xs);
  }

  add_all-cons :
      (b : Buffers t) (x : t.TransactionExtraction) (xs : List t.TransactionExtraction)
      → add_all (add_rows t o b x) xs ≡ add_all b (x ∷ xs)
  add_all-cons b x xs = λ i. record {
    transactions =
        extend-column t.transaction_time b.transactions (transaction_rows t o x)
          (flat_map (transaction_rows t o) xs) i;
    blocks =
        extend-column t.block_time b.blocks (block_rows t o x) (flat_map (block_rows t o) xs) i;
    changes =
        extend-column t.change_time b.changes (change_rows t o x) (flat_map (change_rows t o) xs) i;
    signatures =
        extend-column t.signature_time b.signatures (signature_rows t o x)
          (flat_map (signature_rows t o) xs) i;
    events =
        extend-column t.event_time b.events (event_rows t o x) (flat_map (event_rows t o) xs) i;
    table_items =
        extend-column t.table_item_time b.table_items (table_item_rows t o x)
          (flat_map (table_item_rows t o) xs) i;
    modules =
        extend-column t.module_time b.modules (module_rows t o x) (flat_map (module_rows t o) xs) i;
    resources =
        extend-column t.resource_time b.resources (resource_rows t o x)
          (flat_map (resource_rows t o) xs) i;
  }

  add_all-one :
      (b : Buffers t) (x : t.TransactionExtraction) → add_rows t o b x ≡ add_all b (x ∷ [])
  add_all-one b x = simp append-nil

  -- The rows of some transactions, table by table.
  abbrev pub collected : List t.TransactionExtraction → Buffers t
  collected xs = record {
    transactions = column t.transaction_time (flat_map (transaction_rows t o) xs);
    blocks = column t.block_time (flat_map (block_rows t o) xs);
    changes = column t.change_time (flat_map (change_rows t o) xs);
    signatures = column t.signature_time (flat_map (signature_rows t o) xs);
    events = column t.event_time (flat_map (event_rows t o) xs);
    table_items = column t.table_item_time (flat_map (table_item_rows t o) xs);
    modules = column t.module_time (flat_map (module_rows t o) xs);
    resources = column t.resource_time (flat_map (resource_rows t o) xs);
  }

  -- What the loop has found by a successful end: the transactions up to the end of the range, each
  -- converted, and all their rows; or that no transaction ends the range.
  abbrev pub Collects : ℕ → Buffers t → List t.Tx → LoopEnd t → Type 0
  Collects end b txs (reached b') =
      (pre : List t.Tx) × (xs : List t.TransactionExtraction) × (up_to t end txs ≡ some pre)
      × (map t.try_from pre ≡ map ok xs)
      × (b' ≡ add_all b xs)
  Collects end b txs exhausted = up_to t end txs ≡ none
  Collects end b txs (interrupted e v) = Unit
  Collects end b txs panicked = Unit

  at_end-Collects :
      (end cur : ℕ) (b : Buffers t) (s : Option Status) → Collects end b [] (at_end t cur s)
  at_end-Collects end cur b none = refl
  at_end-Collects end cur b (some s) = tt

  Collects-cons :
      (end : ℕ) (b b' : Buffers t) (tx : t.Tx) (txs : List t.Tx) (l : LoopEnd t)
      → add_tx t o b tx ≡ ok b'
      → (t.version tx == end) ≡ false
      → Collects end b' txs l
      → Collects end b (tx ∷ txs) l
  Collects-cons end b b' tx txs (reached b'') e more (pre, xs, up, conv, eq) =
      let (x, ex, eb) = add_tx-add_rows t o b b' tx e in
      (tx ∷ pre, x ∷ xs, rw (more, up) refl, cc, eq ∙ rw eb (add_all-cons b x xs))
  Collects-cons end b b' tx txs exhausted e more h = rw (more, h) refl
  Collects-cons end b b' tx txs (interrupted x v) e more h = tt
  Collects-cons end b b' tx txs panicked e more h = tt

  Collects-last :
      (end : ℕ) (b b' : Buffers t) (tx : t.Tx) (txs : List t.Tx)
      → add_tx t o b tx ≡ ok b'
      → (t.version tx == end) ≡ true
      → Collects end b (tx ∷ txs) (reached b')
  Collects-last end b b' tx txs e last =
      let (x, ex, eb) = add_tx-add_rows t o b b' tx e in
      (tx ∷ [], x ∷ [], rw last refl, cc, eb ∙ add_all-one b x)

  pub one_by_one-Collects :
      (end cur : ℕ) (b : Buffers t) (txs : List t.Tx) (s : Option Status)
      → Collects end b txs (one_by_one t o end cur b txs s)
  unfolding one_by_one
  one_by_one-Collects end cur b [] s = at_end-Collects end cur b s
  one_by_one-Collects end cur b (tx ∷ txs) s = elim (Result-cases (add_tx t o b tx)) [
    | returned b' e ↦ elim (Bool-cases (t.version tx == end)) [
      | inl last ↦
          rw (one_by_one-last t o end cur b tx txs s e last) (Collects-last end b b' tx txs e last)
      | inr more ↦
          rw (one_by_one-more t o end cur b tx txs s e more) (
            Collects-cons end b b' tx txs _ e more
              (one_by_one-Collects end (t.version tx) b' txs s))
    ]
    | failed x e ↦ rw (one_by_one-failed t o end cur b tx txs s e) tt
    | stopped e ↦ rw (one_by_one-stopped t o end cur b tx txs s e) tt
  ]
