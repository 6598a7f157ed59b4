-- ===== src/Extract/Sent.antt =====
-- What the publishers are sent for some rows, table by table, and how far the publication gets.
use aptos_etl.Prelude.{
  ℕ, ◌≡◌, refl, ap, Bool, true, false, Option, none, some, List, [], ◌∷◌, ◌++◌, append-nil, arith,
  if◌then◌else◌, ◌⊎◌, Bool-cases, inl, inr,
}
use aptos_etl.Prelude.Text.{codes, to_string}
use aptos_etl.Options.{
  TableOptions, do_blocks, do_signatures, do_transactions, do_events, do_changes, do_modules,
  do_resources, do_table_items,
}
use aptos_etl.Extract.Interface.{Tables}
use aptos_etl.Extract.Collect.{Column, Buffers}
use aptos_etl.Extract.Publish.{
  Batch, batch, Publication, transactions, changes, modules, table_items, resources, blocks, events,
  signatures, publish_if, publish_all, publish_each,
}

-- The batches of one table among some publications.
unfoldable pub batches : {P A : Type 0} → (P → Option A) → List P → List A
batches f [] = []
batches f (p ∷ ps) = elim (f p) [ none ↦ batches f ps | some b ↦ b ∷ batches f ps ]

-- One batch with all the rows, their timestamps, and the range as the name, if the table is asked
-- for.
abbrev pub asked : {A : Type 0} → ℕ → ℕ → Bool → Column A → List (Batch A)
asked start end false c = []
asked start end true c =
    record {
      records = c.records;
      name = some (to_string start ++ codes "_" ++ to_string end);
      timestamps = c.timestamps;
    }
    ∷ []

module _ (t : Tables) where
  abbrev pub to_transactions : Publication t → Option (Batch t.Transaction)
  to_transactions (transactions b) = some b
  to_transactions _ = none

  abbrev pub to_changes : Publication t → Option (Batch t.Change)
  to_changes (changes b) = some b
  to_changes _ = none

  abbrev pub to_modules : Publication t → Option (Batch t.Module)
  to_modules (modules b) = some b
  to_modules _ = none

  abbrev pub to_table_items : Publication t → Option (Batch t.TableItem)
  to_table_items (table_items b) = some b
  to_table_items _ = none

  abbrev pub to_resources : Publication t → Option (Batch t.Resource)
  to_resources (resources b) = some b
  to_resources _ = none

  abbrev pub to_blocks : Publication t → Option (Batch t.Block)
  to_blocks (blocks b) = some b
  to_blocks _ = none

  abbrev pub to_events : Publication t → Option (Batch t.Event)
  to_events (events b) = some b
  to_events _ = none

  abbrev pub to_signatures : Publication t → Option (Batch t.Signature)
  to_signatures (signatures b) = some b
  to_signatures _ = none

  -- Each table is sent its rows if it is asked for, and nothing otherwise.
  pub record Sends (o : TableOptions) (start end : ℕ) (b : Buffers t) (ps : List (Publication t))
      : Type 0 where
    pub transactions_sent :
        batches (to_transactions) ps ≡ asked start end (do_transactions o) b.transactions
    pub changes_sent : batches (to_changes) ps ≡ asked start end (do_changes o) b.changes
    pub modules_sent : batches (to_modules) ps ≡ asked start end (do_modules o) b.modules
    pub table_items_sent :
        batches (to_table_items) ps ≡ asked start end (do_table_items o) b.table_items
    pub resources_sent : batches (to_resources) ps ≡ asked start end (do_resources o) b.resources
    pub blocks_sent : batches (to_blocks) ps ≡ asked start end (do_blocks o) b.blocks
    pub events_sent : batches (to_events) ps ≡ asked start end (do_events o) b.events
    pub signatures_sent :
        batches (to_signatures) ps ≡ asked start end (do_signatures o) b.signatures

  -- The batch of a publication that is made if a test holds.
  abbrev only : {A : Type 0} → Bool → Option A → List A
  only b none = []
  only b (some a) = if b then a ∷ [] else []

  pub batches-append :
      {A : Type 0} (f : Publication t → Option A) (ps qs : List (Publication t))
      → batches f (ps ++ qs) ≡ batches f ps ++ batches f qs
  unfolding batches
  batches-append f [] qs = refl
  batches-append f (p ∷ ps) qs = ground (arith, batches-append f ps qs)

  batches-if :
      {A : Type 0} (f : Publication t → Option A) (b : Bool) (p : Publication t)
      → batches f (publish_if t b p) ≡ only b (f p)
  unfolding batches publish_if
  batches-if f b p = ground arith

  only-asked :
      {A : Type 0} (start end : ℕ) (b : Bool) (c : Column A)
      → only b (some (batch start end c)) ≡ asked start end b c
  only-asked start end true c = refl
  only-asked start end false c = refl

  pub publish_all-Sends :
      (o : TableOptions) (start end : ℕ) (b : Buffers t)
      → Sends o start end b (publish_all t o start end b)
  unfolding publish_all
  publish_all-Sends o start end b = record {
    transactions_sent = simp (batches-append, batches-if, append-nil, only-asked);
    changes_sent = simp (batches-append, batches-if, append-nil, only-asked);
    modules_sent = simp (batches-append, batches-if, append-nil, only-asked);
    table_items_sent = simp (batches-append, batches-if, append-nil, only-asked);
    resources_sent = simp (batches-append, batches-if, append-nil, only-asked);
    blocks_sent = simp (batches-append, batches-if, append-nil, only-asked);
    events_sent = simp (batches-append, batches-if, append-nil, only-asked);
    signatures_sent = simp (batches-append, batches-if, append-nil, only-asked);
  }

module _ (t : Tables) (takes : Publication t → Bool) where
  pub publish_each-all :
      ((p : Publication t) → takes p ≡ true)
      → (ps : List (Publication t)) → publish_each t takes ps ≡ (ps, true)
  unfolding publish_each
  publish_each-all h [] = refl
  publish_each-all h (p ∷ ps) = rw (h p, publish_each-all h ps) refl

  -- All are sent, or those before the first that is not taken.
  pub publish_each-cases :
      (ps : List (Publication t))
      → (publish_each t takes ps ≡ (ps, true))
        ⊎ ((sent : List (Publication t)) × (p : Publication t) × (more : List (Publication t))
            × (publish_each t takes ps ≡ (sent, false))
            × (ps ≡ sent ++ p ∷ more)
            × (takes p ≡ false))
  unfolding publish_each
  publish_each-cases [] = inl refl
  publish_each-cases (p ∷ ps) = elim (Bool-cases (takes p)) [
    | inr refused ↦ inr ([], p, ps, rw refused refl, refl, refused)
    | inl taken ↦ elim (publish_each-cases ps) [
      | inl all ↦ inl (rw (taken, all) refl)
      | inr (sent, q, more, e, split, refused) ↦
          inr (p ∷ sent, q, more, rw (taken, e) refl, ap (λ l. p ∷ l) split, refused)
    ]
  ]
