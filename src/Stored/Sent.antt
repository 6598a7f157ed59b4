-- ===== src/Stored/Sent.antt =====
-- What `publish_record_struct` sends to each table's publisher when it has no name.
use aptos_etl.Prelude.{◌≡◌, refl, Option, none, some, List, [], ◌∷◌, map, append-nil}
use aptos_etl.Timestamp.{UnixTimestamp}
use aptos_etl.Extract.Interface.{Tables}
use aptos_etl.Extract.Publish.{Batch, Publication}
use aptos_etl.Extract.Sent.{
  batches, batches-append, to_transactions, to_changes, to_modules, to_table_items, to_resources,
  to_blocks, to_events, to_signatures,
}
use aptos_etl.Records.{Records}
use aptos_etl.Stored.{
  Answers, Codec, Build, with_names, without_names, publish_some, publish_record_struct,
}

-- One batch with all the rows and the time of each, if there are rows; a build with names has none.
abbrev pub unnamed : {A : Type 0} → Build → (A → UnixTimestamp) → List A → List (Batch A)
unnamed with_names time rows = []
unnamed without_names time [] = []
unnamed without_names time (row ∷ rows) =
    record { records = row ∷ rows; name = none; timestamps = map time (row ∷ rows) } ∷ []

module _ (t : Tables) where
  -- Each table is sent its rows, and no more.
  pub record SendsRows (build : Build) (r : Records t) (ps : List (Publication t)) : Type 0 where
    pub transactions_sent :
        batches (to_transactions t) ps ≡ unnamed build t.transaction_time r.transactions
    pub changes_sent : batches (to_changes t) ps ≡ unnamed build t.change_time r.changes
    pub modules_sent : batches (to_modules t) ps ≡ unnamed build t.module_time r.modules
    pub table_items_sent :
        batches (to_table_items t) ps ≡ unnamed build t.table_item_time r.table_items
    pub resources_sent : batches (to_resources t) ps ≡ unnamed build t.resource_time r.resources
    pub blocks_sent : batches (to_blocks t) ps ≡ unnamed build t.block_time r.blocks
    pub events_sent : batches (to_events t) ps ≡ unnamed build t.event_time r.events
    pub signatures_sent : batches (to_signatures t) ps ≡ unnamed build t.signature_time r.signatures

  -- The batches of one publisher among those made for some rows.
  abbrev picked :
      {A B : Type 0} → Build → (A → UnixTimestamp) → (Batch A → Option B) → List A → List B
  picked with_names time f rows = []
  picked without_names time f [] = []
  picked without_names time f (row ∷ rows) =
      elim (f (record { records = row ∷ rows; name = none; timestamps = map time (row ∷ rows) })) [
        | none ↦ []
        | some b ↦ b ∷ []
      ]

  module _ (c : Codec t) (w : Answers) where
    batches-some :
        {A B : Type 0} (f : Publication t → Option B) (build : Build) (time : A → UnixTimestamp)
        (send : Batch A → Publication t) (rows : List A)
        → batches f (publish_some t c w build time send none rows)
          ≡ picked build time (λ b. f (send b)) rows
    unfolding batches
    batches-some f with_names time send [] = refl
    batches-some f with_names time send (row ∷ rows) = refl
    batches-some f without_names time send [] = refl
    batches-some f without_names time send (row ∷ rows) = refl

  picked-none :
      {A B : Type 0} (build : Build) (time : A → UnixTimestamp) (rows : List A)
      → picked {A = A} {B = B} build time (λ b. none) rows ≡ []
  picked-none with_names time rows = refl
  picked-none without_names time [] = refl
  picked-none without_names time (row ∷ rows) = refl

  picked-some :
      {A : Type 0} (build : Build) (time : A → UnixTimestamp) (rows : List A)
      → picked build time (λ b. some b) rows ≡ unnamed build time rows
  picked-some with_names time rows = refl
  picked-some without_names time [] = refl
  picked-some without_names time (row ∷ rows) = refl

  module _ (c : Codec t) (w : Answers) where
    pub publish_record_struct-SendsRows :
        (build : Build) (r : Records t)
        → SendsRows build r (publish_record_struct t c w build r none)
    unfolding publish_record_struct
    publish_record_struct-SendsRows build r = record {
      transactions_sent = simp (batches-append, batches-some, picked-none, picked-some, append-nil);
      changes_sent = simp (batches-append, batches-some, picked-none, picked-some, append-nil);
      modules_sent = simp (batches-append, batches-some, picked-none, picked-some, append-nil);
      table_items_sent = simp (batches-append, batches-some, picked-none, picked-some, append-nil);
      resources_sent = simp (batches-append, batches-some, picked-none, picked-some, append-nil);
      blocks_sent = simp (batches-append, batches-some, picked-none, picked-some, append-nil);
      events_sent = simp (batches-append, batches-some, picked-none, picked-some, append-nil);
      signatures_sent = simp (batches-append, batches-some, picked-none, picked-some, append-nil);
    }
