-- ===== src/Extract/Toy.antt =====
-- Toy tables, and streams of their transactions, for the tests.
use aptos_etl.Prelude.{
  ℕ, ◌+◌, ◌≡◌, refl, Option, none, some, List, [], ◌∷◌, ok, err, Bool, true, false, ◌==◌,
  if◌then◌else◌,
}
use aptos_etl.Prelude.Int.{pos}
use aptos_etl.Timestamp.{UnixTimestamp}
use aptos_etl.Extract.{Metrics, Server}
use aptos_etl.Extract.Publish.{Publication, signatures}
use aptos_etl.Extract.Interface.{Tables}
use aptos_etl.Extract.Loop.{Pull, response}
use aptos_etl.Extract.Converting.{Converts}

abbrev pub at_second : ℕ → UnixTimestamp
at_second n = record { seconds = pos n; nanos = 0 }

-- A transaction is its version; the transaction 13 cannot be extracted.
abbrev pub toy : Tables
toy = record {
  Tx = ℕ;
  TransactionExtraction = ℕ;
  Signature = ℕ;
  Block = ℕ;
  Transaction = ℕ;
  Event = ℕ;
  Change = ℕ;
  Resource = ℕ;
  Module = ℕ;
  TableItem = ℕ;
  TxExtractionError = ℕ;
  SigProcessError = ℕ;
  BlockError = ℕ;
  TxError = ℕ;
  EventError = ℕ;
  ChangeError = ℕ;
  max_capacity = 1000;
  version = λ tx. tx;
  try_from = λ tx. if tx == 13 then err tx else ok tx;
  get_signatures = λ x. ok (some (x ∷ x ∷ []));
  get_block = λ x. ok none;
  get_transactions = λ x signatures. ok x;
  get_events = λ x. ok (some ((x + 100) ∷ []));
  get_changes = λ x. ok ((x + 200) ∷ [], [], (x + 300) ∷ [], []);
  signature_time = at_second;
  block_time = at_second;
  transaction_time = at_second;
  event_time = at_second;
  change_time = at_second;
  resource_time = at_second;
  module_time = at_second;
  table_item_time = at_second;
}

abbrev pub two_responses : List (Pull toy)
two_responses = response (5 ∷ 6 ∷ []) ∷ response [] ∷ response (7 ∷ []) ∷ []

abbrev pub cut_short : List (Pull toy)
cut_short = response (5 ∷ 6 ∷ []) ∷ []

abbrev pub with_thirteen : List (Pull toy)
with_thirteen = response (12 ∷ 13 ∷ 14 ∷ []) ∷ []

-- A service with these answers, and publishers that take all but the batch of signatures, or all.
abbrev pub serve : List (Pull toy) → Server toy
serve pulls = record { connect = λ start end. ok pulls; takes = λ p. true }

abbrev pub refuses_signatures : Publication toy → Bool
refuses_signatures (signatures b) = false
refuses_signatures _ = true

abbrev pub serve_badly : List (Pull toy) → Server toy
serve_badly pulls = record { connect = λ start end. ok pulls; takes = refuses_signatures }

abbrev pub counters : Option Metrics
counters = some (record { request_count = 3; failed_request_count = 1 })

abbrev pub converts : (tx : ℕ) → toy.try_from tx ≡ ok tx → Converts toy tx
converts tx h = record {
  extraction = tx;
  signatures = some (tx ∷ tx ∷ []);
  block = none;
  transaction = tx;
  events = some ((tx + 100) ∷ []);
  changes = ((tx + 200) ∷ [], [], (tx + 300) ∷ [], []);
  extracted = h;
  signatures_found = refl;
  block_found = refl;
  transaction_found = refl;
  events_found = refl;
  changes_found = refl;
}
