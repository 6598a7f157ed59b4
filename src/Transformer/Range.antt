-- ===== src/Transformer/Range.antt =====
-- The extraction of a range, over the conversions of all tables: `extract_range` of mod.rs with the
-- functions of processing.
use aptos_etl.Prelude.{
  ℕ, suc, ◌+◌, ◌≤◌, ◌≡◌, ◌⊎◌, inl, inr, Option, List, [], ◌∷◌, map, All, ok, true,
}
use aptos_etl.Options.{TableOptions}
use aptos_etl.Transaction as Transaction
use aptos_etl.Service.{Service, protos}
use aptos_etl.Extract.{Server, Metrics, count_request, tables_or_all, num_tx, extract_range}
use aptos_etl.Extract.Publish.{Publication}
use aptos_etl.Extract.Sent.{Sends}
use aptos_etl.Extract.Loop.{Pull}
use aptos_etl.Extract.Spec.{delivered, StartsWell}
use aptos_etl.Extract.Rows.{collected}
use aptos_etl.Extract.Converting.{Converts}
use aptos_etl.Extract.Reach.{versions_from}
use aptos_etl.Extract.Outcome.{extract_range_complete}
use aptos_etl.Transformer.{tables}
use aptos_etl.Transformer.Users.{ReadableUser, user_Converts}
use aptos_etl.Transformer.Quiet.{ReadableQuiet, quiet_Converts}

-- A user's transaction, or one without a request, that can be read.
abbrev pub Readable : (s : Service) → Transaction.Transaction (protos s) → Type 0
Readable s m = ReadableUser s m ⊎ ReadableQuiet s m

module _ (s : Service) (capacity : ℕ) where
  Readable-Converts :
      (m : Transaction.Transaction (protos s)) → Readable s m → Converts (tables s capacity) m
  Readable-Converts m (inl q) = user_Converts s m q capacity
  Readable-Converts m (inr q) = quiet_Converts s m q capacity

  all_convert :
      (ms : List (Transaction.Transaction (protos s)))
      → All (Readable s) ms
      → All (Converts (tables s capacity)) ms
  all_convert [] h = tt
  all_convert (m ∷ ms) h = (Readable-Converts m h.0, all_convert ms h.1)

  -- A range whose versions the service delivers in order and whose transactions can all be read, is
  -- extracted completely by the conversions of the program itself, if no publisher panics: the call
  -- succeeds, and each table that is asked for is sent the rows of all the transactions.
  -- A user's transaction can be read if it is extracted and its timestamp has a text, its sender is an
  -- address, its signature has records and each signer of their own is printed, its payload is accepted
  -- and printed, its expiration has a text or is out of range, and its events and changes can be read;
  -- of one without a request, other than the genesis, only the timestamp, the events, the changes and a
  -- block's proposer matter. The first response of a range of one version is not empty, and the number
  -- of versions is a capacity that a vector can have.
  pub extract_range-Readable :
      (server : Server (tables s capacity)) (start end : ℕ) (metrics : Option Metrics)
      (table_options : Option TableOptions) (pulls : List (Pull (tables s capacity))) (n : ℕ)
      → server.connect start end ≡ ok pulls
      → ((p : Publication (tables s capacity)) → server.takes p ≡ true)
      → num_tx start end ≤ capacity
      → StartsWell (tables s capacity) start end pulls
      → end ≡ start + n
      → map (λ m. m.version) (delivered (tables s capacity) pulls) ≡ versions_from start (suc n)
      → All (Readable s) (delivered (tables s capacity) pulls)
      → (xs : List (Transaction.TransactionExtraction (protos s))) × (map
            (Transaction.try_from (protos s))
            (delivered (tables s capacity) pulls)
          ≡ map ok xs)
        × ((extract_range (tables s capacity) server start end metrics table_options).metrics
            ≡ count_request metrics)
        × ((extract_range (tables s capacity) server start end metrics table_options).result
            ≡ ok tt)
        × Sends
            (tables s capacity)
            (tables_or_all (tables s capacity) table_options)
            start
            end
            (collected (tables s capacity) (tables_or_all (tables s capacity) table_options) xs)
            (extract_range (tables s capacity) server start end metrics table_options).published
  extract_range-Readable server start end metrics table_options pulls n e takes small well last
        versions readable =
      extract_range_complete (tables s capacity) server start end metrics table_options pulls n e
        takes small well last versions (all_convert (delivered (tables s capacity) pulls) readable)
