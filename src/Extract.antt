-- ===== src/Extract.antt =====
-- The extraction of a range of versions: `extract_range`, with the errors and the publications of
-- aptos_config/mod.rs. The conversions of one transaction into records are an interface here.
pub mod Interface
pub mod Collect
pub mod Publish
pub mod Sent
pub mod Loop
pub mod Spec
pub mod Rows
pub mod Converting
pub mod Reach
pub mod Outcome
pub mod Toy
mod Tests
use aptos_etl.Prelude.{
  ℕ, suc, ◌+◌, ◌-◌, ◌%◌, ◌^◌, Bool, true, false, Option, none, some, List, [], Result, ok, err,
  panic, ltb, if◌then◌else◌,
}
use aptos_etl.Options.{TableOptions, new_all}
use aptos_etl.Extract.Interface.{
  Tables, ExtractionInteruptionError, stream_creation_error, StreamCreationError,
}
use aptos_etl.Extract.Collect.{Buffers, empty}
use aptos_etl.Extract.Publish.{Publication, publish_all, publish_each}
use aptos_etl.Extract.Loop.{Pull, LoopEnd, reached, exhausted, interrupted, panicked, pull_loop}

pub record Metrics : Type 0 where
  pub request_count : ℕ
  pub failed_request_count : ℕ

abbrev pub count_request : Option Metrics → Option Metrics
count_request none = none
count_request (some m) = some (record m { request_count = suc m.request_count })

abbrev pub count_failure : Option Metrics → Option Metrics
count_failure none = none
count_failure (some m) = some (record m { failed_request_count = suc m.failed_request_count })

-- What a call has done: its metrics, its publications, and its result.
pub record Run (t : Tables) : Type 0 where
  pub metrics : Option Metrics
  pub published : List (Publication t)
  pub result : Result (ExtractionInteruptionError t) (Unit {0})

-- `(end - start) as usize`, which wraps in the release profile
abbrev pub num_tx : ℕ → ℕ → ℕ
num_tx start end = (end + 2 ^ 64 - start) % 2 ^ 64

-- What is outside of the program for a call: `get_stream`, and whether a publisher takes a batch; if
-- not, it panics, and what it may have sent of the batch is left out.
pub record Server (t : Tables) : Type 0 where
  pub connect : ℕ → ℕ → Result StreamCreationError (List (Pull t))
  pub takes : Publication t → Bool

module _ (t : Tables) where
  abbrev pub of_published : Option Metrics → List (Publication t) × Bool → Run t
  of_published metrics (sent, all) = record {
    metrics = metrics;
    published = sent;
    result = if all then ok tt else panic;
  }

  unfoldable pub finish :
      (Publication t → Bool) → TableOptions → ℕ → ℕ → Option Metrics → LoopEnd t → Run t
  finish takes o start end metrics (reached b) =
      of_published metrics (publish_each t takes (publish_all t o start end b))
  finish takes o start end metrics exhausted = record {
    metrics = metrics;
    published = [];
    result = ok tt;
  }
  finish takes o start end metrics (interrupted e failed_on) = record {
    metrics = metrics;
    published = [];
    result = err (record {
      extracterror = e;
      start_version = start;
      end_version = end;
      failed_on = failed_on;
    });
  }
  finish takes o start end metrics panicked = record {
    metrics = metrics;
    published = [];
    result = panic;
  }

  -- A missing set of tables asks for all of them.
  abbrev pub tables_or_all : Option TableOptions → TableOptions
  tables_or_all none = new_all
  tables_or_all (some o) = o

  -- A capacity past the limit is a panic of `Vec::with_capacity`.
  unfoldable pub extract_range : Server t → ℕ → ℕ → Option Metrics → Option TableOptions → Run t
  extract_range server start end metrics table_options = elim (server.connect start end) [
    | ok pulls ↦
        let o = tables_or_all table_options in
        let m = count_request metrics in
        if ltb t.max_capacity (num_tx start end)
        then finish server.takes o start end m panicked
        else finish server.takes o start end m (pull_loop t o end start (empty t) pulls)
    | err e ↦
        finish server.takes (tables_or_all table_options) start end
          (count_failure (count_request metrics)) (interrupted (stream_creation_error e) start)
    | panic ↦
        finish server.takes (tables_or_all table_options) start end (count_request metrics) panicked
  ]
