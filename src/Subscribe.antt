-- ===== src/Subscribe.antt =====
-- The loop that takes ranges from a subscription: `subscribe_and_extract` of aptos_config/mod.rs.
-- The queue's and the server's answers, and the signal handler's flag, are given round by round.
pub mod Steps
pub mod Settled
pub mod Handled
mod Tests
use aptos_etl.Prelude.{
  ℕ, Bool, true, false, Option, none, some, List, [], ◌∷◌, ◌++◌, map, ok, err, panic, Result,
}
use aptos_etl.Options.{IndexingRange}
use aptos_etl.Extract.{Metrics, Server, Run, extract_range}
use aptos_etl.Extract.Interface.{Tables, ExtractionInteruptionError, StreamCreationError}
use aptos_etl.Extract.Publish.{Publication}
use aptos_etl.Extract.Loop.{Pull}

-- The bytes of a message, and whether its queue takes an ack and a nack of it.
pub record Message : Type 0 where
  pub bytes : List ℕ
  pub ack : Bool
  pub nack : Bool

-- What `pull` returns.
pub data Pulled : Type 0 where
  messages : List Message → Pulled
  pull_failed : Pulled

module _ (t : Tables) where
  -- One round of the loop: the flag that it reads, and the answers that it would get.
  pub record Round : Type 0 where
    pub terminated : Bool
    pub pull : Pulled
    pub server : Server t

  pub data Event : Type 0 where
    published : Publication t → Event
    acked : Message → Event
    nacked : Message → Event

  -- How a session ends: by the flag, by an error, by a panic, or not yet.
  pub data Ending : Type 0 where
    shut_down : Ending
    returned_error : ExtractionInteruptionError t → Ending
    panicked : Ending
    running : Ending

  pub record Session : Type 0 where
    pub metrics : Option Metrics
    pub events : List Event
    pub ending : Ending

  abbrev pub after : List Event → Session → Session
  after events s = record s { events = events ++ s.events }

-- `Vec::pop`
abbrev pub pop : List Message → Option Message
pop [] = none
pop (m ∷ []) = some m
pop (m ∷ m' ∷ ms) = pop (m' ∷ ms)

-- The message of a round, if it has one; otherwise the loop goes on.
abbrev pub message_of : Pulled → Option Message
message_of (messages ms) = pop ms
message_of pull_failed = none

-- `decode` is `IndexingRange::decode`.
module _ (t : Tables) (decode : List ℕ → Option IndexingRange) where
  -- The call for a range.
  abbrev pub run_range : Server t → Option Metrics → IndexingRange → Run t
  run_range server metrics range = extract_range t server range.start range.end metrics range.table

  -- A failed ack or nack is logged, and makes no other difference.
  unfoldable pub subscribe_and_extract : Option Metrics → List (Round t) → Session t
  subscribe_and_extract metrics [] = record { metrics = metrics; events = []; ending = running }
  subscribe_and_extract metrics (r ∷ rounds) = elim r.terminated [
    | true ↦ record { metrics = metrics; events = []; ending = shut_down }
    | false ↦ elim (message_of r.pull) [
      | none ↦ subscribe_and_extract metrics rounds
      | some m ↦ elim (decode m.bytes) [
        | none ↦ record { metrics = metrics; events = []; ending = panicked }
        | some range ↦
            let run = run_range r.server metrics range in
            let sent = map published run.published in
            elim run.result [
              | ok u ↦ after t (sent ++ acked m ∷ []) (subscribe_and_extract run.metrics rounds)
              | err e ↦ record {
                metrics = run.metrics;
                events = sent ++ nacked m ∷ [];
                ending = returned_error e;
              }
              | panic ↦ record { metrics = run.metrics; events = sent; ending = panicked }
            ]
      ]
    ]
  ]
