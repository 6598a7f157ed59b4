-- ===== src/Subscribe/Tests.antt =====
-- The subscription loop over toy tables.
use aptos_etl.Prelude.{ℕ, true, false, Option, none, some, List, [], ◌∷◌}
use aptos_etl.Options.{IndexingRange}
use aptos_etl.Extract.Toy.{toy, two_responses, with_thirteen, serve, counters}
use aptos_etl.Subscribe.{Message, messages, pull_failed, Round, subscribe_and_extract}
use aptos_etl.Subscribe.Settled.{Settled, subscribe_and_extract-Settled}
use aptos_etl.Subscribe.Handled.{Handles, subscribe_and_extract-Handles}

-- Two bytes are the ends of a range.
abbrev decode : List ℕ → Option IndexingRange
decode (a ∷ b ∷ []) = some (record { start = a; end = b; table = none })
decode bytes = none

abbrev good_message : Message
good_message = record { bytes = 5 ∷ 7 ∷ []; ack = true; nack = true }

abbrev bad_message : Message
bad_message = record { bytes = 12 ∷ 14 ∷ []; ack = true; nack = false }

-- A failed pull, a range that succeeds, one that fails, and one that is never taken.
abbrev rounds : List (Round toy)
rounds =
    record { terminated = false; pull = pull_failed; server = serve two_responses }
    ∷ record {
      terminated = false;
      pull = messages (good_message ∷ []);
      server = serve two_responses;
    }
    ∷ record {
      terminated = false;
      pull = messages (bad_message ∷ []);
      server = serve with_thirteen;
    }
    ∷ record {
      terminated = true;
      pull = messages (good_message ∷ []);
      server = serve two_responses;
    }
    ∷ []

subscribe_and_extract-Settled_example :
    Settled toy decode counters rounds
      (subscribe_and_extract toy decode counters rounds).events
      (subscribe_and_extract toy decode counters rounds).ending
      (subscribe_and_extract toy decode counters rounds).metrics
subscribe_and_extract-Settled_example = subscribe_and_extract-Settled toy decode counters rounds

subscribe_and_extract-Handles_example :
    Handles toy
      (subscribe_and_extract toy decode counters rounds).events
      (subscribe_and_extract toy decode counters rounds).ending
      (good_message ∷ bad_message ∷ [])
subscribe_and_extract-Handles_example = subscribe_and_extract-Handles toy decode counters rounds
