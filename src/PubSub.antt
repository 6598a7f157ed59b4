-- ===== src/PubSub.antt =====
-- The publication of a batch of messages to a topic: output/google_pubsub.rs. The results that the
-- service gives are listed in the order in which the program asks for them.
pub mod Delivery
pub mod Single
mod Tests
use aptos_etl.Prelude.{
  ℕ, zero, suc, ◌+◌, Bool, true, false, List, [], ◌∷◌, ◌++◌, length, take, drop,
}

abbrev pub Message : Type 0
Message = List ℕ

-- What happens: a bulk of messages or a single one is handed over, the result of one is read, or the
-- program sleeps for some seconds.
pub data Event : Type 0 where
  publish_bulk : List Message → Event
  publish : Message → Event
  published failed : Message → Event
  slept : ℕ → Event

-- The events so far, and the results that are left; or the program still waits when they end.
pub data Run : Type 0 where
  done : List Event → List Bool → Run
  waiting : List Event → Run

abbrev pub after : List Event → Run → Run
after es (done more answers) = done (es ++ more) answers
after es (waiting more) = waiting (es ++ more)

infixl 5 ◌next◌
abbrev pub ◌next◌ : Run → (List Bool → Run) → Run
done es answers next f = after es (f answers)
waiting es next f = waiting es

-- The loop of `publish_with_backoff`, from a result that is to be read.
unfoldable pub retry : Message → ℕ → List Bool → Run
retry message backoff [] = waiting []
retry message backoff (true ∷ answers) = done (published message ∷ []) answers
retry message backoff (false ∷ answers) =
    after (failed message ∷ slept backoff ∷ publish message ∷ [])
      (retry message (backoff + 1) answers)

unfoldable pub publish_with_backoff : Message → List Bool → Run
publish_with_backoff message answers = after (publish message ∷ []) (retry message 0 answers)

-- The loop over the awaiters of a bulk, one for each message.
unfoldable pub await_all : List Message → List Bool → Run
await_all [] answers = done [] answers
await_all (m ∷ ms) [] = waiting []
await_all (m ∷ ms) (true ∷ answers) = after (published m ∷ []) (await_all ms answers)
await_all (m ∷ ms) (false ∷ answers) =
    after (failed m ∷ []) (publish_with_backoff m answers) next await_all ms

unfoldable pub publish_batch_with_backoff : List Message → List Bool → Run
publish_batch_with_backoff messages answers =
    after (publish_bulk messages ∷ []) (await_all messages answers)

-- `slice::chunks`: the fuel bounds the number of chunks.
abbrev pub chunks : ℕ → ℕ → List Message → List (List Message)
chunks zero size ms = []
chunks (suc fuel) size [] = []
chunks (suc fuel) size (m ∷ ms) = take size (m ∷ ms) ∷ chunks fuel size (drop size (m ∷ ms))

abbrev pub chunk_size : ℕ
chunk_size = 900

unfoldable pub publish_chunks : List (List Message) → List Bool → Run
publish_chunks [] answers = done [] answers
publish_chunks (chunk ∷ rest) answers =
    publish_batch_with_backoff chunk answers next publish_chunks rest

-- A chunk has a message, so there are no more chunks than messages.
unfoldable pub publish_batch : List Message → List Bool → Run
publish_batch msg_batch answers =
    publish_chunks (chunks (length msg_batch) chunk_size msg_batch) answers
