-- ===== src/Subscribe/Steps.antt =====
-- One round of the subscription loop, branch by branch.
use aptos_etl.Prelude.{
  ℕ, ◌≡◌, ◌≢◌, ap, true, false, Option, none, some, List, [], ◌∷◌, ◌++◌, map, Result, ok, err,
  panic, arith, inl, inr,
}
use aptos_etl.Options.{IndexingRange}
use aptos_etl.Extract.{Metrics, Server, Run}
use aptos_etl.Extract.Interface.{Tables, ExtractionInteruptionError}
use aptos_etl.Extract.Outcome.{published-failed}
use aptos_etl.Subscribe.{
  Message, Round, Event, published, acked, nacked, shut_down, panicked, returned_error, after,
  message_of, run_range, subscribe_and_extract,
}

module _ (t : Tables) (decode : List ℕ → Option IndexingRange) where
  module _ (metrics : Option Metrics) (r : Round t) (rounds : List (Round t)) where
    pub step-stopped :
        r.terminated ≡ true
        → subscribe_and_extract t decode metrics (r ∷ rounds)
          ≡ record { metrics = metrics; events = []; ending = shut_down }
    unfolding subscribe_and_extract
    step-stopped stop = ground arith

    pub step-quiet :
        r.terminated ≡ false
        → message_of r.pull ≡ none
        → subscribe_and_extract t decode metrics (r ∷ rounds)
          ≡ subscribe_and_extract t decode metrics rounds
    unfolding subscribe_and_extract
    step-quiet more quiet = ground arith

    module _ (m : Message) (more : r.terminated ≡ false) (found : message_of r.pull ≡ some m) where
      pub step-undecoded :
          decode m.bytes ≡ none
          → subscribe_and_extract t decode metrics (r ∷ rounds)
            ≡ record { metrics = metrics; events = []; ending = panicked }
      unfolding subscribe_and_extract
      step-undecoded bad = ground (arith, more, found, bad)

      module _ (range : IndexingRange) (good : decode m.bytes ≡ some range) where
        abbrev pub range_run : Run t
        range_run = run_range t decode r.server metrics range

        abbrev pub sent : List (Event t)
        sent = map published range_run.published

        pub step-acked :
            range_run.result ≡ ok tt
            → subscribe_and_extract t decode metrics (r ∷ rounds)
              ≡ after t
                  (sent ++ acked m ∷ [])
                  (subscribe_and_extract t decode range_run.metrics rounds)
        unfolding subscribe_and_extract
        step-acked e = ground (arith, more, found, good, e)

        pub step-nacked :
            {x : ExtractionInteruptionError t}
            → range_run.result ≡ err x
            → subscribe_and_extract t decode metrics (r ∷ rounds) ≡ record {
              metrics = range_run.metrics;
              events = sent ++ nacked m ∷ [];
              ending = returned_error x;
            }
        unfolding subscribe_and_extract
        step-nacked e = ground (arith, more, found, good, e)

        pub step-panicked :
            range_run.result ≡ panic
            → subscribe_and_extract t decode metrics (r ∷ rounds)
              ≡ record { metrics = range_run.metrics; events = sent; ending = panicked }
        unfolding subscribe_and_extract
        step-panicked e = ground (arith, more, found, good, e)

  not_ok :
      {r : Result (ExtractionInteruptionError t) (Unit {0})} {x : ExtractionInteruptionError t}
      → r ≡ err x
      → r ≢ ok tt
  not_ok e h = cc

  not_panic :
      {r : Result (ExtractionInteruptionError t) (Unit {0})} {x : ExtractionInteruptionError t}
      → r ≡ err x
      → r ≢ panic
  not_panic e h = cc

  -- A call that returns an error has sent nothing.
  pub nothing_sent :
      (server : Server t) (metrics : Option Metrics) (range : IndexingRange)
      {x : ExtractionInteruptionError t}
      → (run_range t decode server metrics range).result ≡ err x
      → map {B = Event t} published (run_range t decode server metrics range).published ≡ []
  nothing_sent server metrics range h =
      elim (published-failed t server range.start range.end metrics range.table (not_ok h)) [
        | inl none_sent ↦ ap (map {B = Event t} published) none_sent
        | inr (stopped, broken) ↦ absurd (not_panic h stopped)
      ]
